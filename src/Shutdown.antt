-- ===== src/Shutdown.antt =====
-- The end of the server: `Start`'s choice of a transport, `serveStdio` and `shutdown` of
-- internal/mcp/server.go. What a step does to the rest of the program is the interface `Steps`.
use opcua_mcp.Prelude.{
  ℕ, zero, suc, String, Bool, true, false, List, [], Option, ◌==◌, string_eq, if◌then◌else◌, ◌≡◌,
  refl, ap, ◌∙◌,
}
use opcua_mcp.Prelude.Int.{ℤ}
use opcua_mcp.Prelude.Result.{Result, ok, err}
use opcua_mcp.Session.{Error, message}
use opcua_mcp.Store.Types.{ValueEntry}
use opcua_mcp.Cache.{Backend}
use opcua_mcp.Subscription.Notify.{
  PumpEvent, AcceptsLast, KeepsValues, pump, last_entry, then_got, pump-last_entry,
}

pub data Transport : Type 0 where
  stdio http : Transport

-- The switch at the end of `Start`.
abbrev pub transport_of : String → Result Error Transport
transport_of s =
    if s == "stdio"
    then ok stdio
    else if s == "http"
    then ok http
    else err (message "unsupported transport mode")

-- The fields of `Server` that `shutdown` tests: each is whether the field is not nil.
pub record Handles : Type 0 where
  pub subscription_manager : Bool
  pub http_server : Bool
  pub store : Bool
  pub telemetry_cancel : Bool

-- The steps of `shutdown`; their errors are only logged.
pub record Steps (W : Type 0) : Type 0 where
  pub stop_discovery : W → W
  pub clear_handler : W → W  -- SetReconnectHandler(nil)
  pub stop_watcher : W → W
  pub shutdown_http : W → W
  pub disconnect : W → W
  pub close_store : W → W
  pub cancel_telemetry : W → W
  pub close_telemetry : W → W

abbrev pub when : {W : Type 0} → Bool → (W → W) → W → W
when c step w = if c then step w else w

-- What the subscriptions' pump still has to do: the events that it selects before it selects the
-- stop, with `BatchMaxItems` and its batch.
pub record Pending : Type 0 where
  pub max_items : ℤ
  pub events : List PumpEvent

-- Steps that leave the cached values as they are.
pub record KeepValues {W : Type 0} (b : Backend W) (st : Steps W) : Type 0 where
  pub discovery :
      (n : String) (w : W) → (b.get_value n (st.stop_discovery w)).0 ≡ (b.get_value n w).0
  pub handler : (n : String) (w : W) → (b.get_value n (st.clear_handler w)).0 ≡ (b.get_value n w).0
  pub watcher : (n : String) (w : W) → (b.get_value n (st.stop_watcher w)).0 ≡ (b.get_value n w).0
  pub connection : (n : String) (w : W) → (b.get_value n (st.disconnect w)).0 ≡ (b.get_value n w).0

module _ {W : Type 0} (b : Backend W) (st : Steps W) (h : Handles) (left : Pending) where
  -- `subscriptionManager.Stop`: no handler for a reconnect, the pump is joined, the
  -- watcher is stopped.
  abbrev pub stop_manager : W → W
  unfolding pump
  stop_manager w = st.stop_watcher (pump b left.max_items left.events [] (st.clear_handler w))

  -- The steps up to the store's end.
  unfoldable pub before_close : W → W
  unfolding pump
  before_close w = st.disconnect (
      when h.http_server st.shutdown_http
        (when h.subscription_manager stop_manager (st.stop_discovery w)))

  unfoldable pub shutdown_steps : W → W
  unfolding before_close
  shutdown_steps w =
      st.close_telemetry
        (when h.telemetry_cancel st.cancel_telemetry (when h.store st.close_store (before_close w)))

  -- `shutdown`, with `shutdownOnce`: whether it has run.
  unfoldable pub shutdown : Bool → W → Bool × W
  unfolding shutdown_steps
  shutdown done w = if done then (true, w) else (true, shutdown_steps w)

  -- The triggers, a signal or the end of the standard input, one after the other.
  unfoldable pub shutdowns : ℕ → Bool → W → Bool × W
  unfolding shutdown
  shutdowns zero done w = (done, w)
  shutdowns (suc k) done w = let s = shutdown done w in shutdowns k s.0 s.1

  -- `serveStdio`: `listen` serves until the standard input ends.
  unfoldable pub serve_stdio : (W → Option Error × W) → Bool → W → Option Error × Bool × W
  unfolding shutdown
  serve_stdio listen done w = let l = listen w in let s = shutdown done l.1 in (l.0, s.0, s.1)

  shutdowns_done : (k : ℕ) (w : W) → shutdowns k true w ≡ (true, w)
  unfolding shutdowns shutdown
  shutdowns_done zero w = refl
  shutdowns_done (suc k) w = shutdowns_done k w

  -- With the stdio transport, however many triggers there are, the shutdown runs once: at the
  -- moment the store is closed, and then only, it has for every node the last value that the
  -- subscriptions' pump selected for it, if the store accepts that value, or what it had for a node
  -- without one; the steps that follow are the store's end and the telemetry's. (The hypotheses: an
  -- accepted put is seen at its node, and no put at another; the other steps up to there change no
  -- value.)
  pub shutdowns-last_entry :
      (Accepts : String → ValueEntry → Type 0)
      → KeepsValues b Accepts
      → KeepValues b st
      → h.subscription_manager ≡ true
      → h.http_server ≡ false
      → h.store ≡ true
      → (n : String) (k : ℕ) (w : W) → AcceptsLast Accepts n (last_entry b n left.events)
      → (shutdowns (suc k) false w ≡ (
        true,
        st.close_telemetry
            (when h.telemetry_cancel st.cancel_telemetry (st.close_store (before_close w))),
      ))
        × ((b.get_value n (before_close w)).0
            ≡ then_got b (last_entry b n left.events) (b.get_value n w).0)
  unfolding shutdowns shutdown shutdown_steps before_close
  shutdowns-last_entry Accepts puts keep managed no_http stored n k w a = (
    shutdowns_done k (shutdown_steps w)
        ∙ ap
            (λ c. (
              true,
              st.close_telemetry (
                  when h.telemetry_cancel st.cancel_telemetry
                    (when c st.close_store (before_close w))),
            ))
            stored,
    rw (before_close, managed, no_http)
        (keep.connection n _
          ∙ keep.watcher n _
          ∙ pump-last_entry b Accepts puts n left.max_items left.events _ a
          ∙ ap (then_got b (last_entry b n left.events)) (keep.handler n _ ∙ keep.discovery n w)),
  )
