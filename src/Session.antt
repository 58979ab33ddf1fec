-- ===== src/Session.antt =====
-- The connection of internal/opcua/client.go and internal/opcua/session_recovery.go: connect,
-- disconnect, recovery from a stale session, the health check, and the sending of a write.
-- gopcua, the network and the server are a world `W` that answers through the interface `Net`.
-- Each function here runs under `connectMu` or reads one snapshot; what other callers do in between
-- is a sequence of such calls (Session/History).
pub mod History
pub mod Recovery
pub mod Writes
use opcua_mcp.Prelude.{
  ℕ, ◌+◌, ◌%◌, ◌^◌, String, Bool, true, false, not, ◌&&◌, ◌||◌, List, [], ◌∷◌, Option, none, some,
  nat_beq, if◌then◌else◌,
}
use opcua_mcp.Prelude.Result.{Result, ok, err}
use opcua_mcp.Value.{Value}

-- An error and the chain that `%w` builds.
pub data Error : Type 0 where
  message : String → Error
  status : ℕ → Error
  wrap : String → Error → Error

-- ua.StatusBadSessionIDInvalid and ua.StatusBadServerNotConnected
abbrev pub bad_session_id_invalid : ℕ
bad_session_id_invalid = 0x80250000

abbrev pub bad_server_not_connected : ℕ
bad_server_not_connected = 0x800D0000

abbrev pub is_stale_session_error : Error → Bool
is_stale_session_error (message s) = false
is_stale_session_error (status n) =
    nat_beq n bad_session_id_invalid || nat_beq n bad_server_not_connected
is_stale_session_error (wrap s e) = is_stale_session_error e

pub data ConnState : Type 0 where
  closed connected connecting disconnected reconnecting : ConnState

pub record WriteRequest : Type 0 where
  pub node_id : String
  pub value : Value

-- What the client calls: the dialer, the methods of a gopcua connection (named by a number), and
-- the registered reconnect handler.
pub record Net (W : Type 0) : Type 0 where
  pub dial : ℕ → W → Result Error ℕ × W
  pub close : ℕ → W → Option Error × W
  pub state : ℕ → W → ConnState
  pub read_status : ℕ → W → Result Error (List ℕ) × W
  pub write : ℕ → WriteRequest → W → Result Error (List ℕ) × W
  pub on_reconnect : W → W

pub record Client : Type 0 where
  pub client : Option ℕ
  pub is_up : Bool  -- the field `connected`
  pub has_handler : Bool  -- `onReconnect` is not nil
  pub conn_gen : ℕ  -- uint64
  pub client_gen : ℕ  -- uint64

unfoldable pub new_client : Client
new_client = record {
  client = none;
  is_up = false;
  has_handler = false;
  conn_gen = 0;
  client_gen = 0;
}

abbrev pub next_gen : ℕ → ℕ
next_gen g = (g + 1) % 2 ^ 64

abbrev is_some {ℓ} : {A : Type ℓ} → Option A → Bool
is_some none = false
is_some (some a) = true

abbrev pub is_connected : Client → Bool
is_connected c = c.is_up && is_some c.client

unfoldable pub set_reconnect_handler : Bool → Client → Client
set_reconnect_handler h c = record c { has_handler = h }

-- `stateForwarder(gen, ch)` passes a state on.
unfoldable pub forwards : Client → ℕ → Bool
forwards c gen = nat_beq c.conn_gen gen

-- The end of a method: its error, the client and the world.
pub record Outcome (W : Type 0) : Type 0 where
  pub error : Option Error
  pub after : Client
  pub world : W

-- `c.snapshot()`, for a caller that needs a live connection.
abbrev pub snapshot : Client → Option ℕ
snapshot c = if c.is_up then c.client else none

pub data ConnectOutcome : Type 0 where
  already_healthy newly_connected reconnected : ConnectOutcome

-- A read-only operation: `fn` of `withSessionRecovery`, on the client as it then is.
abbrev pub Operation : Type 0 → Type 0 → Type 0
Operation W A = Client → W → Result Error A × W

module _ {W : Type 0} (net : Net W) where
  open net use {dial, close, state, read_status, write, on_reconnect}

  abbrev close_retired : Option ℕ → W → W
  close_retired none w = w
  close_retired (some k) w = (close k w).1

  abbrev install : Client → ℕ → Result Error ℕ × W → Outcome W
  install c gen (err e, w) = record {
    error = some e;
    after = record c { client = none; is_up = false; conn_gen = gen; client_gen = gen };
    world = close_retired c.client w;
  }
  install c gen (ok k, w) = record {
    error = none;
    after = record c { client = some k; is_up = true; conn_gen = gen; client_gen = gen };
    world = close_retired c.client w;
  }

  unfoldable pub connect_locked : Client → W → Outcome W
  connect_locked c w = let gen = next_gen c.conn_gen in install c gen (dial gen w)

  unfoldable pub connect : Client → W → Outcome W
  unfolding connect_locked
  connect c w = connect_locked c w

  abbrev close_live : Option ℕ → Client → W → Outcome W
  close_live none c w = record { error = none; after = c; world = w }
  close_live (some k) c w = record { error = (close k w).0; after = c; world = (close k w).1 }

  unfoldable pub disconnect : Client → W → Outcome W
  disconnect c w =
      let gen = next_gen c.conn_gen in
      close_live (snapshot c) (record c { is_up = false; conn_gen = gen; client_gen = gen }) w

  -- The end of `recoverConnection`: the handler runs if the connection was replaced.
  abbrev notify : Outcome W → Outcome W
  notify o = elim o.error [
    | some e ↦ record o { error = some (wrap "reconnect" e) }
    | none ↦ record o { world = if o.after.has_handler then on_reconnect o.world else o.world }
  ]

  unfoldable pub recover_connection : ℕ → Client → W → Outcome W
  unfolding connect_locked
  recover_connection gen c w =
      if nat_beq c.client_gen gen
      then (if is_connected c
          then notify (connect_locked c w)
          else record { error = some (message "client is not connected"); after = c; world = w })
      else record { error = none; after = c; world = w }

  unfoldable pub with_session_recovery :
      {A : Type 0} → Operation W A → Client → W → Result Error A × Client × W
  unfolding recover_connection
  with_session_recovery fn c w =
      let first = fn c w in
      elim first.0 [
        | ok a ↦ (ok a, c, first.1)
        | err e ↦
            if is_stale_session_error e
            then (let o = recover_connection c.client_gen c first.1 in
                let again = fn o.after o.world in
                elim o.error [
                  | some e' ↦ (err (wrap "session recovery failed" e), o.after, o.world)
                  | none ↦ (again.0, o.after, again.1)
                ])
            else (err e, c, first.1)
      ]

  -- The results of a write, if the server answered.
  abbrev pub write_status : List ℕ → Option Error
  write_status [] = none
  write_status (s ∷ ss) = if nat_beq s 0 then none else some (message "write failed")

  abbrev pub after_write : ℕ → Client → Result Error (List ℕ) × W → Outcome W
  after_write gen c (ok ss, w) = record { error = write_status ss; after = c; world = w }
  after_write gen c (err e, w) =
      if is_stale_session_error e
      then (let o = recover_connection gen c w in
          record o { error = some (wrap "the write was not applied" e) })
      else record { error = some (wrap "failed to write" e); after = c; world = w }

  unfoldable pub send_write : WriteRequest → Client → W → Outcome W
  unfolding recover_connection
  send_write req c w = elim (snapshot c) [
    | none ↦ record { error = some (message "client is not connected"); after = c; world = w }
    | some k ↦ after_write c.client_gen c (write k req w)
  ]

  abbrev is_live : ConnState → Bool
  is_live connected = true
  is_live _ = false

  abbrev probe_result : Result Error (List ℕ) → Option Error
  probe_result (err e) = some (wrap "probe read failed" e)
  probe_result (ok []) = some (message "probe read returned no results")
  probe_result (ok (s ∷ ss)) = if nat_beq s 0 then none else some (message "probe read returned")

  unfoldable pub probe : ℕ → W → Option Error × W
  probe k w =
      if is_live (state k w)
      then (probe_result (read_status k w).0, (read_status k w).1)
      else (some (message "connection state"), w)

  unfoldable pub ensure_connected : Client → W → ConnectOutcome × Outcome W
  unfolding connect probe recover_connection
  ensure_connected c w = elim (snapshot c) [
    | none ↦ (newly_connected, connect c w)
    | some k ↦
        let p = probe k w in
        elim p.0 [
          | none ↦ (already_healthy, record { error = none; after = c; world = p.1 })
          | some reason ↦ (reconnected, recover_connection c.client_gen c p.1)
        ]
  ]
