-- ===== src/Subscription.antt =====
-- internal/opcua/subscription.go: the subscription manager. Each method runs under `mu`; gopcua's
-- subscriptions, the server and the store are a world `W` behind the interface `Hub`.
pub mod State
pub mod Count
pub mod Groups
pub mod Results
pub mod History
pub mod Notify
pub mod Removal
unfoldable pub use State.*
use opcua_mcp.Prelude.{
  ℕ, ◌+◌, ◌-◌, String, List, [], ◌∷◌, map, Option, none, some, nat_beq, nat_eq, string_eq,
  if◌then◌else◌,
}
use opcua_mcp.Prelude.Int.{ℤ, int_eq}
use opcua_mcp.Prelude.Dict.{lookup, remove, put}
use opcua_mcp.Prelude.Result.{Result, ok, err}
use opcua_mcp.Store.Types.{SubscriptionIntent}

-- `ListSubscriptions`: the fields of `SubscriptionInfo` are those of the record.
unfoldable pub list_subscriptions : Manager → List SubscriptionRecord
list_subscriptions m = map info_of m.subscriptions

-- A method's error, the manager and the world.
pub record Done (W : Type 0) : Type 0 where
  pub error : Option Error
  pub manager : Manager
  pub world : W

module _ {W : Type 0} (hub : Hub W) where
  abbrev failed : Error → List NodeStatus → Manager → W → Subscribed W
  failed e rejected m w = record {
    id = "";
    rejected = rejected;
    error = some e;
    manager = m;
    world = w;
  }

  -- The end of `subscribeInternal`, with the group as the loop over the results left it.
  abbrev pub keep :
      SubscriptionRecord → List NodeStatus → IntervalGroup → Manager → W → Subscribed W
  keep r rejected g m w =
      let (e, w') = hub.put_subscription r.id (intent_of r) w in
      record {
        id = r.id;
        rejected = rejected;
        error = e;
        manager = record m {
          subscriptions = put r.id r m.subscriptions;
          interval_groups =
              put r.interval_ms (record g { ref_count = g.ref_count + 1 }) m.interval_groups;
        };
        world = w';
      }

  abbrev pub finish : String → ℤ → ℤ → Accepted → Manager → W → Subscribed W
  finish id interval created a m w = elim a.accepted [
    | [] ↦
        if nat_beq a.group.ref_count 0
        then failed none_accepted a.rejected (remove_group interval m) (hub.cancel a.group.sub w)
        else failed none_accepted a.rejected m w
    | n ∷ ns ↦
        keep (record { id = id; node_ids = n ∷ ns; interval_ms = interval; created_at = created })
          a.rejected a.group m w
  ]

  abbrev pub monitored :
      String
      → ℤ
      → ℤ
      → IntervalGroup
      → List Request
      → Manager
      → Result Error (List MonitorResult)
      → W
      → Subscribed W
  monitored id interval created g rs m (err e) w = failed e [] m w
  monitored id interval created g rs m (ok results) w =
      elim (accept_results results rs (record { group = g; accepted = []; rejected = [] })) [
        | none ↦ failed index_panic [] m w
        | some a ↦ finish id interval created a m w
      ]

  abbrev pub request : String → List String → ℤ → ℤ → IntervalGroup → Manager → W → Subscribed W
  request id nodes interval created g m w =
      let (last, built) = build_requests hub.is_node_id nodes m.next_handle in
      let m' = record m { next_handle = last } in
      elim built [
        | err e ↦ failed e [] m' w
        | ok rs ↦ let (r, w') = hub.monitor g.sub rs w in monitored id interval created g rs m' r w'
      ]

  abbrev pub open_group : String → List String → ℤ → ℤ → Result Error ℕ → Manager → W → Subscribed W
  open_group id nodes interval created (err e) m w = failed e [] m w
  open_group id nodes interval created (ok sub) m w =
      let g = new_group interval sub in
      request id nodes interval created g (put_group interval g m) w

  unfoldable pub subscribe_internal : String → List String → ℤ → ℤ → Manager → W → Subscribed W
  subscribe_internal id nodes interval created m w = elim (lookup interval m.interval_groups) [
    | some g ↦ request id nodes interval created g m w
    | none ↦ let (r, w') = hub.subscribe interval w in open_group id nodes interval created r m w'
  ]

  abbrev unmonitor_all : ℕ → List ℕ → W → W
  unmonitor_all sub [] w = w
  unmonitor_all sub (i ∷ is) w = hub.unmonitor sub (i ∷ is) w

  -- `group.RefCount--`, and the end of the group at 0.
  abbrev pub drop_ref : ℤ → IntervalGroup → Manager → W → Manager × W
  drop_ref interval g m w =
      let count = g.ref_count - 1 in
      if nat_beq count 0
      then (remove_group interval m, hub.cancel g.sub w)
      else (put_group interval (record g { ref_count = count }) m, w)

  abbrev pub leave_group : SubscriptionRecord → Option IntervalGroup → Manager → W → Manager × W
  leave_group r none m w = (m, w)
  leave_group r (some g) m w =
      let (items, g') = unroute r.node_ids g in
      drop_ref r.interval_ms g' m (unmonitor_all g.sub items w)

  unfoldable pub unsubscribe : String → Manager → W → Done W
  unsubscribe id m w = elim (lookup id m.subscriptions) [
    | none ↦ record { error = some (not_found id); manager = m; world = w }
    | some r ↦
        let (m1, w1) = leave_group r (lookup r.interval_ms m.interval_groups) m w in
        let (e, w2) = hub.delete_subscription id w1 in
        record {
          error = e;
          manager = record m1 { subscriptions = remove id m1.subscriptions };
          world = w2;
        }
  ]

  -- The loop of `warmStart`: a subscription that cannot be restored is skipped.
  unfoldable pub restore_all : List SubscriptionIntent → Manager → W → Manager × W
  restore_all [] m w = (m, w)
  restore_all (i ∷ is) m w =
      let s = subscribe_internal i.id i.node_ids i.interval_ms i.created_at m w in
      restore_all is s.manager s.world

  abbrev pub restored : Manager → Result Error (List SubscriptionIntent) → W → Done W
  restored m (err e) w = record { error = some e; manager = m; world = w }
  restored m (ok is) w =
      let (m', w') = restore_all is m w in record { error = none; manager = m'; world = w' }

  unfoldable pub warm_start : Manager → W → Done W
  unfolding restore_all
  warm_start m w = let (r, w') = hub.list_subscriptions w in restored m r w'

  unfoldable pub restore_from_intent : Manager → W → Done W
  unfolding warm_start
  restore_from_intent m w = warm_start (record m { subscriptions = []; interval_groups = [] }) w

  -- `Start`, up to the goroutine of the pump: `install_handler` is SetReconnectHandler, with
  -- `resubscribe`; the start of the watcher has no error.
  abbrev pub install : (W → W) → Done W → Done W
  install install_handler d = elim d.error [
    | some e ↦ d
    | none ↦ record d { world = install_handler d.world }
  ]

  unfoldable pub start_manager : (W → W) → Manager → W → Done W
  unfolding warm_start
  start_manager install_handler m w = install install_handler (warm_start m w)

  -- After a session recovery; an error is only logged.
  unfoldable pub resubscribe : Manager → W → Manager × W
  unfolding restore_from_intent
  resubscribe m w = let d = restore_from_intent m w in (d.manager, d.world)

  abbrev pub after_connect : Option Error → Manager → W → Done W
  after_connect (some e) m w = record { error = some e; manager = m; world = w }
  after_connect none m w = restore_from_intent m w

  unfoldable pub rebuild : Manager → W → Done W
  unfolding restore_from_intent
  rebuild m w = let (e, w') = hub.connect w in after_connect e m w'
