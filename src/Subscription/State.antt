-- ===== src/Subscription/State.antt =====
-- internal/opcua/subscription.go: the manager's state, the interface to what it calls, and the steps
-- on one group of subscriptions.
use opcua_mcp.Prelude.{
  ℕ, ◌+◌, ◌%◌, ◌^◌, String, Bool, List, [], ◌∷◌, ◌++◌, Option, none, some, nat_beq, nat_eq,
  string_eq, if◌then◌else◌,
}
use opcua_mcp.Prelude.Int.{ℤ, int_eq}
use opcua_mcp.Prelude.Dict.{Dict, lookup, remove, put}
use opcua_mcp.Prelude.Result.{Result, ok, err}
use opcua_mcp.Store.Types.{SubscriptionIntent}

pub data Error : Type 0 where
  external : ℕ → Error
  invalid_node_id : String → Error
  -- the index expression `requests[i]` of a response with too many results
  index_panic : Error
  none_accepted : Error
  not_found : String → Error

-- A node that the server did not accept, with the status it gave.
pub record NodeStatus : Type 0 where
  pub node_id : String
  pub status : ℕ

pub record MonitorResult : Type 0 where
  pub status : ℕ
  pub monitored_item_id : ℕ

pub record SubscriptionRecord : Type 0 where
  pub id : String
  pub node_ids : List String
  pub interval_ms : ℤ
  pub created_at : ℤ

pub record IntervalGroup : Type 0 where
  pub interval_ms : ℤ
  pub sub : ℕ
  -- an `int`; it is never lowered below 0 (see `drop_ref`)
  pub ref_count : ℕ
  pub client_handle_to_node_id : Dict ℕ String
  pub node_id_to_client_handle : Dict String ℕ
  pub node_id_to_monitored_item_id : Dict String ℕ

pub record Manager : Type 0 where
  pub subscriptions : Dict String SubscriptionRecord
  pub interval_groups : Dict ℤ IntervalGroup
  pub next_handle : ℕ  -- uint32

-- A request to monitor: the client handle and the node.
abbrev pub Request : Type 0
Request = ℕ × String

-- `client.Subscribe`, the methods of a `SubscriptionHandle` (named by a number), the store, and
-- `ua.ParseNodeID`. The errors of `Unmonitor` and `Cancel` are only logged.
pub record Hub (W : Type 0) : Type 0 where
  pub is_node_id : String → Bool
  pub connect : W → Option Error × W
  pub subscribe : ℤ → W → Result Error ℕ × W
  pub monitor : ℕ → List Request → W → Result Error (List MonitorResult) × W
  pub unmonitor : ℕ → List ℕ → W → W
  pub cancel : ℕ → W → W
  pub put_subscription : String → SubscriptionIntent → W → Option Error × W
  pub delete_subscription : String → W → Option Error × W
  pub list_subscriptions : W → Result Error (List SubscriptionIntent) × W

abbrev pub intent_of : SubscriptionRecord → SubscriptionIntent
intent_of r = record {
  id = r.id;
  node_ids = r.node_ids;
  interval_ms = r.interval_ms;
  created_at = r.created_at;
}

-- What `subscribeInternal` returns, and the state that it leaves.
pub record Subscribed (W : Type 0) : Type 0 where
  pub id : String
  pub rejected : List NodeStatus
  pub error : Option Error
  pub manager : Manager
  pub world : W

abbrev pub new_group : ℤ → ℕ → IntervalGroup
new_group interval sub = record {
  interval_ms = interval;
  sub = sub;
  ref_count = 0;
  client_handle_to_node_id = [];
  node_id_to_client_handle = [];
  node_id_to_monitored_item_id = [];
}

abbrev pub next : ℕ → ℕ
next h = (h + 1) % 2 ^ 32

-- The loop that builds the requests: the last handle given out, and the requests or the node that
-- does not parse.
unfoldable pub build_requests : (String → Bool) → List String → ℕ → ℕ × Result Error (List Request)
build_requests is_node_id [] h = (h, ok [])
build_requests is_node_id (n ∷ ns) h =
    let (last, rest) = build_requests is_node_id ns (next h) in
    if is_node_id n
    then (last, elim rest [ ok rs ↦ ok ((next h, n) ∷ rs) | err e ↦ err e ])
    else (h, err (invalid_node_id n))

-- `ClientHandleToNodeID[handle] = nodeID` and the two maps back.
abbrev pub route : Request → ℕ → IntervalGroup → IntervalGroup
route (handle, node_id) item g = record g {
  client_handle_to_node_id = put handle node_id g.client_handle_to_node_id;
  node_id_to_client_handle = put node_id handle g.node_id_to_client_handle;
  node_id_to_monitored_item_id = put node_id item g.node_id_to_monitored_item_id;
}

-- The loop over the results of `Monitor`: the group, the accepted and the rejected nodes; `none`
-- is the panic of a missing request.
pub record Accepted : Type 0 where
  pub group : IntervalGroup
  pub accepted : List String
  pub rejected : List NodeStatus

unfoldable pub accept_results : List MonitorResult → List Request → Accepted → Option Accepted
accept_results [] rs a = some a
accept_results (r ∷ rest) [] a = none
accept_results (r ∷ rest) ((handle, node_id) ∷ rs) a = accept_results rest rs (
    if nat_beq r.status 0
    then record {
      group = route (handle, node_id) r.monitored_item_id a.group;
      accepted = a.accepted ++ node_id ∷ [];
      rejected = a.rejected;
    }
    else record a { rejected = a.rejected ++ record { node_id = node_id; status = r.status } ∷ [] })

unfoldable pub new_manager : Manager
new_manager = record { subscriptions = []; interval_groups = []; next_handle = 0 }

abbrev pub put_group : ℤ → IntervalGroup → Manager → Manager
put_group interval g m = record m { interval_groups = put interval g m.interval_groups }

abbrev pub remove_group : ℤ → Manager → Manager
remove_group interval m = record m { interval_groups = remove interval m.interval_groups }

-- The items to unmonitor, and the group without its routes for the nodes of a subscription.
unfoldable pub unroute : List String → IntervalGroup → List ℕ × IntervalGroup
unroute [] g = ([], g)
unroute (n ∷ ns) g =
    let handles = g.client_handle_to_node_id in
    let kept : Dict ℕ String = elim (lookup n g.node_id_to_client_handle) [
      | some h ↦ remove h handles
      | none ↦ handles
    ] in
    let without = record g {
      client_handle_to_node_id = kept;
      node_id_to_client_handle = remove n g.node_id_to_client_handle;
      node_id_to_monitored_item_id = remove n g.node_id_to_monitored_item_id;
    } in
    let (items, g') = unroute ns without in
    (elim (lookup n g.node_id_to_monitored_item_id) [ some i ↦ i ∷ items | none ↦ items ], g')

abbrev pub info_of : String × SubscriptionRecord → SubscriptionRecord
info_of (k, r) = r
