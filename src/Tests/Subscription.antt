-- ===== src/Tests/Subscription.antt =====
-- The theorems on the subscription manager, with a server that monitors every node but one.
use opcua_mcp.Prelude.{
  ℕ, ◌+◌, ◌≤◌, ◌≡◌, refl, String, not, List, [], ◌∷◌, none, some, ◌==◌, string_eq,
}
use opcua_mcp.Prelude.Int.{pos, int_eq}
use opcua_mcp.Prelude.Dict.{lookup, put}
use opcua_mcp.Prelude.Result.{ok}
use opcua_mcp.Store.Types.{SubscriptionIntent}
use opcua_mcp.Subscription.{
  Hub, Manager, SubscriptionRecord, IntervalGroup, MonitorResult, Request, new_manager,
  subscribe_internal, build_requests, accept_results,
}
use opcua_mcp.Subscription.History.{started, subscribed, Reachable-group}

-- Each node gets the item of its handle; the world counts the calls.
abbrev results_of : List Request → List MonitorResult
results_of [] = []
results_of ((handle, n) ∷ rs) =
    record { status = 0; monitored_item_id = handle + 100 } ∷ results_of rs

abbrev intent : SubscriptionIntent
intent = record { id = "s9"; node_ids = "a" ∷ []; interval_ms = pos 1000; created_at = pos 5 }

abbrev hub : Hub ℕ
hub = record {
  is_node_id = λ n. not (n == "bad");
  connect = λ w. (none, w + 1);
  subscribe = λ i w. (ok 4, w + 1);
  monitor = λ sub rs w. (ok (results_of rs), w + 1);
  unmonitor = λ sub is w. w + 1;
  cancel = λ sub w. w + 1;
  put_subscription = λ id i w. (none, w + 1);
  delete_subscription = λ id w. (none, w + 1);
  list_subscriptions = λ w. (ok (intent ∷ []), w);
}

abbrev after_one : Manager
after_one = (subscribe_internal hub "s1" ("a" ∷ "b" ∷ []) (pos 1000) (pos 2) new_manager 0).manager

new_manager-new : (id : String) → lookup id new_manager.subscriptions ≡ none
unfolding new_manager lookup
new_manager-new id = refl

abbrev first : SubscriptionRecord
first = record { id = "s1"; node_ids = "a" ∷ "b" ∷ []; interval_ms = pos 1000; created_at = pos 2 }

Reachable-group_example :
    (g : IntervalGroup) × (lookup (pos 1000) after_one.interval_groups ≡ some g) × (1 ≤ g.ref_count)
unfolding subscribe_internal lookup new_manager build_requests accept_results put
Reachable-group_example =
    Reachable-group hub "s1" first
      (subscribed "s1" ("a" ∷ "b" ∷ []) (pos 1000) (pos 2) 0 (new_manager-new "s1") started) refl
