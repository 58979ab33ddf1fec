-- ===== src/Tests/Handlers.antt =====
-- The theorems on the handlers and on the pump of the subscriptions.
use opcua_mcp.Prelude.{
  String, Bool, true, false, List, [], ◌∷◌, Option, none, some, ◌==◌, string_eq, nat_eq, ◌≡◌, refl,
  ap, ◌∙◌, if◌then◌else◌,
}
use opcua_mcp.Prelude.Int.{pos, int_eq}
use opcua_mcp.Prelude.Dict.{Dict, lookup, remove}
use opcua_mcp.Prelude.Result.{Result, ok}
use opcua_mcp.Store.Types.{ValueEntry}
use opcua_mcp.Cache.{Backend, serve}
use opcua_mcp.Subscription.{
  Hub, Manager, SubscriptionRecord, unsubscribe, list_subscriptions, new_group, route, unroute,
}
use opcua_mcp.Subscription.Notify.{
  data_change, PumpEvent, notified, tick, AcceptsLast, KeepsValues, last_entry, last_of_items,
  lookup_node_id, then_got, pump, pump-last_entry,
}
use opcua_mcp.Store.Encoding.{encode}
use opcua_mcp.Store.Bucket.{put}
use opcua_mcp.Store.Ops.{put_value}
use opcua_mcp.Cache.Stored.{over_store, Stores, over_store-KeepsValues}
use opcua_mcp.Tests.Store.{Db, deps, deps_laws, empty}
use opcua_mcp.Tests.Stored.{server}
use opcua_mcp.Handlers.Unsubscribe.{
  handle_unsubscribe, handle_unsubscribe-wants, wants, matching, unsubscribe_all,
}
use opcua_mcp.Prelude.{ℕ, All}
use opcua_mcp.Prelude.Result.{err}
use opcua_mcp.Value.{Value, string}
use opcua_mcp.Cache.{ReadResult, live_result, read}
use opcua_mcp.Requests.NodeIds.{parse_node_ids, trim_quotes, trim_quotes_left, trim_quotes_right}
use opcua_mcp.Prelude.Text.{trim_space, contains_text, split_comma}
use opcua_mcp.Handlers.Read.{Marshal, MarshalLaws, Answer, handle_read, handle_read-Answer}
use opcua_mcp.Tests.Cache.{backend, cfg, seven}

-- A server and a store that do nothing with the cached values.
abbrev hub : Hub (Dict String ValueEntry)
hub = record {
  is_node_id = λ n. true;
  connect = λ w. (none, w);
  subscribe = λ i w. (ok 4, w);
  monitor = λ sub rs w. (ok [], w);
  unmonitor = λ sub is w. w;
  cancel = λ sub w. w;
  put_subscription = λ id i w. (none, w);
  delete_subscription = λ id w. (none, w);
  list_subscriptions = λ w. (ok [], w);
}

abbrev of_c : SubscriptionRecord
of_c = record { id = "s2"; node_ids = "c" ∷ []; interval_ms = pos 500; created_at = pos 2 }

abbrev pub manager : Manager
manager = record {
  subscriptions =
      (
        "s1",
        record { id = "s1"; node_ids = "a" ∷ "b" ∷ []; interval_ms = pos 1000; created_at = pos 2 },
      )
      ∷ ("s2", of_c)
      ∷ [];
  interval_groups = (pos 1000, route (1, "a") 101 (new_group (pos 1000) 4)) ∷ [];
  next_handle = 1;
}

handle_unsubscribe-wants_example : wants ("a" ∷ []) of_c.node_ids ≡ false
unfolding handle_unsubscribe list_subscriptions matching unsubscribe_all unsubscribe lookup remove
    unroute parse_node_ids trim_space trim_quotes trim_quotes_left trim_quotes_right contains_text
    split_comma
handle_unsubscribe-wants_example =
    handle_unsubscribe-wants hub (λ s. none) "a" ("a" ∷ []) ("s1" ∷ []) manager [] refl refl refl
      "s2" of_c refl refl

abbrev pub events : List PumpEvent
events =
    notified (pos 9) manager (data_change (record { client_handle = 1; value = some seven } ∷ []))
    ∷ tick
    ∷ []

-- The program's store, on a function for the database.
abbrev pub World : Type 0
World = Db × ℕ

abbrev pub stored : Backend World
stored = over_store deps server

pub keeps : KeepsValues stored (Stores deps server)
keeps = over_store-KeepsValues deps server deps_laws

pub accepts : AcceptsLast (Stores deps server) "a" (last_entry stored "a" events)
unfolding last_entry last_of_items lookup_node_id lookup put_value encode put
    opcua_mcp.Prelude.Dict.put
accepts d = refl

pump-last_entry_example :
    (stored.get_value "a" (pump stored (pos 100) events [] (empty, 0))).0
    ≡ then_got stored (last_entry stored "a" events) (stored.get_value "a" (empty, 0)).0
pump-last_entry_example =
    pump-last_entry stored (Stores deps server) keeps "a" (pos 100) events (empty, 0) accepts

-- A marshaller that accepts texts only.
abbrev text_error : Value → Option ℕ
text_error (string s) = none
text_error v = some 1

unfoldable pub first_error : List ReadResult → Option ℕ
first_error [] = none
first_error (r ∷ rs) = elim (text_error r.value) [ none ↦ first_error rs | some e ↦ some e ]

abbrev written : Option ℕ → Result ℕ String
written none = ok "[...]"
written (some e) = err e

abbrev pub marshal : Marshal
marshal = record {
  response = λ rs. written (first_error rs);
  entry_error = λ r. text_error r.value;
  value_text = λ e. "<value failed to marshal to JSON>";
  error_payload = λ e. "{}";
}

first_error-none :
    (rs : List ReadResult) → All (λ r. text_error r.value ≡ none) rs → first_error rs ≡ none
unfolding first_error
first_error-none [] h = refl
first_error-none (r ∷ rs) (h, hs) = rw (first_error, h) (first_error-none rs hs)

marshals : MarshalLaws marshal (λ r. true)
marshals = record {
  slice = λ rs h. ("[...]", ap written (first_error-none rs h));
  text_value = λ r s h. refl;
}

handle_read-Answer_example :
    Answer marshal
      (live_result "a" seven ∷ [])
      (handle_read marshal backend cfg (λ s. none) (λ s. true) "a" (pos 0) []).0
unfolding parse_node_ids trim_space trim_quotes trim_quotes_left trim_quotes_right contains_text
    split_comma read serve lookup
handle_read-Answer_example =
    handle_read-Answer marshal (λ r. true) marshals backend cfg (λ s. none) (λ s. true) "a"
      ("a" ∷ []) (pos 0) (live_result "a" seven ∷ []) [] refl refl refl (refl, tt)
