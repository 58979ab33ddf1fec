-- ===== src/Tests/Cache.antt =====
-- The theorems on the cache, on a world that is the cached values and a server that answers 7.
use opcua_mcp.Prelude.{
  ◌≡◌, refl, String, true, false, List, [], ◌∷◌, none, some, string_eq, inr, arith, length, ◌≤◌,
}
use opcua_mcp.Prelude.Int.{ℤ, pos}
use opcua_mcp.Prelude.Dict.{Dict, lookup, put, remove, lookup-remove, lookup-put}
use opcua_mcp.Prelude.Result.{ok}
use opcua_mcp.Value.{int32}
use opcua_mcp.Store.Types.{ValueEntry}
use opcua_mcp.Write.NodeType.{NodeTypeInfo}
use opcua_mcp.Cache.{Backend, CacheConfig, DataValue, read, read_live, write, live_entry}
use opcua_mcp.Cache.Read.{served, missing, woven, read-weave}
use opcua_mcp.Cache.Read.Total.{Complete, read-Complete}
use opcua_mcp.Cache.Read.Fresh.{CacheLaws}
use opcua_mcp.Cache.Metadata.{get_node_type_info}
use opcua_mcp.Handlers.Write.{Written, type_notes, handle_write}
use opcua_mcp.Handlers.Write.Sent.{Sent, handle_write-Sent}

abbrev pub seven : DataValue
seven = record {
  value = int32 (pos 7);
  status = "OK";
  source_timestamp = pos 40;
  server_timestamp = pos 41;
}

abbrev pub info : NodeTypeInfo
info = record {
  data_type = record { namespace = 3; int_id = 6 };
  value_rank = pos 1;
  array_dimensions = 4 ∷ [];
  is_array = true;
  is_scalar = false;
  access_level = 3;
  user_access_level = 1;
  is_writable = true;
  is_user_writable = false;
}

abbrev answer : List String → List DataValue
answer [] = []
answer (n ∷ ns) = seven ∷ answer ns

answer-length : (ns : List String) → length (answer ns) ≤ length ns
answer-length [] = omega arith
answer-length (n ∷ ns) = omega (arith, answer-length ns)

abbrev pub backend : Backend (Dict String ValueEntry)
backend = record {
  get_value = λ n w. (ok (lookup n w), w);
  put_value = λ n e w. put n e w;
  delete_value = λ n w. remove n w;
  get_type_info = λ n w. (ok none, w);
  put_type_info = λ n e w. w;
  get_browse = λ n w. (ok none, w);
  put_browse = λ n e w. w;
  client_read = λ ns w. (ok (answer ns), w);
  client_write = λ n v w. (none, w);
  client_browse = λ n w. (ok [], w);
  client_node_type_info = λ n w. (ok info, w);
  record_cache_result = λ h w. w;
  now = λ w. pos 50;
}

abbrev pub cfg : CacheConfig
cfg = record { enable_cache = true; type_info_ttl = pos 100; browse_ttl = pos 100 }

abbrev cached : Dict String ValueEntry
cached = ("b", live_entry seven (pos 45)) ∷ []

laws : CacheLaws backend "b"
laws = record { get_delete = λ w. ground (arith, lookup-remove "b" "b" w); get_get = λ w. refl }

stored :
    (t : ℤ) (w : Dict String ValueEntry)
    → (backend.get_value "a" (backend.put_value "a" (live_entry seven t) w)).0
      ≡ ok (some (live_entry seven t))
stored t w = ground (arith, lookup-put "a" "a" (live_entry seven t) w)

read-weave_example : read backend cfg ("a" ∷ "b" ∷ []) (pos 1) cached ≡ (
    let (os, w) = served backend cfg (pos 1000000) ("a" ∷ "b" ∷ []) cached in
    woven backend cfg
      (pos 1000000)
      os
      (read_live backend cfg (missing backend cfg (pos 1000000) ("a" ∷ "b" ∷ []) os) w))
read-weave_example = read-weave backend cfg ("a" ∷ "b" ∷ []) (pos 1) cached refl

read-Complete_example : Complete backend cfg 2 (read backend cfg ("a" ∷ "b" ∷ []) (pos 1) cached).0
read-Complete_example =
    read-Complete backend cfg (λ ns w. inr (answer ns, refl, answer-length ns)) ("a" ∷ "b" ∷ [])
      (pos 1) cached

abbrev done : Written
done = record { node_id = "b"; notes = type_notes info }

-- The text reads as 8, and the cache held a live 7.
handle_write-Sent_example :
    Sent backend cfg
      (λ s. ok (int32 (pos 8)))
      "b"
      "8"
      cached
      done
      (handle_write backend cfg (λ s. ok (int32 (pos 8))) "b" "8" cached).1
unfolding handle_write get_node_type_info write
handle_write-Sent_example =
    handle_write-Sent backend cfg (λ s. ok (int32 (pos 8))) "b" laws refl "8" cached done refl
