-- ===== src/Discovery/Index.antt =====
-- The searches of internal/opcua/discovery.go over the search index, and over the cache where there
-- is none. bleve is a function from a request to the hits that it finds.
use opcua_mcp.Prelude.{
  ℕ, String, Bool, true, false, ◌&&◌, List, [], ◌∷◌, none, some, string_eq, if◌then◌else◌,
}
use opcua_mcp.Prelude.Int.{ℤ, pos, lez}
use opcua_mcp.Prelude.Text.{is_empty}
use opcua_mcp.Prelude.Dict.{Dict, lookup}
use opcua_mcp.Prelude.Result.{Result, ok, err, or_err}
use opcua_mcp.Session.{Error, message, wrap}
use opcua_mcp.Discovery.{NodeInfo, SearchConfig}
use opcua_mcp.Discovery.Cached.{find_similar_nodes_from_cache}
use opcua_mcp.Discovery.Search.{
  values, get_node_by_browse_name_from_cache, search_by_parent_from_cache,
  search_by_depth_from_cache, search_nodes_from_cache,
}
use Prim.Native.String.{◌++◌ as append}

-- The queries of bleve that the program builds, each with its field.
mutual
  pub data Query : Type 0 where
    match_query : String → String → Query
    term_query : String → String → Query
    wildcard_query : String → String → Query
    fuzzy_query : String → ℕ → String → Query
    numeric_range_query : String → ℤ → ℤ → Query
    disjunction_query : Query → Query → Query
    boolean_query : Queries → Query

  pub data Queries : Type 0 where
    end : Queries
    must : Query → Queries → Queries

pub record SearchRequest : Type 0 where
  pub query : Query
  pub size : ℤ
  pub by_score : Bool

pub record Hit : Type 0 where
  pub id : String
  pub score : ℕ  -- the bits of a float64

abbrev pub plain : Query → ℤ → SearchRequest
plain q n = record { query = q; size = n; by_score = false }

-- The nodes of the cache that hits name, for hits that pass a test.
unfoldable pub nodes_of : (Hit → Bool) → Dict String NodeInfo → List Hit → List NodeInfo
unfolding lookup
nodes_of passes cache [] = []
nodes_of passes cache (h ∷ hs) =
    let rest = nodes_of passes cache hs in
    if passes h then elim (lookup h.id cache) [ some n ↦ n ∷ rest | none ↦ rest ] else rest

abbrev pub convert_search_results : Dict String NodeInfo → List Hit → List NodeInfo
convert_search_results cache hits = nodes_of (λ h. true) cache hits

-- The error of a search, as the callers report it.
abbrev pub searched :
    Result Error (List Hit)
    → (List Hit → Result Error (List NodeInfo))
    → Result Error (List NodeInfo)
searched (err e) next = err (wrap "search failed" e)
searched (ok hits) next = next hits

abbrev pub first_hit : Dict String NodeInfo → Result Error (List Hit) → Result Error NodeInfo
unfolding lookup
first_hit cache (err e) = err (wrap "search failed" e)
first_hit cache (ok []) = err (message "not found")
first_hit cache (ok (h ∷ hs)) = or_err (lookup h.id cache) (message "node info not found in cache")

-- The nodes of a tier, none where its search failed.
abbrev pub tier : Dict String NodeInfo → Result Error (List Hit) → List NodeInfo
tier cache (err e) = []
tier cache (ok hits) = convert_search_results cache hits

abbrev pub or_else : List NodeInfo → List NodeInfo → List NodeInfo
or_else [] other = other
or_else (n ∷ ns) other = n ∷ ns

abbrev pub exact_request : SearchConfig → String → SearchRequest
exact_request cfg name = plain (term_query "browse_name" name) cfg.search_max_results

abbrev pub wildcard_request : SearchConfig → String → SearchRequest
wildcard_request cfg name =
    plain (wildcard_query "browse_name" (append "*" (append name "*"))) cfg.search_max_results

abbrev pub fuzzy_request : SearchConfig → String → SearchRequest
fuzzy_request cfg name = plain (fuzzy_query "browse_name" 1 name) cfg.search_max_results

-- The query of `SearchNodes`: its clauses are those of the arguments that are not empty.
abbrev pub text_clause : String → Queries → Queries
text_clause query rest =
    if is_empty query
    then rest
    else must
        (disjunction_query (match_query "browse_name" query) (match_query "display_name" query))
        rest

abbrev pub class_clause : String → Queries
class_clause node_class =
    if is_empty node_class then end else must (term_query "node_class" node_class) end

abbrev pub nodes_request : SearchConfig → String → String → ℤ → SearchRequest
nodes_request cfg query node_class max = record {
  query = boolean_query (text_clause query (class_clause node_class));
  size = if lez max (pos 0) then cfg.search_max_results else max;
  by_score = true;
}

-- The index is in use, if search is enabled and `has_index` says that there is one.
module _ (to_lower : String → String) (bytes : String → List ℕ) (reaches_min_score : ℕ → Bool)
    (search : SearchRequest → Result Error (List Hit)) (cfg : SearchConfig) (has_index : Bool)
    (cache : Dict String NodeInfo) where
  abbrev pub uses_index : Bool
  uses_index = cfg.enable_search && has_index

  unfoldable pub get_node_by_browse_name : String → Result Error NodeInfo
  unfolding get_node_by_browse_name_from_cache
  get_node_by_browse_name name =
      if uses_index
      then first_hit cache (search (plain (match_query "browse_name" name) (pos 1)))
      else get_node_by_browse_name_from_cache name (values cache)

  abbrev pub search_exact : String → List NodeInfo
  search_exact name = tier cache (search (exact_request cfg name))

  abbrev pub search_wildcard : String → List NodeInfo
  search_wildcard name = tier cache (search (wildcard_request cfg name))

  abbrev pub search_fuzzy : String → List NodeInfo
  search_fuzzy name = tier cache (search (fuzzy_request cfg name))

  -- `FindSimilarNodes`, which never returns an error
  unfoldable pub find_similar_nodes : String → List NodeInfo
  unfolding find_similar_nodes_from_cache
  find_similar_nodes name =
      let cached =
        find_similar_nodes_from_cache to_lower bytes cfg.search_max_results name (values cache) in
      if uses_index
      then or_else (search_exact name)
          (or_else (search_wildcard name) (or_else (search_fuzzy name) cached))
      else cached

  unfoldable pub search_nodes : String → String → ℤ → Result Error (List NodeInfo)
  unfolding search_nodes_from_cache nodes_of
  search_nodes query node_class max =
      if uses_index
      then searched (search (nodes_request cfg query node_class max))
          (λ hits. ok (nodes_of (λ h. reaches_min_score h.score) cache hits))
      else ok (search_nodes_from_cache to_lower query node_class max 0 (values cache))

  abbrev pub search_by_node_class : String → Result Error (List NodeInfo)
  search_by_node_class node_class = search_nodes "" node_class (pos 0)

  unfoldable pub search_by_parent : String → Result Error (List NodeInfo)
  unfolding search_by_parent_from_cache
  search_by_parent parent =
      if uses_index
      then searched (search (plain (term_query "parent_node" parent) cfg.search_max_results))
          (λ hits. ok (convert_search_results cache hits))
      else ok (search_by_parent_from_cache parent (values cache))

  unfoldable pub search_by_depth : ℤ → Result Error (List NodeInfo)
  unfolding search_by_depth_from_cache
  search_by_depth depth =
      if uses_index
      then searched
          (search (plain (numeric_range_query "depth" depth depth) cfg.search_max_results))
          (λ hits. ok (convert_search_results cache hits))
      else ok (search_by_depth_from_cache depth (values cache))
