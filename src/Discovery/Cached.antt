-- ===== src/Discovery/Cached.antt =====
-- `findSimilarNodesFromCache` of internal/opcua/discovery.go: the tiers of the search over the cache.
-- `bytes` is Go's conversion to `[]byte`, `to_lower` is `strings.ToLower`.
use opcua_mcp.Prelude.{
  ℕ, zero, suc, ◌-◌, String, Bool, true, false, not, ◌&&◌, ◌||◌, List, [], ◌∷◌, ◌++◌, length, ◌==◌,
  string_eq, if◌then◌else◌, ◌≡◌, refl, sym, ap, ◌∙◌, arith, length-append, append_assoc, append_nil,
  Bool-cases, inl, inr,
}
use opcua_mcp.Prelude.Int.{ℤ, pos, pos_part, lez}
use opcua_mcp.Prelude.Text.{is_empty, contains_text}
use opcua_mcp.Discovery.{NodeInfo}
use opcua_mcp.Discovery.Similar.{is_similar_string}

-- The three lists of the pass over the cache.
pub record Matches : Type 0 where
  pub exact : List NodeInfo
  pub contains : List NodeInfo
  pub fuzzy : List NodeInfo

-- The first nodes, at most `max`.
abbrev pub first : ℕ → List NodeInfo → List NodeInfo
first zero ns = []
first (suc n) [] = []
first (suc n) (x ∷ ns) = x ∷ first n ns

abbrev pub select : (NodeInfo → Bool) → List NodeInfo → List NodeInfo
select p [] = []
select p (n ∷ ns) = if p n then n ∷ select p ns else select p ns

-- A loop that appends nodes to `result` and breaks at `max`.
unfoldable pub fill : ℤ → List NodeInfo → List NodeInfo → List NodeInfo
fill max result [] = result
fill max result (n ∷ ns) =
    let rest = fill max (result ++ n ∷ []) ns in
    if lez max (pos (length result)) then result else rest

module _ (to_lower : String → String) (bytes : String → List ℕ) where
  -- The tests of the three tiers on a node.
  abbrev pub equals : String → NodeInfo → Bool
  equals name n = (n.browse_name == name) || (to_lower n.browse_name == to_lower name)

  abbrev pub includes : String → NodeInfo → Bool
  unfolding contains_text
  includes name n = contains_text (to_lower n.browse_name) (to_lower name)

  abbrev pub resembles : String → NodeInfo → Bool
  unfolding is_similar_string
  resembles name n = is_similar_string (bytes (to_lower n.browse_name)) (bytes (to_lower name))

  -- Where the pass puts a node with these answers to the tests.
  abbrev sort_in : NodeInfo → Bool → Bool → Bool → Bool → Matches → Matches
  sort_in n nameless e c f m =
      if nameless
      then m
      else if e
      then record m { exact = n ∷ m.exact }
      else if c
      then record m { contains = n ∷ m.contains }
      else if f
      then record m { fuzzy = n ∷ m.fuzzy }
      else m

  unfoldable pub matches : String → List NodeInfo → Matches
  matches name [] = record { exact = []; contains = []; fuzzy = [] }
  matches name (n ∷ ns) =
      sort_in n (is_empty n.browse_name) (equals name n) (includes name n) (resembles name n)
        (matches name ns)

  unfoldable pub find_similar_nodes_from_cache : ℤ → String → List NodeInfo → List NodeInfo
  unfolding matches fill
  find_similar_nodes_from_cache max name nodes =
      let m = matches name nodes in fill max (fill max (fill max [] m.exact) m.contains) m.fuzzy

  -- The tiers, each by itself.
  abbrev pub tier1 : String → NodeInfo → Bool
  tier1 name n = not (is_empty n.browse_name) && equals name n

  abbrev pub tier2 : String → NodeInfo → Bool
  tier2 name n = not (is_empty n.browse_name) && not (equals name n) && includes name n

  abbrev pub tier3 : String → NodeInfo → Bool
  tier3 name n =
      not (is_empty n.browse_name)
      && not (equals name n)
      && not (includes name n)
      && resembles name n

  sort_in-tiers :
      (n : NodeInfo) (nameless e c f : Bool) (m : Matches)
      → ((sort_in n nameless e c f m).exact ≡ (if not nameless && e then n ∷ m.exact else m.exact))
        × ((sort_in n nameless e c f m).contains
            ≡ (if not nameless && not e && c then n ∷ m.contains else m.contains))
        × ((sort_in n nameless e c f m).fuzzy
            ≡ (if not nameless && not e && not c && f then n ∷ m.fuzzy else m.fuzzy))
  sort_in-tiers n true e c f m = (refl, refl, refl)
  sort_in-tiers n false true c f m = (refl, refl, refl)
  sort_in-tiers n false false true f m = (refl, refl, refl)
  sort_in-tiers n false false false true m = (refl, refl, refl)
  sort_in-tiers n false false false false m = (refl, refl, refl)

  matches-select :
      (name : String) (ns : List NodeInfo)
      → ((matches name ns).exact ≡ select (tier1 name) ns)
        × ((matches name ns).contains ≡ select (tier2 name) ns)
        × ((matches name ns).fuzzy ≡ select (tier3 name) ns)
  unfolding matches
  matches-select name [] = (refl, refl, refl)
  matches-select name (n ∷ ns) =
      let (p, q, r) = matches-select name ns in
      let (p', q', r') =
        sort_in-tiers n (is_empty n.browse_name) (equals name n) (includes name n)
          (resembles name n) (matches name ns) in
      (
        p' ∙ ap (λ l. if tier1 name n then n ∷ l else l) p,
        q' ∙ ap (λ l. if tier2 name n then n ∷ l else l) q,
        r' ∙ ap (λ l. if tier3 name n then n ∷ l else l) r,
      )

  -- What the search is to give: the nodes of the first tier, then those of the second and of the
  -- third, cut at the limit.
  abbrev pub best : ℤ → String → List NodeInfo → List NodeInfo
  best max name ns =
      first (pos_part max)
        ((select (tier1 name) ns ++ select (tier2 name) ns) ++ select (tier3 name) ns)

pub first_nil : (k : ℕ) → first k [] ≡ []
first_nil zero = refl
first_nil (suc k) = refl

fill-first :
    (max : ℤ) (result ns : List NodeInfo)
    → fill max result ns ≡ result ++ first (pos_part max - length result) ns
unfolding fill
fill-first max result [] =
    sym (ap (λ l. result ++ l) (first_nil (pos_part max - length result)) ∙ append_nil result)
fill-first max result (n ∷ ns) = elim (Bool-cases (lez max (pos (length result)))) [
  | inl full ↦
      let none_left : pos_part max - length result ≡ 0 = ground (arith, full) in
      rw (fill, full, none_left) (sym (append_nil result))
  | inr room ↦
      let left : pos_part max - length result ≡ suc (pos_part max - length (result ++ n ∷ [])) =
        ground (arith, room, length-append result (n ∷ [])) in
      rw (fill, room, left)
        (fill-first max (result ++ n ∷ []) ns
          ∙ append_assoc result n (first (pos_part max - length (result ++ n ∷ [])) ns))
]

pub sub_zero : (n : ℕ) → n - 0 ≡ n
sub_zero n = omega arith

sub_suc : (n m : ℕ) → suc n - suc m ≡ n - m
sub_suc n m = omega arith

first-append :
    (k : ℕ) (xs ns : List NodeInfo)
    → first k xs ++ first (k - length (first k xs)) ns ≡ first k (xs ++ ns)
first-append zero xs ns = refl
first-append (suc k) [] ns = ap (λ j. first j ns) (sub_zero (suc k))
first-append (suc k) (x ∷ xs) ns =
    ap (λ j. x ∷ first k xs ++ first j ns) (sub_suc k (length (first k xs)))
    ∙ ap (λ l. x ∷ l) (first-append k xs ns)

fill_more :
    (max : ℤ) (xs ns : List NodeInfo)
    → fill max (first (pos_part max) xs) ns ≡ first (pos_part max) (xs ++ ns)
fill_more max xs ns =
    fill-first max (first (pos_part max) xs) ns ∙ first-append (pos_part max) xs ns

-- The search for similar nodes over the cache gives the nodes equal to the name, then those that
-- contain it, then those that resemble it, each node with a name once and in the cache's order, cut
-- at the limit (none where the limit is not positive).
pub find_similar_nodes_from_cache-best :
    (to_lower : String → String) (bytes : String → List ℕ) (max : ℤ) (name : String)
    (nodes : List NodeInfo)
    → find_similar_nodes_from_cache to_lower bytes max name nodes
      ≡ best to_lower bytes max name nodes
unfolding find_similar_nodes_from_cache
find_similar_nodes_from_cache-best to_lower bytes max name nodes =
    let (p, q, r) = matches-select to_lower bytes name nodes in
    let m = matches to_lower bytes name nodes in
    ap (λ l. fill max (fill max l m.contains) m.fuzzy)
      (fill-first max [] m.exact ∙ ap (λ j. first j m.exact) (sub_zero (pos_part max)))
    ∙ ap (λ l. fill max l m.fuzzy) (fill_more max m.exact m.contains)
    ∙ fill_more max (m.exact ++ m.contains) m.fuzzy
    ∙ rw (p, q, r) refl
