-- ===== src/Cache/Read.antt =====
-- The reads through the cache of internal/opcua/caching_client.go: `Read` and `readLive`.
pub mod Total
pub mod Fresh
use opcua_mcp.Prelude.{
  append_assoc, ℕ, zero, suc, ◌+◌, ◌≤◌, String, Bool, true, false, List, [], ◌∷◌, ◌++◌, Option,
  none, some, some_inj, if◌then◌else◌, ◌≡◌, ◌≢◌, refl, sym, ap, ◌∙◌, arith, length, length-append,
  set, Option-cases, Bool-cases, ◌⊎◌, inl, inr,
}
use opcua_mcp.Prelude.Int.{ℤ}
use opcua_mcp.Prelude.Result.{Result, ok, err, Result-cases}
use opcua_mcp.Cache.{
  Error, index_panic, Backend, CacheConfig, DataValue, ReadResult, Pending, blank, blanks, ids,
  merge, serve, scan, store_live, read_live, read, place, or_panic, finish_read, combine,
  take_values, milliseconds, live_result, live_entry,
}

abbrev pub prefix : List ReadResult → Option (List ReadResult) → Option (List ReadResult)
prefix pre none = none
prefix pre (some rs) = some (pre ++ rs)

-- The live results in the places that the cache left open, from left to right.
abbrev pub weave : List (Option ReadResult) → List ReadResult → Option (List ReadResult)
weave [] live = some []
weave (some r ∷ os) live = prefix (r ∷ []) (weave os live)
weave (none ∷ os) [] = none
weave (none ∷ os) (l ∷ live) = prefix (l ∷ []) (weave os live)

set-append :
    (pre : List ReadResult) (x y : ReadResult) (rs : List ReadResult)
    → set (pre ++ x ∷ rs) (length pre) y ≡ (pre ++ y ∷ []) ++ rs
set-append [] x y rs = refl
set-append (p ∷ pre) x y rs = ap (λ l. p ∷ l) (set-append pre x y rs)

prefix-snoc :
    (pre : List ReadResult) (x : ReadResult) (o : Option (List ReadResult))
    → prefix (pre ++ x ∷ []) o ≡ prefix pre (prefix (x ∷ []) o)
prefix-snoc pre x none = refl
prefix-snoc pre x (some rs) = ap some (append_assoc pre x rs)

place-merge :
    (i : ℕ) (n : String) (o : Option ReadResult) (s : List ReadResult × Pending)
    (os : List (Option ReadResult))
    → ((pre live : List ReadResult)
        → length pre ≡ suc i
        → merge (pre ++ s.0) s.1 live ≡ prefix pre (weave os live))
    → (pre live : List ReadResult) → length pre ≡ i
    → let s' = place i n o s in merge (pre ++ s'.0) s'.1 live ≡ prefix pre (weave (o ∷ os) live)
unfolding merge
place-merge i n (some x) (results, pending) os ih pre live e =
    ap (λ l. merge l pending live) (sym (append_assoc pre x results))
    ∙ ih (pre ++ x ∷ []) live (omega (arith, length-append pre (x ∷ []), e))
    ∙ prefix-snoc pre x (weave os live)
place-merge i n none (results, pending) os ih pre [] e = refl
place-merge i n none (results, pending) os ih pre (l ∷ live) e =
    ap (λ l. merge l pending live)
      (ap (λ j. set (pre ++ blank ∷ results) j l) (sym e) ∙ set-append pre blank l results)
    ∙ ih (pre ++ l ∷ []) live (omega (arith, length-append pre (l ∷ []), e))
    ∙ prefix-snoc pre l (weave os live)

module _ {W : Type 0} (b : Backend W) (cfg : CacheConfig) (max_age : ℤ) where
  -- What the cache serves of each node, in order.
  abbrev pub served : List String → W → List (Option ReadResult) × W
  served [] w = ([], w)
  served (n ∷ ns) w =
      let (r, w1) = serve b cfg max_age n w in let (os, w2) = served ns w1 in (r ∷ os, w2)

  scan-merge :
      (pre : List ReadResult) (i : ℕ) (nodes : List String) (w : W) (live : List ReadResult)
      → length pre ≡ i
      → let s = (scan b cfg max_age i nodes w).0 in
        merge (pre ++ s.0) s.1 live ≡ prefix pre (weave (served nodes w).0 live)
  unfolding scan merge
  scan-merge pre i [] w live e = refl
  scan-merge pre i (n ∷ ns) w live e =
      let (r, w1) = serve b cfg max_age n w in
      place-merge i n r (scan b cfg max_age (suc i) ns w1).0 (served ns w1).0
        (λ pre' live' e'. scan-merge pre' (suc i) ns w1 live' e') pre live e

  -- The nodes that the cache does not serve.
  abbrev pub missing : List String → List (Option ReadResult) → List String
  missing [] os = []
  missing (n ∷ ns) [] = []
  missing (n ∷ ns) (some r ∷ os) = missing ns os
  missing (n ∷ ns) (none ∷ os) = n ∷ missing ns os

  ids-place :
      (i : ℕ) (n : String) (ns : List String) (o : Option ReadResult)
      (s : List ReadResult × Pending) (os : List (Option ReadResult))
      → ids s.1 ≡ missing ns os
      → ids (place i n o s).1 ≡ missing (n ∷ ns) (o ∷ os)
  ids-place i n ns none (results, pending) os h = ap (λ l. n ∷ l) h
  ids-place i n ns (some r) (results, pending) os h = h

  scan-ids :
      (i : ℕ) (nodes : List String) (w : W)
      → let (s, w') = scan b cfg max_age i nodes w in
        let (os, v) = served nodes w in (ids s.1 ≡ missing nodes os) × (w' ≡ v)
  unfolding scan
  scan-ids i [] w = (refl, refl)
  scan-ids i (n ∷ ns) w =
      let (r, w1) = serve b cfg max_age n w in
      let ih = scan-ids (suc i) ns w1 in
      (ids-place i n ns r (scan b cfg max_age (suc i) ns w1).0 (served ns w1).0 ih.0, ih.1)

  -- What the live results make of the read.
  abbrev pub woven :
      List (Option ReadResult)
      → Result Error (List ReadResult) × W
      → Result Error (List ReadResult) × W
  woven os (err e, w) = (err e, w)
  woven os (ok live, w) = (or_panic b cfg (weave os live), w)

  prefix-nil : (o : Option (List ReadResult)) → prefix [] o ≡ o
  prefix-nil none = refl
  prefix-nil (some rs) = refl

  finish_read-combine :
      (results : List ReadResult) (pending : Pending) (w : W)
      → finish_read b cfg ((results, pending), w)
        ≡ combine b cfg results pending (read_live b cfg (ids pending) w)
  unfolding read_live merge
  finish_read-combine results [] w = refl
  finish_read-combine results (p ∷ ps) w = refl

  combine-woven :
      (results : List ReadResult) (pending : Pending) (os : List (Option ReadResult))
      → ((live : List ReadResult) → merge results pending live ≡ weave os live)
      → (x : Result Error (List ReadResult) × W) → combine b cfg results pending x ≡ woven os x
  combine-woven results pending os h (err e, w) = refl
  combine-woven results pending os h (ok live, w) = ap (λ o. (or_panic b cfg o, w)) (h live)

  scan-finish :
      (nodes : List String) (w : W)
      → finish_read b cfg (scan b cfg max_age 0 nodes w)
        ≡ woven
            (served nodes w).0
            (read_live b cfg (missing nodes (served nodes w).0) (served nodes w).1)
  scan-finish nodes w =
      let ((results, pending), w') = scan b cfg max_age 0 nodes w in
      let (os, v) = served nodes w in
      let h = scan-ids 0 nodes w in
      finish_read-combine results pending w'
      ∙ combine-woven results pending os
          (λ live. scan-merge [] 0 nodes w live refl ∙ prefix-nil (weave os live))
          (read_live b cfg (ids pending) w')
      ∙ ap (woven os)
          (ap (λ l. read_live b cfg l w') h.0 ∙ ap (read_live b cfg (missing nodes os)) h.1)

-- The cached read is the weaving of what the cache serves with one live read of the other nodes, in
-- their order: the indices that the code keeps put every live result in its node's place.
pub read-weave :
    {W : Type 0}
    → (b : Backend W) (cfg : CacheConfig) (nodes : List String) (age : ℤ) (w : W)
    → cfg.enable_cache ≡ true
    → let max_age = milliseconds age in
      let (os, w') = served b cfg max_age nodes w in
      read b cfg nodes age w
      ≡ woven b cfg max_age os (read_live b cfg (missing b cfg max_age nodes os) w')
unfolding read
read-weave b cfg nodes age w on =
    ap
      (λ c.
        if c
        then finish_read b cfg (scan b cfg (milliseconds age) 0 nodes w)
        else read_live b cfg nodes w)
      on
    ∙ scan-finish b cfg (milliseconds age) nodes w
