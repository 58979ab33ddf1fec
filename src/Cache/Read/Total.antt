-- ===== src/Cache/Read/Total.antt =====
-- `Read` and `readLive` of internal/opcua/caching_client.go return one result for each node.
use opcua_mcp.Prelude.{
  ℕ, suc, ◌≤◌, String, List, [], ◌∷◌, Option, none, some, if◌then◌else◌, ◌≡◌, refl, sym, ap, subst,
  arith, length, Bool-cases, ◌⊎◌, inl, inr,
}
use opcua_mcp.Prelude.Int.{ℤ}
use opcua_mcp.Prelude.Result.{Result, ok, err}
use opcua_mcp.Cache.{
  Error, Backend, CacheConfig, DataValue, ReadResult, blanks, serve, store_live, read_live, read,
  finish_read, scan, milliseconds, live_result, live_entry,
}
use opcua_mcp.Cache.Read.{weave, prefix, served, missing, woven, read-weave}

blanks-length : (nodes : List String) → length (blanks nodes) ≡ length nodes
blanks-length [] = refl
blanks-length (n ∷ ns) = ap suc (blanks-length ns)

-- A live result for each open place fills them all.
weave-total :
    {W : Type 0}
    → (b : Backend W) (cfg : CacheConfig) (age : ℤ) (nodes : List String)
      (os : List (Option ReadResult)) (live : List ReadResult)
    → length os ≡ length nodes
    → length live ≡ length (missing b cfg age nodes os)
    → (rs : List ReadResult) × (weave os live ≡ some rs) × (length rs ≡ length nodes)
weave-total b cfg age [] [] live e h = ([], refl, refl)
weave-total b cfg age [] (o ∷ os) live e h = ground (arith, e)
weave-total b cfg age (n ∷ ns) [] live e h = ground (arith, e)
weave-total b cfg age (n ∷ ns) (some r ∷ os) live e h =
    let (rs, p, q) = weave-total b cfg age ns os live (omega (arith, e)) h in
    (r ∷ rs, ap (prefix (r ∷ [])) p, ap suc q)
weave-total b cfg age (n ∷ ns) (none ∷ os) [] e h = ground (arith, h)
weave-total b cfg age (n ∷ ns) (none ∷ os) (l ∷ live) e h =
    let (rs, p, q) = weave-total b cfg age ns os live (omega (arith, e)) (omega (arith, h)) in
    (l ∷ rs, ap (prefix (l ∷ [])) p, ap suc q)

module _ {W : Type 0} (b : Backend W) (cfg : CacheConfig) where
  served-length :
      (age : ℤ) (nodes : List String) (w : W) → length (served b cfg age nodes w).0 ≡ length nodes
  served-length age [] w = refl
  served-length age (n ∷ ns) w = ap suc (served-length age ns (serve b cfg age n w).1)

  -- The client answers with an error of its own, or with no more values than nodes.
  abbrev pub Answers : Type 0
  Answers =
      (nodes : List String) (w : W)
      → ((e : ℕ) × ((b.client_read nodes w).0 ≡ err (Error.external e)))
        ⊎ ((vs : List DataValue) × ((b.client_read nodes w).0 ≡ ok vs) × (length vs ≤ length nodes))

  store_live-total :
      (t : ℤ) (nodes : List String) (vs : List DataValue) (w : W)
      → length vs ≤ length nodes
      → (rs : List ReadResult) × ((store_live b cfg t nodes vs w).0 ≡ some rs)
        × (length rs ≡ length nodes)
  unfolding store_live
  store_live-total t nodes [] w h = (blanks nodes, refl, blanks-length nodes)
  store_live-total t [] (v ∷ vs) w h = ground (arith, h)
  store_live-total t (n ∷ ns) (v ∷ vs) w h =
      let w1 = if cfg.enable_cache then b.put_value n (live_entry v t) w else w in
      let (rs, p, q) = store_live-total t ns vs w1 (omega (arith, h)) in
      (live_result n v ∷ rs, rw p refl, ap suc q)

  -- What is said of a read of so many nodes: it fails as the client does, or has one result a node.
  abbrev pub Complete : ℕ → Result Error (List ReadResult) → Type 0
  Complete n r =
      ((e : ℕ) × (r ≡ err (Error.external e)))
      ⊎ ((rs : List ReadResult) × (r ≡ ok rs) × (length rs ≡ n))

  read_live-Complete :
      Answers → (nodes : List String) (w : W) → Complete (length nodes) (read_live b cfg nodes w).0
  unfolding read_live
  read_live-Complete answers [] w = inr ([], refl, refl)
  read_live-Complete answers (n ∷ ns) w =
      let (r, w') = b.client_read (n ∷ ns) w in
      elim (answers (n ∷ ns) w) [
        | inl (e, p) ↦ inl (e, rw p refl)
        | inr (vs, p, h) ↦
            let (rs, q, l) = store_live-total (b.now w') (n ∷ ns) vs w' h in
            inr (rs, rw (p, q) refl, l)
      ]

  woven-Complete :
      (age : ℤ) (nodes : List String) (os : List (Option ReadResult))
      (x : Result Error (List ReadResult) × W)
      → length os ≡ length nodes
      → Complete (length (missing b cfg age nodes os)) x.0
      → Complete (length nodes) (woven b cfg age os x).0
  woven-Complete age nodes os (r, w) e (inl (x, p)) = inl (x, rw p refl)
  woven-Complete age nodes os (r, w) e (inr (live, p, h)) =
      let (rs, q, l) = weave-total b cfg age nodes os live e h in inr (rs, rw (p, q) refl, l)

  -- With a client that answers, `Read` never indexes out of range: it fails with the client's
  -- error, or has exactly one result for each node.
  pub read-Complete :
      Answers
      → (nodes : List String) (age : ℤ) (w : W) → Complete (length nodes) (read b cfg nodes age w).0
  unfolding read
  read-Complete answers nodes age w = elim (Bool-cases cfg.enable_cache) [
    | inl on ↦
        let max_age = milliseconds age in
        let (os, w') = served b cfg max_age nodes w in
        subst (λ x. Complete (length nodes) x.0) (sym (read-weave b cfg nodes age w on))
          (woven-Complete max_age nodes os (read_live b cfg (missing b cfg max_age nodes os) w')
            (served-length max_age nodes w)
            (read_live-Complete answers (missing b cfg max_age nodes os) w'))
    | inr off ↦
        subst (λ x. Complete (length nodes) x.0)
          (sym (
            ap
              (λ c.
                if c
                then finish_read b cfg (scan b cfg (milliseconds age) 0 nodes w)
                else read_live b cfg nodes w)
              off))
          (read_live-Complete answers nodes w)
  ]
