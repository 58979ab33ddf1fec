-- ===== src/Cache/Write.antt =====
-- The writes through the cache of internal/opcua/caching_client.go.
use opcua_mcp.Prelude.{
  String, true, Option, none, some, if◌then◌else◌, ◌≡◌, refl, sym, subst, ap, ◌∙◌, ◌⊎◌, inl, inr,
  Bool-cases, ◌==◌, string_eq,
}
use opcua_mcp.Prelude.Int.{ℤ}
use opcua_mcp.Prelude.Result.{Result, ok, err}
use opcua_mcp.Value.{Value}
use opcua_mcp.Store.Types.{ValueEntry}
use opcua_mcp.Cache.{
  Error, Backend, CacheConfig, ReadResult, serve, provenance, value_entry_to_read_result, write,
  invalidate, after_write, decide,
}
use opcua_mcp.Cache.Read.Fresh.{CacheLaws}

-- A result that is not an old live read: none, or a value that a subscription keeps current.
abbrev pub IsCurrent : Option ReadResult → Type 0
IsCurrent o = (o ≡ none) ⊎ ((r : ReadResult) × (o ≡ some r) × (r.source ≡ "subscription"))

module _ {W : Type 0} (b : Backend W) (cfg : CacheConfig) where
  write-world :
      (n : String) (v : Value) (w w1 : W)
      → cfg.enable_cache ≡ true
      → b.client_write n v w ≡ (none, w1)
      → (write b cfg n v w).1 ≡ invalidate b cfg n (b.get_value n w1).0 (b.get_value n w1).1
  unfolding write
  write-world n v w w1 on sent =
      let w2 = invalidate b cfg n (b.get_value n w1).0 (b.get_value n w1).1 in
      ap (λ x. (after_write b cfg n x).1) sent
      ∙ ap (λ c. (if◌then◌else◌ {A = Option Error × W} c (none, w2) (none, w1)).1) on

  invalidate-IsCurrent :
      (n : String)
      → CacheLaws b n
      → (max_age t : ℤ) (w : W) (r : Result _ (Option ValueEntry)) → (b.get_value n w).0 ≡ r
      → IsCurrent (decide b cfg n (b.get_value n (invalidate b cfg n r w)).0 t max_age)
  unfolding provenance value_entry_to_read_result
  invalidate-IsCurrent n laws max_age t w (err e) p = rw p (inl refl)
  invalidate-IsCurrent n laws max_age t w (ok none) p = rw p (inl refl)
  invalidate-IsCurrent n laws max_age t w (ok (some entry)) p =
      elim (Bool-cases (entry.source == "subscription")) [
        | inl s ↦ rw (s, p, decide, s) (inr (_, refl, refl))
        | inr s ↦ rw (s, laws.get_delete w) (inl refl)
      ]

  -- After a write that the server accepted, the next read of the node does not serve what a live
  -- read cached before: it goes live, or serves a subscription's value.
  pub write-serve :
      (n : String)
      → CacheLaws b n
      → (v : Value) (max_age : ℤ) (w w1 : W) → cfg.enable_cache ≡ true
      → b.client_write n v w ≡ (none, w1)
      → IsCurrent (serve b cfg max_age n (write b cfg n v w).1).0
  unfolding serve
  write-serve n laws v max_age w w1 on sent =
      let (r, w') = b.get_value n w1 in
      subst (λ u. IsCurrent (serve b cfg max_age n u).0) (sym (write-world n v w w1 on sent))
        (invalidate-IsCurrent n laws max_age _ w' r (laws.get_get w1))
