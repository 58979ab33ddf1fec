-- ===== src/Prelude/Dict.antt =====
-- Go's `map[K]V` as an association list with one entry for a key. The program never relies on the
-- order of a map's entries.
use mathlib.Core.Path.{◌≡◌, ap, subst, ◌∙◌}
use mathlib.Core.Logic.{inl, inr}
use mathlib.Core.Option.{Option, none, some}
use mathlib.Core.List.{List, [], ◌∷◌}
use native.Mathlib.Omega.{arith}
use opcua_mcp.Prelude.Lists.{All}
use opcua_mcp.Prelude.Tests.{Eq, ◌==◌, if◌then◌else◌, ==_iff, Bool-cases, some_inj}

abbrev pub Dict {ℓ κ} : Type ℓ → Type κ → Type (ℓ ⊔ κ)
Dict K V = List (K × V)

module _ {ℓ κ} {K : Type ℓ} {V : Type κ} ⦃e : Eq K⦄ where
  unfoldable pub lookup : K → Dict K V → Option V
  lookup k [] = none
  lookup k ((j, v) ∷ d) = if j == k then some v else lookup k d

  -- delete(d, k)
  unfoldable pub remove : K → Dict K V → Dict K V
  remove k [] = []
  remove k ((j, v) ∷ d) = let rest = remove k d in if j == k then rest else (j, v) ∷ rest

  -- d[k] = v
  unfoldable pub put : K → V → Dict K V → Dict K V
  unfolding remove
  put k v d = (k, v) ∷ remove k d

  pub lookup-remove :
      (k j : K) (d : Dict K V) → lookup j (remove k d) ≡ (if k == j then none else lookup j d)
  unfolding lookup remove
  lookup-remove k j [] = ground arith
  lookup-remove k j ((i, v) ∷ d) =
      ground (arith, lookup-remove k j d, ==_iff i k, ==_iff i j, ==_iff k j)

  pub lookup-put :
      (k j : K) (v : V) (d : Dict K V)
      → lookup j (put k v d) ≡ (if k == j then some v else lookup j d)
  unfolding put lookup
  lookup-put k j v d = ground (arith, lookup-remove k j d)

  pub All-lookup {ℓ2} :
      (P : K × V → Type ℓ2) (k : K) (v : V) (d : Dict K V)
      → All P d
      → lookup k d ≡ some v
      → P (k, v)
  unfolding lookup
  All-lookup P k v [] h p = ground (arith, p)
  All-lookup P k v ((j, u) ∷ d) (q, h) p = elim (Bool-cases (j == k)) [
    | inl same ↦
        subst P
          (ap (λ x. (x, u)) ((==_iff j k).0 same) ∙ ap (λ x. (k, x)) (some_inj (rw same at p))) q
    | inr other ↦ All-lookup P k v d h (rw other at p)
  ]

  pub All-remove {ℓ2} : (P : K × V → Type ℓ2) (k : K) (d : Dict K V) → All P d → All P (remove k d)
  unfolding remove
  All-remove P k [] h = tt
  All-remove P k ((j, v) ∷ d) (p, h) = elim (Bool-cases (j == k)) [
    | inl same ↦ rw same (All-remove P k d h)
    | inr other ↦ rw other (p, All-remove P k d h)
  ]
