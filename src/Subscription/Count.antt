-- ===== src/Subscription/Count.antt =====
-- How many subscriptions of the manager have an interval, as its map changes.
use opcua_mcp.Prelude.{
  ℕ, ◌+◌, ◌≡◌, refl, String, [], ◌∷◌, none, some, arith, ◌==◌, ==_iff, string_eq, if◌then◌else◌, ap,
}
use opcua_mcp.Prelude.Int.{ℤ, int_eq}
use opcua_mcp.Prelude.Dict.{Dict, lookup, remove, put, lookup-remove}
use opcua_mcp.Subscription.{SubscriptionRecord}

-- A map has one entry for a key.
abbrev pub IsMap : Dict String SubscriptionRecord → Type 0
IsMap [] = Unit
IsMap ((k, r) ∷ d) = (lookup k d ≡ none) × IsMap d

abbrev pub one : ℤ → SubscriptionRecord → ℕ
one i r = if r.interval_ms == i then 1 else 0

abbrev pub count : ℤ → Dict String SubscriptionRecord → ℕ
count i [] = 0
count i ((k, r) ∷ d) = one i r + count i d

pub IsMap-remove : (k : String) (d : Dict String SubscriptionRecord) → IsMap d → IsMap (remove k d)
unfolding remove
IsMap-remove k [] m = tt
IsMap-remove k ((j, r) ∷ d) m = ground (arith, IsMap-remove k d m.1, lookup-remove k j d)

pub IsMap-put :
    (k : String) (r : SubscriptionRecord) (d : Dict String SubscriptionRecord)
    → IsMap d
    → IsMap (put k r d)
unfolding put
IsMap-put k r d m = ground (arith, IsMap-remove k d m, lookup-remove k k d, ==_iff k k)

count-remove_absent :
    (i : ℤ) (k : String) (d : Dict String SubscriptionRecord)
    → lookup k d ≡ none
    → count i (remove k d) ≡ count i d
unfolding lookup remove
count-remove_absent i k [] h = refl
count-remove_absent i k ((j, r) ∷ d) h = ground (arith, count-remove_absent i k d)

pub count-remove :
    (i : ℤ) (k : String) (r : SubscriptionRecord) (d : Dict String SubscriptionRecord)
    → IsMap d
    → lookup k d ≡ some r
    → one i r + count i (remove k d) ≡ count i d
unfolding lookup remove
count-remove i k r [] m h = cc
count-remove i k r ((j, s) ∷ d) m h =
    ground (arith, count-remove i k r d m.1, count-remove_absent i j d m.0, ==_iff j k)

pub count-put_new :
    (i : ℤ) (k : String) (r : SubscriptionRecord) (d : Dict String SubscriptionRecord)
    → lookup k d ≡ none
    → count i (put k r d) ≡ one i r + count i d
unfolding put
count-put_new i k r d h = ap (λ n. one i r + n) (count-remove_absent i k d h)
