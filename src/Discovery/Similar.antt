-- ===== src/Discovery/Similar.antt =====
-- `isSimilarString` of internal/opcua/discovery.go, on the bytes of the strings.
use Prim.Native.Nat.{◌/◌}
use opcua_mcp.Prelude.{
  ℕ, zero, suc, ◌-◌, ◌*◌, Bool, true, false, ◌&&◌, ◌||◌, List, [], ◌∷◌, length, ltb, leb, nat_beq,
  string_eq, if◌then◌else◌, ◌≡◌, refl, arith,
}

-- b[:n] and b[n:]
abbrev pub take : ℕ → List ℕ → List ℕ
take zero bs = []
take (suc n) [] = []
take (suc n) (b ∷ bs) = b ∷ take n bs

abbrev pub drop : ℕ → List ℕ → List ℕ
drop zero bs = bs
drop (suc n) [] = []
drop (suc n) (b ∷ bs) = drop n bs

-- Equality of two strings of bytes.
unfoldable pub same_bytes : List ℕ → List ℕ → Bool
same_bytes [] [] = true
same_bytes [] (b ∷ bs) = false
same_bytes (a ∷ xs) [] = false
same_bytes (a ∷ xs) (b ∷ bs) = nat_beq a b && same_bytes xs bs

-- The places, below the length of the shorter one, where two strings have the same byte.
unfoldable pub overlap : List ℕ → List ℕ → ℕ
overlap [] bs = 0
overlap (a ∷ xs) [] = 0
overlap (a ∷ xs) (b ∷ bs) = let rest = overlap xs bs in if nat_beq a b then suc rest else rest

abbrev pub min : ℕ → ℕ → ℕ
min a b = if ltb b a then b else a

-- The number of bytes of a prefix or a suffix that are compared.
abbrev pub affix : ℕ → ℕ
affix min_len = let half = min_len / 2 in if ltb 3 half then 3 else half

-- `isSimilarString`, from the lengths, the shorter length, the tests of the affixes and the overlap;
-- of two integers up to 6, overlap / min > 0.7 in floats exactly if 10 * overlap > 7 * min, and the
-- comparison with 0 / 0 is false.
abbrev judge : Bool → Bool → ℕ → Bool → Bool → ℕ → Bool
judge longer shorter min_len prefix suffix same =
    if longer || shorter
    then false
    else if leb 3 min_len && prefix
    then true
    else if leb 3 min_len && suffix
    then true
    else if leb min_len 6
    then ltb (7 * min_len) (10 * same)
    else false

unfoldable pub is_similar_string : List ℕ → List ℕ → Bool
unfolding same_bytes overlap
is_similar_string s1 s2 =
    let n1 = length s1 in
    let n2 = length s2 in
    let min_len = min n1 n2 in
    let n = affix min_len in
    judge (ltb (n2 * 2) n1) (ltb (n1 * 2) n2) min_len (same_bytes (take n s1) (take n s2))
      (same_bytes (drop (n1 - n) s1) (drop (n2 - n) s2)) (overlap s1 s2)

same_bytes_comm : (xs bs : List ℕ) → same_bytes xs bs ≡ same_bytes bs xs
unfolding same_bytes
same_bytes_comm [] [] = refl
same_bytes_comm [] (b ∷ bs) = refl
same_bytes_comm (a ∷ xs) [] = refl
same_bytes_comm (a ∷ xs) (b ∷ bs) = ground (arith, same_bytes_comm xs bs)

overlap_comm : (xs bs : List ℕ) → overlap xs bs ≡ overlap bs xs
unfolding overlap
overlap_comm [] [] = refl
overlap_comm [] (b ∷ bs) = refl
overlap_comm (a ∷ xs) [] = refl
overlap_comm (a ∷ xs) (b ∷ bs) = ground (arith, overlap_comm xs bs)

min_comm : (a b : ℕ) → min a b ≡ min b a
min_comm a b = ground arith

judge_comm :
    (longer shorter : Bool) (m : ℕ) (p s : Bool) (o : ℕ)
    → judge longer shorter m p s o ≡ judge shorter longer m p s o
judge_comm true true m p s o = refl
judge_comm true false m p s o = refl
judge_comm false true m p s o = refl
judge_comm false false m p s o = refl

-- Whether two strings are similar does not depend on which of them is the name of the node and which
-- was searched for.
pub is_similar_string_comm : (s t : List ℕ) → is_similar_string s t ≡ is_similar_string t s
unfolding is_similar_string
is_similar_string_comm s t =
    let m = min_comm (length s) (length t) in
    let n = affix (min (length t) (length s)) in
    rw
      (
        m,
        same_bytes_comm (take n s) (take n t),
        same_bytes_comm (drop (length s - n) s) (drop (length t - n) t),
        overlap_comm s t,
      )
      (judge_comm (ltb (length t * 2) (length s)) (ltb (length s * 2) (length t))
        (min (length t) (length s)) (same_bytes (take n t) (take n s))
        (same_bytes (drop (length t - n) t) (drop (length s - n) s)) (overlap t s))
