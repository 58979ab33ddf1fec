-- ===== src/Handlers/Read.antt =====
-- `handleRead` of internal/mcp/server.go, with the fallback where the answer cannot be marshalled
-- (marshalReadResponseWithFallback, fixUnmarshalableValues). An entry of the response is the result
-- of the cached read. encoding/json is the parameter `Marshal`.
use opcua_mcp.Prelude.{
  ℕ, String, Bool, true, false, subst, sym, List, [], ◌∷◌, Option, none, some, if◌then◌else◌, ◌≡◌,
  ◌≢◌, refl, arith, All, ◌⊎◌, inl, inr, Option-cases,
}
use opcua_mcp.Prelude.Text.{is_empty}
use opcua_mcp.Prelude.Int.{ℤ}
use opcua_mcp.Prelude.Result.{Result, ok, err, Result-cases}
use opcua_mcp.Value.{string}
use opcua_mcp.Requests.NodeIds.{ParseError, parse_node_ids}
use opcua_mcp.Cache.{Error, Backend, CacheConfig, ReadResult, read}

-- encoding/json on the response and on one entry of it, its errors by number; and the texts that
-- `fmt.Sprintf` makes of an error.
pub record Marshal : Type 0 where
  pub response : List ReadResult → Result ℕ String
  pub entry_error : ReadResult → Option ℕ
  pub value_text : ℕ → String
  pub error_payload : ℕ → String

pub data ReadRefusal : Type 0 where
  no_node_ids : ReadRefusal
  bad_node_ids : ParseError → ReadRefusal
  read_failed : Error → ReadRefusal

module _ (m : Marshal) where
  abbrev pub fix_entry : ReadResult → Option ℕ → ReadResult
  fix_entry r none = r
  fix_entry r (some e) = record r { value = string (m.value_text e) }

  unfoldable pub fix_unmarshalable_values : List ReadResult → List ReadResult
  fix_unmarshalable_values [] = []
  fix_unmarshalable_values (r ∷ rs) = fix_entry r (m.entry_error r) ∷ fix_unmarshalable_values rs

  abbrev pub or_payload : Result ℕ String → String
  or_payload (ok text) = text
  or_payload (err e) = m.error_payload e

  unfoldable pub marshal_read_response_with_fallback : List ReadResult → String
  unfolding fix_unmarshalable_values
  marshal_read_response_with_fallback rs = or_payload (m.response (fix_unmarshalable_values rs))

  abbrev pub marshalled : List ReadResult → Result ℕ String → String
  unfolding marshal_read_response_with_fallback
  marshalled rs (ok text) = text
  marshalled rs (err e) = marshal_read_response_with_fallback rs

  abbrev pub answer_of :
      {W : Type 0} → Result Error (List ReadResult) × W → Result ReadRefusal String × W
  answer_of (err e, w) = (err (read_failed e), w)
  answer_of (ok rs, w) = (ok (marshalled rs (m.response rs)), w)

  module _ {W : Type 0} (b : Backend W) (cfg : CacheConfig) (json : String → Option (List String))
      (is_node_id : String → Bool) where
    abbrev pub read_parsed : Result ParseError (List String) → ℤ → W → Result ReadRefusal String × W
    read_parsed (err e) max_age_ms w = (err (bad_node_ids e), w)
    read_parsed (ok ids) max_age_ms w = answer_of (read b cfg ids max_age_ms w)

    unfoldable pub handle_read : String → ℤ → W → Result ReadRefusal String × W
    handle_read node_ids max_age_ms w =
        if is_empty node_ids
        then (err no_node_ids, w)
        else read_parsed (parse_node_ids json is_node_id node_ids) max_age_ms w

  -- The documented behaviour of encoding/json: a slice is marshalled if all of its elements are; an
  -- object with a text for its value is, if its times are of years that RFC 3339 can write.
  pub record MarshalLaws (in_years : ReadResult → Bool) : Type 0 where
    pub slice :
        (rs : List ReadResult)
        → All (λ r. m.entry_error r ≡ none) rs
        → (text : String) × (m.response rs ≡ ok text)
    pub text_value :
        (r : ReadResult) (s : String)
        → in_years r ≡ true
        → m.entry_error (record r { value = string s }) ≡ none

  -- The second list is the first but for values that could not be marshalled.
  abbrev pub Kept : List ReadResult → List ReadResult → Type 0
  Kept [] [] = Unit
  Kept [] (r' ∷ rs') = [] ≡ r' ∷ rs'
  Kept (r ∷ rs) [] = [] ≡ r ∷ rs
  Kept (r ∷ rs) (r' ∷ rs') =
      ((r' ≡ r)
        ⊎ ((m.entry_error r ≢ none) × ((text : String) × (r' ≡ record r { value = string text }))))
      × Kept rs rs'

  Kept-refl : (rs : List ReadResult) → Kept rs rs
  Kept-refl [] = tt
  Kept-refl (r ∷ rs) = (inl refl, Kept-refl rs)

  -- An answer with these results, but for values that could not be marshalled.
  abbrev pub Answer : List ReadResult → Result ReadRefusal String → Type 0
  Answer rs r =
      (rs' : List ReadResult) × (text : String) × (r ≡ ok text)
      × (m.response rs' ≡ ok text)
      × Kept rs rs'

  fix_unmarshalable_values-Kept : (rs : List ReadResult) → Kept rs (fix_unmarshalable_values rs)
  unfolding fix_unmarshalable_values
  fix_unmarshalable_values-Kept [] = tt
  fix_unmarshalable_values-Kept (r ∷ rs) = elim (Option-cases (m.entry_error r)) [
    | inl p ↦ rw p (inl refl, fix_unmarshalable_values-Kept rs)
    | inr (e, p) ↦
        rw p
          (inr (λ q. ground (arith, q), (m.value_text e, refl)), fix_unmarshalable_values-Kept rs)
  ]

  module _ (in_years : ReadResult → Bool) (laws : MarshalLaws in_years) where
    fix_unmarshalable_values-good :
        (rs : List ReadResult)
        → All (λ r. in_years r ≡ true) rs
        → All (λ r. m.entry_error r ≡ none) (fix_unmarshalable_values rs)
    unfolding fix_unmarshalable_values
    fix_unmarshalable_values-good [] h = tt
    fix_unmarshalable_values-good (r ∷ rs) (h, hs) = elim (Option-cases (m.entry_error r)) [
      | inl p ↦ (rw p p, fix_unmarshalable_values-good rs hs)
      | inr (e, p) ↦
          (rw p (laws.text_value r (m.value_text e) h), fix_unmarshalable_values-good rs hs)
    ]

    module _ {W : Type 0} (b : Backend W) (cfg : CacheConfig) (json : String → Option (List String))
        (is_node_id : String → Bool) where
      answer_of-Answer :
          (rs : List ReadResult) (w : W)
          → All (λ r. in_years r ≡ true) rs
          → Answer rs (answer_of (ok rs, w)).0
      unfolding marshal_read_response_with_fallback
      answer_of-Answer rs w h = elim (Result-cases (m.response rs)) [
        | inr (text, p) ↦ (rs, text, rw p refl, p, Kept-refl rs)
        | inl (e, p) ↦
            let (text, q) =
              laws.slice (fix_unmarshalable_values rs) (fix_unmarshalable_values-good rs h) in
            (fix_unmarshalable_values rs, text, rw (p, q) refl, q, fix_unmarshalable_values-Kept rs)
      ]

      -- A value that cannot be marshalled costs no other result: where the argument names nodes and
      -- the cached read gives results with times of writable years, the handler answers with the
      -- JSON of these results, of which only values that could not be marshalled were replaced, by
      -- a text. (The hypotheses: json marshals a slice if it does each element, and it marshals an
      -- entry whose value is a text.)
      pub handle_read-Answer :
          (node_ids : String) (ids : List String) (max_age_ms : ℤ) (rs : List ReadResult) (w : W)
          → is_empty node_ids ≡ false
          → parse_node_ids json is_node_id node_ids ≡ ok ids
          → (read b cfg ids max_age_ms w).0 ≡ ok rs
          → All (λ r. in_years r ≡ true) rs
          → Answer rs (handle_read b cfg json is_node_id node_ids max_age_ms w).0
      unfolding handle_read
      handle_read-Answer node_ids ids max_age_ms rs w given parsed results h =
          rw (given, parsed)
            (subst (λ x. Answer rs (answer_of (x, (read b cfg ids max_age_ms w).1)).0) (sym results)
              (answer_of-Answer rs (read b cfg ids max_age_ms w).1 h))
