-- ===== src/Requests/NodeIds.antt =====
-- `ParseNodeIDs` of internal/opcua/client.go: the node identifiers of a tool's argument. The parsing
-- of JSON is a parameter, `none` for an error; so is whether `ua.ParseNodeID` accepts a text.
use Prim.Native.Char.{code}
use Prim.Native.String as Text
use text.Mathlib.Text.{starts_with}
use opcua_mcp.Prelude.{
  ℕ, suc, String, Bool, true, ◌&&◌, ◌||◌, List, [], ◌∷◌, Option, none, some, nat_beq, if◌then◌else◌,
  ◌≡◌, subst, arith, All, Bool-cases, inl, inr,
}
use opcua_mcp.Prelude.Text.{is_empty, trim_space, split_comma, contains_text}
use opcua_mcp.Prelude.Result.{Result, ok, err, Result-cases, ok_inj}

pub data ParseError : Type 0 where
  empty_input whitespace_only malformed_json invalid_node_id : ParseError
  empty_at : ℕ → ParseError
  invalid_at : ℕ → ParseError

-- `strings.Trim(s, "\"'")`
abbrev is_quote : ℕ → Bool
is_quote c = nat_beq c 34 || nat_beq c 39

unfoldable pub trim_quotes_left : String → String
trim_quotes_left Text.[] = Text.[]
trim_quotes_left (Text.◌∷◌ c s) =
    let rest = trim_quotes_left s in if is_quote (code c) then rest else Text.◌∷◌ c s

unfoldable pub trim_quotes_right : String → String
trim_quotes_right Text.[] = Text.[]
trim_quotes_right (Text.◌∷◌ c s) =
    let rest = trim_quotes_right s in
    if is_empty rest && is_quote (code c) then Text.[] else Text.◌∷◌ c rest

unfoldable pub trim_quotes : String → String
unfolding trim_quotes_left trim_quotes_right
trim_quotes s = trim_quotes_left (trim_quotes_right s)

abbrev cons_id : String → Result ParseError (List String) → Result ParseError (List String)
cons_id s (ok ss) = ok (s ∷ ss)
cons_id s (err e) = err e

module _ (json : String → Option (List String)) (is_node_id : String → Bool) where
  -- The loop over the parts, from position `i` on, with what is trimmed of each.
  unfoldable pub check_parts : (String → String) → ℕ → List String → Result ParseError (List String)
  check_parts trim i [] = ok []
  check_parts trim i (part ∷ parts) =
      let rest = check_parts trim (suc i) parts in
      let p = trim part in
      if is_empty p
      then err (empty_at i)
      else if is_node_id p
      then cons_id p rest
      else err (invalid_at i)

  abbrev pub parse_single : String → Result ParseError (List String)
  parse_single input =
      if is_node_id (trim_quotes input) then ok (trim_quotes input ∷ []) else err invalid_node_id

  abbrev pub parse_json : Option (List String) → Result ParseError (List String)
  parse_json none = err malformed_json
  parse_json (some ids) = check_parts trim_space 0 ids

  unfoldable pub parse_node_ids : String → Result ParseError (List String)
  unfolding trim_space split_comma check_parts trim_quotes contains_text
  parse_node_ids input =
      let s = trim_space input in
      if is_empty input
      then err empty_input
      else if is_empty s
      then err whitespace_only
      else if starts_with s "["
      then parse_json (json s)
      else if contains_text s ","
      then check_parts (λ part. trim_quotes (trim_space part)) 0 (split_comma s)
      else parse_single s

  abbrev Valid : List String → Type 0
  Valid ids = All (λ id. is_node_id id ≡ true) ids

  check_parts-Valid :
      (trim : String → String) (i : ℕ) (parts ids : List String)
      → check_parts trim i parts ≡ ok ids
      → Valid ids
  unfolding check_parts
  check_parts-Valid trim i [] ids e = subst Valid (ok_inj e) tt
  check_parts-Valid trim i (part ∷ parts) ids e = elim (Bool-cases (is_empty (trim part))) [
    | inl blank ↦ ground (arith, rw (check_parts, blank) at e)
    | inr some_text ↦ elim (Bool-cases (is_node_id (trim part))) [
      | inr bad ↦ ground (arith, rw (check_parts, some_text, bad) at e)
      | inl good ↦ elim (Result-cases (check_parts trim (suc i) parts)) [
        | inl (x, p) ↦ ground (arith, rw (check_parts, some_text, good, p) at e)
        | inr (rest, p) ↦
            subst Valid (ok_inj (rw (check_parts, some_text, good, p) at e))
              (good, check_parts-Valid trim (suc i) parts rest p)
      ]
    ]
  ]

  parse_single-Valid :
      (input : String) (ids : List String) → parse_single input ≡ ok ids → Valid ids
  parse_single-Valid input ids e = elim (Bool-cases (is_node_id (trim_quotes input))) [
    | inl good ↦ subst Valid (ok_inj (rw good at e)) (good, tt)
    | inr bad ↦ ground (arith, rw bad at e)
  ]

  parse_json-Valid :
      (parts : Option (List String)) (ids : List String) → parse_json parts ≡ ok ids → Valid ids
  parse_json-Valid none ids e = ground (arith, e)
  parse_json-Valid (some parts) ids e = check_parts-Valid trim_space 0 parts ids e

  -- Whatever form the argument has (one identifier, a list between commas, a JSON array), every
  -- identifier that is returned is one that gopcua accepts.
  pub parse_node_ids-Valid :
      (input : String) (ids : List String)
      → parse_node_ids input ≡ ok ids
      → All (λ id. is_node_id id ≡ true) ids
  unfolding parse_node_ids
  parse_node_ids-Valid input ids e =
      let s = trim_space input in
      elim (Bool-cases (is_empty input)) [
        | inl blank ↦ ground (arith, rw (parse_node_ids, blank) at e)
        | inr given ↦ elim (Bool-cases (is_empty s)) [
          | inl blank ↦ ground (arith, rw (parse_node_ids, given, blank) at e)
          | inr full ↦ elim (Bool-cases (starts_with s "[")) [
            | inl array ↦
                parse_json-Valid (json s) ids (rw (parse_node_ids, given, full, array) at e)
            | inr text ↦ elim (Bool-cases (contains_text s ",")) [
              | inl several ↦
                  check_parts-Valid (λ part. trim_quotes (trim_space part)) 0 (split_comma s) ids
                    (rw (parse_node_ids, given, full, text, several) at e)
              | inr one ↦
                  parse_single-Valid s ids (rw (parse_node_ids, given, full, text, one) at e)
            ]
          ]
        ]
      ]
