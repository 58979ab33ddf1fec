-- ===== src/ToolPolicy/Access.antt =====
-- What the tool policy of internal/mcp/tool_policy.go lets through.
use opcua_mcp.Prelude.{
  String, Bool, true, false, not, ◌||◌, ◌&&◌, List, [], ◌∷◌, Option, some, ◌==◌, ==_iff, string_eq,
  if◌then◌else◌, ◌≡◌, refl, sym, ap, ◌∙◌, arith, ◌↔◌, ◌⊎◌, inl, inr, Bool-cases,
}
use opcua_mcp.Prelude.Text.{is_empty, trim_space, split_comma}
use opcua_mcp.Prelude.Result.{ok, err, ok_inj}
use opcua_mcp.ToolPolicy.{
  ToolPolicy, unknown_tools, disabled, handled, contains, add, allow_parts, parse_allowed_tools,
  unknown_of, new_tool_policy, allows, tool_policy_filter, tool_policy_middleware, read_only_tools,
}

-- A name that a part of the list spells, blanks around it aside.
abbrev pub Spelled : String → List String → Type 0
Spelled name [] = ⊥
Spelled name (part ∷ parts) = (trim_space part ≡ name) ⊎ Spelled name parts

add-contains :
    (x name : String) (names : List String)
    → contains (add x names) name ≡ (x == name || contains names name)
unfolding contains
add-contains x name names = ground (arith, ==_iff x name)

allow_parts-contains :
    (parts : List String) (name : String)
    → (contains (allow_parts parts) name ≡ true) ↔ ((is_empty name ≡ false) × Spelled name parts)
unfolding allow_parts contains
allow_parts-contains [] name = ground arith
allow_parts-contains (part ∷ parts) name = ground (
  arith,
  allow_parts-contains parts name,
  add-contains (trim_space part) name (allow_parts parts),
  ==_iff (trim_space part) name,
)

-- The allowlist has exactly the names, not empty, that its parts between commas spell.
pub parse_allowed_tools-contains :
    (s name : String)
    → (contains (parse_allowed_tools s) name ≡ true)
      ↔ ((is_empty name ≡ false) × Spelled name (split_comma s))
unfolding parse_allowed_tools
parse_allowed_tools-contains s name = allow_parts-contains (split_comma s) name

-- A tool is listed if and only if it is registered and allowed.
pub tool_policy_filter-contains :
    (policy : Option ToolPolicy) (tools : List String) (name : String)
    → contains (tool_policy_filter policy tools) name ≡ (contains tools name && allows policy name)
unfolding tool_policy_filter contains
tool_policy_filter-contains policy [] name = refl
tool_policy_filter-contains policy (tool ∷ tools) name =
    ground (arith, tool_policy_filter-contains policy tools name, ==_iff tool name)

unknown_of-contains :
    (known names : List String) (name : String)
    → contains (unknown_of known names) name ≡ (contains names name && not (contains known name))
unfolding unknown_of contains
unknown_of-contains known [] name = refl
unknown_of-contains known (x ∷ xs) name =
    ground (arith, unknown_of-contains known xs name, ==_iff x name)

List-cases : {A : Type 0} → (xs : List A) → (xs ≡ []) ⊎ ((y : A) × (ys : List A) × (xs ≡ y ∷ ys))
List-cases [] = inl refl
List-cases (y ∷ ys) = inr (y, ys, refl)

built :
    (sort : List String → List String) (read_only : Bool) (s : String) (registered : List String)
    (p : ToolPolicy)
    → new_tool_policy sort read_only s registered ≡ ok p
    → (unknown_of registered (parse_allowed_tools s) ≡ [])
      × (p ≡ record { read_only = read_only; allowed = parse_allowed_tools s })
unfolding new_tool_policy
built sort read_only s registered p h =
    elim (List-cases (unknown_of registered (parse_allowed_tools s))) [
      | inl e ↦ (e, sym (ok_inj (rw (e, new_tool_policy) at h)))
      | inr (y, ys, e) ↦
          let failed : err (unknown_tools (sort (y ∷ ys)) (sort registered)) ≡ ok p =
            rw (e, new_tool_policy) at h in
          cc
    ]

-- A policy that was built allows no name that is not registered, however the list was spelled.
pub new_tool_policy-registered :
    (sort : List String → List String) (read_only : Bool) (s : String) (registered : List String)
    (p : ToolPolicy) (name : String)
    → new_tool_policy sort read_only s registered ≡ ok p
    → contains p.allowed name ≡ true
    → contains registered name ≡ true
unfolding contains
new_tool_policy-registered sort read_only s registered p name h allowed =
    let (none_unknown, e) = built sort read_only s registered p h in
    ground (
      arith,
      unknown_of-contains registered (parse_allowed_tools s) name,
      ap (λ names. contains names name) none_unknown,
      ap (λ q. contains q.allowed name) e,
      allowed,
    )

allows_lem :
    (p : ToolPolicy) (name : String)
    → allows (some p) name
      ≡ (not p.read_only || contains read_only_tools name || contains p.allowed name)
unfolding allows
allows_lem p name = elim (Bool-cases p.read_only) [ inl e ↦ rw e refl | inr e ↦ rw e refl ]

either_lem : (a b c : Bool) → (b ≡ true) ⊎ (c ≡ true) → (not a || b || c) ≡ true
either_lem a b c h = ground arith

Spelled-contains :
    (s : String) (p : ToolPolicy) (name : String)
    → p ≡ record { read_only = true; allowed = parse_allowed_tools s }
    → (is_empty name ≡ false) × Spelled name (split_comma s)
    → contains p.allowed name ≡ true
Spelled-contains s p name e h =
    ground (arith, parse_allowed_tools-contains s name, ap (λ q. contains q.allowed name) e, h)

module _ {R W : Type 0} where
  -- In read-only mode a tool outside the preset that the list does not spell is never run: its
  -- call is answered that the tool is disabled, and the handler's world is as it was.
  pub new_tool_policy-denies :
      (sort : List String → List String) (s : String) (registered : List String) (p : ToolPolicy)
      (next : String → W → R × W) (name : String) (w : W)
      → new_tool_policy sort true s registered ≡ ok p
      → contains read_only_tools name ≡ false
      → (Spelled name (split_comma s) → ⊥)
      → tool_policy_middleware (some p) next name w ≡ (disabled name, w)
  unfolding tool_policy_middleware
  new_tool_policy-denies sort s registered p next name w h preset unspelled =
      let (none_unknown, e) = built sort true s registered p h in
      let denied : contains p.allowed name ≡ false = ground (
        arith,
        parse_allowed_tools-contains s name,
        ap (λ q. contains q.allowed name) e,
        unspelled,
      ) in
      let no : allows (some p) name ≡ false =
        ground (arith, allows_lem p name, ap (λ q. q.read_only) e, preset, denied) in
      ap (λ c. if not c then (disabled name, w) else (handled (next name w).0, (next name w).1)) no

  -- In read-only mode a registered tool that the list spells is run, as one of the preset is.
  pub new_tool_policy-runs :
      (sort : List String → List String) (s : String) (registered : List String) (p : ToolPolicy)
      (next : String → W → R × W) (name : String) (w : W)
      → new_tool_policy sort true s registered ≡ ok p
      → (contains read_only_tools name ≡ true)
        ⊎ ((is_empty name ≡ false) × Spelled name (split_comma s))
      → let (r, w') = next name w in tool_policy_middleware (some p) next name w ≡ (handled r, w')
  unfolding tool_policy_middleware
  new_tool_policy-runs sort s registered p next name w h named =
      let (none_unknown, e) = built sort true s registered p h in
      let listed : (contains read_only_tools name ≡ true) ⊎ (contains p.allowed name ≡ true) =
        elim named [ inl q ↦ inl q | inr q ↦ inr (Spelled-contains s p name e q) ] in
      let yes = allows_lem p name ∙ either_lem p.read_only _ _ listed in
      ap (λ c. if not c then (disabled name, w) else (handled (next name w).0, (next name w).1)) yes
