-- ===== src/Handlers/ReadOnly.antt =====
-- Read-only mode of internal/mcp/server.go: whatever tools are called, nothing changes on the server.
use opcua_mcp.Prelude.{
  ℕ, String, true, false, List, [], ◌∷◌, Option, some, ◌≡◌, refl, sym, ap, ◌∙◌, arith, Bool-cases,
  inl, inr,
}
use opcua_mcp.Prelude.Result.{ok}
use opcua_mcp.ToolPolicy.{ToolPolicy, contains, read_only_tools, tool_policy_middleware}
use opcua_mcp.ToolPolicy.Access.{Spelled, new_tool_policy-denies}
use opcua_mcp.Prelude.{All, ◌==◌, ==_iff, string_eq, subst, Option-cases}
use opcua_mcp.Prelude.Text.{split_comma}
use opcua_mcp.Prelude.Dict.{lookup, All-lookup}
use opcua_mcp.Handlers.Answer.{Args}
use opcua_mcp.Handlers.Tools.{
  Parts, State, Handler, registered, tool_names, setup_tools, run_handler, call_tool, call_tools,
  ToolAnswer,
}
use opcua_mcp.Handlers.Unchanged.{changes, QuietParts, handle-quiet}

-- The tools whose handlers may change the server.
abbrev pub changing_tools : List String
changing_tools = "opcua_write" ∷ "opcua_disconnect" ∷ "opcua_subscribe" ∷ "opcua_unsubscribe" ∷ []

All-contains :
    (P : String → Type 0) (xs : List String) (name : String)
    → All P xs
    → contains xs name ≡ true
    → P name
unfolding contains
All-contains P [] name h c = ground (arith, c)
All-contains P (x ∷ xs) name (h, hs) c = elim (Bool-cases (x == name)) [
  | inl same ↦ subst P ((==_iff x name).0 same) h
  | inr other ↦ All-contains P xs name hs (rw other at c)
]

registered-changes :
    (name : String) (h : Handler)
    → lookup name registered ≡ some h
    → contains changing_tools name ≡ changes h
unfolding contains
registered-changes name h found =
    All-lookup (λ t. contains changing_tools t.0 ≡ changes t.1) name h registered
      (
        refl,
        (
          refl,
          (
            refl,
            (
              refl,
              (
                refl,
                (
                  refl,
                  (
                    refl,
                    (
                      refl,
                      (
                        refl,
                        (refl, (refl, (refl, (refl, (refl, (refl, (refl, (refl, (refl, tt))))))))),
                      ),
                    ),
                  ),
                ),
              ),
            ),
          ),
        ),
      )
      found

-- The list of allowed tools spells none of them.
abbrev pub Unspelled : String → Type 0
Unspelled allowed_tools = All (λ t. Spelled t (split_comma allowed_tools) → ⊥) changing_tools

module _ {W : Type 0} (p : Parts W) (n : W → ℕ) (q : QuietParts p n) where
  run_handler-quiet :
      (name : String) (a : Args) (s : State W)
      → contains changing_tools name ≡ false
      → n (run_handler p name (lookup name registered) a s).1.world ≡ n s.world
  unfolding run_handler
  run_handler-quiet name a s c = elim (Option-cases (lookup name registered)) [
    | inl missing ↦ rw missing refl
    | inr (h, found) ↦
        rw found (handle-quiet p n q h a s (sym (registered-changes name h found) ∙ c))
  ]

  tool_policy_middleware-quiet :
      (policy : Option ToolPolicy) (next : String → State W → ToolAnswer × State W) (name : String)
      (s : State W)
      → n (next name s).1.world ≡ n s.world
      → n (tool_policy_middleware policy next name s).1.world ≡ n s.world
  unfolding tool_policy_middleware
  tool_policy_middleware-quiet policy next name s h = ground (arith, h)

  call_tool-quiet :
      (sort : List String → List String) (allowed_tools : String) (policy : ToolPolicy)
      → setup_tools sort true allowed_tools ≡ ok policy
      → Unspelled allowed_tools
      → (name : String) (a : Args) (s : State W)
      → n (call_tool p (some policy) name a s).1.world ≡ n s.world
  unfolding call_tool setup_tools contains
  call_tool-quiet sort allowed_tools policy built unspelled name a s =
      elim (Bool-cases (contains changing_tools name)) [
        | inl changing ↦
            ap (λ x. n x.1.world)
              (new_tool_policy-denies sort allowed_tools tool_names policy
                (λ m t. run_handler p m (lookup m registered) a t) name s built
                (All-contains (λ t. contains read_only_tools t ≡ false) changing_tools name
                  (refl, (refl, (refl, (refl, tt)))) changing)
                (All-contains (λ t. Spelled t (split_comma allowed_tools) → ⊥) changing_tools name
                  unspelled changing))
        | inr reading ↦
            tool_policy_middleware-quiet (some policy)
              (λ m t. run_handler p m (lookup m registered) a t) name s
              (run_handler-quiet name a s reading)
      ]

  -- In read-only mode, with a list of allowed tools that spells none of opcua_write,
  -- opcua_disconnect, opcua_subscribe and opcua_unsubscribe, no sequence of tool calls, whatever
  -- their names and arguments, changes what reads, browses, connects and the local cache and index
  -- leave alone: with `n` the number of the write requests sent, none is sent.
  pub call_tools_read_only :
      (sort : List String → List String) (allowed_tools : String) (policy : ToolPolicy)
      → setup_tools sort true allowed_tools ≡ ok policy
      → Unspelled allowed_tools
      → (calls : List (String × Args)) (s : State W)
      → n (call_tools p (some policy) calls s).world ≡ n s.world
  unfolding call_tools
  call_tools_read_only sort allowed_tools policy built unspelled [] s = refl
  call_tools_read_only sort allowed_tools policy built unspelled ((name, a) ∷ calls) s =
      call_tools_read_only sort allowed_tools policy built unspelled calls
        (call_tool p (some policy) name a s).1
      ∙ call_tool-quiet sort allowed_tools policy built unspelled name a s
