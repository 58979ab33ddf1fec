-- ===== src/Handlers/Unsubscribe.antt =====
-- `handleSubscribe` and `handleUnsubscribe` of internal/mcp/server.go, over the subscription manager.
-- `json` parses a JSON array of texts.
use opcua_mcp.Prelude.{
  String, Bool, true, false, not, ◌&&◌, ◌||◌, List, [], ◌∷◌, Option, none, some, has, map, some_inj,
  ◌==◌, ==_iff, string_eq, if◌then◌else◌, ◌≡◌, refl, sym, ap, ◌∙◌, arith, Bool-cases, Option-cases,
  inl, inr,
}
use opcua_mcp.Prelude.Int.{ℤ, pos, lez, int_eq}
use opcua_mcp.Prelude.Dict.{Dict, lookup}
use opcua_mcp.Prelude.Text.{is_empty}
use opcua_mcp.Prelude.Result.{Result, ok, err, Result-cases}
use opcua_mcp.Requests.NodeIds.{ParseError, parse_node_ids}
use opcua_mcp.Subscription.Removal.{unsubscribe-lookup}
use opcua_mcp.Subscription.{
  Error, Hub, Manager, SubscriptionRecord, NodeStatus, Subscribed, subscribe_internal, unsubscribe,
  list_subscriptions, info_of,
}

-- The texts of the answers that report an error.
pub data Refusal : Type 0 where
  unavailable no_node_ids no_interval neither_given : Refusal
  not_parsed : ParseError → Refusal
  not_subscribed : Error → Refusal
  not_unsubscribed : String → Error → Refusal

pub record Handled (W A : Type 0) : Type 0 where
  pub answer : Result Refusal A
  pub manager : Manager
  pub world : W

pub record SubscribeAnswer : Type 0 where
  pub subscription_id : String
  pub accepted : List String
  pub rejected : List NodeStatus
  pub interval_ms : ℤ

abbrev in_rejected : String → List NodeStatus → Bool
in_rejected n [] = false
in_rejected n (s ∷ ss) = (s.node_id == n) || in_rejected n ss

-- The nodes that are not in `rejectedSet`.
unfoldable pub accepted_of : List String → List NodeStatus → List String
accepted_of [] rejected = []
accepted_of (n ∷ ns) rejected =
    let rest = accepted_of ns rejected in if in_rejected n rejected then rest else n ∷ rest

-- Whether a subscription has one of the nodes.
abbrev pub wants : List String → List String → Bool
wants requested [] = false
wants requested (n ∷ ns) = has n requested || wants requested ns

-- The subscriptions to remove for some nodes.
unfoldable pub matching : List String → List SubscriptionRecord → List String
matching requested [] = []
matching requested (r ∷ rs) =
    let rest = matching requested rs in if wants requested r.node_ids then r.id ∷ rest else rest

matching-has :
    (nodes : List String) (j : String) (r : SubscriptionRecord) (d : Dict String SubscriptionRecord)
    → lookup j d ≡ some r
    → r.id ≡ j
    → wants nodes r.node_ids ≡ true
    → has j (matching nodes (map info_of d)) ≡ true
unfolding matching lookup
matching-has nodes j r [] found own one = ground (arith, found)
matching-has nodes j r ((k, s) ∷ d) found own one = elim (Bool-cases (k == j)) [
  | inl here ↦
      let same = some_inj (rw here at found) in
      let wanted : wants nodes s.node_ids ≡ true = ap (λ x. wants nodes x.node_ids) same ∙ one in
      let named : (s.id == j) ≡ true = (==_iff s.id j).1 (ap (λ x. x.id) same ∙ own) in
      rw wanted (rw named refl)
  | inr there ↦
      let rest = matching-has nodes j r d (rw there at found) own one in
      elim (Bool-cases (wants nodes s.node_ids)) [
        | inl also ↦ rw also (ground (arith, rest))
        | inr no_node ↦ rw no_node rest
      ]
]

either_way :
    (a b : Bool) (o : Option SubscriptionRecord)
    → (if b then none else (if a then none else o)) ≡ (if a || b then none else o)
either_way true true o = refl
either_way true false o = refl
either_way false true o = refl
either_way false false o = refl

module _ {W : Type 0} (hub : Hub W) (json : String → Option (List String)) where
  abbrev parse : String → Result ParseError (List String)
  parse node_ids = parse_node_ids json hub.is_node_id node_ids

  abbrev stopped : {A : Type 0} → Refusal → Manager → W → Handled W A
  stopped e m w = record { answer = err e; manager = m; world = w }

  abbrev subscribed : List String → ℤ → Subscribed W → Handled W SubscribeAnswer
  subscribed nodes interval s = elim s.error [
    | some e ↦ stopped (not_subscribed e) s.manager s.world
    | none ↦ record {
      answer = ok (record {
        subscription_id = s.id;
        accepted = accepted_of nodes s.rejected;
        rejected = s.rejected;
        interval_ms = interval;
      });
      manager = s.manager;
      world = s.world;
    }
  ]

  -- `id` and `created` are what `Subscribe` draws for the new subscription.
  unfoldable pub handle_subscribe :
      Bool → String → ℤ → String → ℤ → Manager → W → Handled W SubscribeAnswer
  unfolding accepted_of subscribe_internal
  handle_subscribe available node_ids interval id created m w =
      if not available
      then stopped unavailable m w
      else if is_empty node_ids
      then stopped no_node_ids m w
      else elim (parse node_ids) [
        | err e ↦ stopped (not_parsed e) m w
        | ok nodes ↦
            if lez interval (pos 0)
            then stopped no_interval m w
            else subscribed nodes interval (subscribe_internal hub id nodes interval created m w)
      ]

  abbrev and_removed : String → Handled W (List String) → Handled W (List String)
  and_removed id h = elim h.answer [ ok ids ↦ record h { answer = ok (id ∷ ids) } | err e ↦ h ]

  -- The loop over the subscriptions to remove.
  unfoldable pub unsubscribe_all : List String → Manager → W → Handled W (List String)
  unfolding unsubscribe
  unsubscribe_all [] m w = record { answer = ok []; manager = m; world = w }
  unsubscribe_all (id ∷ ids) m w =
      let d = unsubscribe hub id m w in
      let rest = unsubscribe_all ids d.manager d.world in
      elim d.error [
        | some e ↦ stopped (not_unsubscribed id e) d.manager d.world
        | none ↦ and_removed id rest
      ]

  abbrev pub unsubscribe_nodes :
      Result ParseError (List String) → Manager → W → Handled W (List String)
  unsubscribe_nodes (err e) m w = stopped (not_parsed e) m w
  unsubscribe_nodes (ok nodes) m w = unsubscribe_all (matching nodes (list_subscriptions m)) m w

  unfoldable pub handle_unsubscribe : Bool → String → String → Manager → W → Handled W (List String)
  unfolding matching unsubscribe_all list_subscriptions
  handle_unsubscribe available id node_ids m w =
      if not available
      then stopped unavailable m w
      else if is_empty id && is_empty node_ids
      then stopped neither_given m w
      else if is_empty id
      then unsubscribe_nodes (parse node_ids) m w
      else unsubscribe_all (id ∷ []) m w

  and_removed-ok :
      (id : String) (h : Handled W (List String)) (removed : List String)
      → (and_removed id h).answer ≡ ok removed
      → ((rest : List String) × (h.answer ≡ ok rest)) × ((and_removed id h).manager ≡ h.manager)
  and_removed-ok id h removed e = elim (Result-cases h.answer) [
    | inr (rest, p) ↦ ((rest, p), rw p refl)
    | inl (x, p) ↦ ground (arith, p, rw p at e)
  ]

  unsubscribe_all-lookup :
      (j : String) (ids : List String) (m : Manager) (w : W) (removed : List String)
      → (unsubscribe_all ids m w).answer ≡ ok removed
      → lookup j (unsubscribe_all ids m w).manager.subscriptions
        ≡ (if has j ids then none else lookup j m.subscriptions)
  unfolding unsubscribe_all
  unsubscribe_all-lookup j [] m w removed e = refl
  unsubscribe_all-lookup j (id ∷ ids) m w removed e =
      let d = unsubscribe hub id m w in
      elim (Option-cases d.error) [
        | inr (x, p) ↦ ground (arith, rw (unsubscribe_all, p) at e)
        | inl p ↦
            let ((rest, q), same) =
              and_removed-ok id (unsubscribe_all ids d.manager d.world) removed
                (rw (unsubscribe_all, p) at e) in
            rw (unsubscribe_all, p)
              (ap (λ n. lookup j n.subscriptions) same
                ∙ unsubscribe_all-lookup j ids d.manager d.world rest q
                ∙ ap (λ o. if has j ids then none else o) (unsubscribe-lookup hub id j m w)
                ∙ either_way (id == j) (has j ids) (lookup j m.subscriptions))
      ]

  -- After an unsubscription by nodes that reports no error, no subscription that is left has one of
  -- the nodes. (A subscription is kept under its own identifier.)
  pub handle_unsubscribe-wants :
      (node_ids : String) (nodes removed : List String) (m : Manager) (w : W)
      → is_empty node_ids ≡ false
      → parse node_ids ≡ ok nodes
      → (handle_unsubscribe true "" node_ids m w).answer ≡ ok removed
      → (j : String) (r : SubscriptionRecord)
      → lookup j (handle_unsubscribe true "" node_ids m w).manager.subscriptions ≡ some r
      → r.id ≡ j
      → wants nodes r.node_ids ≡ false
  unfolding handle_unsubscribe list_subscriptions
  handle_unsubscribe-wants node_ids nodes removed m w given parsed e j r found own =
      let ids = matching nodes (map info_of m.subscriptions) in
      let after : lookup j (unsubscribe_all ids m w).manager.subscriptions ≡ some r =
        rw (given, parsed) at found in
      let left = sym (unsubscribe_all-lookup j ids m w removed (rw (given, parsed) at e)) ∙ after in
      elim (Bool-cases (wants nodes r.node_ids)) [
        | inr none_of_them ↦ none_of_them
        | inl one ↦ elim (Bool-cases (has j ids)) [
          | inl gone ↦ ground (arith, rw gone at left)
          | inr stays ↦
              let listed = matching-has nodes j r m.subscriptions (rw stays at left) own one in
              ground (arith, stays, listed)
        ]
      ]
