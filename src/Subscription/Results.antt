-- ===== src/Subscription/Results.antt =====
-- What `subscribeInternal` leaves of the other subscriptions, and the subscriptions restored by
-- `restoreFromIntent`.
use opcua_mcp.Prelude.{
  ℕ, ◌+◌, ◌≡◌, refl, String, false, List, [], ◌∷◌, ◌++◌, none, some, arith, nat_beq, ◌==◌,
  string_eq, inl, inr, Bool-cases, Option-cases, ap, ◌∙◌,
}
use opcua_mcp.Prelude.Int.{ℤ, int_eq}
use opcua_mcp.Prelude.Lists.{All, length, length-append}
use opcua_mcp.Prelude.Dict.{lookup, lookup-put}
use opcua_mcp.Prelude.Result.{Result, ok, err, Result-cases}
use opcua_mcp.Store.Types.{SubscriptionIntent}
use opcua_mcp.Subscription.{
  Hub, Manager, SubscriptionRecord, IntervalGroup, NodeStatus, MonitorResult, Request, Accepted,
  new_group, put_group, route, build_requests, accept_results, finish, monitored, request,
  open_group, subscribe_internal, restore_all, warm_start, restore_from_intent,
}
use opcua_mcp.Subscription.Groups.{Inv, subscribe_internal-Inv}

-- Every result is counted once: the node was accepted or it was rejected.
pub accept_results-length :
    (results : List MonitorResult) (rs : List Request) (a b : Accepted)
    → accept_results results rs a ≡ some b
    → length b.accepted + length b.rejected ≡ length a.accepted + length a.rejected + length results
unfolding accept_results
accept_results-length [] rs a b h = ground arith
accept_results-length (r ∷ rest) [] a b h = cc
accept_results-length (r ∷ rest) ((handle, node) ∷ rs) a b h =
    elim (Bool-cases (nat_beq r.status 0)) [
      | inl e ↦ omega (
        arith,
        accept_results-length rest rs
            (record {
              group = route (handle, node) r.monitored_item_id a.group;
              accepted = a.accepted ++ node ∷ [];
              rejected = a.rejected;
            })
            b (rw (e, accept_results) at h),
        length-append a.accepted (node ∷ []),
      )
      | inr e ↦
          let status : NodeStatus = record { node_id = node; status = r.status } in
          omega (
            arith,
            accept_results-length rest rs (record a { rejected = a.rejected ++ status ∷ [] }) b
                (rw (e, accept_results) at h),
            length-append a.rejected (status ∷ []),
          )
    ]

module _ {W : Type 0} (hub : Hub W) where
  -- The subscriptions after an operation: as they were, or with one more under `id`.
  abbrev Touched : String → Manager → Manager → Type 0
  Touched id m m' =
      (j : String) → (id == j) ≡ false → lookup j m'.subscriptions ≡ lookup j m.subscriptions

  finish-Touched :
      (id : String) (interval created : ℤ) (a : Accepted) (m : Manager) (w : W)
      → (nodes : List String) → a.accepted ≡ nodes
      → Touched id m (finish hub id interval created a m w).manager
  finish-Touched id interval created a m w [] e j ne =
      elim (Bool-cases (nat_beq a.group.ref_count 0)) [
        | inl z ↦ rw (e, finish, z) refl
        | inr z ↦ rw (e, finish, z) refl
      ]
  finish-Touched id interval created a m w (n ∷ ns) e j ne =
      let r : SubscriptionRecord = record {
        id = id;
        node_ids = n ∷ ns;
        interval_ms = interval;
        created_at = created;
      } in
      rw (e, finish) (ground (arith, lookup-put id j r m.subscriptions))

  monitored-Touched :
      (id : String) (interval created : ℤ) (g : IntervalGroup) (rs : List Request) (m : Manager)
      (r : Result _ (List MonitorResult)) (w : W)
      → Touched id m (monitored hub id interval created g rs m r w).manager
  monitored-Touched id interval created g rs m (err e) w j ne = refl
  monitored-Touched id interval created g rs m (ok results) w j ne =
      let start : Accepted = record { group = g; accepted = []; rejected = [] } in
      elim (Option-cases (accept_results results rs start)) [
        | inl e ↦ rw (e, monitored) refl
        | inr (a, e) ↦
            rw (e, monitored) (finish-Touched id interval created a m w a.accepted refl j ne)
      ]

  request-Touched :
      (id : String) (nodes : List String) (interval created : ℤ) (g : IntervalGroup) (m : Manager)
      (w : W)
      → Touched id m (request hub id nodes interval created g m w).manager
  request-Touched id nodes interval created g m w j ne =
      let (last, built) = build_requests hub.is_node_id nodes m.next_handle in
      elim (Result-cases built) [
        | inl (e, p) ↦ rw (p, request) refl
        | inr (rs, p) ↦
            let (r, w') = hub.monitor g.sub rs w in
            rw (p, request)
              (monitored-Touched id interval created g rs (record m { next_handle = last }) r w' j
                ne)
      ]

  open_group-Touched :
      (id : String) (nodes : List String) (interval created : ℤ) (r : Result _ ℕ) (m : Manager)
      (w : W)
      → Touched id m (open_group hub id nodes interval created r m w).manager
  open_group-Touched id nodes interval created (err e) m w j ne = refl
  open_group-Touched id nodes interval created (ok sub) m w j ne =
      let g = new_group interval sub in
      request-Touched id nodes interval created g (put_group interval g m) w j ne

  -- A subscription leaves every other one as it was, whatever fails on the way.
  pub subscribe_internal-other :
      (id : String) (nodes : List String) (interval created : ℤ) (m : Manager) (w : W) (j : String)
      → (id == j) ≡ false
      → lookup j (subscribe_internal hub id nodes interval created m w).manager.subscriptions
        ≡ lookup j m.subscriptions
  unfolding subscribe_internal
  subscribe_internal-other id nodes interval created m w j ne =
      elim (Option-cases (lookup interval m.interval_groups)) [
        | inl e ↦
            let (r, w') = hub.subscribe interval w in
            rw (e, subscribe_internal) (open_group-Touched id nodes interval created r m w' j ne)
        | inr (g, e) ↦
            rw (e, subscribe_internal) (request-Touched id nodes interval created g m w j ne)
      ]

  -- The identifiers of the intents are distinct, and the manager has none of them.
  abbrev pub Fresh : List SubscriptionIntent → Manager → Type 0
  Fresh [] m = Unit
  Fresh (i ∷ is) m =
      (lookup i.id m.subscriptions ≡ none) × All (λ j. (i.id == j.id) ≡ false) is × Fresh is m

  abbrev pub Distinct : List SubscriptionIntent → Type 0
  Distinct [] = Unit
  Distinct (i ∷ is) = All (λ j. (i.id == j.id) ≡ false) is × Distinct is

  Distinct-Fresh :
      (is : List SubscriptionIntent) (m : Manager) → m.subscriptions ≡ [] → Distinct is → Fresh is m
  unfolding lookup
  Distinct-Fresh [] m e d = tt
  Distinct-Fresh (i ∷ is) m e d = (ap (lookup i.id) e, d.0, Distinct-Fresh is m e d.1)

  Fresh-subscribe :
      (i : SubscriptionIntent) (is : List SubscriptionIntent) (m : Manager) (w : W)
      → All (λ j. (i.id == j.id) ≡ false) is
      → Fresh is m
      → Fresh is (subscribe_internal hub i.id i.node_ids i.interval_ms i.created_at m w).manager
  Fresh-subscribe i [] m w d f = tt
  Fresh-subscribe i (j ∷ js) m w d f = (
    subscribe_internal-other i.id i.node_ids i.interval_ms i.created_at m w j.id d.0 ∙ f.0,
    f.1,
    Fresh-subscribe i js m w d.1 f.2,
  )

  restore_all-Inv :
      (is : List SubscriptionIntent) (m : Manager) (w : W)
      → Inv m
      → Fresh is m
      → Inv (restore_all hub is m w).0
  unfolding restore_all
  restore_all-Inv [] m w v f = v
  restore_all-Inv (i ∷ is) m w v f =
      restore_all-Inv is _ _
        (subscribe_internal-Inv hub i.id i.node_ids i.interval_ms i.created_at m w v f.0)
        (Fresh-subscribe i is m w f.1 f.2)

  -- `RestoreFromIntent` builds the maps again with the reference counts right, whatever the manager
  -- held before, when the identifiers of the stored intents are distinct.
  pub restore_from_intent-Inv :
      (m : Manager) (w : W)
      → ((is : List SubscriptionIntent) → (hub.list_subscriptions w).0 ≡ ok is → Distinct is)
      → Inv (restore_from_intent hub m w).manager
  unfolding restore_from_intent warm_start restore_all lookup
  restore_from_intent-Inv m w fresh =
      let m0 : Manager = record m { subscriptions = []; interval_groups = [] } in
      let v0 : Inv m0 = record { is_map = tt; counted = λ i. refl } in
      let (r, w') = hub.list_subscriptions w in
      elim (Result-cases r) [
        | inl (e, p) ↦ rw p v0
        | inr (is, p) ↦ rw p (restore_all-Inv is m0 w' v0 (Distinct-Fresh is m0 refl (fresh is p)))
      ]
