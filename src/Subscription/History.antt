-- ===== src/Subscription/History.antt =====
-- The histories of the manager: any sequence of `Start`, `Subscribe`, `Unsubscribe`, `rebuild` and
-- `resubscribe`, each with the world as it finds it. `restoreFromIntent` releases the mutex after
-- the reset and between the restored subscriptions: a history in which other calls come in between
-- has `discarded` for the reset and `subscribed` for each restored subscription.
use opcua_mcp.Prelude.{
  ◌≡◌, ◌≤◌, String, List, [], none, some, refl, sym, subst, arith, Option-cases, inl, inr, ==_iff,
  string_eq,
}
use opcua_mcp.Prelude.Int.{ℤ, int_eq}
use opcua_mcp.Prelude.Dict.{lookup}
use opcua_mcp.Prelude.Result.{ok}
use opcua_mcp.Store.Types.{SubscriptionIntent}
use opcua_mcp.Subscription.{
  Hub, Manager, IntervalGroup, SubscriptionRecord, new_manager, subscribe_internal, unsubscribe,
  rebuild, after_connect, resubscribe, start_manager, warm_start, install, Done,
  restore_from_intent,
}
use opcua_mcp.Subscription.Count.{count, count-remove}
use opcua_mcp.Subscription.Groups.{Inv, new_manager-Inv, subscribe_internal-Inv, unsubscribe-Inv}
use opcua_mcp.Subscription.Results.{Distinct, restore_from_intent-Inv}

module _ {W : Type 0} (hub : Hub W) where
  -- The managers that the methods can reach. `Subscribe` draws an identifier that no subscription
  -- has; the store lists a key once.
  pub data Reachable : Manager → Type 0 where
    started : Reachable new_manager
    subscribed :
        {m : Manager}
        → (id : String) (nodes : List String) (interval created : ℤ) (w : W)
        → lookup id m.subscriptions ≡ none
        → Reachable m
        → Reachable (subscribe_internal hub id nodes interval created m w).manager
    unsubscribed :
        {m : Manager}
        → (id : String) (w : W) → Reachable m
        → Reachable (unsubscribe hub id m w).manager
    begun :
        (install_handler : W → W) (w : W)
        → ((v : W) (is : List SubscriptionIntent)
            → (hub.list_subscriptions v).0 ≡ ok is
            → Distinct hub is)
        → Reachable (start_manager hub install_handler new_manager w).manager
    discarded :
        {m : Manager}
        → Reachable m
        → Reachable (record m { subscriptions = []; interval_groups = [] })
    resubscribed :
        {m : Manager}
        → (w : W)
        → ((v : W) (is : List SubscriptionIntent)
            → (hub.list_subscriptions v).0 ≡ ok is
            → Distinct hub is)
        → Reachable m
        → Reachable (resubscribe hub m w).0
    rebuilt :
        {m : Manager}
        → (w : W)
        → ((v : W) (is : List SubscriptionIntent)
            → (hub.list_subscriptions v).0 ≡ ok is
            → Distinct hub is)
        → Reachable m
        → Reachable (rebuild hub m w).manager

  rebuild-Inv :
      (m : Manager) (w : W)
      → ((v : W) (is : List SubscriptionIntent)
          → (hub.list_subscriptions v).0 ≡ ok is
          → Distinct hub is)
      → Inv m
      → Inv (rebuild hub m w).manager
  unfolding rebuild
  rebuild-Inv m w distinct v =
      let (e, w') = hub.connect w in
      elim (Option-cases e) [
        | inl p ↦ rw (p, after_connect) (restore_from_intent-Inv hub m w' (distinct w'))
        | inr (x, p) ↦ rw (p, after_connect) v
      ]

  install-manager :
      (install_handler : W → W) (d : Done W) → (install hub install_handler d).manager ≡ d.manager
  install-manager install_handler d = elim (Option-cases d.error) [
    | inl p ↦ rw p refl
    | inr (e, p) ↦ rw p refl
  ]

  start_manager-Inv :
      (install_handler : W → W) (w : W)
      → ((v : W) (is : List SubscriptionIntent)
          → (hub.list_subscriptions v).0 ≡ ok is
          → Distinct hub is)
      → Inv (start_manager hub install_handler new_manager w).manager
  unfolding start_manager restore_from_intent new_manager
  start_manager-Inv install_handler w distinct =
      subst Inv (sym (install-manager install_handler (warm_start hub new_manager w)))
        (restore_from_intent-Inv hub new_manager w (distinct w))

  resubscribe-Inv :
      (m : Manager) (w : W)
      → ((v : W) (is : List SubscriptionIntent)
          → (hub.list_subscriptions v).0 ≡ ok is
          → Distinct hub is)
      → Inv (resubscribe hub m w).0
  unfolding resubscribe
  resubscribe-Inv m w distinct = restore_from_intent-Inv hub m w (distinct w)

  discarded-Inv : (m : Manager) → Inv (record m { subscriptions = []; interval_groups = [] })
  unfolding lookup
  discarded-Inv m = record { is_map = tt; counted = λ i. refl }

  -- In every history the reference counts are right.
  pub Reachable-Inv : {m : Manager} → Reachable m → Inv m
  Reachable-Inv started = new_manager-Inv
  Reachable-Inv (subscribed {m = m} id nodes interval created w new r) =
      subscribe_internal-Inv hub id nodes interval created m w (Reachable-Inv r) new
  Reachable-Inv (unsubscribed {m = m} id w r) = unsubscribe-Inv hub id m w (Reachable-Inv r)
  Reachable-Inv (begun install_handler w distinct) = start_manager-Inv install_handler w distinct
  Reachable-Inv (discarded {m = m} r) = discarded-Inv m
  Reachable-Inv (resubscribed {m = m} w distinct r) = resubscribe-Inv m w distinct
  Reachable-Inv (rebuilt {m = m} w distinct r) = rebuild-Inv m w distinct (Reachable-Inv r)

  count-positive :
      (id : String) (r : SubscriptionRecord) (m : Manager)
      → Inv m
      → lookup id m.subscriptions ≡ some r
      → 1 ≤ count r.interval_ms m.subscriptions
  count-positive id r m v found = ground (
    arith,
    count-remove r.interval_ms id r m.subscriptions v.is_map found,
    ==_iff r.interval_ms r.interval_ms,
  )

  -- In every history the interval of a subscription has a group, with a reference to it.
  pub Reachable-group :
      {m : Manager}
      → (id : String) (r : SubscriptionRecord) → Reachable m
      → lookup id m.subscriptions ≡ some r
      → (g : IntervalGroup) × (lookup r.interval_ms m.interval_groups ≡ some g) × (1 ≤ g.ref_count)
  Reachable-group {m = m} id r reached found =
      let v = Reachable-Inv reached in
      let many = count-positive id r m v found in
      elim (Option-cases (lookup r.interval_ms m.interval_groups)) [
        | inl p ↦ ground (arith, v.counted r.interval_ms, many, p)
        | inr (g, p) ↦ (g, p, ground (arith, v.counted r.interval_ms, many, p))
      ]
