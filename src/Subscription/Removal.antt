-- ===== src/Subscription/Removal.antt =====
-- What `Unsubscribe` of internal/opcua/subscription.go leaves of the subscriptions.
use opcua_mcp.Prelude.{
  String, Option, none, some, ◌==◌, ==_iff, string_eq, nat_beq, ◌-◌, if◌then◌else◌, ◌≡◌, refl, ap,
  ◌∙◌, arith, Bool-cases, Option-cases, inl, inr,
}
use opcua_mcp.Prelude.Int.{ℤ, int_eq}
use opcua_mcp.Prelude.Dict.{lookup, lookup-remove}
use opcua_mcp.Subscription.{
  Hub, Manager, IntervalGroup, SubscriptionRecord, unsubscribe, leave_group, drop_ref,
}

module _ {W : Type 0} (hub : Hub W) where
  drop_ref-subscriptions :
      (interval : ℤ) (g : IntervalGroup) (m : Manager) (w : W)
      → (drop_ref hub interval g m w).0.subscriptions ≡ m.subscriptions
  drop_ref-subscriptions interval g m w = elim (Bool-cases (nat_beq (g.ref_count - 1) 0)) [
    | inl last ↦ rw last refl
    | inr others ↦ rw others refl
  ]

  leave_group-subscriptions :
      (r : SubscriptionRecord) (g : Option IntervalGroup) (m : Manager) (w : W)
      → (leave_group hub r g m w).0.subscriptions ≡ m.subscriptions
  leave_group-subscriptions r none m w = refl
  leave_group-subscriptions r (some g) m w = drop_ref-subscriptions r.interval_ms _ m _

  -- An unsubscription removes this subscription, whatever it returns, and no other.
  pub unsubscribe-lookup :
      (id j : String) (m : Manager) (w : W)
      → lookup j (unsubscribe hub id m w).manager.subscriptions
        ≡ (if id == j then none else lookup j m.subscriptions)
  unfolding unsubscribe
  unsubscribe-lookup id j m w = elim (Option-cases (lookup id m.subscriptions)) [
    | inl p ↦ rw (unsubscribe, p) (ground (arith, ==_iff id j, p))
    | inr (r, p) ↦
        rw (unsubscribe, p)
          (lookup-remove id j _
            ∙ ap (λ d. if id == j then none else lookup j d)
                (leave_group-subscriptions r (lookup r.interval_ms m.interval_groups) m w))
  ]
