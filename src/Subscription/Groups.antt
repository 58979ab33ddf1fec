-- ===== src/Subscription/Groups.antt =====
-- The invariant of the manager: the reference count of an interval's group is the number of
-- subscriptions with that interval.
use opcua_mcp.Prelude.{
  ℕ, ◌+◌, ◌-◌, ◌≡◌, refl, sym, String, List, [], ◌∷◌, ◌++◌, Option, none, some, arith, nat_beq,
  ==_iff, string_eq, inl, inr, Bool-cases, Option-cases, ap, ◌∙◌,
}
use opcua_mcp.Prelude.Int.{ℤ, int_eq}
use opcua_mcp.Prelude.Dict.{lookup, remove, lookup-remove, lookup-put}
use opcua_mcp.Prelude.Result.{Result, ok, err, Result-cases}
use opcua_mcp.Subscription.{
  Hub, Manager, SubscriptionRecord, IntervalGroup, NodeStatus, MonitorResult, Request, Accepted,
  new_manager, new_group, put_group, remove_group, route, build_requests, accept_results, unroute,
  keep, finish, monitored, request, open_group, subscribe_internal, drop_ref, leave_group,
  unsubscribe,
}
use opcua_mcp.Subscription.Count.{
  IsMap, IsMap-put, IsMap-remove, count, count-put_new, count-remove,
}

-- The references that an interval's group counts; no group counts none.
abbrev pub refs : Option IntervalGroup → ℕ
refs none = 0
refs (some g) = g.ref_count

pub record Inv (m : Manager) : Type 0 where
  pub is_map : IsMap m.subscriptions
  pub counted : (i : ℤ) → refs (lookup i m.interval_groups) ≡ count i m.subscriptions

pub new_manager-Inv : Inv new_manager
unfolding new_manager lookup
new_manager-Inv = record { is_map = tt; counted = λ i. refl }

accept_results-ref_count :
    (results : List MonitorResult) (rs : List Request) (a b : Accepted)
    → accept_results results rs a ≡ some b
    → b.group.ref_count ≡ a.group.ref_count
unfolding accept_results
accept_results-ref_count [] rs a b h = ground arith
accept_results-ref_count (r ∷ rest) [] a b h = cc
accept_results-ref_count (r ∷ rest) ((handle, node) ∷ rs) a b h =
    elim (Bool-cases (nat_beq r.status 0)) [
      | inl e ↦
          accept_results-ref_count rest rs
            (record {
              group = route (handle, node) r.monitored_item_id a.group;
              accepted = a.accepted ++ node ∷ [];
              rejected = a.rejected;
            })
            b (rw (e, accept_results) at h)
      | inr e ↦
          accept_results-ref_count rest rs
            (record a {
              rejected = a.rejected ++ record { node_id = node; status = r.status } ∷ [];
            })
            b (rw (e, accept_results) at h)
    ]

unroute-ref_count :
    (nodes : List String) (g : IntervalGroup) → (unroute nodes g).1.ref_count ≡ g.ref_count
unfolding unroute
unroute-ref_count [] g = refl
unroute-ref_count (n ∷ ns) g = unroute-ref_count ns _

module _ {W : Type 0} (hub : Hub W) where
  module _ (m : Manager) (v : Inv m) where
    keep-Inv :
        (r : SubscriptionRecord) (rejected : List NodeStatus) (g : IntervalGroup) (w : W)
        → lookup r.id m.subscriptions ≡ none
        → refs (lookup r.interval_ms m.interval_groups) ≡ g.ref_count
        → Inv (keep hub r rejected g m w).manager
    keep-Inv r rejected g w new same = record {
      is_map = IsMap-put r.id r m.subscriptions v.is_map;
      counted = λ i.
          let g' = record g { ref_count = g.ref_count + 1 } in
          ground (
            arith,
            v.counted i,
            same,
            lookup-put r.interval_ms i g' m.interval_groups,
            count-put_new i r.id r m.subscriptions new,
            ==_iff r.interval_ms i,
          );
    }

    remove_group-Inv :
        (interval : ℤ)
        → refs (lookup interval m.interval_groups) ≡ 0
        → Inv (remove_group interval m)
    remove_group-Inv interval z = record {
      is_map = v.is_map;
      counted = λ i.
          ground
            (arith, v.counted i, z, lookup-remove interval i m.interval_groups, ==_iff interval i);
    }

    put_new-Inv :
        (interval : ℤ) (sub : ℕ)
        → lookup interval m.interval_groups ≡ none
        → Inv (put_group interval (new_group interval sub) m)
    put_new-Inv interval sub absent = record {
      is_map = v.is_map;
      counted = λ i. ground (
        arith,
        v.counted i,
        absent,
        lookup-put interval i (new_group interval sub) m.interval_groups,
        ==_iff interval i,
      );
    }

  finish-Inv :
      (id : String) (interval created : ℤ) (a : Accepted) (m : Manager) (w : W)
      → Inv m
      → lookup id m.subscriptions ≡ none
      → refs (lookup interval m.interval_groups) ≡ a.group.ref_count
      → (nodes : List String) → a.accepted ≡ nodes
      → Inv (finish hub id interval created a m w).manager
  finish-Inv id interval created a m w v new same [] e =
      rw (e, finish)
        (elim (Bool-cases (nat_beq a.group.ref_count 0)) [
          | inl z ↦ rw z (remove_group-Inv m v interval (ground arith))
          | inr z ↦ rw z v
        ])
  finish-Inv id interval created a m w v new same (n ∷ ns) e =
      let r : SubscriptionRecord = record {
        id = id;
        node_ids = n ∷ ns;
        interval_ms = interval;
        created_at = created;
      } in
      rw (e, finish) (keep-Inv m v r a.rejected a.group w new same)

  monitored-Inv :
      (id : String) (interval created : ℤ) (g : IntervalGroup) (rs : List Request) (m : Manager)
      (r : Result _ (List MonitorResult)) (w : W)
      → Inv m
      → lookup id m.subscriptions ≡ none
      → refs (lookup interval m.interval_groups) ≡ g.ref_count
      → Inv (monitored hub id interval created g rs m r w).manager
  monitored-Inv id interval created g rs m (err e) w v new same = v
  monitored-Inv id interval created g rs m (ok results) w v new same =
      let start : Accepted = record { group = g; accepted = []; rejected = [] } in
      elim (Option-cases (accept_results results rs start)) [
        | inl e ↦ rw (e, monitored) v
        | inr (a, e) ↦
            rw (e, monitored)
              (finish-Inv id interval created a m w v new
                (same ∙ sym (accept_results-ref_count results rs start a e)) a.accepted refl)
      ]

  request-Inv :
      (id : String) (nodes : List String) (interval created : ℤ) (g : IntervalGroup) (m : Manager)
      (w : W)
      → Inv m
      → lookup id m.subscriptions ≡ none
      → refs (lookup interval m.interval_groups) ≡ g.ref_count
      → Inv (request hub id nodes interval created g m w).manager
  request-Inv id nodes interval created g m w v new same =
      let (last, built) = build_requests hub.is_node_id nodes m.next_handle in
      let m' = record m { next_handle = last } in
      let v' : Inv m' = record { is_map = v.is_map; counted = v.counted } in
      elim (Result-cases built) [
        | inl (e, p) ↦ rw (p, request) v'
        | inr (rs, p) ↦
            let (r, w') = hub.monitor g.sub rs w in
            rw (p, request) (monitored-Inv id interval created g rs m' r w' v' new same)
      ]

  open_group-Inv :
      (id : String) (nodes : List String) (interval created : ℤ) (r : Result _ ℕ) (m : Manager)
      (w : W)
      → Inv m
      → lookup id m.subscriptions ≡ none
      → lookup interval m.interval_groups ≡ none
      → Inv (open_group hub id nodes interval created r m w).manager
  open_group-Inv id nodes interval created (err e) m w v new absent = v
  open_group-Inv id nodes interval created (ok sub) m w v new absent =
      let g = new_group interval sub in
      request-Inv id nodes interval created g (put_group interval g m) w
        (put_new-Inv m v interval sub absent) new
        (ground (arith, lookup-put interval interval g m.interval_groups, ==_iff interval interval))

  -- A subscription under a new identifier keeps the invariant, whatever fails on the way.
  pub subscribe_internal-Inv :
      (id : String) (nodes : List String) (interval created : ℤ) (m : Manager) (w : W)
      → Inv m
      → lookup id m.subscriptions ≡ none
      → Inv (subscribe_internal hub id nodes interval created m w).manager
  unfolding subscribe_internal
  subscribe_internal-Inv id nodes interval created m w v new =
      elim (Option-cases (lookup interval m.interval_groups)) [
        | inl e ↦
            let (r, w') = hub.subscribe interval w in
            rw (e, subscribe_internal) (open_group-Inv id nodes interval created r m w' v new e)
        | inr (g, e) ↦
            rw (e, subscribe_internal)
              (request-Inv id nodes interval created g m w v new (ap refs e))
      ]

  drop_ref-Inv :
      (id : String) (r : SubscriptionRecord) (g : IntervalGroup) (m : Manager) (w : W)
      → Inv m
      → lookup id m.subscriptions ≡ some r
      → refs (lookup r.interval_ms m.interval_groups) ≡ g.ref_count
      → let m' = (drop_ref hub r.interval_ms g m w).0 in
        Inv (record m' { subscriptions = remove id m'.subscriptions })
  drop_ref-Inv id r g m w v found same = elim (Bool-cases (nat_beq (g.ref_count - 1) 0)) [
    | inl e ↦ rw e (record {
      is_map = IsMap-remove id m.subscriptions v.is_map;
      counted = λ i. ground (
        arith,
        v.counted i,
        same,
        lookup-remove r.interval_ms i m.interval_groups,
        count-remove i id r m.subscriptions v.is_map found,
        ==_iff r.interval_ms i,
      );
    })
    | inr e ↦ rw e (record {
      is_map = IsMap-remove id m.subscriptions v.is_map;
      counted = λ i.
          let g' = record g { ref_count = g.ref_count - 1 } in
          ground (
            arith,
            v.counted i,
            same,
            lookup-put r.interval_ms i g' m.interval_groups,
            count-remove i id r m.subscriptions v.is_map found,
            ==_iff r.interval_ms i,
          );
    })
  ]

  leave_group-Inv :
      (id : String) (r : SubscriptionRecord) (o : Option IntervalGroup) (m : Manager) (w : W)
      → Inv m
      → lookup id m.subscriptions ≡ some r
      → lookup r.interval_ms m.interval_groups ≡ o
      → let m' = (leave_group hub r o m w).0 in
        Inv (record m' { subscriptions = remove id m'.subscriptions })
  leave_group-Inv id r none m w v found e = record {
    is_map = IsMap-remove id m.subscriptions v.is_map;
    counted = λ i. ground (
      arith,
      v.counted i,
      v.counted r.interval_ms,
      count-remove i id r m.subscriptions v.is_map found,
      ==_iff r.interval_ms i,
    );
  }
  leave_group-Inv id r (some g) m w v found e =
      drop_ref-Inv id r (unroute r.node_ids g).1 m _ v found
        (ap refs e ∙ sym (unroute-ref_count r.node_ids g))

  -- Unsubscribing keeps the invariant, whether or not the subscription is known.
  pub unsubscribe-Inv :
      (id : String) (m : Manager) (w : W) → Inv m → Inv (unsubscribe hub id m w).manager
  unfolding unsubscribe
  unsubscribe-Inv id m w v = elim (Option-cases (lookup id m.subscriptions)) [
    | inl e ↦ rw (e, unsubscribe) v
    | inr (r, e) ↦
        rw (e, unsubscribe)
          (leave_group-Inv id r (lookup r.interval_ms m.interval_groups) m w v e refl)
  ]
