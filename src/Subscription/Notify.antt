-- ===== src/Subscription/Notify.antt =====
-- The pump of internal/opcua/subscription.go (pump, handleNotification, lookupNodeIDLocked): how the
-- values that the server publishes reach the cache.
use opcua_mcp.Prelude.{
  ℕ, String, Bool, true, false, List, [], ◌∷◌, Option, none, some, length, ◌==◌, nat_eq, string_eq,
  if◌then◌else◌, ==_iff, ◌≡◌, refl, sym, ap, subst, ◌∙◌, Bool-cases, inl, inr,
}
use opcua_mcp.Prelude.Int.{ℤ, pos, lez}
use opcua_mcp.Prelude.Dict.{Dict, lookup, put, lookup-put}
use opcua_mcp.Prelude.Result.{Result, ok}
use opcua_mcp.Store.Types
use opcua_mcp.Store.Types.{ValueEntry}
use opcua_mcp.Cache.{Backend, DataValue}
use opcua_mcp.Subscription.{IntervalGroup, Manager}

-- One changed item: its handle and its value, which may be nil, through NormalizeReadValue.
pub record Item : Type 0 where
  pub client_handle : ℕ
  pub value : Option DataValue

pub data Notification : Type 0 where
  failed : Notification
  data_change : List Item → Notification
  other : Notification

-- The first group that knows the handle; handles are never given out twice.
unfoldable pub lookup_node_id : ℕ → Dict ℤ IntervalGroup → Option String
unfolding lookup
lookup_node_id handle [] = none
lookup_node_id handle ((i, g) ∷ groups) = elim (lookup handle g.client_handle_to_node_id) [
  | some node ↦ some node
  | none ↦ lookup_node_id handle groups
]

abbrev pub entry_of : ℤ → DataValue → ValueEntry
entry_of t v = record {
  value = v.value;
  status = v.status;
  source_timestamp = v.source_timestamp;
  server_timestamp = v.server_timestamp;
  received_at = t;
  source = "subscription";
}

abbrev Batch : Type 0
Batch = Dict String ValueEntry

abbrev pub store_item : ℤ → Option String → Option DataValue → Batch → Batch
store_item t (some node) (some v) batch = put node (entry_of t v) batch
store_item t _ _ batch = batch

unfoldable pub handle_items : ℤ → Manager → List Item → Batch → Batch
unfolding put lookup_node_id
handle_items t m [] batch = batch
handle_items t m (i ∷ items) batch =
    handle_items t m items
      (store_item t (lookup_node_id i.client_handle m.interval_groups) i.value batch)

-- `handleNotification`, at a time `t` and with the maps as they then are.
unfoldable pub handle_notification : ℤ → Manager → Notification → Batch → Batch
unfolding handle_items
handle_notification t m (data_change items) batch = handle_items t m items batch
handle_notification t m _ batch = batch

-- What the loop of `pump` selects.
pub data PumpEvent : Type 0 where
  notified : ℤ → Manager → Notification → PumpEvent
  tick : PumpEvent

-- The last put of a node, if there is one, is of an entry that is accepted.
abbrev pub AcceptsLast : (String → ValueEntry → Type 0) → String → Option ValueEntry → Type 0
AcceptsLast Accepts n none = Unit
AcceptsLast Accepts n (some e) = Accepts n e

module _ {W : Type 0} (b : Backend W) where
  -- The closure `flush`: a put for every entry of the batch. (A put that fails is logged.)
  unfoldable pub flush : Batch → W → W
  flush [] w = w
  flush ((node, e) ∷ batch) w = b.put_value node e (flush batch w)

  abbrev flush_full : ℤ → Batch → W → Batch × W
  flush_full max batch w = if lez max (pos (length batch)) then ([], flush batch w) else (batch, w)

  -- The loop up to the stop, with `BatchMaxItems`, and the flush at the stop.
  unfoldable pub pump : ℤ → List PumpEvent → Batch → W → W
  unfolding handle_notification flush
  pump max [] batch w = flush batch w
  pump max (tick ∷ events) batch w = pump max events [] (flush batch w)
  pump max (notified t m n ∷ events) batch w =
      let (batch', w') = flush_full max (handle_notification t m n batch) w in
      pump max events batch' w'

  -- The last entry that the events bring for a node, if there is one.
  abbrev pub newest : Option ValueEntry → Option ValueEntry → Option ValueEntry
  newest none older = older
  newest (some e) older = some e

  abbrev brought : String → ℤ → Option String → Option DataValue → Option ValueEntry
  brought n t (some node) (some v) = if node == n then some (entry_of t v) else none
  brought n t _ _ = none

  unfoldable pub last_of_items : String → ℤ → Manager → List Item → Option ValueEntry
  last_of_items n t m [] = none
  last_of_items n t m (i ∷ items) =
      newest (last_of_items n t m items)
        (brought n t (lookup_node_id i.client_handle m.interval_groups) i.value)

  abbrev last_of : String → PumpEvent → Option ValueEntry
  last_of n (notified t m (data_change items)) = last_of_items n t m items
  last_of n _ = none

  unfoldable pub last_entry : String → List PumpEvent → Option ValueEntry
  last_entry n [] = none
  last_entry n (e ∷ events) = newest (last_entry n events) (last_of n e)

  -- What the cache answers if it had a put of this entry last.
  abbrev pub then_got :
      Option ValueEntry
      → Result Types.Error (Option ValueEntry)
      → Result Types.Error (Option ValueEntry)
  then_got none older = older
  then_got (some e) older = ok (some e)

  newest_assoc : (x y z : Option ValueEntry) → newest (newest x y) z ≡ newest x (newest y z)
  newest_assoc none y z = refl
  newest_assoc (some e) y z = refl

  newest-none : (x : Option ValueEntry) → newest x none ≡ x
  newest-none none = refl
  newest-none (some e) = refl

  chosen :
      (same : Bool) (e : ValueEntry) (older : Option ValueEntry)
      → (if same then some e else older) ≡ newest (if same then some e else none) older
  chosen true e older = refl
  chosen false e older = refl

  store_item-lookup :
      (n : String) (t : ℤ) (node : Option String) (v : Option DataValue) (batch : Batch)
      → lookup n (store_item t node v batch) ≡ newest (brought n t node v) (lookup n batch)
  store_item-lookup n t none v batch = refl
  store_item-lookup n t (some node) none batch = refl
  store_item-lookup n t (some node) (some v) batch =
      lookup-put node n (entry_of t v) batch ∙ chosen (node == n) (entry_of t v) (lookup n batch)

  handle_items-lookup :
      (n : String) (t : ℤ) (m : Manager) (items : List Item) (batch : Batch)
      → lookup n (handle_items t m items batch)
        ≡ newest (last_of_items n t m items) (lookup n batch)
  unfolding handle_items last_of_items
  handle_items-lookup n t m [] batch = refl
  handle_items-lookup n t m (i ∷ items) batch =
      let node = lookup_node_id i.client_handle m.interval_groups in
      let last = last_of_items n t m items in
      handle_items-lookup n t m items (store_item t node i.value batch)
      ∙ ap (newest last) (store_item-lookup n t node i.value batch)
      ∙ sym (newest_assoc last (brought n t node i.value) (lookup n batch))

  handle_notification-lookup :
      (n : String) (t : ℤ) (m : Manager) (x : Notification) (batch : Batch)
      → lookup n (handle_notification t m x batch)
        ≡ newest (last_of n (notified t m x)) (lookup n batch)
  unfolding handle_notification
  handle_notification-lookup n t m failed batch = refl
  handle_notification-lookup n t m other batch = refl
  handle_notification-lookup n t m (data_change items) batch = handle_items-lookup n t m items batch

  -- `Accepts` is what puts store without an error: such a put is seen at its node. No put, also none
  -- that fails, is seen at another node.
  pub record KeepsValues (Accepts : String → ValueEntry → Type 0) : Type 0 where
    pub get_put :
        (n : String) (e : ValueEntry) (w : W)
        → Accepts n e
        → (b.get_value n (b.put_value n e w)).0 ≡ ok (some e)
    pub get_other :
        (node n : String) (e : ValueEntry) (w : W)
        → node == n ≡ false
        → (b.get_value n (b.put_value node e w)).0 ≡ (b.get_value n w).0

  module _ (Accepts : String → ValueEntry → Type 0) (keeps : KeepsValues Accepts) (n : String) where
    -- What a read of the node answers before and after the puts, the last of which is of this entry.
    abbrev Kept :
        Option ValueEntry
        → Result Types.Error (Option ValueEntry)
        → Result Types.Error (Option ValueEntry)
        → Type 0
    Kept none r r' = r' ≡ r
    Kept (some e) r r' = Accepts n e → r' ≡ ok (some e)

    Kept-newest :
        (x y : Option ValueEntry) (r r1 r2 : Result Types.Error (Option ValueEntry))
        → Kept y r r1
        → Kept x r1 r2
        → Kept (newest x y) r r2
    Kept-newest none none r r1 r2 p q = q ∙ p
    Kept-newest none (some e) r r1 r2 p q = λ a. q ∙ p a
    Kept-newest (some e) y r r1 r2 p q = q

    Kept-then_got :
        (x : Option ValueEntry) (r r' : Result Types.Error (Option ValueEntry))
        → AcceptsLast Accepts n x
        → Kept x r r'
        → r' ≡ then_got x r
    Kept-then_got none r r' a p = p
    Kept-then_got (some e) r r' a p = p a

    flush-Kept :
        (batch : Batch) (w : W)
        → Kept (lookup n batch) (b.get_value n w).0 (b.get_value n (flush batch w)).0
    unfolding flush lookup
    flush-Kept [] w = refl
    flush-Kept ((node, e) ∷ batch) w = elim (Bool-cases (node == n)) [
      | inl same ↦ rw (same, (==_iff node n).0 same) (λ a. keeps.get_put n e (flush batch w) a)
      | inr apart ↦ rw apart (
          Kept-newest none (lookup n batch) _ _ _ (flush-Kept batch w)
            (keeps.get_other node n e (flush batch w) apart))
    ]

    flush_full-Kept :
        (max : ℤ) (later : Option ValueEntry) (batch : Batch) (w : W)
        (r : Result Types.Error (Option ValueEntry))
        → let f = flush_full max batch w in
          Kept (newest later (lookup n f.0)) (b.get_value n f.1).0 r
          → Kept (newest later (lookup n batch)) (b.get_value n w).0 r
    unfolding lookup
    flush_full-Kept max later batch w r h = elim (Bool-cases (lez max (pos (length batch)))) [
      | inl full ↦ Kept-newest later (lookup n batch) _ _ r (flush-Kept batch w) (
          subst (λ x. Kept x (b.get_value n (flush batch w)).0 r) (newest-none later)
            (rw full at h))
      | inr room ↦ rw room at h
    ]

    pump-Kept :
        (max : ℤ) (events : List PumpEvent) (batch : Batch) (w : W)
        → Kept
            (newest (last_entry n events) (lookup n batch))
            (b.get_value n w).0
            (b.get_value n (pump max events batch w)).0
    unfolding pump last_entry lookup
    pump-Kept max [] batch w = flush-Kept batch w
    pump-Kept max (tick ∷ events) batch w =
        Kept-newest (newest (last_entry n events) none) (lookup n batch) _ _ _ (flush-Kept batch w)
          (pump-Kept max events [] (flush batch w))
    pump-Kept max (notified t m x ∷ events) batch w =
        let later = last_entry n events in
        let now = last_of n (notified t m x) in
        let handled = handle_notification t m x batch in
        let f = flush_full max handled w in
        let end = (b.get_value n (pump max events f.0 f.1)).0 in
        subst (λ o. Kept o (b.get_value n w).0 end)
          (ap (newest later) (handle_notification-lookup n t m x batch)
            ∙ sym (newest_assoc later now (lookup n batch)))
          (flush_full-Kept max later handled w end (pump-Kept max events f.0 f.1))

    -- No value that the pump selects is lost by the batching: when the pump has stopped, the cache
    -- has for every node the last value that a selected notification brought for it while it was
    -- monitored, if the store accepts that value, and what it had before for a node without one,
    -- whatever the ticks and the size of the batch. (The hypotheses: an accepted put is seen at its
    -- node, and no put is seen at another. A value that the store does not accept is only logged.)
    pub pump-last_entry :
        (max : ℤ) (events : List PumpEvent) (w : W)
        → AcceptsLast Accepts n (last_entry n events)
        → (b.get_value n (pump max events [] w)).0
          ≡ then_got (last_entry n events) (b.get_value n w).0
    unfolding lookup
    pump-last_entry max events w a =
        let last = last_entry n events in
        Kept-then_got last _ _ a (
          subst (λ o. Kept o (b.get_value n w).0 (b.get_value n (pump max events [] w)).0)
            (newest-none last) (pump-Kept max events [] w))
