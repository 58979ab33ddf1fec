-- ===== src/Telemetry/Allowed.antt =====
-- What leaves the process by internal/telemetry: in every history of tool calls, the properties of a
-- payload are those of the documented model.
use Prim.Native.String.{◌++◌ as append}
use opcua_mcp.Prelude.{
  ℕ, String, Bool, true, false, List, [], ◌∷◌, none, some, string_eq, ◌≡◌, refl, subst, arith,
  Bool-cases, All, All-impl, ◌⊎◌, inl, inr, some_inj,
}
use opcua_mcp.Prelude.Int.{ℤ}
use opcua_mcp.Prelude.Dict.{Dict, put, All-remove}
use opcua_mcp.Telemetry.{spells, known_error_kinds, normalize_error_kind}
use opcua_mcp.Telemetry.Aggregator.{
  Aggregator, Snapshot, Telemetry, noop, live, Event, tool_call, cache_result, error,
  discovery_stats, bump, record_error, record_tool_call, record_cache_result, set_discovery_stats,
  is_positive, positive, zeroed, new_aggregator, new_telemetry, receive, recorded, snapshot,
}
use opcua_mcp.Telemetry.Payload.{
  Config, EventPayload, Prop, number, add_counts, fixed_props, build_payload, flush,
}
use opcua_mcp.Telemetry.Middleware.{Answer, events_of, record_all, telemetry_middleware}

abbrev pub fixed_keys : List String
fixed_keys =
    "avg_params_per_call" ∷ "anon_id" ∷ "session_duration_seconds" ∷ "transport" ∷ "arch"
    ∷ "auth_mode" ∷ "security_policy" ∷ "discovered_node_bucket" ∷ "cache_hits" ∷ "cache_misses"
    ∷ "tool_call_count" ∷ []

-- A key of the documented model, for a server with these tools.
abbrev pub Allowed : List String → String → Type 0
Allowed tools key =
    (spells key fixed_keys ≡ true)
    ⊎ ((name : String) × (spells name tools ≡ true) × (key ≡ append "tool_calls." name))
    ⊎ ((kind : String) × (spells kind known_error_kinds ≡ true) × (key ≡ append "errors." kind))

-- The counters are of registered tools and of known kinds.
abbrev IsKnown : List String → Telemetry → Type 0
IsKnown tools noop = Unit
IsKnown tools (live a) =
    All (λ e. spells e.0 tools ≡ true) a.tool_calls
    × All (λ e. spells e.0 known_error_kinds ≡ true) a.error_counts

module _ (P : String → Type 0) where
  bump-All :
      (key : String) (d : Dict String ℕ)
      → P key
      → All (λ e. P e.0) d
      → All (λ e. P e.0) (bump key d)
  unfolding bump put
  bump-All key d p h = (p, All-remove (λ e. P e.0) key d h)

  positive-All : (d : Dict String ℕ) → All (λ e. P e.0) d → All (λ e. P e.0) (positive d)
  unfolding positive
  positive-All [] h = tt
  positive-All ((key, n) ∷ d) (p, h) = elim (Bool-cases (is_positive n)) [
    | inl counted ↦ rw counted (p, positive-All d h)
    | inr zero_or_less ↦ rw zero_or_less (positive-All d h)
  ]

  zeroed-All : (d : Dict String ℕ) → All (λ e. P e.0) d → All (λ e. P e.0) (zeroed d)
  unfolding zeroed
  zeroed-All [] h = tt
  zeroed-All ((key, n) ∷ d) (p, h) = (p, zeroed-All d h)

  add_counts-All :
      (prefix : String) (d : Dict String ℕ) (props : Dict String Prop)
      → All (λ e. P (append prefix e.0)) d
      → All (λ e. P e.0) props
      → All (λ e. P e.0) (add_counts prefix d props)
  unfolding add_counts put
  add_counts-All prefix [] props h q = q
  add_counts-All prefix ((key, n) ∷ d) props (p, h) q =
      add_counts-All prefix d (put (append prefix key) (number n) props) h
        (p, All-remove (λ e. P e.0) (append prefix key) props q)

normalize_error_kind-known :
    (kind : String) → spells (normalize_error_kind kind) known_error_kinds ≡ true
unfolding normalize_error_kind
normalize_error_kind-known kind = elim (Bool-cases (spells kind known_error_kinds)) [
  | inl known ↦ rw known known
  | inr unknown ↦ rw unknown refl
]

module _ (tools : List String) where
  -- A call of a tool has a registered name.
  abbrev IsOf : Event → Type 0
  IsOf (tool_call name params) = spells name tools ≡ true
  IsOf _ = Unit

  recorded-IsKnown :
      (e : Event) (t : Telemetry) → IsOf e → IsKnown tools t → IsKnown tools (recorded e t)
  unfolding recorded receive record_tool_call record_cache_result record_error set_discovery_stats
  recorded-IsKnown e noop o k = tt
  recorded-IsKnown (tool_call name params) (live a) o (k, l) =
      (bump-All (λ s. spells s tools ≡ true) name a.tool_calls o k, l)
  recorded-IsKnown (cache_result true) (live a) o k = k
  recorded-IsKnown (cache_result false) (live a) o k = k
  recorded-IsKnown (error kind) (live a) o (k, l) = (
    k,
    bump-All (λ s. spells s known_error_kinds ≡ true) (normalize_error_kind kind) a.error_counts
        (normalize_error_kind-known kind) l,
  )
  recorded-IsKnown (discovery_stats n) (live a) o k = k

  record_all-IsKnown :
      (es : List Event) (t : Telemetry)
      → All IsOf es
      → IsKnown tools t
      → IsKnown tools (record_all es t)
  unfolding record_all
  record_all-IsKnown [] t o k = k
  record_all-IsKnown (e ∷ es) t (p, o) k =
      record_all-IsKnown es (recorded e t) o (recorded-IsKnown e t p k)

  events_of-IsOf :
      (to_lower : String → String) (name : String) (params : ℕ) (a : Answer)
      → spells name tools ≡ true
      → All IsOf (events_of to_lower name params a)
  unfolding events_of
  events_of-IsOf to_lower name params (r, some text) known = (known, (tt, tt))
  events_of-IsOf to_lower name params (none, none) known = (known, tt)
  events_of-IsOf to_lower name params (some r, none) known = elim (Bool-cases r.is_error) [
    | inl failed ↦ rw failed (known, (tt, tt))
    | inr fine ↦ rw fine (known, tt)
  ]

-- The telemetries that a server with these tools can reach; `W` is the world of its handlers.
module _ (W : Type 0) (tools : List String) where
  pub data Reachable : Telemetry → Type 0 where
    started : (enabled : Bool) → Reachable (new_telemetry enabled)
    called :
        {t : Telemetry}
        → (to_lower : String → String) (next : W → Answer × W) (name : String) (params : ℕ) (w : W)
        → spells name tools ≡ true
        → Reachable t
        → Reachable (telemetry_middleware to_lower next name params w t).2
    cached :
        {t : Telemetry} → (hit : Bool) → Reachable t → Reachable (recorded (cache_result hit) t)
    discovered :
        {t : Telemetry} → (n : ℕ) → Reachable t → Reachable (recorded (discovery_stats n) t)
    flushed :
        {t : Telemetry}
        → (signed : ℕ → ℤ) (now : String) (cfg : Config) (seconds : ℕ) → Reachable t
        → Reachable (flush signed now cfg seconds t).1

  fixed_props-All :
      (signed : ℕ → ℤ) (cfg : Config) (snap : Snapshot) (seconds : ℕ)
      → All (λ e. Allowed tools e.0) (fixed_props signed cfg snap seconds)
  unfolding fixed_props
  fixed_props-All signed cfg snap seconds = (
    inl refl,
    (
      inl refl,
      (
        inl refl,
        (
          inl refl,
          (inl refl, (inl refl, (inl refl, (inl refl, (inl refl, (inl refl, (inl refl, tt))))))),
        ),
      ),
    ),
  )

  build_payload-Allowed :
      (signed : ℕ → ℤ) (now : String) (cfg : Config) (a : Aggregator) (seconds : ℕ)
      → IsKnown tools (live a)
      → All (λ e. Allowed tools e.0) (build_payload signed now cfg (snapshot a).0 seconds).props
  unfolding build_payload snapshot
  build_payload-Allowed signed now cfg a seconds (k, l) =
      let snap = (snapshot a).0 in
      let fixed = fixed_props signed cfg snap seconds in
      add_counts-All (Allowed tools) "errors." (positive a.error_counts)
        (add_counts "tool_calls." (positive a.tool_calls) fixed)
        (All-impl (λ e. spells e.0 known_error_kinds ≡ true)
          (λ e. Allowed tools (append "errors." e.0)) (λ e q. inr (inr (e.0, q, refl)))
          (positive a.error_counts)
          (positive-All (λ s. spells s known_error_kinds ≡ true) a.error_counts l))
        (add_counts-All (Allowed tools) "tool_calls." (positive a.tool_calls) fixed
          (All-impl (λ e. spells e.0 tools ≡ true) (λ e. Allowed tools (append "tool_calls." e.0))
            (λ e q. inr (inl (e.0, q, refl))) (positive a.tool_calls)
            (positive-All (λ s. spells s tools ≡ true) a.tool_calls k))
          (fixed_props-All signed cfg snap seconds))

  flush-IsKnown :
      (signed : ℕ → ℤ) (now : String) (cfg : Config) (seconds : ℕ) (t : Telemetry)
      → IsKnown tools t
      → IsKnown tools (flush signed now cfg seconds t).1
  unfolding flush snapshot
  flush-IsKnown signed now cfg seconds noop k = tt
  flush-IsKnown signed now cfg seconds (live a) (k, l) = (
    zeroed-All (λ s. spells s tools ≡ true) a.tool_calls k,
    zeroed-All (λ s. spells s known_error_kinds ≡ true) a.error_counts l,
  )

  Reachable-IsKnown : {t : Telemetry} → Reachable t → IsKnown tools t
  unfolding new_telemetry new_aggregator telemetry_middleware
  Reachable-IsKnown (started true) = (tt, tt)
  Reachable-IsKnown (started false) = tt
  Reachable-IsKnown (called {t = t} to_lower next name params w known r) =
      record_all-IsKnown tools (events_of to_lower name params (next w).0) t
        (events_of-IsOf tools to_lower name params (next w).0 known) (Reachable-IsKnown r)
  Reachable-IsKnown (cached {t = t} hit r) =
      recorded-IsKnown tools (cache_result hit) t tt (Reachable-IsKnown r)
  Reachable-IsKnown (discovered {t = t} n r) =
      recorded-IsKnown tools (discovery_stats n) t tt (Reachable-IsKnown r)
  Reachable-IsKnown (flushed {t = t} signed now cfg seconds r) =
      flush-IsKnown signed now cfg seconds t (Reachable-IsKnown r)

  payload-Allowed :
      (t : Telemetry) (signed : ℕ → ℤ) (now : String) (cfg : Config) (seconds : ℕ)
      (p : EventPayload)
      → IsKnown tools t
      → (flush signed now cfg seconds t).0 ≡ some p
      → All (λ e. Allowed tools e.0) p.props
  unfolding flush
  payload-Allowed noop signed now cfg seconds p k e = ground (arith, e)
  payload-Allowed (live a) signed now cfg seconds p k e =
      subst (λ q. All (λ x. Allowed tools x.0) q.props) (some_inj e)
        (build_payload-Allowed signed now cfg a seconds k)

  -- In every history, whatever the tools were called with and answered, a payload that is sent has
  -- only properties of the documented model: the fixed ones, the count of a registered tool, or the
  -- count of one of the eight kinds of errors.
  pub Reachable-Allowed :
      {t : Telemetry}
      → (signed : ℕ → ℤ) (now : String) (cfg : Config) (seconds : ℕ) (p : EventPayload)
      → Reachable t
      → (flush signed now cfg seconds t).0 ≡ some p
      → All (λ e. Allowed tools e.0) p.props
  Reachable-Allowed {t = t} signed now cfg seconds p r sent =
      payload-Allowed t signed now cfg seconds p (Reachable-IsKnown r) sent
