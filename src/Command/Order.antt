-- ===== src/Command/Order.antt =====
-- What has happened when `main` of cmd/opcua-mcp.go starts the server, and when that server ends.
use opcua_mcp.Prelude.{
  ℕ, suc, String, Bool, true, false, Option, none, some, string_eq, if◌then◌else◌, ◌≡◌, refl, subst,
  sym, ◌∙◌, Bool-cases, arith, inl, inr, ◌⊎◌,
}
use opcua_mcp.Prelude.Result.{Result, ok, err, ok_inj, Result-cases}
use opcua_mcp.Handlers.Tools.{setup_tools}
use opcua_mcp.Session.{Error}
use opcua_mcp.Store.Types.{ValueEntry}
use opcua_mcp.Cache.{Backend}
use opcua_mcp.Config.{ValidationError, validate}
use opcua_mcp.Config.Settings.{FullConfig, SearchSettings}
use opcua_mcp.Config.Load.{load}
use opcua_mcp.Logging.{Logger}
use opcua_mcp.Subscription.Notify.{AcceptsLast, KeepsValues, last_entry, then_got}
use opcua_mcp.Shutdown.{
  Transport, stdio, Handles, Steps, Pending, KeepValues, before_close, shutdowns,
  shutdowns-last_entry,
}
use opcua_mcp.Command.{
  Parts, Ready, Ending, not_loaded, not_logging, invalid, no_server, is_none, dial, managed,
  created, opened_or_new, new_discovery_service, served, validated, logging, with_config, prepare,
  start, handles_of,
}

module _ {W : Type 0} (p : Parts W) where
  -- A configuration that was loaded and validated, and what rests on the store.
  pub record IsReady (r : Ready) : Type 0 where
    pub loaded : load p.viper ≡ ok r.config
    pub valid : validate r.config.base ≡ none
    pub manager : (r.has_manager ≡ false) ⊎ (r.has_store ≡ true)
    pub cache :
        (r.cache.enable_cache ≡ false)
        ⊎ ((r.has_store ≡ true) × (r.config.search.enable_cache ≡ true))
    pub index : r.has_index ≡ r.config.search.enable_search

  -- An end of `main` before the configuration was accepted, or after.
  abbrev pub IsOutcome : W → Result Ending Ready × W → Type 0
  IsOutcome w (ok r, w1) = IsReady r
  IsOutcome w (err (no_server e), w1) =
      (cfg : FullConfig) × (load p.viper ≡ ok cfg) × (validate cfg.base ≡ none)
  IsOutcome w (err (not_loaded e), w1) = (load p.viper ≡ err e) × (w1 ≡ w)
  IsOutcome w (err (not_logging e), w1) = w1 ≡ w
  IsOutcome w (err (invalid e), w1) =
      (cfg : FullConfig) × (load p.viper ≡ ok cfg) × (validate cfg.base ≡ some e) × (w1 ≡ w)

  managed-store :
      (cfg : FullConfig) (has_store : Bool) (w : W)
      → ((managed p cfg has_store w).0 ≡ false) ⊎ (has_store ≡ true)
  managed-store cfg false w = inl refl
  managed-store cfg true w = inr refl

  cache-store :
      (has_store on : Bool)
      → ((if has_store then on else false) ≡ false) ⊎ ((has_store ≡ true) × (on ≡ true))
  cache-store false on = inl refl
  cache-store true false = inl refl
  cache-store true true = inr (refl, refl)

  created-ok :
      (has_index : Bool) (x : Option Error × W) → (created p x).0 ≡ ok has_index → has_index ≡ true
  created-ok has_index (none, w) h = sym (ok_inj h)
  created-ok has_index (some e, w) h = ground (arith, h)

  opened_or_new-ok :
      (path : String) (has_index : Bool) (x : Option Error × W)
      → (opened_or_new p path x).0 ≡ ok has_index
      → has_index ≡ true
  opened_or_new-ok path has_index (none, w) h = sym (ok_inj h)
  opened_or_new-ok path has_index (some e, w) h = created-ok has_index (p.create_index path w) h

  new_discovery_service-ok :
      (cfg : SearchSettings) (w : W) (has_index : Bool)
      → (new_discovery_service p cfg w).0 ≡ ok has_index
      → has_index ≡ cfg.enable_search
  unfolding new_discovery_service
  new_discovery_service-ok cfg w has_index h = elim (Bool-cases cfg.enable_search) [
    | inl on ↦
        opened_or_new-ok cfg.search_index_path has_index (p.open_index cfg.search_index_path w)
          (rw (new_discovery_service, on) at h)
        ∙ sym on
    | inr off ↦ sym (ok_inj (rw (new_discovery_service, off) at h)) ∙ sym off
  ]

  served-IsOutcome :
      (cfg : FullConfig) (has_store has_manager : Bool) (w : W) (x : Result Error Bool × W)
      → load p.viper ≡ ok cfg
      → validate cfg.base ≡ none
      → (has_manager ≡ false) ⊎ (has_store ≡ true)
      → ((has_index : Bool) → x.0 ≡ ok has_index → has_index ≡ cfg.search.enable_search)
      → IsOutcome w (served p cfg has_store has_manager x)
  served-IsOutcome cfg has_store has_manager w (err e, w1) l v m i = (cfg, l, v)
  served-IsOutcome cfg has_store has_manager w (ok has_index, w1) l v m i = record {
    loaded = l;
    valid = v;
    manager = m;
    cache = cache-store has_store cfg.search.enable_cache;
    index = i has_index refl;
  }

  validated-IsOutcome :
      (cfg : FullConfig) (w : W) (o : Option ValidationError)
      → load p.viper ≡ ok cfg
      → validate cfg.base ≡ o
      → IsOutcome w (validated p cfg o w)
  validated-IsOutcome cfg w (some e) l v = (cfg, l, v, refl)
  validated-IsOutcome cfg w none l v =
      let x = p.open_store cfg.store.db_path cfg.store.open_timeout w in
      served-IsOutcome cfg (is_none x.0) _ w _ l v
        (managed-store cfg (is_none x.0) (dial p cfg x.1)) (new_discovery_service-ok cfg.search _)

  logging-IsOutcome :
      (cfg : FullConfig) (w : W) (r : Result Error Logger)
      → load p.viper ≡ ok cfg
      → IsOutcome w (logging p cfg r w)
  logging-IsOutcome cfg w (err e) l = refl
  logging-IsOutcome cfg w (ok log) l = validated-IsOutcome cfg w (validate cfg.base) l refl

  with_config-IsOutcome :
      (w : W) (r : Result Error FullConfig) → load p.viper ≡ r → IsOutcome w (with_config p r w)
  with_config-IsOutcome w (err e) l = (l, refl)
  with_config-IsOutcome w (ok cfg) l = logging-IsOutcome cfg w _ l

  -- Where `main` gets to the server's start, the configuration was loaded and is valid, there is a
  -- subscription manager only with a store, and the cache is on only with a store and where the
  -- configuration has it on, and there is a search index where the configuration has search on.
  -- Where it ends before the configuration is accepted, it has touched
  -- neither the store nor the network. The only later end is that the server cannot be made: a
  -- store or a connection that fails ends nothing.
  pub prepare-IsOutcome : (w : W) → IsOutcome w (prepare p w)
  unfolding prepare
  prepare-IsOutcome w = with_config-IsOutcome w (load p.viper) refl

  start-transport :
      (r : Ready) (w : W) (t : Transport)
      → r.config.base.server.transport ≡ "stdio"
      → (start p r w).0 ≡ ok t
      → stdio ≡ t
  unfolding start
  start-transport r w t named h =
      elim (Result-cases (setup_tools p.sort r.config.mcp.read_only r.config.mcp.allowed_tools)) [
        | inl (e, failed) ↦ absurd (ground (arith, rw (start, failed) at h))
        | inr (policy, built) ↦ ok_inj (rw (start, built, named) at h)
      ]

  manager-store : (r : Ready) → IsReady r → r.has_manager ≡ true → r.has_store ≡ true
  manager-store r ready managed = elim ready.manager [
    | inl none_ ↦ absurd (ground (arith, managed, none_))
    | inr stored ↦ stored
  ]

  module _ (b : Backend W) (st : Steps W) (left : Pending) where
    -- However often the end is triggered, one shutdown, and `n` with its last value at the moment
    -- the store is closed.
    abbrev pub IsLastStored : Handles → String → ℕ → W → Type 0
    IsLastStored h n k w =
        let closing = before_close b st h left w in
        (shutdowns b st h left (suc k) false w
          ≡ (true, st.close_telemetry (st.cancel_telemetry (st.close_store closing))))
        × ((b.get_value n closing).0 ≡ then_got b (last_entry b n left.events) (b.get_value n w).0)

    -- A server that `main` has started on the stdio transport, with a subscription manager: however
    -- often its end is triggered, it shuts down once, and at the moment its store is closed, the
    -- store has for every node the last value that the subscriptions' pump selected for it, if the
    -- store accepts that value, or what it had for a node without one. (`w2` is the world when the
    -- first trigger comes. The hypotheses: an accepted put is seen at its node, and no put at
    -- another; the other steps up to the store's end change no value. What the store does not
    -- accept is only logged.)
    pub start-last_entry :
        (Accepts : String → ValueEntry → Type 0)
        → KeepsValues b Accepts
        → KeepValues b st
        → (w w1 : W) (r : Ready) → prepare p w ≡ (ok r, w1)
        → (t : Transport) → (start p r w1).0 ≡ ok t
        → r.config.base.server.transport ≡ "stdio"
        → r.has_manager ≡ true
        → (n : String) (k : ℕ) (w2 : W) → AcceptsLast Accepts n (last_entry b n left.events)
        → IsLastStored (handles_of r t) n k w2
    start-last_entry Accepts puts keep w w1 r prepared t began named managed n k w2 a =
        let ready : IsReady r = subst (IsOutcome w) prepared (prepare-IsOutcome w) in
        subst (λ u. IsLastStored (handles_of r u) n k w2) (start-transport r w1 t named began)
          (shutdowns-last_entry b st (handles_of r stdio) left Accepts puts keep managed refl
            (manager-store r ready managed) n k w2 a)
