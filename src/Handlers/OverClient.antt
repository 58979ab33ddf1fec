-- ===== src/Handlers/OverClient.antt =====
-- The client of internal/opcua as the handlers of internal/mcp/server.go call it: the reads and
-- browses of internal/opcua/client.go with the recovery of internal/opcua/session_recovery.go
-- around them, on a world that holds the client.
use opcua_mcp.Prelude.{
  ℕ, zero, suc, String, Bool, true, List, [], ◌∷◌, ◌++◌, none, some, ◌≡◌, refl, ◌∙◌, arith,
  if◌then◌else◌, Option-cases, inl, inr,
}
use opcua_mcp.Prelude.Result.{Result, ok, err, Result-cases}
use opcua_mcp.Session.{
  Error, Client, Net, Outcome, snapshot, ConnectOutcome, is_connected, ensure_connected, disconnect,
  with_session_recovery, probe, connect,
}
use opcua_mcp.Session.Recovery.{
  Uncounted, with_session_recovery_quiet, connect_locked-count, recover_connection-count,
}
use opcua_mcp.Requests.{Server}
use opcua_mcp.Requests.Attributes.{
  get_node_class, get_attribute_quiet, attribute_node_class, decode_node_class,
}
use opcua_mcp.Requests.Browse.{browse, browse_id, follow, page, max_browse_next_iterations}
use opcua_mcp.Requests.Read.{read, read_recovering, after_read, read_individually, parse_all}
use opcua_mcp.Discovery.{Reference}
use opcua_mcp.Handlers.Answer.{Reading, OpcuaClient}
use opcua_mcp.Handlers.Quiet.{QuietClient}

abbrev pub held : {W A : Type 0} → A × Client × W → A × (Client × W)
held (a, c, w) = (a, (c, w))

-- The outcome of `EnsureConnected`, or its error.
abbrev pub outcome_or_error :
    {W : Type 0} → ConnectOutcome × Outcome W → Result Error ConnectOutcome × (Client × W)
outcome_or_error (k, o) = elim o.error [
  | none ↦ (ok k, (o.after, o.world))
  | some e ↦ (err e, (o.after, o.world))
]

module _ {W I : Type 0} (net : Net W) (sv : Server W I Reading Reference) where
  -- `Browse` and `GetNodeClass` of session_recovery.go
  abbrev pub browse_recovering : String → Client → W → Result Error (List Reference) × Client × W
  browse_recovering node c w = with_session_recovery net (browse sv node) c w

  abbrev pub get_node_class_recovering : String → Client → W → Result Error ℕ × Client × W
  get_node_class_recovering node c w = with_session_recovery net (get_node_class sv node) c w

  abbrev pub over_client : OpcuaClient (Client × W)
  over_client = record {
    read = λ nodes x. held (read_recovering sv net nodes x.0 x.1);
    browse = λ node x. held (browse_recovering node x.0 x.1);
    get_node_class = λ node x. held (get_node_class_recovering node x.0 x.1);
    is_connected = λ x. is_connected x.0;
    ensure_connected = λ x. outcome_or_error (ensure_connected net x.0 x.1);
    disconnect = λ x. let o = disconnect net x.0 x.1 in (o.error, (o.after, o.world));
  }

  module _ (n : W → ℕ) where
    -- The read-only requests leave `n` alone.
    pub record QuietServer : Type 0 where
      pub read : (k : ℕ) (ids : List I) (w : W) → n (sv.read k ids w).1 ≡ n w
      pub read_attribute : (k : ℕ) (id : I) (a : ℕ) (w : W) → n (sv.read_attribute k id a w).1 ≡ n w
      pub browse : (k : ℕ) (id : I) (w : W) → n (sv.browse k id w).1 ≡ n w
      pub browse_next : (k : ℕ) (cp : List ℕ) (w : W) → n (sv.browse_next k cp w).1 ≡ n w
      pub grace : (w : W) → n (sv.grace_period w) ≡ n w
      pub probe : (k : ℕ) (w : W) → n (net.read_status k w).1 ≡ n w

    module _ (u : Uncounted net n) (q : QuietServer) where
      wait_if : (b : Bool) (w : W) → n (if b then sv.grace_period w else w) ≡ n w
      wait_if b w = ground (arith, q.grace w)

      read_individually-quiet :
          (k : ℕ) (ids : List I) (grace : Bool) (w : W)
          → n (read_individually sv k grace ids w).1 ≡ n w
      unfolding read_individually
      read_individually-quiet k [] grace w = refl
      read_individually-quiet k (id ∷ ids) grace w =
          read_individually-quiet k ids _ _ ∙ q.read k (id ∷ []) _ ∙ wait_if grace w

      after_read-quiet :
          (k : ℕ) (ids : List I) (x : Result Error (List Reading) × W)
          → n (after_read sv k ids x).1 ≡ n x.1
      unfolding after_read
      after_read-quiet k ids (ok vs, w) = refl
      after_read-quiet k ids (err e, w) = ground (arith, read_individually-quiet k ids true w)

      read-quiet : (nodes : List String) (c : Client) (w : W) → n (read sv nodes c w).1 ≡ n w
      unfolding read
      read-quiet nodes c w = elim (Option-cases (snapshot c)) [
        | inl down ↦ rw (read, down) refl
        | inr (k, up) ↦ elim (Option-cases (parse_all sv nodes)) [
          | inl bad ↦ rw (read, up, bad) refl
          | inr (ids, good) ↦
              rw (read, up, good) (after_read-quiet k ids (sv.read k ids w) ∙ q.read k ids w)
        ]
      ]

      follow-quiet :
          (k left : ℕ) (cp : List ℕ) (refs : List Reference) (w : W)
          → n (follow sv k left cp refs w).1 ≡ n w
      unfolding follow
      follow-quiet k left [] refs w = refl
      follow-quiet k zero (b ∷ bs) refs w = refl
      follow-quiet k (suc left) (b ∷ bs) refs w = elim (Option-cases (sv.context_error w)) [
        | inr (e, gone) ↦ rw (follow, gone) refl
        | inl live ↦ elim (Result-cases (page sv (sv.browse_next k (b ∷ bs) w).0)) [
          | inl (e, p) ↦ rw (follow, live, p) (q.browse_next k (b ∷ bs) w)
          | inr (r, p) ↦
              rw (follow, live, p)
                (follow-quiet k left r.continuation_point (refs ++ r.references)
                    (sv.browse_next k (b ∷ bs) w).1
                  ∙ q.browse_next k (b ∷ bs) w)
        ]
      ]

      browse-quiet : (node : String) (c : Client) (w : W) → n (browse sv node c w).1 ≡ n w
      unfolding browse browse_id
      browse-quiet node c w = elim (Option-cases (snapshot c)) [
        | inl down ↦ rw (browse, down) refl
        | inr (k, up) ↦ elim (Option-cases (sv.parse_node_id node)) [
          | inl bad ↦ rw (browse, up, bad) refl
          | inr (id, good) ↦ elim (Result-cases (page sv (sv.browse k id w).0)) [
            | inl (e, p) ↦ rw (browse, browse_id, up, good, p) (q.browse k id w)
            | inr (r, p) ↦
                rw (browse, browse_id, up, good, p)
                  (follow-quiet k max_browse_next_iterations r.continuation_point r.references
                      (sv.browse k id w).1
                    ∙ q.browse k id w)
          ]
        ]
      ]

      held-world : {A : Type 0} (x : A × Client × W) → n (held x).1.1 ≡ n x.2
      held-world (a, c, w) = refl

      outcome_or_error-world :
          (x : ConnectOutcome × Outcome W) → n (outcome_or_error x).1.1 ≡ n x.1.world
      outcome_or_error-world (k, o) = ground arith

      probe_quiet : (k : ℕ) (w : W) → n (probe net k w).1 ≡ n w
      unfolding probe
      probe_quiet k w = ground (arith, q.probe k w)

      ensure_connected-quiet : (c : Client) (w : W) → n (ensure_connected net c w).1.world ≡ n w
      unfolding ensure_connected connect
      ensure_connected-quiet c w = elim (Option-cases (snapshot c)) [
        | inl down ↦ rw (ensure_connected, down) (connect_locked-count net n u c w)
        | inr (k, up) ↦ elim (Option-cases (probe net k w).0) [
          | inl healthy ↦ rw (ensure_connected, up, healthy) (probe_quiet k w)
          | inr (e, lost) ↦
              rw (ensure_connected, up, lost)
                (recover_connection-count net n u c.client_gen c (probe net k w).1
                  ∙ probe_quiet k w)
        ]
      ]

      -- The client itself keeps the promise that the read-only tools rely on: reading, browsing,
      -- reading the class of a node and checking the connection, with every retry and recovery on
      -- the way, leave alone what the read-only requests and the dialing leave alone.
      pub over_client-QuietClient : QuietClient over_client (λ x. n x.1)
      unfolding read_recovering
      over_client-QuietClient = record {
        read = λ nodes x.
            held-world (read_recovering sv net nodes x.0 x.1)
            ∙ with_session_recovery_quiet net n u (read sv nodes) (read-quiet nodes) x.0 x.1;
        browse = λ node x.
            held-world (browse_recovering node x.0 x.1)
            ∙ with_session_recovery_quiet net n u (browse sv node) (browse-quiet node) x.0 x.1;
        get_node_class = λ node x.
            held-world (get_node_class_recovering node x.0 x.1)
            ∙ with_session_recovery_quiet net n u (get_node_class sv node)
                (get_attribute_quiet sv n q.read_attribute attribute_node_class decode_node_class
                  node)
                x.0 x.1;
        ensure_connected = λ x.
            outcome_or_error-world (ensure_connected net x.0 x.1) ∙ ensure_connected-quiet x.0 x.1;
      }
