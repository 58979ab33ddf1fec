-- ===== src/Session/Recovery.antt =====
-- `withSessionRecovery` of internal/opcua/session_recovery.go: what a read-only operation does on a
-- stale session, and how often it runs.
use opcua_mcp.Prelude.{
  ℕ, ◌+◌, ◌≤◌, ◌≡◌, true, some, arith, ◌∙◌, Bool-cases, Option-cases, if◌then◌else◌, inl, inr,
}
use opcua_mcp.Prelude.Result.{ok, err, Result-cases}
use opcua_mcp.Session.{
  Net, Client, Error, Operation, is_stale_session_error, next_gen, connect_locked,
  recover_connection, with_session_recovery,
}

-- A count of the world that connecting leaves alone.
pub record Uncounted {W : Type 0} (net : Net W) (n : W → ℕ) : Type 0 where
  pub dial : (g : ℕ) (w : W) → n (net.dial g w).1 ≡ n w
  pub close : (k : ℕ) (w : W) → n (net.close k w).1 ≡ n w
  pub handler : (w : W) → n (net.on_reconnect w) ≡ n w

module _ {W : Type 0} (net : Net W) (n : W → ℕ) (u : Uncounted net n) where
  pub connect_locked-count : (c : Client) (w : W) → n (connect_locked net c w).world ≡ n w
  unfolding connect_locked
  connect_locked-count c w = grind (arith, u.dial (next_gen c.conn_gen) w, u.close)

  pub recover_connection-count :
      (gen : ℕ) (c : Client) (w : W) → n (recover_connection net gen c w).world ≡ n w
  unfolding recover_connection
  recover_connection-count gen c w =
      ground (arith, connect_locked-count c w, u.handler (connect_locked net c w).world)

module _ {W : Type 0} (net : Net W) (n : W → ℕ) (u : Uncounted net n) {A : Type 0}
    (fn : Operation W A) (runs : (c : Client) (w : W) → n (fn c w).1 ≡ n w + 1) where
  -- An operation runs once, or once more after a stale session: never a third time, whatever the
  -- server answers and whether or not the recovery succeeds. (`n` counts the runs in the world.)
  with_session_recovery-count :
      (c : Client) (w : W)
      → let after = n (with_session_recovery net fn c w).2 in (n w + 1 ≤ after) × (after ≤ n w + 2)
  unfolding with_session_recovery
  with_session_recovery-count c w = elim (Result-cases (fn c w).0) [
    | inl (e, p) ↦
        let o = recover_connection net c.client_gen c (fn c w).1 in
        ground (
          arith,
          p,
          runs c w,
          runs o.after o.world,
          recover_connection-count net n u c.client_gen c (fn c w).1,
        )
    | inr (a, p) ↦ ground (arith, p, runs c w)
  ]

-- A count that an operation leaves alone is left alone by the operation with a recovery.
pub with_session_recovery_quiet :
    {W : Type 0} (net : Net W) (n : W → ℕ)
    → Uncounted net n
    → {A : Type 0} (fn : Operation W A) → ((c : Client) (w : W) → n (fn c w).1 ≡ n w)
    → (c : Client) (w : W) → n (with_session_recovery net fn c w).2 ≡ n w
unfolding with_session_recovery
with_session_recovery_quiet net n u fn quiet c w = elim (Result-cases (fn c w).0) [
  | inl (e, p) ↦
      let o = recover_connection net c.client_gen c (fn c w).1 in
      ground (
        arith,
        p,
        quiet c w,
        quiet o.after o.world,
        recover_connection-count net n u c.client_gen c (fn c w).1,
      )
  | inr (a, p) ↦ ground (arith, p, quiet c w)
]

-- A read-only operation that meets a stale session on a live connection runs again on the
-- connection that the recovery has dialed, and its second result is returned; the old connection
-- is closed and the handler, if there is one, runs before.
with_session_recovery_stale :
    {W A : Type 0} (net : Net W) (fn : Operation W A) (c : Client) (w w1 w2 : W) (e : Error)
    (old new : ℕ)
    → fn c w ≡ (err e, w1)
    → is_stale_session_error e ≡ true
    → c.is_up ≡ true
    → c.client ≡ some old
    → net.dial (next_gen c.conn_gen) w1 ≡ (ok new, w2)
    → let gen = next_gen c.conn_gen in
      let d = record c { client = some new; is_up = true; conn_gen = gen; client_gen = gen } in
      let closed = (net.close old w2).1 in
      let ready = if c.has_handler then net.on_reconnect closed else closed in
      with_session_recovery net fn c w ≡ ((fn d ready).0, d, (fn d ready).1)
unfolding with_session_recovery connect_locked recover_connection
with_session_recovery_stale net fn c w w1 w2 e old new f s up live dialed = ground arith

-- What an operation establishes of its result is so of the result that a recovery lets through.
pub with_session_recovery-ok {ℓ} :
    {W : Type 0} (net : Net W) {A : Type 0} (fn : Operation W A) (P : A → Type ℓ)
    → ((c : Client) (w : W) (a : A) → (fn c w).0 ≡ ok a → P a)
    → (c : Client) (w : W) (a : A) → (with_session_recovery net fn c w).0 ≡ ok a
    → P a
unfolding with_session_recovery
with_session_recovery-ok net fn P keep c w a e = elim (Result-cases (fn c w).0) [
  | inr (b, p) ↦ keep c w a (p ∙ (rw (with_session_recovery, p) at e))
  | inl (x, p) ↦ elim (Bool-cases (is_stale_session_error x)) [
    | inr plain ↦ ground (arith, rw (with_session_recovery, p, plain) at e)
    | inl stale ↦
        let o = recover_connection net c.client_gen c (fn c w).1 in
        elim (Option-cases o.error) [
          | inl well ↦ keep o.after o.world a (rw (with_session_recovery, p, stale, well) at e)
          | inr (y, failed) ↦ ground (arith, rw (with_session_recovery, p, stale, failed) at e)
        ]
  ]
]
