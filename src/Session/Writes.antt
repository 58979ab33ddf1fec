-- ===== src/Session/Writes.antt =====
-- `sendWrite` of internal/opcua/session_recovery.go: a write is sent at most once.
use opcua_mcp.Prelude.{
  ℕ, ◌+◌, ◌≤◌, ◌≡◌, ◌≢◌, refl, true, List, none, some, arith, Option-cases, inl, inr,
}
use opcua_mcp.Prelude.Result.{Result, ok, err}
use opcua_mcp.Session.{
  Net, Client, Error, WriteRequest, is_stale_session_error, snapshot, after_write,
  recover_connection, send_write,
}
use opcua_mcp.Session.Recovery.{Uncounted, recover_connection-count}

module _ {W : Type 0} (net : Net W) (n : W → ℕ) (u : Uncounted net n) where
  after_write-count :
      (gen : ℕ) (c : Client) (m : Result Error (List ℕ)) (w : W)
      → n (after_write net gen c (m, w)).world ≡ n w
  after_write-count gen c (ok ss) w = refl
  after_write-count gen c (err e) w = ground (arith, recover_connection-count net n u gen c w)

  -- A write is sent at most once, also when the session was stale and has been replaced, and where
  -- no error is returned it was sent exactly once. (`n` counts the write requests in the world.)
  pub send_write-count :
      ((k : ℕ) (req : WriteRequest) (w : W) → n (net.write k req w).1 ≡ n w + 1)
      → (req : WriteRequest) (c : Client) (w : W)
      → let o = send_write net req c w in
        (n o.world ≤ n w + 1) × (o.error ≡ none → n o.world ≡ n w + 1)
  unfolding send_write
  send_write-count sends req c w = elim (Option-cases (snapshot c)) [
    | inl e ↦ rw (e, send_write) (omega arith, λ h. absurd (cc))
    | inr (k, e) ↦
        let (m, w') = net.write k req w in
        let q = after_write-count c.client_gen c m w' in
        let s = sends k req w in rw (e, send_write) (omega arith, λ h. omega arith)
  ]

-- A write that the server rejected for a stale session is never reported as done.
pub send_write_stale :
    {W : Type 0} (net : Net W) (req : WriteRequest) (c : Client) (w w1 : W) (k : ℕ) (e : Error)
    → snapshot c ≡ some k
    → net.write k req w ≡ (err e, w1)
    → is_stale_session_error e ≡ true
    → let o = send_write net req c w in
      (o.error ≢ none)
      × (o.after ≡ (recover_connection net c.client_gen c w1).after)
      × (o.world ≡ (recover_connection net c.client_gen c w1).world)
unfolding send_write
send_write_stale net req c w w1 k e live answer stale =
    rw (live, send_write) (rw answer (rw stale (λ h. cc, refl, refl)))
