-- ===== src/Session/History.antt =====
-- Any sequence of calls on the client of internal/opcua/client.go, by any number of callers: the
-- generations, what a disconnect lasts for, and how often a connection is replaced.
use opcua_mcp.Prelude.{
  ℕ, suc, ◌+◌, ◌^◌, ◌<◌, ◌≤◌, ◌≡◌, refl, true, false, List, [], ◌∷◌, none, arith, length, All,
  Option-cases, ◌⊎◌, inl, inr,
}
use opcua_mcp.Session.{
  Net, Client, Outcome, WriteRequest, new_client, next_gen, is_connected, snapshot, forwards,
  connect_locked, connect, disconnect, recover_connection, send_write, probe, ensure_connected,
}

pub data Call : Type 0 where
  connects disconnects checks : Call
  recovers : ℕ → Call
  writes : WriteRequest → Call

pub record Inv (c : Client) : Type 0 where
  pub in_step : c.client_gen ≡ c.conn_gen
  pub in_range : c.conn_gen < 2 ^ 64
  pub usable : c.is_up ≡ true → is_connected c ≡ true

-- A connection is started or retired: the next generation, or the client as it was.
pub record Moves (c d : Client) : Type 0 where
  pub valid : Inv d
  pub rises : (d.conn_gen ≡ c.conn_gen) ⊎ (d.conn_gen ≡ next_gen c.conn_gen)

module _ {W : Type 0} (net : Net W) where
  unfoldable pub call : Call → Client → W → Outcome W
  call connects c w = connect net c w
  call disconnects c w = disconnect net c w
  call checks c w = (ensure_connected net c w).1
  call (recovers gen) c w = recover_connection net gen c w
  call (writes req) c w = send_write net req c w

  unfoldable pub run : List Call → Client → W → Client × W
  run [] c w = (c, w)
  run (k ∷ ks) c w = let o = call k c w in run ks o.after o.world

  connect_locked-Moves : (c : Client) (w : W) → Inv c → Moves c (connect_locked net c w).after
  unfolding connect_locked
  connect_locked-Moves c w i = ground arith

  disconnect-Moves : (c : Client) (w : W) → Inv c → Moves c (disconnect net c w).after
  unfolding disconnect
  disconnect-Moves c w i = ground arith

  recover-Moves :
      (gen : ℕ) (c : Client) (w : W) → Inv c → Moves c (recover_connection net gen c w).after
  unfolding recover_connection
  recover-Moves gen c w i = ground (arith, connect_locked-Moves c w i)

  ensure-Moves : (c : Client) (w : W) → Inv c → Moves c (ensure_connected net c w).1.after
  unfolding ensure_connected connect
  ensure-Moves c w i = elim (Option-cases (snapshot c)) [
    | inl e ↦ rw (e, ensure_connected) (connect_locked-Moves c w i)
    | inr (k, e) ↦ ground (arith, e, recover-Moves c.client_gen c (probe net k w).1 i)
  ]

  send_write-Moves :
      (req : WriteRequest) (c : Client) (w : W) → Inv c → Moves c (send_write net req c w).after
  unfolding send_write
  send_write-Moves req c w i = elim (Option-cases (snapshot c)) [
    | inl e ↦ rw (e, send_write) (record { valid = i; rises = inl refl })
    | inr (k, e) ↦
        let (_, w') = net.write k req w in ground (arith, e, recover-Moves c.client_gen c w' i)
  ]

  call-Moves : (k : Call) (c : Client) (w : W) → Inv c → Moves c (call k c w).after
  unfolding call connect
  call-Moves connects c w i = connect_locked-Moves c w i
  call-Moves disconnects c w i = disconnect-Moves c w i
  call-Moves checks c w i = ensure-Moves c w i
  call-Moves (recovers gen) c w i = recover-Moves gen c w i
  call-Moves (writes req) c w i = send_write-Moves req c w i

  run-Inv : (ks : List Call) (c : Client) (w : W) → Inv c → Inv (run ks c w).0
  unfolding run
  run-Inv [] c w i = i
  run-Inv (k ∷ ks) c w i =
      run-Inv ks (call k c w).after (call k c w).world (call-Moves k c w i).valid

  -- After any calls on a new client, its generation is that of the newest connection, and a client
  -- that says it is up has a connection.
  pub run-new_client-Inv : (ks : List Call) (w : W) → Inv (run ks new_client w).0
  unfolding new_client
  run-new_client-Inv ks w = run-Inv ks new_client w (ground arith)

  -- Short of 2 ^ 64 connections, generations do not fall.
  run-conn_gen-le :
      (ks : List Call) (c : Client) (w : W)
      → Inv c
      → c.conn_gen + length ks < 2 ^ 64
      → c.conn_gen ≤ (run ks c w).0.conn_gen
  unfolding run
  run-conn_gen-le [] c w i h = omega arith
  run-conn_gen-le (k ∷ ks) c w i h =
      let m = call-Moves k c w i in
      ground (arith, m.rises, run-conn_gen-le ks (call k c w).after (call k c w).world m.valid)

  recover_old :
      (gen : ℕ) (c : Client) (w : W)
      → gen < c.client_gen
      → recover_connection net gen c w ≡ record { error = none; after = c; world = w }
  unfolding recover_connection
  recover_old gen c w h = ground arith

  recover_raises :
      (c : Client) (w : W)
      → Inv c
      → is_connected c ≡ true
      → c.conn_gen + 1 < 2 ^ 64
      → (recover_connection net c.client_gen c w).after.conn_gen ≡ suc c.conn_gen
  unfolding recover_connection connect_locked
  recover_raises c w i u h = ground arith

  -- However many callers fail on one connection: once one of them has recovered it (well or not),
  -- a later recovery of that generation, after any other calls, touches neither the client nor the
  -- world and reports no error. (For fewer than 2 ^ 64 calls.)
  pub recover_once :
      (c : Client) (w : W) (ks : List Call)
      → Inv c
      → is_connected c ≡ true
      → c.conn_gen + 1 + length ks < 2 ^ 64
      → let o = recover_connection net c.client_gen c w in
        let (d, w') = run ks o.after o.world in
        recover_connection net c.client_gen d w' ≡ record { error = none; after = d; world = w' }
  recover_once c w ks i u h =
      let o = recover_connection net c.client_gen c w in
      let m = recover-Moves c.client_gen c w i in
      let up = recover_raises c w i u (omega arith) in
      let le = run-conn_gen-le ks o.after o.world m.valid (omega arith) in
      let e = (run-Inv ks o.after o.world m.valid).in_step in
      let low : c.client_gen < (run ks o.after o.world).0.client_gen = omega (arith, i.in_step) in
      recover_old c.client_gen (run ks o.after o.world).0 (run ks o.after o.world).1 low

  -- The calls that do not ask for a connection.
  abbrev pub IsPassive : Call → Type 0
  IsPassive connects = ⊥
  IsPassive checks = ⊥
  IsPassive _ = Unit

  passive_call :
      (k : Call) (c : Client) (w : W)
      → IsPassive k
      → c.is_up ≡ false
      → ((call k c w).after.is_up ≡ false) × ((call k c w).world ≡ w)
  unfolding call disconnect recover_connection send_write
  passive_call connects c w p d = absurd p
  passive_call disconnects c w p d = (ground arith, ground arith)
  passive_call checks c w p d = absurd p
  passive_call (recovers gen) c w p d = (ground arith, ground arith)
  passive_call (writes req) c w p d = (ground arith, ground arith)

  passive_run :
      (ks : List Call) (c : Client) (w : W)
      → All IsPassive ks
      → c.is_up ≡ false
      → ((run ks c w).0.is_up ≡ false) × ((run ks c w).1 ≡ w)
  unfolding run
  passive_run [] c w p d = (d, refl)
  passive_run (k ∷ ks) c w p d =
      let low = passive_call k c w p.0 d in
      ground (arith, low, passive_run ks (call k c w).after (call k c w).world p.1)

  -- A disconnect lasts: recoveries of any generation, writes and further disconnects leave the
  -- client down and never reach the world, so that nothing is dialed and nothing is sent.
  pub disconnect_lasts :
      (ks : List Call) (c : Client) (w : W)
      → All IsPassive ks
      → let o = disconnect net c w in
        ((run ks o.after o.world).0.is_up ≡ false) × ((run ks o.after o.world).1 ≡ o.world)
  unfolding disconnect
  disconnect_lasts ks c w p =
      let o = disconnect net c w in passive_run ks o.after o.world p (ground arith)

  disconnect_raises :
      (c : Client) (w : W)
      → c.conn_gen + 1 < 2 ^ 64
      → (disconnect net c w).after.conn_gen ≡ suc c.conn_gen
  unfolding disconnect
  disconnect_raises c w h = ground arith

  -- The states of a connection are forwarded while it is the newest, and no longer once it has been
  -- disconnected, whatever is called after that. (For fewer than 2 ^ 64 calls.)
  pub forwards-disconnect :
      (c : Client) (w : W) (ks : List Call)
      → Inv c
      → c.conn_gen + 1 + length ks < 2 ^ 64
      → let o = disconnect net c w in
        (forwards c c.conn_gen ≡ true) × (forwards (run ks o.after o.world).0 c.conn_gen ≡ false)
  unfolding forwards
  forwards-disconnect c w ks i h =
      let o = disconnect net c w in
      let m = disconnect-Moves c w i in
      let up = disconnect_raises c w (omega arith) in
      let le = run-conn_gen-le ks o.after o.world m.valid (omega arith) in
      (ground arith, ground arith)
