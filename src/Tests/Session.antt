-- ===== src/Tests/Session.antt =====
-- The theorems on the connection and the watcher, on a server that has lost every session.
use opcua_mcp.Prelude.{ℕ, ◌+◌, ◌≤◌, ◌≡◌, refl, true, false, [], ◌∷◌, none, some, arith}
use opcua_mcp.Prelude.Int.{pos}
use opcua_mcp.Prelude.Result.{ok, err}
use opcua_mcp.Value.{int32}
use opcua_mcp.Session.{
  Net, Client, WriteRequest, status, bad_session_id_invalid, connected, send_write,
  recover_connection, disconnect,
}
use opcua_mcp.Session.History.{Inv, checks, recovers, writes, run, recover_once, disconnect_lasts}
use opcua_mcp.Session.Recovery.{Uncounted}
use opcua_mcp.Session.Writes.{send_write-count}

-- The world is the number of requests that reached the server.
abbrev pub net : Net ℕ
net = record {
  dial = λ gen w. (ok 7, w);
  close = λ k w. (none, w);
  state = λ k w. connected;
  read_status = λ k w. (ok (0 ∷ []), w);
  write = λ k req w. (err (status bad_session_id_invalid), w + 1);
  on_reconnect = λ w. w;
}

abbrev pub uncounted : Uncounted net (λ n. n)
uncounted = record { dial = λ g w. refl; close = λ k w. refl; handler = λ w. refl }

abbrev pub live : Client
live = record { client = some 3; is_up = true; has_handler = true; conn_gen = 1; client_gen = 1 }

abbrev live_inv : Inv live
live_inv = record { in_step = refl; in_range = omega arith; usable = λ e. refl }

abbrev req : WriteRequest
req = record { node_id = "ns=2;s=Pump"; value = int32 (pos 5) }

send_write-count_example :
    let o = send_write net req live 0 in (o.world ≤ 1) × (o.error ≡ none → o.world ≡ 1)
send_write-count_example = send_write-count net (λ n. n) uncounted (λ k r w. refl) req live 0

recover_once_example :
    let o = recover_connection net 1 live 0 in
    let (d, w') = run net (writes req ∷ checks ∷ recovers 1 ∷ []) o.after o.world in
    recover_connection net 1 d w' ≡ record { error = none; after = d; world = w' }
recover_once_example =
    recover_once net live 0 (writes req ∷ checks ∷ recovers 1 ∷ []) live_inv refl (omega arith)

disconnect_lasts_example :
    let o = disconnect net live 0 in
    let (d, w') = run net (recovers 2 ∷ writes req ∷ []) o.after o.world in
    (d.is_up ≡ false) × (w' ≡ o.world)
disconnect_lasts_example = disconnect_lasts net (recovers 2 ∷ writes req ∷ []) live 0 (tt, (tt, tt))
