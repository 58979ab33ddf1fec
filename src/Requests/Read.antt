-- ===== src/Requests/Read.antt =====
-- `read` and `readIndividually` of internal/opcua/client.go, and `Read` of
-- internal/opcua/session_recovery.go around them.
use opcua_mcp.Prelude.{
  ℕ, suc, String, Bool, true, false, not, ◌&&◌, List, [], ◌∷◌, Option, none, some, ltb, length,
  some_inj, if◌then◌else◌, ◌≡◌, refl, sym, ap, ◌∙◌, arith, Bool-cases, Option-cases, inl, inr,
}
use opcua_mcp.Prelude.Result.{Result, ok, err, ok_inj}
use opcua_mcp.Session.{
  Error, message, wrap, Client, Net, snapshot, is_stale_session_error, with_session_recovery,
}
use opcua_mcp.Session.Recovery.{with_session_recovery-ok}
use opcua_mcp.Requests.{Server}

module _ {W I V R : Type 0} (sv : Server W I V R) where
  -- The identifiers of all nodes, if all parse.
  unfoldable pub parse_all : List String → Option (List I)
  parse_all [] = some []
  parse_all (node ∷ nodes) = elim (sv.parse_node_id node) [
    | none ↦ none
    | some id ↦ elim (parse_all nodes) [ none ↦ none | some ids ↦ some (id ∷ ids) ]
  ]

  -- The result of a node that was read alone, and whether the next read waits for the grace period.
  abbrev pub isolated : Result Error (List V) → V × Bool
  isolated (err e) = (sv.bad_decoding, true)
  isolated (ok []) = (sv.bad_decoding, true)
  isolated (ok (v ∷ vs)) = (v, false)

  abbrev wait : Bool → W → W
  wait needed w = if needed then sv.grace_period w else w

  unfoldable pub read_individually : ℕ → Bool → List I → W → List V × W
  read_individually k grace [] w = ([], w)
  read_individually k grace (id ∷ ids) w =
      let resp = sv.read k (id ∷ []) (wait grace w) in
      let one = isolated resp.0 in
      let rest = read_individually k one.1 ids resp.1 in (one.0 ∷ rest.0, rest.1)

  -- The results of the request, or those of the single reads after a transport error.
  unfoldable pub after_read : ℕ → List I → Result Error (List V) × W → Result Error (List V) × W
  unfolding read_individually
  after_read k ids (ok vs, w) = (ok vs, w)
  after_read k ids (err e, w) =
      if ltb 1 (length ids) && not (is_stale_session_error e)
      then (let r = read_individually k true ids w in (ok r.0, r.1))
      else (err (wrap "failed to read from OPC-UA server" e), w)

  unfoldable pub read : List String → Client → W → Result Error (List V) × W
  unfolding parse_all after_read
  read nodes c w = elim (snapshot c) [
    | none ↦ (err (message "client is not connected"), w)
    | some k ↦ elim (parse_all nodes) [
      | none ↦ (err (message "invalid node ID"), w)
      | some ids ↦ after_read k ids (sv.read k ids w)
    ]
  ]

  -- `Read`
  unfoldable pub read_recovering :
      Net W → List String → Client → W → Result Error (List V) × Client × W
  unfolding with_session_recovery read
  read_recovering net nodes c w = with_session_recovery net (read nodes) c w

  -- Two lists of one length, and each node with its own result.
  abbrev pub Matched : (I → V → Type 0) → List I → List V → Type 0
  Matched Good [] [] = Unit
  Matched Good [] (v ∷ vs) = true ≡ false
  Matched Good (id ∷ ids) [] = true ≡ false
  Matched Good (id ∷ ids) (v ∷ vs) = Good id v × Matched Good ids vs

  isolated-Good :
      (Good : I → V → Type 0)
      → ((id : I) → Good id sv.bad_decoding)
      → (id : I) (r : Result Error (List V)) → ((v : V) (vs : List V) → r ≡ ok (v ∷ vs) → Good id v)
      → Good id (isolated r).0
  isolated-Good Good bad id (err e) h = bad id
  isolated-Good Good bad id (ok []) h = bad id
  isolated-Good Good bad id (ok (v ∷ vs)) h = h v vs refl

  parse_all-length :
      (nodes : List String) (ids : List I) → parse_all nodes ≡ some ids → length ids ≡ length nodes
  unfolding parse_all
  parse_all-length [] ids e = ground (arith, e)
  parse_all-length (node ∷ nodes) ids e = elim (Option-cases (sv.parse_node_id node)) [
    | inl bad ↦ ground (arith, rw (parse_all, bad) at e)
    | inr (id, good) ↦ elim (Option-cases (parse_all nodes)) [
      | inl bad ↦ ground (arith, rw (parse_all, good, bad) at e)
      | inr (rest, all) ↦
          ap length (sym (some_inj (rw (parse_all, good, all) at e)))
          ∙ ap suc (parse_all-length nodes rest all)
    ]
  ]

  read_individually-length :
      (k : ℕ) (grace : Bool) (ids : List I) (w : W)
      → length (read_individually k grace ids w).0 ≡ length ids
  unfolding read_individually
  read_individually-length k grace [] w = refl
  read_individually-length k grace (id ∷ ids) w =
      let resp = sv.read k (id ∷ []) (wait grace w) in
      ap suc (read_individually-length k (isolated resp.0).1 ids resp.1)

  -- The server has one result for each node that it is asked for.
  abbrev pub AnswersAll : Type 0
  AnswersAll =
      (k : ℕ) (ids : List I) (w : W) (vs : List V)
      → (sv.read k ids w).0 ≡ ok vs
      → length vs ≡ length ids

  after_read-length :
      (k : ℕ) (ids : List I) (x : Result Error (List V) × W) (vs : List V)
      → ((us : List V) → x.0 ≡ ok us → length us ≡ length ids)
      → (after_read k ids x).0 ≡ ok vs
      → length vs ≡ length ids
  unfolding read_individually after_read
  after_read-length k ids (ok us, w) vs h e = ap length (sym (ok_inj e)) ∙ h us refl
  after_read-length k ids (err x, w) vs h e =
      elim (Bool-cases (ltb 1 (length ids) && not (is_stale_session_error x))) [
        | inl alone ↦
            ap length (sym (ok_inj (rw alone at e))) ∙ read_individually-length k true ids w
        | inr failed ↦ ground (arith, rw failed at e)
      ]

  read-length :
      AnswersAll
      → (nodes : List String) (c : Client) (w : W) (vs : List V) → (read nodes c w).0 ≡ ok vs
      → length vs ≡ length nodes
  unfolding read
  read-length answers nodes c w vs e = elim (Option-cases (snapshot c)) [
    | inl down ↦ ground (arith, rw (read, down) at e)
    | inr (k, up) ↦ elim (Option-cases (parse_all nodes)) [
      | inl bad ↦ ground (arith, rw (read, up, bad) at e)
      | inr (ids, good) ↦
          after_read-length k ids (sv.read k ids w) vs (answers k ids w) (rw (read, up, good) at e)
          ∙ parse_all-length nodes ids good
    ]
  ]

  -- A read through a possible recovery of the session fails, or has one result for each node, also
  -- where the batch failed and each node was read alone. (The hypothesis: the server answers a
  -- request with one result for each node in it.)
  pub read_recovering-length :
      AnswersAll
      → (net : Net W) (nodes : List String) (c : Client) (w : W) (vs : List V)
      → (read_recovering net nodes c w).0 ≡ ok vs
      → length vs ≡ length nodes
  unfolding read_recovering
  read_recovering-length answers net nodes c w vs e =
      with_session_recovery-ok net (read nodes) (λ us. length us ≡ length nodes)
        (read-length answers nodes) c w vs e

  -- Each node's result of a read alone is its own, whatever the others are: it is what the server
  -- gives for that node, or the value with a bad status, in the order of the nodes.
  pub read_individually-All :
      (Good : I → V → Type 0)
      → ((id : I) → Good id sv.bad_decoding)
      → ((k : ℕ) (id : I) (w : W) (v : V) (vs : List V)
          → (sv.read k (id ∷ []) w).0 ≡ ok (v ∷ vs)
          → Good id v)
      → (k : ℕ) (grace : Bool) (ids : List I) (w : W)
      → Matched Good ids (read_individually k grace ids w).0
  unfolding read_individually
  read_individually-All Good bad good k grace [] w = tt
  read_individually-All Good bad good k grace (id ∷ ids) w =
      let resp = sv.read k (id ∷ []) (wait grace w) in
      (
        isolated-Good Good bad id resp.0 (good k id (wait grace w)),
        read_individually-All Good bad good k (isolated resp.0).1 ids resp.1,
      )
