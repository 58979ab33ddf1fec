-- ===== src/Requests/Browse.antt =====
-- `browse` of internal/opcua/client.go: it follows the continuation points, up to a limit.
use opcua_mcp.Prelude.{
  ℕ, zero, suc, ◌+◌, ◌≤◌, String, List, [], ◌∷◌, ◌++◌, none, some, nat_beq, if◌then◌else◌, ◌≡◌,
  refl, sym, ap, subst, ◌∙◌, ◌↔◌, arith, Option-cases, inl, inr, ◌≢◌, append_nil, append_assoc3,
}
use opcua_mcp.Prelude.Result.{Result, ok, err, Result-cases, ok_inj}
use opcua_mcp.Session.{Error, message, wrap, Client, snapshot}
use opcua_mcp.Requests.{Server, BrowseResult}

abbrev pub max_browse_next_iterations : ℕ
max_browse_next_iterations = 10000

module _ {W I V R : Type 0} (sv : Server W I V R) where
  -- The first result of a response, if it is good.
  abbrev pub page : Result Error (List (BrowseResult R)) → Result Error (BrowseResult R)
  page (err e) = err (wrap "failed to browse OPC-UA server" e)
  page (ok []) = err (message "no browse results returned")
  page (ok (r ∷ rs)) = if nat_beq r.status 0 then ok r else err (message "browse failed for node")

  -- The loop over the continuation points, with the number of iterations left and the references so
  -- far.
  unfoldable pub follow : ℕ → ℕ → List ℕ → List R → W → Result Error (List R) × W
  follow k left [] refs w = (ok refs, w)
  follow k zero (b ∷ bs) refs w = (err (message "exceeded BrowseNext continuations"), w)
  follow k (suc left) (b ∷ bs) refs w = elim (sv.context_error w) [
    | some e ↦ (err (wrap "cancelled while following continuation points" e), w)
    | none ↦
        let next = sv.browse_next k (b ∷ bs) w in
        elim (page next.0) [
          | err e ↦ (err e, next.1)
          | ok p ↦ follow k left p.continuation_point (refs ++ p.references) next.1
        ]
  ]

  unfoldable pub browse_id : ℕ → I → W → Result Error (List R) × W
  unfolding follow
  browse_id k id w =
      let first = sv.browse k id w in
      elim (page first.0) [
        | err e ↦ (err e, first.1)
        | ok p ↦ follow k max_browse_next_iterations p.continuation_point p.references first.1
      ]

  unfoldable pub browse : String → Client → W → Result Error (List R) × W
  unfolding browse_id
  browse node c w = elim (snapshot c) [
    | none ↦ (err (message "client is not connected"), w)
    | some k ↦ elim (sv.parse_node_id node) [
      | none ↦ (err (message "invalid node ID"), w)
      | some id ↦ browse_id k id w
    ]
  ]

  -- From a continuation point on the server gives, in so many requests, these references.
  abbrev pub Pages : ℕ → ℕ → List ℕ → W → List R → W → Type 0
  Pages k zero cp w more w' = (cp ≡ []) × (more ≡ []) × (w ≡ w')
  Pages k (suc n) cp w more w' =
      (p : BrowseResult R) × (rest : List R) × (cp ≢ [])
      × (sv.context_error w ≡ none)
      × (page (sv.browse_next k cp w).0 ≡ ok p)
      × (more ≡ p.references ++ rest)
      × Pages k n p.continuation_point (sv.browse_next k cp w).1 rest w'

  follow_next :
      (k left b : ℕ) (bs : List ℕ) (refs : List R) (w : W) (p : BrowseResult R)
      → sv.context_error w ≡ none
      → page (sv.browse_next k (b ∷ bs) w).0 ≡ ok p
      → follow k (suc left) (b ∷ bs) refs w
        ≡ follow k left p.continuation_point (refs ++ p.references) (sv.browse_next k (b ∷ bs) w).1
  unfolding follow
  follow_next k left b bs refs w p live good = rw (follow, live, good) refl

  -- If the pages end within the limit, the loop returns them all.
  follow-of-Pages :
      (k n left : ℕ) (cp : List ℕ) (refs more : List R) (w w' : W)
      → n ≤ left
      → Pages k n cp w more w'
      → follow k left cp refs w ≡ (ok (refs ++ more), w')
  unfolding follow
  follow-of-Pages k zero left [] refs more w w' h (e, m, same) =
      ap (λ x. (ok refs, x)) same
      ∙ ap (λ l. (ok l, w')) (sym (append_nil refs) ∙ ap (λ l. refs ++ l) (sym m))
  follow-of-Pages k zero left (b ∷ bs) refs more w w' h (e, m, same) = ground (arith, e)
  follow-of-Pages k (suc n) left [] refs more w w' h (p, rest, ne, live, good, m, pages) =
      absurd (ne refl)
  follow-of-Pages k (suc n) zero (b ∷ bs) refs more w w' h x = ground (arith, h)
  follow-of-Pages k (suc n) (suc left) (b ∷ bs) refs more w w' h
        (p, rest, ne, live, good, m, pages) =
      follow_next k left b bs refs w p live good
      ∙ follow-of-Pages k n left p.continuation_point (refs ++ p.references) rest
          (sv.browse_next k (b ∷ bs) w).1 w' (omega (arith, h)) pages
      ∙ ap (λ l. (ok l, w')) (append_assoc3 refs p.references rest ∙ ap (λ l. refs ++ l) (sym m))

  -- What the loop returns without an error is all the pages.
  Pages-of-follow :
      (k left : ℕ) (cp : List ℕ) (refs found : List R) (w : W)
      → (follow k left cp refs w).0 ≡ ok found
      → (n : ℕ) × (more : List R) × (n ≤ left)
        × (found ≡ refs ++ more)
        × Pages k n cp w more (follow k left cp refs w).1
  unfolding follow
  Pages-of-follow k left [] refs found w e =
      (0, [], omega arith, sym (ok_inj e) ∙ sym (append_nil refs), (refl, refl, refl))
  Pages-of-follow k zero (b ∷ bs) refs found w e = ground (arith, e)
  Pages-of-follow k (suc left) (b ∷ bs) refs found w e = elim (Option-cases (sv.context_error w)) [
    | inr (x, stopped) ↦ ground (arith, rw (follow, stopped) at e)
    | inl live ↦ elim (Result-cases (page (sv.browse_next k (b ∷ bs) w).0)) [
      | inl (x, bad) ↦ ground (arith, rw (follow, live, bad) at e)
      | inr (p, good) ↦
          let step = follow_next k left b bs refs w p live good in
          let w1 = (sv.browse_next k (b ∷ bs) w).1 in
          let (n, more, h, q, pages) =
            Pages-of-follow k left p.continuation_point (refs ++ p.references) found w1
              (sym (ap (λ x. x.0) step) ∙ e) in
          (
            suc n,
            p.references ++ more,
            omega (arith, h),
            q ∙ append_assoc3 refs p.references more,
            (
              p,
              more,
              (λ z. ground (arith, z)),
              live,
              good,
              refl,
              subst (λ x. Pages k n p.continuation_point w1 more x.1) (sym step) pages,
            ),
          )
    ]
  ]

  -- The client is up, the first page is good, and the pages from it on end within the limit.
  abbrev pub Listing : String → Client → W → List R → W → Type 0
  Listing node c w found w' =
      (k : ℕ) × (id : I) × (p : BrowseResult R) × (n : ℕ) × (more : List R) × (snapshot c ≡ some k)
      × (sv.parse_node_id node ≡ some id)
      × (page (sv.browse k id w).0 ≡ ok p)
      × (n ≤ max_browse_next_iterations)
      × (found ≡ p.references ++ more)
      × Pages k n p.continuation_point (sv.browse k id w).1 more w'

  browse_first :
      (node : String) (c : Client) (w : W) (k : ℕ) (id : I) (p : BrowseResult R)
      → snapshot c ≡ some k
      → sv.parse_node_id node ≡ some id
      → page (sv.browse k id w).0 ≡ ok p
      → browse node c w
        ≡ follow k max_browse_next_iterations p.continuation_point p.references (sv.browse k id w).1
  unfolding browse
  browse_first node c w k id p up parsed good = rw (browse, up, parsed, browse_id, good) refl

  -- A browse returns all the references of the node, page by page, and without an error exactly if
  -- the client is up, the identifier parses, every page is good and the server has given the last one
  -- after at most 10000 continuations.
  pub browse-Listing :
      (node : String) (c : Client) (w w' : W) (found : List R)
      → (browse node c w ≡ (ok found, w')) ↔ Listing node c w found w'
  unfolding browse
  browse-Listing node c w w' found = (
    (λ e. elim (Option-cases (snapshot c)) [
      | inl down ↦ ground (arith, rw (browse, down) at e)
      | inr (k, up) ↦ elim (Option-cases (sv.parse_node_id node)) [
        | inl bad ↦ ground (arith, rw (browse, up, bad) at e)
        | inr (id, parsed) ↦ elim (Result-cases (page (sv.browse k id w).0)) [
          | inl (x, bad) ↦ ground (arith, rw (browse, up, parsed, browse_id, bad) at e)
          | inr (p, good) ↦
              let step = sym (browse_first node c w k id p up parsed good) ∙ e in
              let (n, more, h, q, pages) =
                Pages-of-follow k max_browse_next_iterations p.continuation_point p.references found
                  (sv.browse k id w).1 (ap (λ x. x.0) step) in
              (
                k,
                id,
                p,
                n,
                more,
                up,
                parsed,
                good,
                h,
                q,
                subst (λ x. Pages k n p.continuation_point (sv.browse k id w).1 more x.1) step
                    pages,
              )
        ]
      ]
    ]),
    (λ (k, id, p, n, more, up, parsed, good, h, q, pages).
        browse_first node c w k id p up parsed good
        ∙ follow-of-Pages k n max_browse_next_iterations p.continuation_point p.references more
            (sv.browse k id w).1 w' h pages
        ∙ ap (λ l. (ok l, w')) (sym q)),
  )

  -- `n` counts the requests in the world.
  pub record CountsRequests (n : W → ℕ) : Type 0 where
    pub browse : (k : ℕ) (id : I) (w : W) → n (sv.browse k id w).1 ≡ n w + 1
    pub next : (k : ℕ) (cp : List ℕ) (w : W) → n (sv.browse_next k cp w).1 ≡ n w + 1

  follow-count :
      (n : W → ℕ)
      → CountsRequests n
      → (k left : ℕ) (cp : List ℕ) (refs : List R) (w : W)
      → n (follow k left cp refs w).1 ≤ n w + left
  unfolding follow
  follow-count n counts k left [] refs w = omega arith
  follow-count n counts k zero (b ∷ bs) refs w = omega arith
  follow-count n counts k (suc left) (b ∷ bs) refs w =
      let w1 = (sv.browse_next k (b ∷ bs) w).1 in
      elim (Option-cases (sv.context_error w)) [
        | inr (x, stopped) ↦ rw (follow, stopped) (omega arith)
        | inl live ↦ elim (Result-cases (page (sv.browse_next k (b ∷ bs) w).0)) [
          | inl (x, bad) ↦ rw (follow, live, bad) (omega (arith, counts.next k (b ∷ bs) w))
          | inr (p, good) ↦ rw (follow_next k left b bs refs w p live good) (
              omega (
                arith,
                counts.next k (b ∷ bs) w,
                follow-count n counts k left p.continuation_point (refs ++ p.references) w1,
              ))
        ]
      ]

  -- Whatever the server answers, a browse ends after at most 10001 requests.
  pub browse-count :
      (n : W → ℕ)
      → CountsRequests n
      → (node : String) (c : Client) (w : W) → n (browse node c w).1 ≤ n w + 10001
  unfolding browse
  browse-count n counts node c w = elim (Option-cases (snapshot c)) [
    | inl down ↦ rw (browse, down) (omega arith)
    | inr (k, up) ↦ elim (Option-cases (sv.parse_node_id node)) [
      | inl bad ↦ rw (browse, up, bad) (omega arith)
      | inr (id, parsed) ↦ elim (Result-cases (page (sv.browse k id w).0)) [
        | inl (x, bad) ↦
            rw (browse, up, parsed, browse_id, bad) (omega (arith, counts.browse k id w))
        | inr (p, good) ↦ rw (browse_first node c w k id p up parsed good) (
            omega (
              arith,
              counts.browse k id w,
              follow-count n counts k max_browse_next_iterations p.continuation_point p.references
                  (sv.browse k id w).1,
            ))
      ]
    ]
  ]
