-- ===== src/Handlers/Write/Sent.antt =====
-- What an answer of `handleWrite` of internal/mcp/server.go that reports a success says.
use opcua_mcp.Prelude.{
  String, true, Option, none, some, ◌≡◌, refl, sym, ap, ◌∙◌, subst, arith, Bool-cases, Option-cases,
  inl, inr,
}
use opcua_mcp.Prelude.Int.{ℤ}
use opcua_mcp.Prelude.Text.{is_empty}
use opcua_mcp.Prelude.Result.{Result, ok, err, ok_inj}
use opcua_mcp.Session.{Error}
use opcua_mcp.Value.{Value}
use opcua_mcp.Write.NodeType.{NodeTypeInfo}
use opcua_mcp.Cache.{Backend, CacheConfig, serve, write, after_write}
use opcua_mcp.Cache
use opcua_mcp.Cache.Metadata.{get_node_type_info}
use opcua_mcp.Cache.Read.Fresh.{CacheLaws}
use opcua_mcp.Cache.Write.{IsCurrent, write-serve}
use opcua_mcp.Handlers.Write.{
  Written, type_notes, write_answer, write_typed, write_parsed, handle_write,
}

module _ {W : Type 0} (b : Backend W) (cfg : CacheConfig)
    (json_value : String → Result Error Value) where
  -- The server accepted `v`, and the next read of the node serves no older live read.
  abbrev pub Accepted : String → Value → NodeTypeInfo → W → Written → W → Type 0
  Accepted node v i w done after =
      ((b.client_write node v w).0 ≡ none)
      × (done ≡ record { node_id = node; notes = type_notes i })
      × ((max_age : ℤ) → IsCurrent (serve b cfg max_age node after).0)

  -- The value that the text stands for was accepted for the node, whose type was known.
  abbrev pub Sent : String → String → W → Written → W → Type 0
  Sent node value w done after =
      (v : Value) × (i : NodeTypeInfo) × (json_value value ≡ ok v)
      × ((get_node_type_info b cfg node w).0 ≡ ok i)
      × Accepted node v i (get_node_type_info b cfg node w).1 done after

  module _ (node : String) (laws : CacheLaws b node) (on : cfg.enable_cache ≡ true) where
    write-first :
        (v : Value) (w w1 : W)
        → b.client_write node v w ≡ (none, w1)
        → (write b cfg node v w).0 ≡ none
    unfolding write
    write-first v w w1 sent = ap (λ x. (after_write b cfg node x).0) sent ∙ rw on refl

    write_answer-world :
        (i : NodeTypeInfo) (x : Option Cache.Error × W) → (write_answer node i x).1 ≡ x.1
    write_answer-world i (none, w) = refl
    write_answer-world i (some e, w) = refl

    write_answer-none :
        (i : NodeTypeInfo) (done : Written) (x : Option Cache.Error × W)
        → x.0 ≡ none
        → (write_answer node i x).0 ≡ ok done
        → done ≡ record { node_id = node; notes = type_notes i }
    write_answer-none i done (none, w) p h = sym (ok_inj h)
    write_answer-none i done (some e, w) p h = ground (arith, p)

    write_answer-some :
        (i : NodeTypeInfo) (done : Written) (e : Cache.Error) (x : Option Cache.Error × W)
        → x.0 ≡ some e
        → (write_answer node i x).0 ≡ ok done
        → ⊥
    write_answer-some i done e (none, w) p h = ground (arith, p)
    write_answer-some i done e (some d, w) p h = ground (arith, h)

    write-Accepted :
        (v : Value) (i : NodeTypeInfo) (w : W) (done : Written)
        → (write_answer node i (write b cfg node v w)).0 ≡ ok done
        → Accepted node v i w done (write_answer node i (write b cfg node v w)).1
    unfolding write
    write-Accepted v i w done h =
        let x = b.client_write node v w in
        elim (Option-cases x.0) [
          | inr (e, p) ↦ absurd (
              write_answer-some i done e (after_write b cfg node x)
                (ap (λ o. (after_write b cfg node (o, x.1)).0) p) h)
          | inl p ↦
              let sent : x ≡ (none, x.1) = ap (λ o. (o, x.1)) p in
              (
                p,
                write_answer-none i done (after_write b cfg node x) (write-first v w x.1 sent) h,
                λ max_age.
                    subst (λ u. IsCurrent (serve b cfg max_age node u).0)
                      (sym (write_answer-world i (after_write b cfg node x)))
                      (write-serve b cfg node laws v max_age w x.1 on sent),
              )
        ]

    write_typed-Sent :
        (value : String) (v : Value) (w : W) (done : Written)
        (x : Result Cache.Error NodeTypeInfo × W)
        → json_value value ≡ ok v
        → get_node_type_info b cfg node w ≡ x
        → (write_typed b cfg json_value node v x).0 ≡ ok done
        → Sent node value w done (write_typed b cfg json_value node v x).1
    unfolding write
    write_typed-Sent value v w done (err e, w1) parsed got h = ground (arith, h)
    write_typed-Sent value v w done (ok i, w1) parsed got h = (
      v,
      i,
      parsed,
      ap (λ x. x.0) got,
      subst (λ u. Accepted node v i u done (write_answer node i (write b cfg node v w1)).1)
          (sym (ap (λ x. x.1) got)) (write-Accepted v i w1 done h),
    )

    write_parsed-Sent :
        (value : String) (w : W) (done : Written) (r : Result Error Value)
        → json_value value ≡ r
        → (write_parsed b cfg json_value node r w).0 ≡ ok done
        → Sent node value w done (write_parsed b cfg json_value node r w).1
    unfolding write get_node_type_info
    write_parsed-Sent value w done (err e) parsed h = ground (arith, h)
    write_parsed-Sent value w done (ok v) parsed h =
        write_typed-Sent value v w done (get_node_type_info b cfg node w) parsed refl h

    -- If the tool answers that a value was written, the text is JSON of a value, the type of the
    -- node was known, the server accepted that value for that node, and the next cached read of the
    -- node serves no live read from before: it goes live, or serves a subscription's value. (The
    -- hypotheses: the cache is enabled; the store forgets a deleted value, and reading it changes
    -- nothing.)
    pub handle_write-Sent :
        (value : String) (w : W) (done : Written)
        → (handle_write b cfg json_value node value w).0 ≡ ok done
        → Sent node value w done (handle_write b cfg json_value node value w).1
    unfolding handle_write write get_node_type_info
    handle_write-Sent value w done h = elim (Bool-cases (is_empty node)) [
      | inl e ↦ absurd (ground (arith, rw (handle_write, e) at h))
      | inr named ↦ elim (Bool-cases (is_empty value)) [
        | inl e ↦ absurd (ground (arith, rw (handle_write, named, e) at h))
        | inr given ↦
            rw (handle_write, named, given)
              (write_parsed-Sent value w done (json_value value) refl
                (rw (handle_write, named, given) at h))
      ]
    ]
