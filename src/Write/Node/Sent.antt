-- ===== src/Write/Node/Sent.antt =====
-- What `Write` of internal/opcua/client.go puts on the wire, and how often.
use opcua_mcp.Prelude.{
  ℕ, ◌+◌, ◌≤◌, ◌≡◌, refl, subst, ◌∙◌, String, List, none, inl, inr, Bool-cases, Option-cases, arith,
}
use opcua_mcp.Prelude.Result.{Result, ok, err}
use opcua_mcp.Value.{Value}
use opcua_mcp.Session.{Net, Client, Outcome, WriteRequest, is_connected, send_write}
use opcua_mcp.Session.Recovery.{Uncounted}
use opcua_mcp.Session.Writes.{send_write-count}
use opcua_mcp.Write.Runtime.{Runtime}
use opcua_mcp.Write.Parse
use opcua_mcp.Write.NodeType.{NodeTypeInfo}
use opcua_mcp.Write.Validate.{validate_value_for_node}
use opcua_mcp.Write.Convert.{convert_value_to_opcua_type}
use opcua_mcp.Write.Node.{
  Error, no_variant, not_converted, not_valid, not_connected, invalid_node_id, then_read, or_empty,
  with_user_access, with_access, with_dimensions, with_rank, with_data_type, Wire, Written, Reading,
  refused, written, write_variant, convert_and_write, validate_and_write, write_with_type,
  write_node, get_node_type_info,
}

module _ {W : Type 0} (wire : Wire W) (net : Net W) (r : Runtime) where
  module _ (n : W → ℕ) (u : Uncounted net n)
      (sends : (k : ℕ) (req : WriteRequest) (w : W) → n (net.write k req w).1 ≡ n w + 1) where
    -- At most one write request from w on, and one if there is no error.
    abbrev pub Once : W → Written W → Type 0
    Once w o = (n o.world ≤ n w + 1) × (o.error ≡ none → n o.world ≡ n w + 1)

    written-Once :
        (w : W) (o : Outcome W)
        → n o.world ≤ n w + 1
        → (o.error ≡ none → n o.world ≡ n w + 1)
        → Once w (written o)
    written-Once w o le once = elim (Option-cases o.error) [
      | inl e ↦ (le, λ h. once e)
      | inr (x, e) ↦ (le, λ h. absurd (let h' = rw e at h in cc))
    ]

    refused-Once : (w : W) (e : Error) (c : Client) → Once w (refused e c w)
    refused-Once w e c = (omega arith, λ h. cc)

    write_variant-Once :
        (node : String) (v : Value) (c : Client) (w : W)
        → Once w (write_variant wire net r node v c w)
    unfolding write_variant
    write_variant-Once node v c w =
        let req : WriteRequest = record { node_id = node; value = v } in
        let s = send_write-count net n u sends req c w in
        elim (Bool-cases (wire.is_variant v)) [
          | inl e ↦ rw e (written-Once w (send_write net req c w) s.0 s.1)
          | inr e ↦ rw e (refused-Once w no_variant c)
        ]

    convert_and_write-Once :
        (node : String) (m : Result Parse.Error Value) (c : Client) (w : W)
        → Once w (convert_and_write wire net r node m c w)
    convert_and_write-Once node (err e) c w = refused-Once w (not_converted e) c
    convert_and_write-Once node (ok x) c w = write_variant-Once node x c w

    validate_and_write-Once :
        (info : NodeTypeInfo) (node : String) (v : Value) (m : Result Parse.Error (Unit {0}))
        (c : Client) (w : W)
        → Once w (validate_and_write wire net r info node v m c w)
    validate_and_write-Once info node v (err e) c w = refused-Once w (not_valid e) c
    validate_and_write-Once info node v (ok _) c w =
        convert_and_write-Once node (convert_value_to_opcua_type r info v) c w

    write_with_type-Once :
        (node : String) (v : Value) (m : Reading W NodeTypeInfo)
        → Once m.2 (write_with_type wire net r node v m)
    write_with_type-Once node v (err e, c, w) = write_variant-Once node v c w
    write_with_type-Once node v (ok info, c, w) =
        validate_and_write-Once info node v (validate_value_for_node r info v) c w

    -- The reads of the attributes send no write.
    pub record QuietReads : Type 0 where
      pub data_type : (s : String) (c : Client) (w : W) → n (wire.data_type s c w).2 ≡ n w
      pub value_rank : (s : String) (c : Client) (w : W) → n (wire.value_rank s c w).2 ≡ n w
      pub dimensions : (s : String) (c : Client) (w : W) → n (wire.array_dimensions s c w).2 ≡ n w
      pub access : (s : String) (c : Client) (w : W) → n (wire.access_level s c w).2 ≡ n w
      pub user_access : (s : String) (c : Client) (w : W) → n (wire.user_access_level s c w).2 ≡ n w

    then_read-count :
        {A B : Type 0} (k : ℕ) (m : Reading W A) (next : A → Client → W → Reading W B)
        → n m.2 ≡ k
        → ((a : A) (c : Client) (w : W) → n w ≡ k → n (next a c w).2 ≡ k)
        → n (then_read m next).2 ≡ k
    then_read-count k (err e, c, w) next h more = h
    then_read-count k (ok a, c, w) next h more = more a c w h

    or_empty-count : (m : Reading W (List ℕ)) → n (or_empty m).2 ≡ n m.2
    or_empty-count (err e, c, w) = refl
    or_empty-count (ok ds, c, w) = refl

    get_node_type_info-count :
        QuietReads → (s : String) (c : Client) (w : W) → n (get_node_type_info wire s c w).2 ≡ n w
    unfolding get_node_type_info
    get_node_type_info-count q s c w =
        then_read-count (n w) (wire.data_type s c w) (with_data_type wire s) (q.data_type s c w)
          (λ d c1 w1 h1.
            then_read-count (n w) (wire.value_rank s c1 w1) (with_rank wire s d)
              (q.value_rank s c1 w1 ∙ h1)
              (λ r2 c2 w2 h2.
                then_read-count (n w) (or_empty (wire.array_dimensions s c2 w2))
                  (with_dimensions wire s d r2)
                  (or_empty-count (wire.array_dimensions s c2 w2) ∙ q.dimensions s c2 w2 ∙ h2)
                  (λ ds c3 w3 h3.
                    then_read-count (n w) (wire.access_level s c3 w3) (with_access wire s d r2 ds)
                      (q.access s c3 w3 ∙ h3)
                      (λ x c4 w4 h4.
                        then_read-count (n w) (wire.user_access_level s c4 w4)
                          (with_user_access wire d r2 ds x) (q.user_access s c4 w4 ∙ h4)
                          (λ y c5 w5 h5. h5)))))

    -- The write of a value, from the check of the connection on, sends at most one write request,
    -- and exactly one where it returns no error. (`n` counts the write requests in the world.)
    pub write_node-Once :
        QuietReads
        → (node : String) (v : Value) (c : Client) (w : W)
        → Once w (write_node wire net r node v c w)
    unfolding write_node
    write_node-Once q node v c w =
        let m = get_node_type_info wire node c w in
        elim (Bool-cases (is_connected c)) [
          | inr e ↦ rw e (refused-Once w not_connected c)
          | inl e ↦ elim (Bool-cases (wire.is_node_id node)) [
            | inr f ↦ rw (e, f) (refused-Once w invalid_node_id c)
            | inl f ↦
                rw (e, f)
                  (subst
                    (λ k.
                      (n (write_with_type wire net r node v m).world ≤ k + 1)
                      × ((write_with_type wire net r node v m).error ≡ none
                          → n (write_with_type wire net r node v m).world ≡ k + 1))
                    (get_node_type_info-count q node c w) (write_with_type-Once node v m))
          ]
        ]
