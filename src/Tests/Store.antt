-- ===== src/Tests/Store.antt =====
-- The theorems on the store, on a database that is a function and texts that are trees.
use opcua_mcp.Prelude.{
  ◌≡◌, refl, sym, subst, ap, ◌∙◌, String, ◌&&◌, Option, none, some, ◌==◌, string_eq, if◌then◌else◌,
  arith, Bool-cases, inl, inr,
}
use opcua_mcp.Prelude.Int.{ℤ, pos}
use opcua_mcp.Prelude.Result.{Result, ok, err, ok_inj}
use opcua_mcp.Value.{Value, GoType, int16, int32}
use opcua_mcp.Store.Types.{
  Error, json, ValueEntry, StoredValueEntry, EncodedValue, encoded, no_elems, elem,
}
use opcua_mcp.Store.Encoding.{Json, encode}
use opcua_mcp.Store.Bucket.{Bolt, Codec, put}
use opcua_mcp.Store.Bucket.Laws.{BoltLaws, JsonLaw}
use opcua_mcp.Store.Ops.{Deps, get_value, put_value}
use opcua_mcp.Store.Ops.Laws.{ScalarLaw, DepsLaws, get_value-put_value}

pub data Text : Type 0 where
  scalar : Value → Text
  entry_of : String → Text → String → ℤ → ℤ → ℤ → String → Text

abbrev pub Db : Type 0
Db = String → String → Option Text

abbrev store_at : String → String → Option Text → Db → Db
store_at b k v d b' k' = if (b == b') && (k == k') then v else d b' k'

abbrev bolt : Bolt Db Text
bolt = record {
  get_key = λ b k d. ok (d b k);
  put_key = λ b k v d. (none, store_at b k (some v) d);
  delete_key = λ b k d. (none, store_at b k none d);
  for_each = λ b d. err (json 0);
}

abbrev read_scalar : GoType → Text → Result Error Value
read_scalar g (scalar v) = ok v
read_scalar g (entry_of k t status st ct rt source) = err (json 1)

abbrev scalars : Json Text
scalars = record {
  marshal = λ v. ok (scalar v);
  unmarshal = read_scalar;
  no_raw = scalar (int32 (pos 0));
}

abbrev write_entry : StoredValueEntry Text → EncodedValue Text → Result Error Text
write_entry e (encoded k t no_elems) =
    ok (entry_of k t e.status e.source_timestamp e.server_timestamp e.received_at e.source)
write_entry e (encoded k t (elem v vs)) = err (json 2)

abbrev read_entry : Text → Result Error (StoredValueEntry Text)
read_entry (scalar v) = err (json 3)
read_entry (entry_of k t status st ct rt source) = ok (record {
  value = encoded k t no_elems;
  status = status;
  source_timestamp = st;
  server_timestamp = ct;
  received_at = rt;
  source = source;
})

abbrev values : Codec (StoredValueEntry Text) Text
values = record { marshal = λ e. write_entry e e.value; unmarshal = read_entry }

abbrev no_codec : {A : Type 0} → Codec A Text
no_codec = record { marshal = λ a. err (json 4); unmarshal = λ t. err (json 4) }

abbrev pub deps : Deps Db Text
deps = record {
  bolt = bolt;
  scalars = scalars;
  values = values;
  types = no_codec;
  browses = no_codec;
  intents = no_codec;
}

found :
    (b k b' k' : String) (v : Option Text) (d d' : Db)
    → store_at b k v d ≡ d'
    → ◌≡◌ {A = Result Error (Option Text)}
        (ok (d' b' k'))
        (if (b == b') && (k == k') then ok v else ok (d b' k'))
found b k b' k' v d d' h =
    ap (λ x. ok (x b' k')) (sym h)
    ∙ elim (Bool-cases ((b == b') && (k == k'))) [ inl e ↦ rw e refl | inr e ↦ rw e refl ]

bolt_laws : BoltLaws bolt
bolt_laws = record {
  get_put = λ b k v d d' b' k' h. found b k b' k' (some v) d d' (ap (λ x. x.1) h);
  get_delete = λ b k d d' b' k' h. found b k b' k' none d d' (ap (λ x. x.1) h);
  put_failed = λ b k v d d' e b' k' h. absurd (ground arith);
}

scalar_law : ScalarLaw scalars
scalar_law v g t typed h = subst (λ x. read_scalar g x ≡ ok v) (ok_inj h) refl

write_entry-read :
    (e : StoredValueEntry Text) (v : EncodedValue Text) (t : Text)
    → e.value ≡ v
    → write_entry e v ≡ ok t
    → read_entry t ≡ ok e
write_entry-read e (encoded k u no_elems) t p h =
    subst (λ x. read_entry x ≡ ok e) (ok_inj h) (ap (λ v. ok (record e { value = v })) (sym p))
write_entry-read e (encoded k u (elem v vs)) t p h = cc

values_law : JsonLaw values
values_law e t h = write_entry-read e e.value t refl h

pub deps_laws : DepsLaws deps
deps_laws = record { bolt = bolt_laws; scalars = scalar_law; values = values_law }

abbrev entry : ValueEntry
entry = record {
  value = int16 (pos 300);
  status = "OK";
  source_timestamp = pos 1;
  server_timestamp = pos 2;
  received_at = pos 3;
  source = "live";
}

abbrev pub empty : Db
empty b k = none

get_value-put_value_example :
    get_value deps none "ns=2;i=5" (put_value deps none "ns=2;i=5" entry empty).1 ≡ ok (some entry)
unfolding put_value encode put
get_value-put_value_example =
    get_value-put_value deps deps_laws "ns=2;i=5" entry empty
      (put_value deps none "ns=2;i=5" entry empty).1 refl

abbrev node_a : String
node_a = "a"

abbrev node_b : String
node_b = "b"
