-- ===== src/Azure/Document/Whole.antt =====
-- `unflatten` after `flatten`.
use omnia_backends.Base.{
  ℕ, ◌≡◌, refl, sym, ap, ap₂, subst, ◌∙◌, inl, inr, false, Option, none, some, List, [], ◌∷◌, ◌++◌,
  All, All-map, ◌==◌, ==_iff, Bool-cases, Option-cases, arith,
}
use omnia_backends.Base.Results.{Result, ok, >>=-eq-ok}
use omnia_backends.Base.Strings.{Text, strip_suffix}
use omnia_backends.Base.Order.{bytes_ord, same, eq_of_same, same_refl, lex}
use omnia_backends.Base.Text.{codes}
use omnia_backends.Base.Json.{Json, string, object, Fields, fields, fields_of}
use omnia_backends.Azure.Document.{
  Codec, Document, EntityError, Members, ends_with_type, is_metadata_key, typed_properties,
  find_member, as_str, restored, split_once, encode_id, decode_id, from_bytes, as_object, flatten,
  unflatten, required_key,
}
use omnia_backends.Azure.Document.Typed.{annotation, KeepsDoubles, apart, true-false, ok-eq}
use omnia_backends.Azure.Document.RoundTrip.{
  note, or_else, either, settled_members, Annotates, find-note, restored-settled,
}

pk_plain : ends_with_type (codes "PartitionKey") ≡ false
unfolding ends_with_type strip_suffix lex
pk_plain = refl

rk_plain : ends_with_type (codes "RowKey") ≡ false
unfolding ends_with_type strip_suffix lex
rk_plain = refl

abbrev some_keys : Text × Text → Option (Text × Text)
some_keys a = some a

fields-fields_of : (members : Members) → fields (fields_of members) ≡ members
unfolding fields fields_of
fields-fields_of [] = refl
fields-fields_of ((key, value) ∷ rest) = ap (λ m. (key, value) ∷ m) (fields-fields_of rest)

same-sym : (j k : Text) → same k j ≡ false → same j k ≡ false
same-sym j k h = elim (Bool-cases (same j k)) [
  | inl e ↦ absurd (true-false (sym (same_refl k) ∙ (ap (same k) (sym (eq_of_same j k e)) ∙ h)))
  | inr e ↦ e
]

All-both :
    {P Q R : Text × Json → Type 0} (xs : Members)
    → All P xs
    → All Q xs
    → ((x : Text × Json) → P x → Q x → R x)
    → All R xs
All-both [] p q f = tt
All-both (x ∷ xs) (p, ps) (q, qs) f = (f x p q, All-both xs ps qs f)

module _ (c : Codec) where
  -- No key twice.
  unfoldable pub Distinct : Members → Type 0
  Distinct [] = Unit
  Distinct ((k, v) ∷ rest) = (find_member c k rest ≡ none) × Distinct rest

  absent-All :
      (k : Text) (rest : Members) → find_member c k rest ≡ none → All (λ p. same k p.0 ≡ false) rest
  unfolding find_member
  absent-All k [] h = tt
  absent-All k ((j, w) ∷ rest) h = (ground arith, absent-All k rest (ground arith))

  absent-note : (k : Text) (rest : Members) → find_member c k rest ≡ none → note k rest ≡ none
  unfolding find_member note
  absent-note k [] h = refl
  absent-note k ((j, w) ∷ rest) h = ground (arith, absent-note k rest (ground arith))

  annotation_none : (a : Option Text) → or_else a none ≡ a
  annotation_none none = refl
  annotation_none (some e) = refl

  notes-All :
      (ms : Members)
      → Distinct ms
      → All (λ (k, v). is_metadata_key k ≡ false → note k ms ≡ annotation v) ms
  unfolding Distinct note
  notes-All [] d = tt
  notes-All ((k, v) ∷ rest) (absent, d) = (
    λ plain. rw (plain, same_refl k, absent-note k rest absent) (annotation_none (annotation v)),
    All-both rest (absent-All k rest absent) (notes-All rest d) (λ (j, w) other h plain.
        rw (same-sym j k other) (sym (either (is_metadata_key k) (note j rest)) ∙ h plain)),
  )

some-eq : (a b : Text × Text) → some_keys a ≡ some_keys b → b ≡ a
some-eq a b h = cc

split_once-encode :
    (id : Text) (keys : Text × Text) → split_once id ≡ some keys → encode_id keys.0 keys.1 ≡ id
unfolding split_once encode_id
split_once-encode [] keys = λ h. cc
split_once-encode (c ∷ text) keys = elim (Bool-cases (c == 0)) [
  | inl nul ↦ rw nul (λ h.
      ap (λ p. p.0 ++ 0 ∷ p.1) (some-eq ([], text) keys h)
      ∙ ap (λ k. k ∷ text) (sym ((==_iff c 0).0 nul)))
  | inr other ↦ rw other (elim (Option-cases (split_once text)) [
    | inl none' ↦ rw none' (λ h. cc)
    | inr (p, e) ↦ rw e (λ h.
        ap (λ q. q.0 ++ 0 ∷ q.1) (some-eq (c ∷ p.0, p.1) keys h)
        ∙ ap (λ x. c ∷ x) (split_once-encode text p e))
  ])
]

abbrev ok_keys : Text × Text → Result (Text × Text) EntityError
ok_keys a = ok a

keys-eq : (a b : Text × Text) → ok_keys a ≡ ok_keys b → b ≡ a
keys-eq a b h = cc

abbrev ok_json : Json → Result Json EntityError
ok_json a = ok a

json-eq : (a b : Json) → ok_json a ≡ ok_json b → b ≡ a
json-eq a b h = cc

decode_id-encode :
    (id : Text) (keys : Text × Text) → decode_id id ≡ ok keys → encode_id keys.0 keys.1 ≡ id
unfolding decode_id
decode_id-encode id keys = elim (Option-cases (split_once id)) [
  | inl none' ↦ rw (none', decode_id) (λ h. cc)
  | inr (p, e) ↦
      rw (e, decode_id) (λ h. split_once-encode id keys (e ∙ sym (ap some (keys-eq p keys h))))
]

abbrev the_document : Document → Result Document EntityError
the_document d = ok d

-- The entity of a document, its keys first.
abbrev entity_of : Text × Text → Members → Members
entity_of keys properties =
    (codes "PartitionKey", string keys.0) ∷ (codes "RowKey", string keys.1) ∷ properties

module _ (c : Codec) where
  entity-Annotates :
      (keys : Text × Text) (ms ps : Members)
      → KeepsDoubles c
      → Distinct c ms
      → typed_properties c ms ≡ ok ps
      → All (Annotates c (entity_of keys ps)) ms
  unfolding find_member
  entity-Annotates keys ms ps d distinct h =
      All-map
        (λ (k, v) noted plain.
          rw (apart k (codes "PartitionKey") pk_plain, apart k (codes "RowKey") rk_plain)
            (find-note c k ms ps d h ∙ noted plain))
        ms (notes-All c ms distinct)

  unflatten-entity :
      (keys : Text × Text) (ms ps : Members)
      → KeepsDoubles c
      → Distinct c ms
      → typed_properties c ms ≡ ok ps
      → unflatten c (object (fields_of (entity_of keys ps)))
        ≡ ok (record {
          id = encode_id keys.0 keys.1;
          document_data = c.to_vec (object (fields_of (settled_members c ms)));
        })
  unfolding unflatten as_object required_key find_member as_str restored is_metadata_key lex
  unflatten-entity keys ms ps d distinct h =
      rw
        (
          fields-fields_of (entity_of keys ps),
          restored-settled c (entity_of keys ps) ms ps d (entity-Annotates keys ms ps d distinct h)
              h,
        )
        refl

  from_bytes-object :
      (bytes : List ℕ) (v value : Json)
      → c.from_slice bytes ≡ some v
      → from_bytes c bytes ≡ ok value
      → value ≡ v
  unfolding from_bytes
  from_bytes-object bytes v value e = rw (e, from_bytes) (λ h. json-eq v value h)

  as_object-members :
      (value : Json) (members : Fields) (ms : Members)
      → value ≡ object members
      → as_object c value ≡ ok ms
      → ms ≡ fields members
  unfolding as_object
  as_object-members value members ms e h =
      ok-eq c (fields members) ms (sym (ap (as_object c) e) ∙ h)

  -- A document whose fields have distinct keys, with finite doubles, comes back from its entity under its own id,
  -- with every field that the service keeps: the service's own names and nulls are gone, a nested value
  -- is its JSON text, and all others are as they were, integers past 32 bits among them.
  pub unflatten-flatten :
      (doc : Document) (entity : Json) (members : Fields)
      → KeepsDoubles c
      → c.from_slice doc.document_data ≡ some (object members)
      → Distinct c (fields members)
      → flatten c doc ≡ ok entity
      → unflatten c entity
        ≡ ok (record {
          id = doc.id;
          document_data = c.to_vec (object (fields_of (settled_members c (fields members))));
        })
  unfolding flatten
  unflatten-flatten doc entity members d body distinct h =
      let (keys, e1, h1) = >>=-eq-ok (decode_id doc.id) _ entity h in
      let (value, e2, h2) = >>=-eq-ok (from_bytes c doc.document_data) _ entity h1 in
      let (ms, e3, h3) = >>=-eq-ok (as_object c value) _ entity h2 in
      let (ps, e4, h4) = >>=-eq-ok (typed_properties c ms) _ entity h3 in
      let value_object = from_bytes-object doc.document_data (object members) value body e2 in
      let same_members = as_object-members value members ms value_object e3 in
      let made = json-eq (object (fields_of (entity_of keys ps))) entity h4 in
      ap (unflatten c) made
      ∙ (unflatten-entity keys ms ps d (subst (Distinct c) (sym same_members) distinct) e4
          ∙ ap₂
              (λ i m. the_document (record {
                id = i;
                document_data = c.to_vec (object (fields_of (settled_members c m)));
              }))
              (decode_id-encode doc.id keys e1) same_members)
