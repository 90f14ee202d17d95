-- ===== src/Azure/Document/RoundTrip.antt =====
-- A document through an entity and back, all its fields together.
use omnia_backends.Base.{
  ◌≡◌, refl, ap, ◌∙◌, inl, inr, Bool, true, false, Option, none, some, [], ◌∷◌, ◌++◌, All,
  if◌then◌else◌, Bool-cases, arith,
}
use omnia_backends.Base.Results.{ok, >>=-eq-ok}
use omnia_backends.Base.Strings.{Text}
use omnia_backends.Base.Order.{bytes_ord, same, lex}
use omnia_backends.Base.Json.{Json}
use omnia_backends.Azure.Document.{
  Codec, Members, type_suffix, ends_with_type, is_metadata_key, annotated, typed_property,
  typed_properties, find_member, as_str, restore_as, restore_typed_value, restored,
}
use omnia_backends.Azure.Document.Typed.{
  annotation, settled, Shape, KeepsDoubles, typed_property-Shape, ok-eq, apart, same-suffix,
  ends_with_type-append,
}

is_metadata_key-type : (j : Text) → is_metadata_key j ≡ false → ends_with_type j ≡ false
unfolding is_metadata_key
is_metadata_key-type j h = ground arith

is_metadata_key-append : (j : Text) → is_metadata_key (j ++ type_suffix) ≡ true
unfolding is_metadata_key
is_metadata_key-append j = ground (arith, ends_with_type-append j)

abbrev pub or_else : Option Text → Option Text → Option Text
or_else none x = x
or_else (some e) x = some e

-- The annotation of a key by the fields it is made for.
unfoldable pub note : Text → Members → Option Text
note k [] = none
note k ((j, v) ∷ rest) =
    let more = note k rest in
    if is_metadata_key j then more else if same k j then or_else (annotation v) more else more

pub either : (b : Bool) (x : Option Text) → x ≡ (if b then x else x)
either true x = refl
either false x = refl

module _ (c : Codec) where
  -- What is left of a document's fields.
  unfoldable pub keep_settled : Text → Option Json → Members → Members
  keep_settled key none rest = rest
  keep_settled key (some w) rest = (key, w) ∷ rest

  unfoldable pub settled_members : Members → Members
  settled_members [] = []
  settled_members ((key, value) ∷ rest) =
      let more = settled_members rest in
      if is_metadata_key key then more else keep_settled key (settled c value) more

  Shape-note :
      (k j : Text) (v : Json) (props others ps : Members) (n : Option Text)
      → Shape c j v props
      → ends_with_type j ≡ false
      → ps ≡ props ++ others
      → as_str c (find_member c (k ++ type_suffix) others) ≡ n
      → as_str c (find_member c (k ++ type_suffix) ps)
        ≡ (if same k j then or_else (annotation v) n else n)
  unfolding find_member as_str annotated lex
  Shape-note k j v props others ps n (inl (p, a, s)) plain e h =
      rw (e, p, a) (h ∙ either (same k j) n)
  Shape-note k j v props others ps n (inr (inl (w, p, a, s))) plain e h =
      rw (e, p, a, apart k j plain) (h ∙ either (same k j) n)
  Shape-note k j v props others ps n (inr (inr (w, edm, p, a, s))) plain e h =
      rw (e, p, a, apart k j plain, same-suffix k j type_suffix)
        (elim (Bool-cases (same k j)) [ inl yes' ↦ rw yes' refl | inr no' ↦ rw no' h ])

  pub find-note :
      (k : Text) (ms ps : Members)
      → KeepsDoubles c
      → typed_properties c ms ≡ ok ps
      → as_str c (find_member c (k ++ type_suffix) ps) ≡ note k ms
  unfolding typed_properties note find_member as_str
  find-note k [] ps d = λ h. rw (ok-eq c [] ps h) refl
  find-note k ((j, v) ∷ rest) ps d = elim (Bool-cases (is_metadata_key j)) [
    | inl meta ↦ rw meta (find-note k rest ps d)
    | inr plain ↦ rw plain (λ h.
        let (props, e1, h1) = >>=-eq-ok (typed_property c j v) _ ps h in
        let (others, e2, h2) = >>=-eq-ok (typed_properties c rest) _ ps h1 in
        Shape-note k j v props others ps (note k rest) (typed_property-Shape c j v props d e1)
          (is_metadata_key-type j plain) (ok-eq c (props ++ others) ps h2)
          (find-note k rest others d e2))
  ]

  -- The entity `e` annotates a field as its value needs it.
  abbrev pub Annotates : Members → Text × Json → Type 0
  Annotates e (k, v) =
      is_metadata_key k ≡ false → as_str c (find_member c (k ++ type_suffix) e) ≡ annotation v

  restored-append :
      (e : Members) (j : Text) (v : Json) (props others ps more : Members)
      → Shape c j v props
      → is_metadata_key j ≡ false
      → as_str c (find_member c (j ++ type_suffix) e) ≡ annotation v
      → ps ≡ props ++ others
      → restored c e others ≡ more
      → restored c e ps ≡ keep_settled j (settled c v) more
  unfolding restored restore_typed_value keep_settled restore_as annotated lex
  restored-append e j v props others ps more (inl (p, a, s)) plain n q h = rw (q, p, s) h
  restored-append e j v props others ps more (inr (inl (w, p, a, s))) plain n q h =
      rw (q, p, s, plain, n, a) (ap (λ m. (j, w) ∷ m) h)
  restored-append e j v props others ps more (inr (inr (w, edm, p, a, s))) plain n q h =
      rw (q, p, s, plain, is_metadata_key-append j, n, a)
        (ap (λ m. (j, restore_as c (some edm) w) ∷ m) h)

  pub restored-settled :
      (e ms ps : Members)
      → KeepsDoubles c
      → All (Annotates e) ms
      → typed_properties c ms ≡ ok ps
      → restored c e ps ≡ settled_members ms
  unfolding typed_properties settled_members restored
  restored-settled e [] ps d a = λ h. rw (ok-eq c [] ps h) refl
  restored-settled e ((j, v) ∷ rest) ps d (a, as') = elim (Bool-cases (is_metadata_key j)) [
    | inl meta ↦ rw meta (restored-settled e rest ps d as')
    | inr plain ↦ rw plain (λ h.
        let (props, e1, h1) = >>=-eq-ok (typed_property c j v) _ ps h in
        let (others, e2, h2) = >>=-eq-ok (typed_properties c rest) _ ps h1 in
        restored-append e j v props others ps (settled_members rest)
          (typed_property-Shape c j v props d e1) plain (a plain) (ok-eq c (props ++ others) ps h2)
          (restored-settled e rest others d as' e2))
  ]
