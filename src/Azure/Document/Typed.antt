-- ===== src/Azure/Document/Typed.antt =====
-- A document through an entity and back.
use omnia_backends.Base.{
  ℕ, ◌≡◌, refl, sym, ap, ap₂, ◌∙◌, ◌⊎◌, inl, inr, true, false, Option, none, some, [], ◌∷◌, ◌++◌,
  length, length-append, if◌then◌else◌, Bool-cases, arith,
}
use omnia_backends.Base.Results.{Result, ok}
use omnia_backends.Base.Strings.{Text, strip_suffix}
use omnia_backends.Base.Order.{bytes_ord, same, eq_of_same, same_refl, lex}
use omnia_backends.Base.Text.{codes}
use omnia_backends.Base.Json.{ℤ, integer, float, Json, null, bool, number, string, array, object}
use omnia_backends.Base.Integers.{to_text, as_i64, parse_i64-to_text, as_i64-some}
use omnia_backends.Azure.Document.{
  Codec, EntityError, Members, type_suffix, ends_with_type, in_i32, annotated, typed_integer,
  typed_property, restore_int64, restore_double, restore_as, or_value,
}

head-eq : (b c : ℕ) (x y : Text) → b ∷ x ≡ c ∷ y → b ≡ c
head-eq b c x y h = cc

tail-eq : (b c : ℕ) (x y : Text) → b ∷ x ≡ c ∷ y → x ≡ y
tail-eq b c x y h = cc

pub true-false : true ≡ false → ⊥
true-false h = cc

append_cancel : (j k s : Text) → j ++ s ≡ k ++ s → j ≡ k
append_cancel [] [] s h = refl
append_cancel [] (c ∷ k) s h = absurd (omega (arith, ap length h, length-append k s))
append_cancel (b ∷ j) [] s h = absurd (omega (arith, ap length h, length-append j s))
append_cancel (b ∷ j) (c ∷ k) s h =
    ap₂ (λ x y. x ∷ y) (head-eq b c (j ++ s) (k ++ s) h)
      (append_cancel j k s (tail-eq b c (j ++ s) (k ++ s) h))

-- Keys with the same suffix are as different as they are without it.
pub same-suffix : (k j s : Text) → same (k ++ s) (j ++ s) ≡ same k j
same-suffix k j s = elim (Bool-cases (same k j)) [
  | inl equal ↦
      ap (λ x. same (x ++ s) (j ++ s)) (eq_of_same k j equal) ∙ (same_refl (j ++ s) ∙ sym equal)
  | inr apart ↦ elim (Bool-cases (same (k ++ s) (j ++ s))) [
    | inl e ↦ absurd (
        true-false (
          sym (same_refl k)
          ∙ (ap (same k) (append_cancel k j s (eq_of_same (k ++ s) (j ++ s) e)) ∙ apart)))
    | inr e ↦ e ∙ sym apart
  ]
]

strip_suffix-append :
    (key : Text) → (rest : Text) × (strip_suffix type_suffix (key ++ type_suffix) ≡ some rest)
unfolding strip_suffix lex
strip_suffix-append [] = ([], refl)
strip_suffix-append (c ∷ key) = elim (Bool-cases (same (c ∷ (key ++ type_suffix)) type_suffix)) [
  | inl here ↦ ([], rw here refl)
  | inr later ↦ let (rest, e) = strip_suffix-append key in (c ∷ rest, rw (later, e) refl)
]

pub ends_with_type-append : (key : Text) → ends_with_type (key ++ type_suffix) ≡ true
unfolding ends_with_type
ends_with_type-append key = rw ((strip_suffix-append key).1, ends_with_type) refl

-- An annotation's key is no key of another kind.
pub apart : (key j : Text) → ends_with_type j ≡ false → same (key ++ type_suffix) j ≡ false
apart key j h = elim (Bool-cases (same (key ++ type_suffix) j)) [
  | inl e ↦ absurd (
      true-false (
        sym (ends_with_type-append key)
        ∙ (ap ends_with_type (eq_of_same (key ++ type_suffix) j e) ∙ h)))
  | inr e ↦ e
]

-- What the service must be told of a value, and what a field of a document comes back as: nothing for null, a
-- nested value as its text.
unfoldable pub annotation : Json → Option Text
annotation (number (float t)) = some (codes "Edm.Double")
annotation (number (integer z)) = if in_i32 z then none else some (codes "Edm.Int64")
annotation value = none

abbrev pub the_members : Members → Result Members EntityError
the_members a = ok a

module _ (c : Codec) where
  unfoldable pub settled : Json → Option Json
  settled null = none
  settled (array values) = some (string (c.to_string (array values)))
  settled (object members) = some (string (c.to_string (object members)))
  settled value = some value

  -- The properties of a field: none, one, or one with its annotation; read back, they are the field.
  abbrev pub Shape : Text → Json → Members → Type 0
  Shape key value properties =
      ((properties ≡ []) × (annotation value ≡ none) × (settled value ≡ none))
      ⊎ ((w : Json) × (properties ≡ (key, w) ∷ [])
          × (annotation value ≡ none)
          × (settled value ≡ some w))
      ⊎ ((w : Json) × (edm : Text) × (properties ≡ annotated key w edm)
          × (annotation value ≡ some edm)
          × (settled value ≡ some (restore_as c (some edm) w)))

  -- A finite double is itself.
  abbrev pub KeepsDoubles : Type 0
  KeepsDoubles = (t : Text) → c.as_double (float t) ≡ some (float t)

  pub ok-eq : (a b : Members) → the_members a ≡ the_members b → b ≡ a
  ok-eq a b h = cc

  integer-Shape :
      (key : Text) (z : ℤ) (properties : Members) (v : Option ℤ)
      → as_i64 (integer z) ≡ v
      → typed_integer key z v ≡ ok properties
      → Shape key (number (integer z)) properties
  unfolding typed_integer settled annotation restore_as restore_int64 lex or_value
  integer-Shape key z properties none e h = cc
  integer-Shape key z properties (some v) e h =
      let (same_value, range) = as_i64-some z v e in
      elim (Bool-cases (in_i32 z)) [
        | inl small ↦ inr (
            inl (
              number (integer z),
              ok-eq ((key, number (integer z)) ∷ []) properties (
                  sym (
                    ap
                      (λ b. the_members (
                        if b
                        then (key, number (integer z)) ∷ []
                        else annotated key (string (to_text z)) (codes "Edm.Int64")))
                      small)
                  ∙ (sym (ap (λ x. typed_integer key z (some x)) same_value) ∙ h)),
              rw small refl,
              refl,
            ))
        | inr large ↦ inr (
            inr (
              string (to_text z),
              codes "Edm.Int64",
              ok-eq (annotated key (string (to_text z)) (codes "Edm.Int64")) properties (
                  sym (
                    ap
                      (λ b. the_members (
                        if b
                        then (key, number (integer z)) ∷ []
                        else annotated key (string (to_text z)) (codes "Edm.Int64")))
                      large)
                  ∙ (sym (ap (λ x. typed_integer key z (some x)) same_value) ∙ h)),
              rw large refl,
              rw (parse_i64-to_text z range) refl,
            ))
      ]

  pub typed_property-Shape :
      (key : Text) (value : Json) (properties : Members)
      → KeepsDoubles
      → typed_property c key value ≡ ok properties
      → Shape key value properties
  unfolding typed_property settled annotation restore_as restore_double or_value lex
  typed_property-Shape key null properties d h = inl (ok-eq [] properties h, refl, refl)
  typed_property-Shape key (bool b) properties d h =
      inr (inl (bool b, ok-eq _ properties h, refl, refl))
  typed_property-Shape key (string s) properties d h =
      inr (inl (string s, ok-eq _ properties h, refl, refl))
  typed_property-Shape key (array v) properties d h =
      inr (inl (string (c.to_string (array v)), ok-eq _ properties h, refl, refl))
  typed_property-Shape key (object v) properties d h =
      inr (inl (string (c.to_string (object v)), ok-eq _ properties h, refl, refl))
  typed_property-Shape key (number (float t)) properties d h =
      inr (inr (number (float t), codes "Edm.Double", ok-eq _ properties h, refl, rw (d t) refl))
  typed_property-Shape key (number (integer z)) properties d h =
      integer-Shape key z properties (as_i64 (integer z)) refl h
