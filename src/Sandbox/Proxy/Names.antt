-- ===== src/Sandbox/Proxy/Names.antt =====
-- `Entry::admits`: what a `*.suffix` entry lists.
use omnia_backends.Base.Strings.{strip_suffix}
use omnia_backends.Base.{
  ℕ, ◌≡◌, ◌↔◌, ◌⊎◌, inl, inr, refl, sym, ap, ◌∙◌, true, some, [], ◌∷◌, ◌++◌, ==_iff, ==_refl, arith,
  map-eq-some, length, length-append, Bool-cases, Option-cases,
}
use omnia_backends.Base.Order.{bytes_ord, lex, same, eq_of_same, same_refl}
use omnia_backends.Sandbox.Proxy.{Text, suffix, entry_admits, ends_with}
use mathlib.Core.List.{append_assoc}

-- What is left in front of the suffix, the whole suffix taken off.
strip_suffix-append :
    (name text rest : Text) → strip_suffix name text ≡ some rest → text ≡ rest ++ name
unfolding strip_suffix
strip_suffix-append name [] rest h = ground (arith, eq_of_same [] name)
strip_suffix-append name (c ∷ text) rest h = elim (Bool-cases (same (c ∷ text) name)) [
  | inl e ↦ ground (arith, e, eq_of_same (c ∷ text) name e)
  | inr e ↦
      let (r, q, k) = map-eq-some (λ x. c ∷ x) (strip_suffix name text) rest (ground (arith, e)) in
      ap (◌∷◌ c) (strip_suffix-append name text r q) ∙ ap (λ x. x ++ name) k
]

ends_with-append :
    (k : ℕ) (text : Text) → ends_with k text ≡ true → (d : Text) × (text ≡ d ++ k ∷ [])
unfolding ends_with
ends_with-append k [] h = cc
ends_with-append k (c ∷ []) h = ([], ap (λ x. x ∷ []) ((==_iff c k).0 h))
ends_with-append k (c ∷ e ∷ text) h =
    let (d, q) = ends_with-append k (e ∷ text) h in (c ∷ d, ap (◌∷◌ c) q)

append_ends_with : (k : ℕ) (d : Text) → ends_with k (d ++ k ∷ []) ≡ true
unfolding ends_with
append_ends_with k [] = ==_refl k
append_ends_with k (c ∷ []) = ==_refl k
append_ends_with k (c ∷ e ∷ d) = append_ends_with k (e ∷ d)

longer : (c : ℕ) (rest name : Text) → c ∷ (rest ++ name) ≡ name → ⊥
longer c rest name e = let k = ap length e in omega (arith, length-append rest name)

append-strip_suffix : (name rest : Text) → strip_suffix name (rest ++ name) ≡ some rest
unfolding strip_suffix lex
append-strip_suffix [] [] = refl
append-strip_suffix (c ∷ name) [] = rw (same_refl (c ∷ name)) refl
append-strip_suffix name (c ∷ rest) = elim (Bool-cases (same (c ∷ (rest ++ name)) name)) [
  | inl e ↦ absurd (longer c rest name (eq_of_same _ _ e))
  | inr e ↦ ground (arith, e, append-strip_suffix name rest)
]

beneath :
    (name host rest : Text)
    → strip_suffix name host ≡ some rest
    → ends_with b'.' rest ≡ true
    → (label : Text) × (host ≡ label ++ b'.' ∷ name)
beneath name host rest e h =
    let (d, q) = ends_with-append b'.' rest h in
    (
      d,
      strip_suffix-append name host rest e
          ∙ ap (λ x. x ++ name) q
          ∙ append_assoc d (b'.' ∷ []) name,
    )

-- An entry `*.name` lists the name itself and the names that end in a dot and the name, and no other:
-- `*.example.com` lists `example.com` and `a.example.com` but not `badexample.com`.
pub suffix_admits :
    (name host : Text)
    → (entry_admits (suffix name) host ≡ true)
      ↔ ((host ≡ name) ⊎ ((label : Text) × (host ≡ label ++ b'.' ∷ name)))
unfolding entry_admits
suffix_admits name host = (there, λ x. back x)
  where
    there :
        entry_admits (suffix name) host ≡ true
        → (host ≡ name) ⊎ ((label : Text) × (host ≡ label ++ b'.' ∷ name))
    there h = elim (Bool-cases (same host name)) [
      | inl e ↦ inl (eq_of_same host name e)
      | inr e ↦ elim (Option-cases (strip_suffix name host)) [
        | inl n ↦ ground (arith, e, n)
        | inr (rest, n) ↦ inr (beneath name host rest n (ground (arith, e, n)))
      ]
    ]

    back :
        (host ≡ name) ⊎ ((label : Text) × (host ≡ label ++ b'.' ∷ name))
        → entry_admits (suffix name) host ≡ true
    back (inl e) = rw (e, entry_admits, same_refl name) refl
    back (inr (d, e)) =
        let k : strip_suffix name host ≡ some (d ++ b'.' ∷ []) =
          ap (strip_suffix name) (e ∙ sym (append_assoc d (b'.' ∷ []) name))
          ∙ append-strip_suffix name (d ++ b'.' ∷ []) in
        ground (arith, k, append_ends_with b'.' d)
