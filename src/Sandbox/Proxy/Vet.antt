-- ===== src/Sandbox/Proxy/Vet.antt =====
-- `vetted`: which of the resolved addresses are kept.
use omnia_backends.Base.{
  ℕ, ◌≡◌, ◌⊎◌, inl, inr, sym, ap, ◌∙◌, subst, Bool, true, not, Option, none, some, List, [], ◌∷◌,
  ◌++◌, keep, find, Any, arith, is_some, Bool-cases, Option-cases,
}
use mathlib.Core.List.{append_assoc, append-nil}
use omnia_backends.Base.Results.{ok}
use omnia_backends.Sandbox.Address.{IpAddr, DeniedAddress, of}
use omnia_backends.Sandbox.Proxy.{
  Text, SocketAddr, World, vet_loop, vet_outcome, vetted, resolved, owned,
}

-- The address has no denied class.
unfoldable pub passes : List IpAddr → SocketAddr → Bool
passes own s = not (is_some (of s.0 own))

-- The class of the list's last denied address, or the one before it all.
unfoldable pub last_denied :
    List IpAddr → Option DeniedAddress → List SocketAddr → Option DeniedAddress
last_denied own before [] = before
last_denied own before (s ∷ ss) = elim (of s.0 own) [
  | none ↦ last_denied own before ss
  | some class ↦ last_denied own (some class) ss
]

vet_loop-keep :
    (own : List IpAddr) (acc : List SocketAddr) (before : Option DeniedAddress)
    (ss : List SocketAddr)
    → vet_loop own acc before ss ≡ (acc ++ keep (passes own) ss, last_denied own before ss)
unfolding vet_loop passes last_denied
vet_loop-keep own acc before [] = ap (λ x. (x, before)) (sym (append-nil acc))
vet_loop-keep own acc before (s ∷ ss) = elim (Option-cases (of s.0 own)) [
  | inl e ↦ ground (
    arith,
    e,
    vet_loop-keep own (acc ++ s ∷ []) before ss,
    append_assoc acc (s ∷ []) (keep (passes own) ss),
  )
  | inr (class, e) ↦ ground (arith, e, vet_loop-keep own acc (some class) ss)
]

-- `vetted` keeps exactly the resolved addresses of no denied class, in their order, and fails just where
-- it keeps none and denied one, naming the class of the last.
pub vetted-keep :
    (w : World) (host : Text) (port : ℕ)
    → vetted w host port
      ≡ vet_outcome (
        keep (passes (owned w)) (resolved w host port),
        last_denied (owned w) none (resolved w host port),
      )
unfolding vetted
vetted-keep w host port = ap vet_outcome (vet_loop-keep (owned w) [] none (resolved w host port))

pub find-eq-some :
    (p : SocketAddr → Bool) (ss : List SocketAddr) (s : SocketAddr)
    → find p ss ≡ some s
    → (p s ≡ true) × Any (λ x. x ≡ s) ss
find-eq-some p [] s h = cc
find-eq-some p (x ∷ ss) s h = elim (Bool-cases (p x)) [
  | inl e ↦ let k : x ≡ s = ground arith in (subst (λ y. p y ≡ true) k e, inl k)
  | inr e ↦ let (a, b) = find-eq-some p ss s (ground arith) in (a, inr b)
]

of_keep :
    (p : SocketAddr → Bool) (ss : List SocketAddr) (s : SocketAddr)
    → Any (λ x. x ≡ s) (keep p ss)
    → (p s ≡ true) × Any (λ x. x ≡ s) ss
of_keep p [] s h = absurd h
of_keep p (x ∷ ss) s h = elim (Bool-cases (p x)) [
  | inr e ↦ let (a, b) = of_keep p ss s (ground arith) in (a, inr b)
  | inl e ↦ elim (first e) [
    | inl k ↦ (subst (λ y. p y ≡ true) k e, inl k)
    | inr m ↦ let (a, b) = of_keep p ss s m in (a, inr b)
  ]
]
  where
    first : p x ≡ true → (x ≡ s) ⊎ Any (λ y. y ≡ s) (keep p ss)
    first e = ground (arith, e, h)

pub vetted_name :
    (w : World) (host : Text) (port : ℕ) (addresses : List SocketAddr) (s : SocketAddr)
    → vetted w host port ≡ ok addresses
    → Any (λ x. x ≡ s) addresses
    → (passes (owned w) s ≡ true) × Any (λ x. x ≡ s) (resolved w host port)
vetted_name w host port addresses s h m =
    of_keep (passes (owned w)) (resolved w host port) s
      (subst (Any (λ x. x ≡ s)) (sym (kept _ _ (sym (vetted-keep w host port) ∙ h))) m)
  where
    kept :
        (xs : List SocketAddr) (d : Option DeniedAddress)
        → vet_outcome (xs, d) ≡ ok addresses
        → xs ≡ addresses
    kept [] none e = cc
    kept [] (some class) e = cc
    kept (x ∷ xs) d e = cc
