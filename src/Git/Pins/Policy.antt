-- ===== src/Git/Pins/Policy.antt =====
-- What the overrides hold: every program that the repository's configuration names gives way.
use mathlib.Core.Option
use omnia_backends.Base.{◌≡◌, some, List, [], Any}
use omnia_backends.Base.Order.{bytes_ord}
use omnia_backends.Git.Pins.{Text, Setting, assign, host_value, or_empty, build}
use omnia_backends.Git.Pins.Keys.{given, IsDriver, IsHelper, IsTransport, switched_off, programs}

abbrev Pinned : Text → List Text → Type 0
Pinned pin pins = Any (λ x. x ≡ pin) pins

abbrev Sets : Setting → List Setting → Type 0
Sets s ss = Any (λ x. x ≡ s) ss

-- Git reads one of the overrides as the key with nothing for its value.
abbrev Emptied : Text → List Text → Type 0
Emptied key pins = Any (λ pin. given pin ≡ (key, [])) pins

-- What becomes of a setting that the repository made, by its key.
pub record Covered (ss : List Setting) (s : Setting) : Type 0 where
  -- a program that is switched off
  pub off : (pin : Text) → Any (λ k. k ≡ (s.key, pin)) switched_off → Pinned pin (build ss).pins
  -- a key for one program takes the host's value, or none
  pub program :
      (pin : Text)
      → Any (λ k. k ≡ (s.key, pin)) programs
      → Pinned (assign pin (or_empty (host_value ss s.key))) (build ss).pins
  -- a filter or merge driver is emptied
  pub driver : IsDriver s.key → Emptied s.key (build ss).pins
  -- a credential helper's list is reset
  pub helper : IsHelper s.key → Emptied s.key (build ss).pins
  -- a setting of how a transport runs has the repository refused
  pub transport : IsTransport s.key → (key : Text) × ((build ss).blocked_transport_key ≡ some key)
