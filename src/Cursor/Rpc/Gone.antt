-- ===== src/Cursor/Rpc/Gone.antt =====
-- Closing and deleting an agent: the answers after which a missing agent is no failure.
use omnia_backends.Base.{
  ℕ, ◌≡◌, refl, ap, ◌∙◌, ◌⊎◌, ◌↔◌, inl, inr, Bool, true, false, if◌then◌else◌, Option, [], ◌∷◌,
  ◌++◌, arith, Bool-cases, ==_refl,
}
use omnia_backends.Base.Results.{Result, ok, err}
use omnia_backends.Base.Strings.{Text, to_ascii_lowercase, starts_with, contains}
use omnia_backends.Base.Order.{bytes_ord, same, same_refl, eq_of_same}
use omnia_backends.Base.Text.{codes}
use omnia_backends.Cursor.Frames.{
  connect_failed, transport_failed, Error, rpc, other, is_agent_gone, gone_ok,
}
use omnia_backends.Cursor.Wire.{close_agent_request, delete_agent_request, AgentOperationOptions}
use omnia_backends.Cursor.Rpc.{Outside, Rpc, unary_empty, close_agent, delete_agent}

-- The text stands somewhere in the other.
abbrev pub Within : Text → Text → Type 0
Within part text = (before : Text) × (after : Text) × (text ≡ before ++ (part ++ after))

starts_with-append : (part after : Text) → starts_with part (part ++ after) ≡ true
unfolding starts_with
starts_with-append [] after = refl
starts_with-append (p ∷ part) after = rw (==_refl p) (starts_with-append part after)

starts_with-Within :
    (part text : Text) → starts_with part text ≡ true → (after : Text) × (text ≡ part ++ after)
unfolding starts_with
starts_with-Within [] text h = (text, refl)
starts_with-Within (p ∷ part) [] h = cc
starts_with-Within (p ∷ part) (c ∷ text) h =
    let (after, e) = starts_with-Within part text (ground arith) in (after, ground (arith, e))

contains-Within : (part text : Text) → contains part text ≡ true → Within part text
unfolding contains
contains-Within part [] h = let (after, e) = starts_with-Within part [] h in ([], after, e)
contains-Within part (c ∷ text) h = elim (Bool-cases (starts_with part (c ∷ text))) [
  | inl here ↦ let (after, e) = starts_with-Within part (c ∷ text) here in ([], after, e)
  | inr later ↦
      let (before, after, e) = contains-Within part text (ground (arith, later)) in
      (c ∷ before, after, ap (λ t. c ∷ t) e)
]

starts-contains : (part text : Text) → starts_with part text ≡ true → contains part text ≡ true
unfolding contains
starts-contains part [] h = h
starts-contains part (c ∷ text) h = ground arith

contains_inside : (part before after : Text) → contains part (before ++ (part ++ after)) ≡ true
unfolding contains
contains_inside part [] after = starts-contains part (part ++ after) (starts_with-append part after)
contains_inside part (c ∷ before) after = ground (arith, contains_inside part before after)

-- The process answered that the agent is gone: by the code, or by a message that speaks of an agent and of
-- something not found, in any case of letters.
abbrev pub SaysGone : Text → Text → Type 0
SaysGone code message =
    (code ≡ codes "not_found")
    ⊎ (Within (codes "agent") (to_ascii_lowercase message)
        × Within (codes "not found") (to_ascii_lowercase message))

abbrev pub Gone : Result (Unit {0}) Error → Type 0
Gone r =
    (method : Text) × (status : Option ℕ) × (code : Text) × (message : Text) × (r
      ≡ err (rpc (connect_failed method status code message)))
    × SaysGone code message

gone-SaysGone :
    (method : Text) (status : Option ℕ) (code message : Text)
    → is_agent_gone (connect_failed method status code message) ≡ true
    → SaysGone code message
unfolding is_agent_gone
gone-SaysGone method status code message h = elim (Bool-cases (same code (codes "not_found"))) [
  | inl e ↦ inl (eq_of_same code (codes "not_found") e)
  | inr e ↦ inr (
    contains-Within (codes "agent") (to_ascii_lowercase message) (ground arith),
    contains-Within (codes "not found") (to_ascii_lowercase message) (ground arith),
  )
]

SaysGone-gone :
    (method : Text) (status : Option ℕ) (code message : Text)
    → SaysGone code message
    → is_agent_gone (connect_failed method status code message) ≡ true
unfolding is_agent_gone
SaysGone-gone method status code message (inl e) =
    ground (arith, ap (λ c. same c (codes "not_found")) e, same_refl (codes "not_found"))
SaysGone-gone method status code message (inr ((b, a, e), (b', a', e'))) = ground (
  arith,
  ap (contains (codes "agent")) e,
  contains_inside (codes "agent") b a,
  ap (contains (codes "not found")) e',
  contains_inside (codes "not found") b' a',
)

is_agent_gone-transport_failed :
    (method doing : Text) → is_agent_gone (transport_failed method doing) ≡ false
unfolding is_agent_gone
is_agent_gone-transport_failed method doing = refl

abbrev the_err : Error → Result (Unit {0}) Error
the_err e = err e

says_gone : Result (Unit {0}) Error → Bool
says_gone (ok done) = false
says_gone (err (other text)) = false
says_gone (err (rpc error)) = is_agent_gone error

Gone-says_gone : (r : Result (Unit {0}) Error) → Gone r → says_gone r ≡ true
unfolding says_gone
Gone-says_gone r (method, status, code, message, e, g) =
    ap says_gone e ∙ SaysGone-gone method status code message g

says_gone-Gone : (error : Error) → says_gone (err error) ≡ true → Gone (err error)
unfolding says_gone
says_gone-Gone (other text) h = cc
says_gone-Gone (rpc (transport_failed method doing)) h =
    absurd (no (is_agent_gone-transport_failed method doing) h)
  where
    no : {b : Bool} → b ≡ false → b ≡ true → ⊥
    no h k = cc
says_gone-Gone (rpc (connect_failed method status code message)) h =
    (method, status, code, message, refl, gone-SaysGone method status code message h)

gone_ok_says :
    (error : Error) → gone_ok (err error) ≡ (if says_gone (err error) then ok tt else err error)
unfolding gone_ok says_gone
gone_ok_says (other text) = refl
gone_ok_says (rpc error) = refl

gone_ok_iff : (r : Result (Unit {0}) Error) → (gone_ok r ≡ ok tt) ↔ ((r ≡ ok tt) ⊎ Gone r)
unfolding gone_ok
gone_ok_iff (ok done) = (λ h. inl refl, λ h. refl)
gone_ok_iff (err error) = (λ h. inr (says_gone-Gone error (found h)), λ h. back h)
  where
    found : gone_ok (err error) ≡ ok tt → says_gone (err error) ≡ true
    found h = elim (Bool-cases (says_gone (err error))) [
      | inl e ↦ e
      | inr e ↦ absurd (ground (arith, gone_ok_says error, h, e))
    ]

    back : (the_err error ≡ ok tt) ⊎ Gone (err error) → gone_ok (err error) ≡ ok tt
    back (inl e) = cc
    back (inr g) = ground (arith, gone_ok_says error, Gone-says_gone (err error) g)

-- Closing an agent and deleting one succeed exactly where the call did, or where the process answered that the
-- agent is gone: with the code `not_found`, or a message that holds `agent` and `not found` in any case
-- of letters. So they fail on every failure below Connect.
pub close_agent-Gone :
    (o : Outside) (client : Rpc) (agent : Text) (options : AgentOperationOptions)
    → ((close_agent o client agent ≡ ok tt) ↔ (
        (unary_empty o client (close_agent_request agent) ≡ ok tt)
        ⊎ Gone (unary_empty o client (close_agent_request agent))))
      × ((delete_agent o client agent options ≡ ok tt) ↔ (
          (unary_empty o client (delete_agent_request agent options) ≡ ok tt)
          ⊎ Gone (unary_empty o client (delete_agent_request agent options))))
unfolding close_agent delete_agent
close_agent-Gone o client agent options = (
  gone_ok_iff (unary_empty o client (close_agent_request agent)),
  gone_ok_iff (unary_empty o client (delete_agent_request agent options)),
)
