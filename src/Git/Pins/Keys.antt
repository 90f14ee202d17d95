-- ===== src/Git/Pins/Keys.antt =====
-- The keys of settings that have git run a program or choose a transport, apart from the code's tests; and how
-- git reads an override.
use omnia_backends.Base.{
  ◌≡◌, ◌≢◌, ℕ, none, All, any, ◌==◌, refl, subst, Bool, true, false, ◌&&◌, is_some_and, some, List,
  [], ◌∷◌, ◌++◌, arith, Any, if◌then◌else◌, inl, inr,
}
use omnia_backends.Base.Text.{codes}
use omnia_backends.Base.Strings.{starts_with}
use omnia_backends.Base.Order.{bytes_ord, same, lex, same_refl}
use omnia_backends.Git.Pins.{
  Text, Setting, is_driver, is_helper, is_transport_override, assign, one_of, rsplit_once,
  driver_key, transport_key,
}

-- How git reads the argument of `-c`: a key up to the first equals sign, and behind it the value.
unfoldable pub given : Text → Text × Text
given [] = ([], [])
given (c ∷ text) = let (key, value) = given text in if c == 61 then ([], text) else (c ∷ key, value)

abbrev pub Without : ℕ → Text → Type 0
Without c text = All (λ b. b ≢ c) text

pub given-assign : (key value : Text) → Without 61 key → given (assign key value) ≡ (key, value)
unfolding given assign
given-assign [] value h = refl
given-assign (c ∷ key) value h = ground (arith, given-assign key value h.1)

-- The settings of HTTP that pace a transfer.
unfoldable pub paces : Text → Bool
paces last =
    any (λ name. same last name)
      (codes "postbuffer"
        ∷ codes "lowspeedlimit"
        ∷ codes "lowspeedtime"
        ∷ codes "maxrequests"
        ∷ codes "minsessions"
        ∷ codes "useragent"
        ∷ codes "version"
        ∷ [])

-- The keys of the commands that a filter and a merge driver run, of a driver whose name has no equals sign.
pub data IsDriver : Text → Type 0 where
  filter_driver :
      (name last : Text)
      → Without 61 name
      → Any (λ x. x ≡ last) (codes "clean" ∷ codes "smudge" ∷ codes "process" ∷ [])
      → IsDriver (codes "filter." ++ (name ++ b'.' ∷ last))
  merge_driver :
      (name : Text) → Without 61 name → IsDriver (codes "merge." ++ (name ++ codes ".driver"))

-- The credential helpers, of any address or of one without an equals sign.
pub data IsHelper : Text → Type 0 where
  any_address : IsHelper (codes "credential.helper")
  one_address :
      (address : Text)
      → Without 61 address
      → IsHelper (codes "credential." ++ (address ++ codes ".helper"))

-- Where a transport goes and through what: rewritten addresses, proxies, and the settings of HTTP but
-- those that pace a transfer.
pub data IsTransport : Text → Type 0 where
  rewrite :
      (address last : Text)
      → Any (λ x. x ≡ last) (codes "insteadof" ∷ codes "pushinsteadof" ∷ [])
      → IsTransport (codes "url." ++ (address ++ b'.' ∷ last))
  proxy :
      (remote last : Text)
      → Any (λ x. x ≡ last) (codes "proxy" ∷ codes "proxyauthmethod" ∷ [])
      → IsTransport (codes "remote." ++ (remote ++ b'.' ∷ last))
  http : (last : Text) → Without 46 last → paces last ≡ false → IsTransport (codes "http." ++ last)
  http_of :
      (address last : Text)
      → Without 46 last
      → paces last ≡ false
      → IsTransport (codes "http." ++ (address ++ b'.' ∷ last))

-- Programs that are switched off whatever sets them, with what git is given.
abbrev pub switched_off : List (Text × Text)
switched_off =
    (codes "core.hookspath", codes "core.hooksPath=/dev/null")
    ∷ (codes "core.fsmonitor", codes "core.fsmonitor=false")
    ∷ (codes "core.alternaterefscommand", codes "core.alternateRefsCommand=")
    ∷ (codes "commit.gpgsign", codes "commit.gpgsign=false")
    ∷ (codes "push.gpgsign", codes "push.gpgsign=false")
    ∷ (codes "merge.verifysignatures", codes "merge.verifySignatures=false")
    ∷ (codes "submodule.recurse", codes "submodule.recurse=false")
    ∷ (codes "fetch.recursesubmodules", codes "fetch.recurseSubmodules=no")
    ∷ []

-- Keys of one program each, as git lists them and as they are given.
abbrev pub programs : List (Text × Text)
programs =
    (codes "core.sshcommand", codes "core.sshCommand")
    ∷ (codes "core.askpass", codes "core.askPass")
    ∷ (codes "gpg.program", codes "gpg.program")
    ∷ (codes "gpg.openpgp.program", codes "gpg.openpgp.program")
    ∷ (codes "gpg.x509.program", codes "gpg.x509.program")
    ∷ (codes "gpg.ssh.program", codes "gpg.ssh.program")
    ∷ []

rsplit_once-last :
    (before last : Text)
    → rsplit_once 46 last ≡ none
    → rsplit_once 46 (before ++ 46 ∷ last) ≡ some (before, last)
unfolding rsplit_once
rsplit_once-last [] last h = rw h refl
rsplit_once-last (c ∷ before) last h = rw (rsplit_once-last before last h) refl

rsplit_once-Without : (text : Text) → Without 46 text → rsplit_once 46 text ≡ none
unfolding rsplit_once
rsplit_once-Without [] h = refl
rsplit_once-Without (c ∷ text) h = rw (rsplit_once-Without text h.1) (ground (arith, h.0))

of_names :
    (P : Text → Type 0) (names : List Text) (last : Text)
    → All P names
    → Any (λ x. x ≡ last) names
    → P last
of_names P [] last a m = absurd m
of_names P (n ∷ names) last a (inl e) = subst P e a.0
of_names P (n ∷ names) last a (inr m) = of_names P names last a.1 m

one_of-Any :
    (names : List Text) (last : Text) → Any (λ x. x ≡ last) names → one_of names last ≡ true
one_of-Any [] last m = absurd m
one_of-Any (n ∷ names) last (inl e) = ground (arith, e, same_refl last)
one_of-Any (n ∷ names) last (inr m) = ground (arith, one_of-Any names last m)

Without-append : (c : ℕ) (xs ys : Text) → Without c xs → Without c ys → Without c (xs ++ ys)
Without-append c [] ys h k = k
Without-append c (x ∷ xs) ys h k = (h.0, Without-append c xs ys h.1 k)

abbrev commands : List Text
commands = codes "clean" ∷ codes "smudge" ∷ codes "process" ∷ []

driver_of : (key : Text) → IsDriver key → is_some_and driver_key (rsplit_once 46 key) ≡ true
unfolding driver_key starts_with
driver_of key (filter_driver name last w m) =
    rw
      (rsplit_once-last (codes "filter." ++ name) last
        (rsplit_once-Without last (of_names (Without 46) commands last (omega arith) m)))
      (ground (arith, one_of-Any commands last m))
driver_of key (merge_driver name w) =
    rw
      (rsplit_once-last (codes "merge." ++ name) (codes "driver")
        (rsplit_once-Without (codes "driver") (omega arith)))
      (ground (arith, same_refl (codes "driver")))

pub driver_plain : (key : Text) → IsDriver key → Without 61 key
driver_plain key (filter_driver name last w m) =
    Without-append 61 (codes "filter.") (name ++ 46 ∷ last) (omega arith) (
      Without-append 61 name (46 ∷ last) w
        (omega arith, of_names (Without 61) commands last (omega arith) m))
driver_plain key (merge_driver name w) =
    Without-append 61 (codes "merge.") (name ++ codes ".driver") (omega arith)
      (Without-append 61 name (codes ".driver") w (omega arith))

helper_of :
    (key : Text)
    → IsHelper key
    → (starts_with (codes "credential.") key
        && is_some_and (λ k. same k.1 (codes "helper")) (rsplit_once 46 key))
      ≡ true
unfolding starts_with rsplit_once lex
helper_of key any_address = refl
helper_of key (one_address address w) =
    rw
      (rsplit_once-last (codes "credential." ++ address) (codes "helper")
        (rsplit_once-Without (codes "helper") (omega arith)))
      (ground (arith, same_refl (codes "helper")))

pub helper_plain : (key : Text) → IsHelper key → Without 61 key
helper_plain key any_address = omega arith
helper_plain key (one_address address w) =
    Without-append 61 (codes "credential.") (address ++ codes ".helper") (omega arith)
      (Without-append 61 address (codes ".helper") w (omega arith))

abbrev rewrites : List Text
rewrites = codes "insteadof" ∷ codes "pushinsteadof" ∷ []

abbrev proxies : List Text
proxies = codes "proxy" ∷ codes "proxyauthmethod" ∷ []

transport_of :
    (key : Text) → IsTransport key → is_some_and transport_key (rsplit_once 46 key) ≡ true
unfolding transport_key starts_with paces lex
transport_of key (rewrite address last m) =
    rw
      (rsplit_once-last (codes "url." ++ address) last
        (rsplit_once-Without last (of_names (Without 46) rewrites last (omega arith) m)))
      (ground (arith, one_of-Any rewrites last m))
transport_of key (proxy remote last m) =
    rw
      (rsplit_once-last (codes "remote." ++ remote) last
        (rsplit_once-Without last (of_names (Without 46) proxies last (omega arith) m)))
      (ground (arith, one_of-Any proxies last m))
transport_of key (http last w p) =
    rw (rsplit_once-last (codes "http") last (rsplit_once-Without last w)) (ground (arith, p))
transport_of key (http_of address last w p) =
    rw (rsplit_once-last (codes "http." ++ address) last (rsplit_once-Without last w))
      (ground (arith, p))

pub is_driver-IsDriver : (s : Setting) → IsDriver s.key → is_driver s ≡ true
unfolding is_driver
is_driver-IsDriver s d = driver_of s.key d

pub is_helper-IsHelper : (s : Setting) → IsHelper s.key → is_helper s ≡ true
unfolding is_helper
is_helper-IsHelper s h = helper_of s.key h

pub is_transport_override-IsTransport :
    (s : Setting) → IsTransport s.key → is_transport_override s ≡ true
unfolding is_transport_override
is_transport_override-IsTransport s t = transport_of s.key t
