-- ===== src/Git/Pins.antt =====
-- crates/git/src/command/pins.rs: the `-c` overrides that hold a repository's operations to host policy.
--
-- Texts are byte strings. Which bytes are UTF-8, and how other bytes read as text, are arguments.
pub mod Values
pub mod Keys
pub mod Policy
mod Tests
use omnia_backends.Base.Strings.{starts_with}
use mathlib.Core.Option
use omnia_backends.Base.{
  ℕ, Bool, true, false, ◌&&◌, ◌||◌, not, Option, none, some, List, [], ◌∷◌, ◌++◌, map, keep, any,
  find, rfind, ◌==◌, is_some_and, if◌then◌else◌,
}
use omnia_backends.Base.Results.{Result, ok, err}
use omnia_backends.Base.Text.{codes}
use omnia_backends.Base.Order.{bytes_ord, same}
use mathlib.Core.List.{flatten}

abbrev pub Text : Type 0
Text = List ℕ

abbrev pub forced : List Text
forced =
    codes "core.hooksPath=/dev/null"
    ∷ codes "core.fsmonitor=false"
    ∷ codes "core.alternateRefsCommand="
    ∷ codes "commit.gpgsign=false"
    ∷ codes "push.gpgsign=false"
    ∷ codes "merge.verifySignatures=false"
    ∷ codes "submodule.recurse=false"
    ∷ codes "fetch.recurseSubmodules=no"
    ∷ []

-- A key as git lists it, and as it is pinned.
abbrev pub host_pinned_keys : List (Text × Text)
host_pinned_keys =
    (codes "core.sshcommand", codes "core.sshCommand")
    ∷ (codes "core.askpass", codes "core.askPass")
    ∷ (codes "gpg.program", codes "gpg.program")
    ∷ (codes "gpg.openpgp.program", codes "gpg.openpgp.program")
    ∷ (codes "gpg.x509.program", codes "gpg.x509.program")
    ∷ (codes "gpg.ssh.program", codes "gpg.ssh.program")
    ∷ []

abbrev pub allowed_http_keys : List Text
allowed_http_keys =
    codes "postbuffer"
    ∷ codes "lowspeedlimit"
    ∷ codes "lowspeedtime"
    ∷ codes "maxrequests"
    ∷ codes "minsessions"
    ∷ codes "useragent"
    ∷ codes "version"
    ∷ []

pub data Scope : Type 0 where
  host repo : Scope

pub record Setting : Type 0 where
  pub scope : Scope
  pub key : Text
  pub value : Text

abbrev pub is_repo_scope : Scope → Bool
is_repo_scope repo = true
is_repo_scope host = false

pub is_repo : Setting → Bool
is_repo s = is_repo_scope s.scope

pub is_host : Setting → Bool
is_host s = not (is_repo_scope s.scope)

-- `str::rsplit_once` at a byte.
pub rsplit_once : ℕ → Text → Option (Text × Text)
rsplit_once sep [] = none
rsplit_once sep (c ∷ text) = elim (rsplit_once sep text) [
  | some (before, behind) ↦ some (c ∷ before, behind)
  | none ↦ if c == sep then some ([], text) else none
]

abbrev pub one_of : List Text → Text → Bool
one_of names text = any (λ n. same text n) names

pub driver_key : Text × Text → Bool
unfolding starts_with
driver_key (named, last) =
    (starts_with (codes "filter.") named
      && one_of (codes "clean" ∷ codes "smudge" ∷ codes "process" ∷ []) last)
    || (starts_with (codes "merge.") named && same last (codes "driver"))

pub is_driver : Setting → Bool
unfolding driver_key rsplit_once
is_driver s = is_some_and driver_key (rsplit_once b'.' s.key)

pub is_helper : Setting → Bool
unfolding starts_with rsplit_once
is_helper s =
    starts_with (codes "credential.") s.key
    && is_some_and (λ k. same k.1 (codes "helper")) (rsplit_once b'.' s.key)

pub transport_key : Text × Text → Bool
unfolding starts_with
transport_key (named, last) =
    let rewrite =
      starts_with (codes "url.") named
      && one_of (codes "insteadof" ∷ codes "pushinsteadof" ∷ []) last in
    let http =
      (same named (codes "http") || starts_with (codes "http.") named)
      && not (one_of allowed_http_keys last) in
    let proxy =
      starts_with (codes "remote.") named
      && one_of (codes "proxy" ∷ codes "proxyauthmethod" ∷ []) last in
    rewrite || http || proxy

pub is_transport_override : Setting → Bool
unfolding transport_key rsplit_once
is_transport_override s = is_some_and transport_key (rsplit_once b'.' s.key)

-- `pin=value`, for `-c`.
pub assign : Text → Text → Text
assign key value = key ++ b'=' ∷ value

pub repo_set : List Setting → Text → Bool
repo_set settings key = any (λ s. is_repo s && same s.key key) settings

pub host_value : List Setting → Text → Option Text
host_value settings key =
    Option.map (λ s. s.value) (rfind (λ s. is_host s && same s.key key) settings)

pub host_values : List Setting → Text → List Text
host_values settings key = map (λ s. s.value) (keep (λ s. is_host s && same s.key key) settings)

-- The loop of `repo_credential_keys`, over the settings left.
pub credential_keys_loop : List Text → List Setting → List Text
credential_keys_loop keys [] = keys
credential_keys_loop keys (s ∷ settings) =
    credential_keys_loop
      (if is_repo s && is_helper s && not (one_of keys s.key) then keys ++ s.key ∷ [] else keys)
      settings

pub repo_credential_keys : List Setting → List Text
unfolding credential_keys_loop
repo_credential_keys settings = credential_keys_loop [] settings

abbrev pub or_empty : Option Text → Text
or_empty none = []
or_empty (some text) = text

-- The three loops of `build`.
pub host_pins : List Setting → List (Text × Text) → List Text
unfolding repo_set host_value assign
host_pins settings [] = []
host_pins settings ((key, pin) ∷ keys) =
    if repo_set settings key
    then assign pin (or_empty (host_value settings key)) ∷ host_pins settings keys
    else host_pins settings keys

pub driver_pins : List Setting → List Text
unfolding assign
driver_pins settings = map (λ s. assign s.key []) (keep (λ s. is_repo s && is_driver s) settings)

pub helper_pins : List Setting → List Text → List Text
unfolding host_values assign
helper_pins settings [] = []
helper_pins settings (key ∷ keys) =
    (assign key [] ∷ map (assign key) (host_values settings key)) ++ helper_pins settings keys

pub record Pins : Type 0 where
  pub pins : List Text
  pub blocked_transport_key : Option Text

pub build : List Setting → Pins
unfolding host_pins driver_pins helper_pins repo_credential_keys is_repo is_host is_driver is_helper
    is_transport_override
build settings = record {
  pins =
      forced
      ++ host_pins settings host_pinned_keys
      ++ driver_pins settings
      ++ helper_pins settings (repo_credential_keys settings);
  blocked_transport_key =
      Option.map (λ s. s.key) (find (λ s. is_repo s && is_transport_override s) settings);
}

-- `Pins::args`
pub args : Pins → List Text
args p = flatten (map (λ pin. codes "-c" ∷ pin ∷ []) p.pins)

-- `str::from_utf8` and `String::from_utf8_lossy`.
pub record Utf8 : Type 0 where
  pub valid : Text → Bool
  pub lossy : Text → Text

-- The first separator's place, the text before it and behind it; all of it before where there is none.
pub split_at : ℕ → Text → Text × Text
split_at sep [] = ([], [])
split_at sep (c ∷ text) =
    let (before, behind) = split_at sep text in
    if c == sep then ([], text) else (c ∷ before, behind)

-- `listing.split(|&byte| byte == 0)`
pub split_all : ℕ → Text → List Text
split_all sep [] = [] ∷ []
split_all sep (c ∷ text) = elim (split_all sep text) [
  | [] ↦ [] ∷ []
  | f ∷ fs ↦ if c == sep then [] ∷ f ∷ fs else (c ∷ f) ∷ fs
]

pub scope_of : Text → Scope
scope_of text = if one_of (codes "local" ∷ codes "worktree" ∷ []) text then repo else host

pub read_key : Utf8 → Scope → Text → Result Text Text
read_key u scope key =
    if u.valid key
    then ok key
    else if is_repo_scope scope
    then err (u.lossy key)
    else ok (u.lossy key)

pub read_setting : Utf8 → Text → Text → Result Setting Text
unfolding scope_of read_key split_at
read_setting u scope pair =
    let (key, value) = split_at b'\n' pair in
    elim (read_key u (scope_of scope) key) [
      | ok k ↦ ok (record { scope = scope_of scope; key = k; value = u.lossy value })
      | err k ↦ err k
    ]

abbrev is_nil : Text → Bool
is_nil [] = true
is_nil (c ∷ text) = false

-- The `while let` over the listing's tokens.
pub parse_tokens : Utf8 → List Setting → List Text → Result (List Setting) Text
unfolding read_setting
parse_tokens u settings (scope ∷ pair ∷ tokens) =
    let rest = λ (s : Setting). parse_tokens u (settings ++ s ∷ []) tokens in
    if is_nil scope
    then ok settings
    else elim (read_setting u scope pair) [ ok s ↦ rest s | err k ↦ err k ]
parse_tokens u settings _ = ok settings

pub parse : Utf8 → Text → Result (List Setting) Text
unfolding parse_tokens split_all
parse u listing = parse_tokens u [] (split_all 0 listing)

-- `Pins::read`: the listing of a run that succeeded, or none.
pub read : Utf8 → Option Text → Result Pins Text
unfolding build parse
read u none = ok (build [])
read u (some listing) = elim (parse u listing) [
  | ok settings ↦ ok (build settings)
  | err key ↦ err key
]
