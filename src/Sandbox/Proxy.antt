-- ===== src/Sandbox/Proxy.antt =====
-- crates/sandbox/src/proxy.rs, `Allowlist`, `literal`, `vetted`, `connect` and `handle`: which `CONNECT` the
-- proxy answers with a tunnel, and to where.
--
-- Texts are lists of code points. The resolver, the host's interfaces and what answers a connection are
-- the record `World`, with the parser of IP literals; the tunnel's bytes and the log are left out.
pub mod Names
pub mod Vet
pub mod Reach
mod Tests
use omnia_backends.Base.Strings.{trim_matches, to_ascii_lowercase, strip_prefix, strip_suffix}
use mathlib.Core.Option
use omnia_backends.Base.{
  ℕ, ◌+◌, Bool, true, false, ◌&&◌, ◌||◌, not, Option, none, some, List, [], ◌∷◌, ◌++◌, any, find,
  ◌==◌, leb, is_some_and, if◌then◌else◌,
}
use omnia_backends.Base.Results.{Result, ok, err}
use omnia_backends.Base.Order.{bytes_ord, same}
use omnia_backends.Sandbox.Address.{IpAddr, DeniedAddress, loopback, of, same_ip}

abbrev pub Text : Type 0
Text = List ℕ

-- An address and a port.
abbrev pub SocketAddr : Type 0
SocketAddr = IpAddr × ℕ

pub record World : Type 0 where
  pub parse_ip : Text → Option IpAddr
  -- `tokio::net::lookup_host`, none where it fails
  pub lookup_host : Text → ℕ → Option (List SocketAddr)
  -- `own_addresses`, none where it fails
  pub own_addresses : Option (List IpAddr)
  -- a connection is made within the bound
  pub answers : SocketAddr → Bool

-- `char::is_whitespace`
abbrev whitespace : List ℕ
whitespace = 32 ∷ 133 ∷ 160 ∷ 5760 ∷ 8232 ∷ 8233 ∷ 8239 ∷ 8287 ∷ 12288 ∷ []

pub is_whitespace : ℕ → Bool
is_whitespace c =
    (leb 9 c && leb c 13) || (leb 8192 c && leb c 8202) || any (λ w. c == w) whitespace

pub is_bracket : ℕ → Bool
is_bracket c = c == b'[' || c == b']'

pub ends_with : ℕ → Text → Bool
ends_with k [] = false
ends_with k (c ∷ []) = c == k
ends_with k (c ∷ d ∷ text) = ends_with k (d ∷ text)

pub data Entry : Type 0 where
  exact suffix : Text → Entry
  literal_entry : IpAddr → Entry

abbrev entry_of : Text → Option IpAddr → Option Text → Entry
entry_of text (some address) name = literal_entry address
entry_of text none (some name) = suffix name
entry_of text none none = exact text

-- `Entry::parse`
pub parse : World → Text → Entry
unfolding trim_matches to_ascii_lowercase is_whitespace is_bracket strip_prefix
parse w text =
    let text' = to_ascii_lowercase (trim_matches is_bracket (trim_matches is_whitespace text)) in
    entry_of text' (w.parse_ip text') (strip_prefix (b'*' ∷ b'.' ∷ []) text')

pub entry_admits : Entry → Text → Bool
unfolding strip_suffix ends_with
entry_admits (exact name) host = same host name
entry_admits (suffix name) host =
    same host name || is_some_and (ends_with b'.') (strip_suffix name host)
entry_admits (literal_entry address) host = false

pub data Admission : Type 0 where
  by_name : Admission
  by_literal : IpAddr → Admission

abbrev pub is_literal : IpAddr → Entry → Bool
is_literal address (literal_entry other) = same_ip address other
is_literal address (exact name) = false
is_literal address (suffix name) = false

pub normal : Text → Text
unfolding trim_matches to_ascii_lowercase is_bracket
normal host = to_ascii_lowercase (trim_matches is_bracket host)

pub admits : World → List Entry → Text → Option Admission
unfolding normal entry_admits
admits w entries host = elim (w.parse_ip (normal host)) [
  | some address ↦ if any (is_literal address) entries then some (by_literal address) else none
  | none ↦ if any (λ e. entry_admits e (normal host)) entries then some by_name else none
]

abbrev pub owned : World → List IpAddr
owned w = elim (w.own_addresses) [ none ↦ [] | some addresses ↦ addresses ]

abbrev pub literal_class :
    IpAddr → ℕ → Option DeniedAddress → Result (List SocketAddr) DeniedAddress
literal_class address port none = ok ((address, port) ∷ [])
literal_class address port (some loopback) = ok ((address, port) ∷ [])
literal_class address port (some class) = err class

pub literal : World → IpAddr → ℕ → Result (List SocketAddr) DeniedAddress
literal w address port = literal_class address port (of address (owned w))

-- The loop of `vetted`, from the admitted addresses and the last denied class on.
pub vet_loop :
    List IpAddr
    → List SocketAddr
    → Option DeniedAddress
    → List SocketAddr
    → List SocketAddr × Option DeniedAddress
vet_loop own admitted denied [] = (admitted, denied)
vet_loop own admitted denied (address ∷ resolved) = elim (of address.0 own) [
  | some class ↦ vet_loop own admitted (some class) resolved
  | none ↦ vet_loop own (admitted ++ address ∷ []) denied resolved
]

abbrev pub vet_outcome :
    List SocketAddr × Option DeniedAddress → Result (List SocketAddr) DeniedAddress
vet_outcome ([], some class) = err class
vet_outcome (admitted, _) = ok admitted

abbrev pub resolved : World → Text → ℕ → List SocketAddr
resolved w host port = elim (w.lookup_host host port) [ none ↦ [] | some addresses ↦ addresses ]

pub vetted : World → Text → ℕ → Result (List SocketAddr) DeniedAddress
unfolding vet_loop
vetted w host port = vet_outcome (vet_loop (owned w) [] none (resolved w host port))

-- `connect`: the first address that answers.
pub connect : World → List SocketAddr → Option SocketAddr
connect w addresses = find w.answers addresses

pub record Request : Type 0 where
  pub is_connect : Bool
  -- the authority's host and port
  pub authority : Option (Text × Option ℕ)

pub data Response : Type 0 where
  method_not_allowed bad_request forbidden bad_gateway : Response
  tunnel : SocketAddr → Response

abbrev pub admitted_of : Result (List SocketAddr) DeniedAddress → Option (List SocketAddr)
admitted_of (ok addresses) = some addresses
admitted_of (err class) = none

pub admitted_as : World → Text → ℕ → Option Admission → Option (List SocketAddr)
unfolding literal vetted
admitted_as w host port none = none
admitted_as w host port (some (by_literal address)) = admitted_of (literal w address port)
admitted_as w host port (some by_name) = admitted_of (vetted w host port)

pub admitted_addresses : World → List Entry → Text → ℕ → Option (List SocketAddr)
unfolding admitted_as admits
admitted_addresses w entries host port = admitted_as w host port (admits w entries host)

pub open_tunnel : World → Option (List SocketAddr) → Response
unfolding connect
open_tunnel w none = forbidden
open_tunnel w (some addresses) = elim (connect w addresses) [
  | none ↦ bad_gateway
  | some address ↦ tunnel address
]

-- The answer to a `CONNECT`, by its authority.
pub answer : World → List Entry → Option (Text × Option ℕ) → Response
unfolding open_tunnel admitted_addresses
answer w entries (some (host, some port)) = open_tunnel w (admitted_addresses w entries host port)
answer w entries _ = bad_request

pub handle : World → List Entry → Request → Response
unfolding answer
handle w entries r = if r.is_connect then answer w entries r.authority else method_not_allowed
