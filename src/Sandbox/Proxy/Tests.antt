-- ===== src/Sandbox/Proxy/Tests.antt =====
-- Runs of the proxy's decisions, and the theorems at them.
use omnia_backends.Base.{◌≡◌, ◌↔◌, refl, true, none, some, List, [], ◌∷◌, arith, if◌then◌else◌}
use omnia_backends.Base.Order.{bytes_ord, lex, same}
use omnia_backends.Base.Text.{codes}
use omnia_backends.Sandbox.Address.{
  IpAddr, v4, v6, low, ip4, loopback, of, of_v4, of_v6, carried, class_of, to_ipv4, same_v4,
  same_v6, same_ip, is_unspecified_v6, is_loopback_v6,
}
use omnia_backends.Sandbox.Address.Ranges.{
  IsIpv4, number, Public, PublicV6, of_v4-Public, of_v6-PublicV6,
}
use omnia_backends.Sandbox.Proxy.{
  Text, World, Request, Entry, suffix, literal_entry, tunnel, forbidden, handle, admits, parse,
  vetted,
}
use omnia_backends.Sandbox.Proxy.Reach.{Tunnelled, handle-Tunnelled}

abbrev public_ip : IpAddr
public_ip = v4 (ip4 8 8 8 8)

abbrev local_ip : IpAddr
local_ip = v4 (ip4 127 0 0 1)

-- Every name resolves to the loopback and to one public address; `local` is a literal.
abbrev world : World
world = record {
  parse_ip = λ text. if same text (codes "local") then some local_ip else none;
  lookup_host = λ host port. some ((local_ip, port) ∷ (public_ip, port) ∷ []);
  own_addresses = none;
  answers = λ s. true;
}

abbrev asks : Text → Request
asks host = record { is_connect = true; authority = some (host, some 443) }

abbrev grant : List Entry
grant = suffix (codes "example.com") ∷ literal_entry local_ip ∷ []

parses : parse world (codes " *.Example.com") ≡ suffix (codes "example.com")
unfolding parse lex
parses = refl

reaches_public : handle world grant (asks (codes "A.example.com")) ≡ tunnel (public_ip, 443)
unfolding handle admits vetted of class_of carried of_v4 same_ip same_v4 lex
reaches_public = refl

reaches_mirror : handle world grant (asks (codes "local")) ≡ tunnel (local_ip, 443)
unfolding handle admits vetted of class_of carried of_v4 same_ip same_v4 lex
reaches_mirror = refl

refuses_lookalike : handle world grant (asks (codes "badexample.com")) ≡ forbidden
unfolding handle admits vetted of class_of carried of_v4 same_ip same_v4 lex
refuses_lookalike = refl

-- A compatible address and a mapped one are classed as what they carry.
compatible_loopback : of (v6 (low 0 32512 1)) [] ≡ some loopback
unfolding of class_of carried of_v4 to_ipv4 same_v6 is_unspecified_v6 is_loopback_v6 same_v4
compatible_loopback = refl

handle-Tunnelled_example : Tunnelled world grant (asks (codes "A.example.com")) (public_ip, 443)
handle-Tunnelled_example =
    handle-Tunnelled world grant (asks (codes "A.example.com")) (public_ip, 443) reaches_public

octets_small : IsIpv4 (ip4 8 8 8 8)
octets_small = omega arith

of_v4-Public_example : (of_v4 (ip4 8 8 8 8) ≡ none) ↔ Public (number (ip4 8 8 8 8))
of_v4-Public_example = of_v4-Public (ip4 8 8 8 8) octets_small

of_v6-PublicV6_example : (of_v6 (low 0 0 2) ≡ none) ↔ PublicV6 (low 0 0 2)
of_v6-PublicV6_example = of_v6-PublicV6 (low 0 0 2) (omega arith)
