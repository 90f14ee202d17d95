-- ===== src/Sandbox/Address.antt =====
-- crates/sandbox/src/proxy.rs, `DeniedAddress` and the metadata endpoints: the classes of address that no
-- tunnel leads to. The tests on addresses are those of `std::net`.
pub mod Ranges
use omnia_backends.Base.{
  ℕ, ◌/◌, ◌%◌, Bool, true, false, ◌&&◌, ◌||◌, not, Option, none, some, List, [], ◌∷◌, any, ◌==◌,
  leb, if◌then◌else◌,
}

pub record Ipv4 : Type 0 where
  pub a : ℕ
  pub b : ℕ
  pub c : ℕ
  pub d : ℕ

-- The eight segments of 16 bits.
pub record Ipv6 : Type 0 where
  pub s0 : ℕ
  pub s1 : ℕ
  pub s2 : ℕ
  pub s3 : ℕ
  pub s4 : ℕ
  pub s5 : ℕ
  pub s6 : ℕ
  pub s7 : ℕ

pub data IpAddr : Type 0 where
  v4 : Ipv4 → IpAddr
  v6 : Ipv6 → IpAddr

pub data DeniedAddress : Type 0 where
  unspecified loopback link_local multicast broadcast metadata own : DeniedAddress

unfoldable pub same_v4 : Ipv4 → Ipv4 → Bool
same_v4 x y = x.a == y.a && x.b == y.b && x.c == y.c && x.d == y.d

unfoldable pub same_v6 : Ipv6 → Ipv6 → Bool
same_v6 x y =
    x.s0 == y.s0
    && x.s1 == y.s1
    && x.s2 == y.s2
    && x.s3 == y.s3
    && x.s4 == y.s4
    && x.s5 == y.s5
    && x.s6 == y.s6
    && x.s7 == y.s7

-- `==` of addresses.
unfoldable pub same_ip : IpAddr → IpAddr → Bool
same_ip (v4 x) (v4 y) = same_v4 x y
same_ip (v6 x) (v6 y) = same_v6 x y
same_ip _ _ = false

abbrev pub ip4 : ℕ → ℕ → ℕ → ℕ → Ipv4
ip4 a b c d = record { a = a; b = b; c = c; d = d }

-- An address with five segments of zero in front.
abbrev pub low : ℕ → ℕ → ℕ → Ipv6
low s5 s6 s7 = record { s0 = 0; s1 = 0; s2 = 0; s3 = 0; s4 = 0; s5 = s5; s6 = s6; s7 = s7 }

abbrev pub metadata_v6 : Ipv6
metadata_v6 = record { s0 = 64768; s1 = 3778; s2 = 0; s3 = 0; s4 = 0; s5 = 0; s6 = 0; s7 = 596 }

-- `METADATA`
abbrev pub metadata_addresses : List IpAddr
metadata_addresses = v6 metadata_v6 ∷ v4 (ip4 100 100 100 200) ∷ []

unfoldable pub is_unspecified_v6 : Ipv6 → Bool
is_unspecified_v6 x = same_v6 x (low 0 0 0)

unfoldable pub is_loopback_v6 : Ipv6 → Bool
is_loopback_v6 x = same_v6 x (low 0 0 1)

-- `Ipv6Addr::to_ipv4`: a mapped address or a compatible one.
unfoldable pub to_ipv4 : Ipv6 → Option Ipv4
to_ipv4 x =
    if x.s0 == 0 && x.s1 == 0 && x.s2 == 0 && x.s3 == 0 && x.s4 == 0 && (x.s5 == 0 || x.s5 == 65535)
    then some (ip4 (x.s6 / 256) (x.s6 % 256) (x.s7 / 256) (x.s7 % 256))
    else none

unfoldable pub of_v4 : Ipv4 → Option DeniedAddress
of_v4 x =
    if same_v4 x (ip4 0 0 0 0)
    then some unspecified
    else if x.a == 127
    then some loopback
    else if same_v4 x (ip4 255 255 255 255)
    then some broadcast
    else if same_v4 x (ip4 169 254 169 254) || any (same_ip (v4 x)) metadata_addresses
    then some metadata
    else if x.a == 169 && x.b == 254
    then some link_local
    else if leb 224 x.a && leb x.a 239
    then some multicast
    else none

-- `fe80::/10` and `ff00::/8` by the first segment.
unfoldable pub of_v6 : Ipv6 → Option DeniedAddress
of_v6 x =
    if is_unspecified_v6 x
    then some unspecified
    else if is_loopback_v6 x
    then some loopback
    else if any (same_ip (v6 x)) metadata_addresses
    then some metadata
    else if x.s0 / 64 == 1018
    then some link_local
    else if x.s0 / 256 == 255
    then some multicast
    else none

abbrev v4_or : IpAddr → Option Ipv4 → IpAddr
v4_or address none = address
v4_or address (some x) = v4 x

-- The address that a v6 address carries, or the address itself.
unfoldable pub carried : IpAddr → IpAddr
carried (v4 x) = v4 x
carried (v6 x) =
    if not (is_unspecified_v6 x) && not (is_loopback_v6 x) then v4_or (v6 x) (to_ipv4 x) else v6 x

unfoldable pub class_of : IpAddr → Option DeniedAddress
class_of (v4 x) = of_v4 x
class_of (v6 x) = of_v6 x

abbrev or_own : Option DeniedAddress → Bool → Option DeniedAddress
or_own none held = if held then some own else none
or_own (some class) held = some class

-- `DeniedAddress::of`
unfoldable pub of : IpAddr → List IpAddr → Option DeniedAddress
of address owned = or_own (class_of (carried address)) (any (same_ip (carried address)) owned)
