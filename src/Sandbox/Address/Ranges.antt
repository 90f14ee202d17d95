-- ===== src/Sandbox/Address/Ranges.antt =====
-- The classes against the address blocks they stand for, each a range of 32-bit or of 16-bit numbers.
use omnia_backends.Base.{
  ℕ, ◌+◌, ◌*◌, ◌/◌, ◌%◌, ◌<◌, ◌≡◌, ◌≢◌, ◌↔◌, ◌⊎◌, inl, inr, sym, ap, ◌∙◌, ==_iff, Bool-cases, true,
  false, none, List, arith,
}
use omnia_backends.Sandbox.Address.{
  Ipv4, Ipv6, IpAddr, v4, v6, ip4, low, of_v4, of_v6, of, carried, same_ip, same_v4, same_v6,
  to_ipv4, is_unspecified_v6, is_loopback_v6, metadata_v6,
}

abbrev pub IsIpv4 : Ipv4 → Type 0
IsIpv4 x = (x.a < 256) × (x.b < 256) × (x.c < 256) × (x.d < 256)

-- The 32-bit number of the address.
abbrev pub number : Ipv4 → ℕ
number x = ((x.a * 256 + x.b) * 256 + x.c) * 256 + x.d

-- Outside 0.0.0.0, 127.0.0.0/8, 169.254.0.0/16, 224.0.0.0/4, 255.255.255.255 and 100.100.100.200.
pub record Public (n : ℕ) : Type 0 where
  pub specified : n ≢ 0
  pub no_loopback : (n < 2130706432) ⊎ (2147483647 < n)
  pub no_link_local : (n < 2851995648) ⊎ (2852061183 < n)
  pub no_multicast : (n < 3758096384) ⊎ (4026531839 < n)
  pub no_broadcast : n ≢ 4294967295
  pub no_metadata : n ≢ 1684301000

-- An address of version 4 has no class exactly when its number lies in none of the denied blocks.
pub of_v4-Public : (x : Ipv4) → IsIpv4 x → (of_v4 x ≡ none) ↔ Public (number x)
unfolding of_v4 same_ip same_v4
of_v4-Public x (ha, hb, hc, hd) = (
  λ e. record {
    specified = λ z. ground arith;
    no_loopback = ground arith;
    no_link_local = ground arith;
    no_multicast = ground arith;
    no_broadcast = λ z. ground arith;
    no_metadata = λ z. ground arith;
  },
  λ p. ground (
    arith, p.no_loopback, p.no_link_local, p.no_multicast, p.specified, p.no_broadcast,
    p.no_metadata,
  ),
)

-- A version 4 address carried in version 6 as `::ffff:a.b.c.d`.
abbrev pub mapped : Ipv4 → Ipv6
mapped x = low 65535 (x.a * 256 + x.b) (x.c * 256 + x.d)

octets : (a b : ℕ) → b < 256 → ((a * 256 + b) / 256 ≡ a) × ((a * 256 + b) % 256 ≡ b)
octets a b h = omega arith

octets_eq :
    (x : Ipv4)
    → IsIpv4 x
    → ip4
        ((x.a * 256 + x.b) / 256)
        ((x.a * 256 + x.b) % 256)
        ((x.c * 256 + x.d) / 256)
        ((x.c * 256 + x.d) % 256)
      ≡ x
octets_eq x (ha, hb, hc, hd) = λ i. record {
  a = (octets x.a x.b hb).0 i;
  b = (octets x.a x.b hb).1 i;
  c = (octets x.c x.d hd).0 i;
  d = (octets x.c x.d hd).1 i;
}

-- Writing an address of version 4 as its mapped one of version 6 changes nothing of its class.
pub of-mapped :
    (x : Ipv4) (owned : List IpAddr) → IsIpv4 x → of (v6 (mapped x)) owned ≡ of (v4 x) owned
unfolding of carried to_ipv4 is_unspecified_v6 is_loopback_v6 same_v6
of-mapped x owned h = ap (λ y. of (v4 y) owned) (octets_eq x h)

same_v6_eq : (x y : Ipv6) → same_v6 x y ≡ true → x ≡ y
unfolding same_v6
same_v6_eq x y h = λ i. record {
  s0 = (==_iff x.s0 y.s0).0 (ground arith) i;
  s1 = (==_iff x.s1 y.s1).0 (ground arith) i;
  s2 = (==_iff x.s2 y.s2).0 (ground arith) i;
  s3 = (==_iff x.s3 y.s3).0 (ground arith) i;
  s4 = (==_iff x.s4 y.s4).0 (ground arith) i;
  s5 = (==_iff x.s5 y.s5).0 (ground arith) i;
  s6 = (==_iff x.s6 y.s6).0 (ground arith) i;
  s7 = (==_iff x.s7 y.s7).0 (ground arith) i;
}

same_v6_refl : (x : Ipv6) → same_v6 x x ≡ true
unfolding same_v6
same_v6_refl x = ground arith

differs_v6 : (x y : Ipv6) → same_v6 x y ≡ false → x ≢ y
differs_v6 x y h e = false_true (sym h ∙ ap (same_v6 x) (sym e) ∙ same_v6_refl x)
  where
    false_true : false ≡ true → ⊥
    false_true e = cc

same_of_differs : (x y : Ipv6) → x ≢ y → same_v6 x y ≡ false
same_of_differs x y ne = elim (Bool-cases (same_v6 x y)) [
  | inl e ↦ absurd (ne (same_v6_eq x y e))
  | inr e ↦ e
]

-- Outside `::`, `::1`, fe80::/10, ff00::/8 and fd00:ec2::254.
pub record PublicV6 (x : Ipv6) : Type 0 where
  pub specified : x ≢ low 0 0 0
  pub no_loopback : x ≢ low 0 0 1
  pub no_link_local : (x.s0 < 65152) ⊎ (65215 < x.s0)
  pub no_multicast : x.s0 < 65280
  pub no_metadata : x ≢ metadata_v6

-- An address of version 6, not read as one it carries, has no class exactly when it lies in none of
-- the denied blocks.
pub of_v6-PublicV6 : (x : Ipv6) → x.s0 < 65536 → (of_v6 x ≡ none) ↔ PublicV6 x
unfolding of_v6 is_unspecified_v6 is_loopback_v6 same_ip
of_v6-PublicV6 x h = (
  λ e. record {
    specified = differs_v6 x (low 0 0 0) (ground arith);
    no_loopback = differs_v6 x (low 0 0 1) (ground arith);
    no_link_local = ground arith;
    no_multicast = ground arith;
    no_metadata = differs_v6 x metadata_v6 (ground arith);
  },
  λ p. ground (
    arith,
    same_of_differs x (low 0 0 0) p.specified,
    same_of_differs x (low 0 0 1) p.no_loopback,
    same_of_differs x metadata_v6 p.no_metadata,
    p.no_link_local,
    p.no_multicast,
  ),
)
