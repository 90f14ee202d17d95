-- ===== src/Sandbox/Proxy/Reach.antt =====
-- Where a tunnel may lead: the theorem on `handle`.
use omnia_backends.Base.{
  ℕ, ◌≡◌, ◌⊎◌, inl, inr, refl, ap, ◌∙◌, subst, true, Option, none, some, List, [], ◌∷◌, any, Any,
  arith, Bool-cases, Option-cases,
}
use omnia_backends.Base.Results.{Result, ok, err}
use omnia_backends.Sandbox.Address.{IpAddr, DeniedAddress, loopback, of}
use omnia_backends.Sandbox.Proxy.{
  Text, SocketAddr, World, Entry, Request, tunnel, by_name, by_literal, admits, literal,
  literal_class, vetted, resolved, owned, connect, handle, answer, open_tunnel, admitted_addresses,
  admitted_as, admitted_of, Admission, normal, entry_admits, is_literal,
}
use omnia_backends.Sandbox.Proxy.Vet.{passes, find-eq-some, vetted_name}

-- Why a tunnel may lead to the address: a listed name resolved to it, and it has no denied class.
pub record ByName (w : World) (entries : List Entry) (host : Text) (port : ℕ) (s : SocketAddr)
    : Type 0 where
  pub listed : any (λ e. entry_admits e (normal host)) entries ≡ true
  pub found : Any (λ x. x ≡ s) (resolved w host port)
  pub no_class : of s.0 (owned w) ≡ none

-- Or it is a listed literal, with no denied class but the loopback's.
pub record ByLiteral (w : World) (entries : List Entry) (host : Text) (port : ℕ) (s : SocketAddr)
    : Type 0 where
  pub listed : any (is_literal s.0) entries ≡ true
  pub written : w.parse_ip (normal host) ≡ some s.0
  pub same_port : s.1 ≡ port
  pub class : (of s.0 (owned w) ≡ none) ⊎ (of s.0 (owned w) ≡ some loopback)

literal_class_lem :
    (address : IpAddr) (port : ℕ) (addresses : List SocketAddr) (class : Option DeniedAddress)
    → literal_class address port class ≡ ok addresses
    → (addresses ≡ (address, port) ∷ []) × ((class ≡ none) ⊎ (class ≡ some loopback))
literal_class_lem address port addresses none h = (cc, inl refl)
literal_class_lem address port addresses (some loopback) h = (cc, inr refl)
literal_class_lem address port addresses (some _) h = cc

admitted_ok :
    (r : Result (List SocketAddr) DeniedAddress) (addresses : List SocketAddr)
    → admitted_of r ≡ some addresses
    → r ≡ ok addresses
admitted_ok (ok xs) addresses h = cc
admitted_ok (err class) addresses h = cc

literal_lem :
    (w : World) (address : IpAddr) (port : ℕ) (addresses : List SocketAddr)
    → admitted_of (literal w address port) ≡ some addresses
    → (addresses ≡ (address, port) ∷ [])
      × ((of address (owned w) ≡ none) ⊎ (of address (owned w) ≡ some loopback))
unfolding literal
literal_lem w address port addresses h =
    literal_class_lem address port addresses (of address (owned w)) (admitted_ok _ addresses h)

admitted_name :
    (w : World) (entries : List Entry) (host : Text)
    → admits w entries host ≡ some by_name
    → any (λ e. entry_admits e (normal host)) entries ≡ true
unfolding admits
admitted_name w entries host h = elim (Option-cases (w.parse_ip (normal host))) [
  | inl e ↦ ground (arith, e)
  | inr (a, e) ↦ ground (arith, e)
]

admitted_literal :
    (w : World) (entries : List Entry) (host : Text) (address : IpAddr)
    → admits w entries host ≡ some (by_literal address)
    → (any (is_literal address) entries ≡ true) × (w.parse_ip (normal host) ≡ some address)
unfolding admits
admitted_literal w entries host address h = elim (Option-cases (w.parse_ip (normal host))) [
  | inl e ↦ ground (arith, e)
  | inr (a, e) ↦ ground (arith, e)
]

-- The connection is made to one of the addresses, which answers.
connect_lem :
    (w : World) (addresses : List SocketAddr) (s : SocketAddr)
    → connect w addresses ≡ some s
    → (w.answers s ≡ true) × Any (λ x. x ≡ s) addresses
unfolding connect
connect_lem w addresses s h = find-eq-some w.answers addresses s h

pub Reaches : World → List Entry → Text → ℕ → SocketAddr → Type 0
Reaches w entries host port s = ByName w entries host port s ⊎ ByLiteral w entries host port s

no_class_of : (own : List IpAddr) (s : SocketAddr) → passes own s ≡ true → of s.0 own ≡ none
unfolding passes
no_class_of own s h = elim (Option-cases (of s.0 own)) [
  | inl e ↦ e
  | inr (class, e) ↦ ground (arith, e)
]

name_reaches :
    (w : World) (entries : List Entry) (host : Text) (port : ℕ) (addresses : List SocketAddr)
    (s : SocketAddr)
    → admits w entries host ≡ some by_name
    → vetted w host port ≡ ok addresses
    → Any (λ x. x ≡ s) addresses
    → ByName w entries host port s
name_reaches w entries host port addresses s e h m =
    let (p, found) = vetted_name w host port addresses s h m in
    record {
      listed = admitted_name w entries host e;
      found = found;
      no_class = no_class_of (owned w) s p;
    }

-- One address, the literal with the port.
the_one :
    (address : IpAddr) (port : ℕ) (addresses : List SocketAddr) (s : SocketAddr)
    → addresses ≡ (address, port) ∷ []
    → Any (λ x. x ≡ s) addresses
    → (address, port) ≡ s
the_one address port addresses s e m = elim (subst (Any (λ x. x ≡ s)) e m) [
  | inl k ↦ k
  | inr k ↦ absurd k
]

literal_reaches :
    (w : World) (entries : List Entry) (host : Text) (port : ℕ) (address : IpAddr)
    → admits w entries host ≡ some (by_literal address)
    → (of address (owned w) ≡ none) ⊎ (of address (owned w) ≡ some loopback)
    → ByLiteral w entries host port (address, port)
literal_reaches w entries host port address e class = record {
  listed = (admitted_literal w entries host address e).0;
  written = (admitted_literal w entries host address e).1;
  same_port = refl;
  class = class;
}

admitted_as_reaches :
    (w : World) (entries : List Entry) (host : Text) (port : ℕ) (addresses : List SocketAddr)
    (s : SocketAddr) (o : Option Admission)
    → admits w entries host ≡ o
    → admitted_as w host port o ≡ some addresses
    → Any (λ x. x ≡ s) addresses
    → Reaches w entries host port s
unfolding admitted_as Reaches
admitted_as_reaches w entries host port addresses s none e h m = cc
admitted_as_reaches w entries host port addresses s (some by_name) e h m =
    inl (name_reaches w entries host port addresses s e (admitted_ok _ addresses h) m)
admitted_as_reaches w entries host port addresses s (some (by_literal address)) e h m =
    let (one, class) = literal_lem w address port addresses h in
    inr (
      subst (ByLiteral w entries host port) (the_one address port addresses s one m)
        (literal_reaches w entries host port address e class))

-- What a request that opened a tunnel to the address was.
pub record Tunnelled (w : World) (entries : List Entry) (r : Request) (s : SocketAddr)
    : Type 0 where
  pub is_connect : r.is_connect ≡ true
  pub host : Text
  pub port : ℕ
  pub authority : r.authority ≡ some (host, some port)
  pub answers : w.answers s ≡ true
  pub reaches : Reaches w entries host port s

opened :
    (w : World) (entries : List Entry) (host : Text) (port : ℕ) (s : SocketAddr)
    (o : Option (List SocketAddr))
    → admitted_addresses w entries host port ≡ o
    → open_tunnel w o ≡ tunnel s
    → (w.answers s ≡ true) × Reaches w entries host port s
unfolding open_tunnel admitted_addresses
opened w entries host port s none e h = cc
opened w entries host port s (some addresses) e h = elim (Option-cases (connect w addresses)) [
  | inl c ↦ ground (arith, c)
  | inr (x, c) ↦
      let k : x ≡ s = ground (arith, c) in
      let (up, m) = connect_lem w addresses s (c ∙ ap (λ y. some y) k) in
      (up, admitted_as_reaches w entries host port addresses s (admits w entries host) refl e m)
]

-- A tunnel opens only for a `CONNECT` that names a host and a port, and only to an address that answers
-- and that a listed name resolved to and has no denied class, or that is a listed literal, on the port
-- asked for, whose class is the loopback's if it has one.
pub handle-Tunnelled :
    (w : World) (entries : List Entry) (r : Request) (s : SocketAddr)
    → handle w entries r ≡ tunnel s
    → Tunnelled w entries r s
unfolding handle answer
handle-Tunnelled w entries r s h = elim (Bool-cases r.is_connect) [
  | inr e ↦ ground (arith, e)
  | inl e ↦ asked e r.authority refl (ground (arith, e))
]
  where
    asked :
        r.is_connect ≡ true
        → (a : Option (Text × Option ℕ)) → r.authority ≡ a
        → answer w entries a ≡ tunnel s
        → Tunnelled w entries r s
    asked e none k t = cc
    asked e (some (host, none)) k t = cc
    asked e (some (host, some port)) k t =
        let (up, there) =
          opened w entries host port s (admitted_addresses w entries host port) refl t in
        record {
          is_connect = e;
          host = host;
          port = port;
          authority = k;
          answers = up;
          reaches = there;
        }
