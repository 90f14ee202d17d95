-- ===== src/Cursor/Rpc/Calls.antt =====
-- A client that was made: its process is on this machine.
use omnia_backends.Base.{◌≡◌, refl, subst, Bool, true, false, not, ◌||◌, Option, none, some, ◌++◌}
use omnia_backends.Base.Results.{Result, ok, >>=-eq-ok}
use omnia_backends.Base.Strings.{Text, to_ascii_lowercase}
use omnia_backends.Base.Order.{bytes_ord, same}
use omnia_backends.Base.Text.{codes}
use omnia_backends.Cursor.Frames.{Error}
use omnia_backends.Cursor.Wire.{ping_request, get_version_request}
use omnia_backends.Cursor.Wire.Readers.{GetVersionResponse, version_of}
use omnia_backends.Cursor.Rpc.{
  Outside, Uri, Rpc, ensure, context, is_http, has_userinfo, is_true, unbracketed, ensure_loopback,
  unary, unary_empty, connect_to,
}

ensure-true : (b : Bool) (text : Text) (u : Unit {0}) → ensure b text ≡ ok u → b ≡ true
unfolding ensure
ensure-true true text u h = refl
ensure-true false text u h = cc

context-some :
    {A : Type 0} (text : Text) (x : Option A) (a : A) → context text x ≡ ok a → x ≡ some a
unfolding context
context-some text none a h = cc
context-some text (some b) a h = cc

-- A URL on this machine, over plain HTTP and without credentials of its own.
abbrev pub Local : Outside → Text → Type 0
Local o base =
    (uri : Uri) × (host : Text) × (o.parse_uri base ≡ some uri)
    × (is_http uri.scheme ≡ true)
    × (has_userinfo uri.authority ≡ false)
    × (uri.host ≡ some host)
    × ((same (to_ascii_lowercase (unbracketed host)) (codes "localhost")
          || is_true (o.parse_ip (unbracketed host)))
        ≡ true)

abbrev the_ok : Rpc → Result Rpc Error
the_ok a = ok a

ok-injective : (a b : Rpc) → the_ok a ≡ the_ok b → a ≡ b
ok-injective a b h = cc

not-true : (b : Bool) → not b ≡ true → b ≡ false
not-true true h = cc
not-true false h = refl

ensure_loopback-Local :
    (o : Outside) (base : Text) (u : Unit {0}) → ensure_loopback o base ≡ ok u → Local o base
unfolding ensure_loopback
ensure_loopback-Local o base u h =
    let (uri, e1, h1) = >>=-eq-ok (context (codes "parsing sdk.v1 URL") (o.parse_uri base)) _ u h in
    let (u2, e2, h2) = >>=-eq-ok (ensure (is_http uri.scheme) _) _ u h1 in
    let (u3, e3, h3) = >>=-eq-ok (ensure (not (has_userinfo uri.authority)) _) _ u h2 in
    let (host, e4, h4) = >>=-eq-ok (context _ uri.host) _ u h3 in
    (
      uri,
      host,
      context-some _ (o.parse_uri base) uri e1,
      ensure-true _ _ u2 e2,
      not-true _ (ensure-true _ _ u3 e3),
      context-some _ uri.host host e4,
      ensure-true _ _ u h4,
    )

-- A client that was made speaks to this machine only, and to a process that answered a ping and speaks
-- `sdk.v1`.
pub connect_to-Local :
    (o : Outside) (base token : Text) (client : Rpc)
    → connect_to o base token ≡ ok client
    → Local o client.base
      × (unary_empty o client ping_request ≡ ok tt)
      × ((version : GetVersionResponse) × (unary o version_of client get_version_request
            ≡ ok version)
          × (same version.protocol_version (codes "sdk.v1") ≡ true))
unfolding connect_to
connect_to-Local o base token client h =
    let made : Rpc = record { base = base; bearer = codes "Bearer " ++ token } in
    let (safe, e1, h1) = >>=-eq-ok (ensure_loopback o base) _ client h in
    let (pong, e2, h2) = >>=-eq-ok (unary_empty o made ping_request) _ client h1 in
    let (version, e3, h3) = >>=-eq-ok (unary o version_of made get_version_request) _ client h2 in
    let (u, e4, h4) =
      >>=-eq-ok (ensure (same version.protocol_version (codes "sdk.v1")) _) _ client h3 in
    subst
      (λ c.
        Local o c.base
        × (unary_empty o c ping_request ≡ ok tt)
        × ((v : GetVersionResponse) × (unary o version_of c get_version_request ≡ ok v)
            × (same v.protocol_version (codes "sdk.v1") ≡ true)))
      (ok-injective made client h4)
      (ensure_loopback-Local o base safe e1, e2, (version, e3, ensure-true _ _ u e4))
