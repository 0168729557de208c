-- ===== src/System/Tests/Service.antt =====
-- http.rs: a client whose requests reach the handler, over bodies that are read back.
use Prim.Native.Char.{Char, code}
use kubernetes_identity_fede.Base.{
  ℕ, zero, suc, String, ◌<>◌, ◌≡◌, refl, ap, ◌∙◌, ◌↔◌, Option, none, some, ok, err, arith,
  if◌then◌else◌, nat_eq, ◌+◌, string_has_eq,
}
use kubernetes_identity_fede.Agent.Client as A
use kubernetes_identity_fede.Agent.Client.{Http, HttpResponse, without_slashes}
use kubernetes_identity_fede.Base.Text.{strip_prefix}
use kubernetes_identity_fede.Base.Routes.{Matched, calls, no_route, no_method, post}
use kubernetes_identity_fede.Base.Routes.Tests.{take, axum}
use kubernetes_identity_fede.Federation.Router.{Endpoint, plain, mints, router}
use kubernetes_identity_fede.Federation.Subject.Laws.{strip_prefix-append}
use kubernetes_identity_fede.Federation.Mint as F
use kubernetes_identity_fede.Federation.Mint.{
  MintContext, StatusCode, status_ok, bad_request, unauthorized, forbidden, not_found,
  status_conflict, internal_server_error, not_implemented, service_unavailable, Body, text, json,
  Response, token_ttl,
}
use kubernetes_identity_fede.System.Wire.{IsConnected, received, taken}
use kubernetes_identity_fede.Federation.Mint.Tests.{ctx}

-- A body that carries a token: its lifetime in unary, and the token.
abbrev x : Char
x = "x"

abbrev y : Char
y = "y"

unfoldable pub print_token : ℕ → String → String
print_token zero token = String.◌∷◌ y token
print_token (suc ttl) token = String.◌∷◌ x (print_token ttl token)

unfoldable pub parse_token : ℕ → String → Option A.MintedToken
parse_token ttl String.[] = none
parse_token ttl (String.◌∷◌ c s) =
    let rest = parse_token (ttl + 1) s in
    if nat_eq (code c) 0x78 then rest else some (record { token = s; expires_in_seconds = ttl })

parse-print :
    (acc ttl : ℕ) (token : String)
    → parse_token acc (print_token ttl token)
      ≡ some (record { token = token; expires_in_seconds = acc + ttl })
unfolding print_token parse_token
parse-print acc zero token = ground arith
parse-print acc (suc ttl) token = ground (arith, parse-print (acc + 1) ttl token)

abbrev pub token_text : Option F.MintedToken → String
unfolding print_token
token_text none = ""
token_text (some t) = print_token t.expires_in_seconds t.token

abbrev to_json : F.MintResponse → String
to_json r = token_text r.aws

abbrev number : StatusCode → ℕ
number status_ok = 200
number bad_request = 400
number unauthorized = 401
number forbidden = 403
number not_found = 404
number status_conflict = 409
number internal_server_error = 500
number not_implemented = 501
number service_unavailable = 503

abbrev body_text : Body → String
body_text (text s) = s
body_text (json r) = to_json r

abbrev reply : Response → HttpResponse
reply r = record { status = number r.status; body = ok (body_text r.body) }

abbrev routed : Matched Endpoint → A.MintRequest → String → HttpResponse
routed no_route req bearer = record { status = 404; body = ok "" }
routed no_method req bearer = record { status = 405; body = ok "" }
routed (calls (plain s)) req bearer = record { status = number s; body = ok "" }
routed (calls (mints handler)) req bearer =
    reply (handler (received req) (some ("Bearer " <> bearer)))

-- A client of the service at the URL.
abbrev pub http : MintContext → String → Http
http ctx url = record {
  post = λ target bearer req. elim (strip_prefix (without_slashes url) target) [
    | none ↦ err "no such host"
    | some path ↦ ok (routed (take (router ctx) post path) req bearer)
  ];
  from_json = λ s. ok (record { aws = parse_token 0 s });
  show_status = λ n. "status";
}

reads : (o : Option F.MintedToken) → parse_token 0 (token_text o) ≡ (taken (record { aws = o })).aws
unfolding parse_token print_token
reads none = refl
reads (some t) =
    parse-print 0 t.expires_in_seconds t.token
    ∙ ap (λ n. some (record { token = t.token; expires_in_seconds = n })) (ground arith)

number-ok : (s : StatusCode) → (number s ≡ 200) ↔ (s ≡ status_ok)
number-ok s = ground arith

number-conflict : (s : StatusCode) → (number s ≡ 409) ↔ (s ≡ status_conflict)
number-conflict s = ground arith

pub http-IsConnected : (ctx : MintContext) (url : String) → IsConnected (http ctx url) ctx url
http-IsConnected service url = record {
  code = number;
  header = λ t. some ("Bearer " <> t);
  to_json = to_json;
  bearer = λ t. refl;
  axum = axum Endpoint;
  answers = λ path t req handler status body found h.
      rw (strip_prefix-append (without_slashes url) path, http)
        (rw found (ap (λ r. ok (reply r)) h));
  reads = λ r. ap (λ o. ok (record { aws = o })) (reads r.aws);
  code-ok = number-ok;
  code-conflict = number-conflict;
}
