-- ===== src/Issuer/Serve.antt =====
-- app/crates/kif-issuer/src/http.rs: `get_jwks` and the probes. The serializer is an argument; the
-- body of a response is text, and `application/json` and the cache control of it are constant.
pub mod Loaded
use kubernetes_identity_fede.Base.{String, Bool, Option, none, some, Result, ok, err, if◌then◌else◌}
use kubernetes_identity_fede.Federation.Mint.{
  StatusCode, status_ok, internal_server_error, service_unavailable,
}
use kubernetes_identity_fede.Issuer.Jwks.{Store, is_loaded}

-- The status, the cache control and the body.
pub record Reply : Type 0 where
  pub status : StatusCode
  pub cache_control : Option String
  pub body : Option String

abbrev pub bare : StatusCode → Reply
bare status = record { status = status; cache_control = none; body = none }

unfoldable pub livez : StatusCode
livez = status_ok

unfoldable pub startupz : {KeySet : Type 0} → Store KeySet → StatusCode
unfolding is_loaded
startupz store = if is_loaded store then status_ok else service_unavailable

module _ {KeySet : Type 0} (to_string : KeySet → Result String String) where
  abbrev pub served : Result String String → Reply
  served (ok body) = record {
    status = status_ok;
    cache_control = some "public, max-age=300";
    body = some body;
  }
  served (err e) = bare internal_server_error

  unfoldable pub get_jwks : Store KeySet → Reply
  get_jwks none = bare service_unavailable
  get_jwks (some jwks) = served (to_string jwks)
