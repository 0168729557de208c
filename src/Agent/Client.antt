-- ===== src/Agent/Client.antt =====
-- app/crates/kif-agent/src/federation.rs: `mint`. Sending the request, reading the body, parsing it
-- and printing a status belong to reqwest and serde, and are arguments.
use Prim.Native.Char.{code}
use kubernetes_identity_fede.Base.{
  ℕ, String, ◌<>◌, Option, Result, err, ◌>>=◌, map_err, if◌then◌else◌, nat_eq,
}
use kubernetes_identity_fede.Base.Text.{trim_end_matches}

pub data MintError : Type 0 where
  config_hash_mismatch : MintError
  other : String → MintError

pub record MintRequest : Type 0 where
  pub namespace : String
  pub service_account_name : String
  pub config_hash : String
  pub pod_name : Option String

pub record MintedToken : Type 0 where
  pub token : String
  pub expires_in_seconds : ℕ

pub record MintResponse : Type 0 where
  pub aws : Option MintedToken

-- A response's status, and its body, which can fail to be read.
pub record HttpResponse : Type 0 where
  pub status : ℕ
  pub body : Result String String

pub record Http : Type 0 where
  -- a POST to a URL with a bearer token and a JSON body
  pub post : String → String → MintRequest → Result HttpResponse String
  pub from_json : String → Result MintResponse String
  pub show_status : ℕ → String

abbrev pub ok_code : ℕ
ok_code = 200

abbrev pub conflict_code : ℕ
conflict_code = 409

-- `trim_end_matches('/')`
abbrev pub without_slashes : String → String
without_slashes = trim_end_matches (λ c. nat_eq (code c) b'/')

abbrev pub mint_url : String → String
mint_url federation_url = without_slashes federation_url <> "/v1/mint"

unfoldable pub mint : Http → String → String → MintRequest → Result MintResponse MintError
unfolding trim_end_matches
mint http federation_url bearer_sa_token req = do
  resp ←
      map_err (λ e. other "send mint request")
        (http.post (mint_url federation_url) bearer_sa_token req)
  body ← map_err (λ e. other "read response body") resp.body
  if nat_eq resp.status ok_code
      then map_err (λ e. other "failed to parse mint response body") (http.from_json body)
      else if nat_eq resp.status conflict_code
      then err config_hash_mismatch
      else err (
          other
            ("failed to mint request, status " <> (http.show_status resp.status <> (": " <> body))))
