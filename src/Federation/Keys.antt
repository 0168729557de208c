-- ===== src/Federation/Keys.antt =====
-- app/crates/kif-federation/src/k8s.rs: `ensure_signing_and_jwks`, and `upsert_jwks_secret`. The API server is a state; the clock, the key generator and the decoding of
-- UTF-8 are arguments.
pub mod Secrets
pub mod Again
pub mod Tests
use kubernetes_identity_fede.Base.{
  ℕ, String, ◌<>◌, Bool, true, false, Option, none, some, List, [], ◌∷◌, Result, ok, err, ok_or,
}
use kubernetes_identity_fede.Base.Calls.{Calls, ◌>>=◌, ◌>>◌, lift, read, change}
use kubernetes_identity_fede.Base.Decimal.{to_string}
use kubernetes_identity_fede.Federation.Keys.Secrets.{
  Secret, jwks_secret_key, opaque, signing_data, material_of,
}
use kubernetes_identity_fede.Federation.Claims.{Crypto, SigningMaterial, jwks_json_from_private_pem}

-- The calls of the API server, and what the program takes from outside.
pub record Server : Type 1 where
  pub State : Type 0
  pub Bytes : Type 0
  pub get_opt : String → State → Result (Option (Secret Bytes)) String
  pub patch : String → Secret Bytes → State → Result State String
  pub from_utf8 : Bytes → Result String String
  pub into_bytes : String → Bytes
  -- `RsaPrivateKey::new` and `to_pkcs8_pem`
  pub new_pem : Result String String
  -- the seconds since the epoch
  pub seconds : Result ℕ String

module _ (server : Server) (crypto : Crypto) where
  open server use {State, Bytes, get_opt, patch, from_utf8, into_bytes, new_pem, seconds}

  unfoldable pub upsert_jwks_secret : String → String → Calls State (Unit {0})
  upsert_jwks_secret name jwks_json =
      change (patch name (opaque name ((jwks_secret_key, into_bytes jwks_json) ∷ [])))

  -- The JWKS document of the material, published.
  unfoldable pub publish : String → SigningMaterial → Calls State SigningMaterial
  unfolding upsert_jwks_secret
  publish jwks_secret_name material = do
    jwks_json ← lift (jwks_json_from_private_pem crypto material)
    upsert_jwks_secret jwks_secret_name jwks_json
    lift (ok material)

  abbrev pub new_material : ℕ → String → SigningMaterial
  new_material secs pem = record { kid = "kid-" <> to_string secs; private_key_pem = pem }

  -- The part that creates the signing secret.
  unfoldable pub create_signing : String → String → Calls State SigningMaterial
  unfolding publish signing_data to_string
  create_signing signing_secret_name jwks_secret_name = do
    secs ← lift seconds
    pem ← lift new_pem
    let material = new_material secs pem
    change
        (patch signing_secret_name (opaque signing_secret_name (signing_data into_bytes material)))
    publish jwks_secret_name material

  -- The part for a signing secret that is there.
  unfoldable pub use_signing : String → Secret Bytes → Calls State SigningMaterial
  unfolding publish material_of
  use_signing jwks_secret_name existing = do
    material ← lift (material_of from_utf8 existing)
    publish jwks_secret_name material

  unfoldable pub ensure_signing_and_jwks : String → String → Calls State SigningMaterial
  unfolding create_signing use_signing
  ensure_signing_and_jwks signing_secret_name jwks_secret_name = do
    found ← read (get_opt signing_secret_name)
    elim found [
      | none ↦ create_signing signing_secret_name jwks_secret_name
      | some existing ↦ use_signing jwks_secret_name existing
    ]
