-- ===== src/Federation/Keys/Tests.antt =====
-- k8s.rs: a server that stores what is applied, a first start and a second one.
use kubernetes_identity_fede.Base.{
  String, ◌≡◌, ◌≢◌, refl, sym, ap, ◌∙◌, Option, none, some, [], ok, if◌then◌else◌, ◌==◌,
  string_has_eq, ok-injective, eq_iff, arith,
}
use kubernetes_identity_fede.Federation.Claims.{Crypto, SigningMaterial, jwks_json_from_private_pem}
use kubernetes_identity_fede.Federation.Keys.Secrets.{Secret, material_of, signing_data}
use kubernetes_identity_fede.Federation.Keys.{Server, ensure_signing_and_jwks}
use kubernetes_identity_fede.Federation.Keys.Again.{Storage, ensure-again}

abbrev pub Store : Type 0
Store = String → Option (Secret String)

abbrev pub put : String → Secret String → Store → Store
put name r s n = if n == name then some r else s n

abbrev pub server : Server
server = record {
  State = Store;
  Bytes = String;
  get_opt = λ name s. ok (s name);
  patch = λ name r s. ok (put name r s);
  from_utf8 = λ bytes. ok bytes;
  into_bytes = λ t. t;
  new_pem = ok "pem";
  seconds = ok 7;
}

abbrev pub crypto : Crypto
crypto = record {
  EncodingKey = String;
  RsaPrivateKey = String;
  Jwk = String;
  from_rsa_pem = λ pem. ok pem;
  encode = λ kid claims key. ok key;
  from_pkcs8_pem = λ pem. ok pem;
  n_bytes = λ key. [];
  e_bytes = λ key. [];
  base64_url = λ bytes. "";
  jwk_from_value = λ fields. ok fields.kid;
  jwks_to_string = λ jwks. ok "keys";
}

pub storage : Storage server
storage = record {
  patch-same = λ name r s s' e. (
    r,
    ap (λ (t : Store). ok (t name)) (sym (ok-injective e)) ∙ ground (arith, eq_iff name name),
    refl,
  );
  patch-other = λ name other r s s' distinct e.
      ap (λ (t : Store). ok (t other)) (sym (ok-injective e)) ∙ ground (arith, eq_iff other name);
  from_utf8-into_bytes = λ t. refl;
}

abbrev pub signing : String
signing = "kif-signing"

abbrev pub jwks : String
jwks = "kif-jwks"

pub distinct : jwks ≢ signing
distinct h = ground (arith, eq_iff jwks signing)

abbrev pub empty : Store
empty name = none

abbrev pub material : SigningMaterial
material = record { kid = "kid-7"; private_key_pem = "pem" }

abbrev pub after : Store
after = (ensure_signing_and_jwks server crypto signing jwks empty).1

abbrev later : Store
later = (ensure_signing_and_jwks server crypto signing jwks after).1

pub starts : ensure_signing_and_jwks server crypto signing jwks empty ≡ (ok material, after)
unfolding ensure_signing_and_jwks jwks_json_from_private_pem
starts = refl

starts_again : ensure_signing_and_jwks server crypto signing jwks after ≡ (ok material, later)
unfolding ensure_signing_and_jwks jwks_json_from_private_pem material_of signing_data
starts_again = refl

ensure-again_example : material ≡ material
ensure-again_example =
    ensure-again server crypto storage signing jwks distinct material material empty after later
      starts starts_again
