-- ===== src/Federation/Keys/Secrets.antt =====
-- app/crates/kif-federation/src/k8s.rs: the two secrets, and what is read from an existing one.
use kubernetes_identity_fede.Base.{String, Option, ◌≡◌, refl, some, [], Result, ok, ok_or, ◌>>=◌}
use kubernetes_identity_fede.Base.BTreeMap.{BTreeMap, lookup, insert}
use kubernetes_identity_fede.Federation.Claims.{SigningMaterial}

abbrev pub signing_secret_key_pem : String
signing_secret_key_pem = "private_key_pkcs8.pem"

abbrev pub signing_secret_key_kid : String
signing_secret_key_kid = "kid"

abbrev pub jwks_secret_key : String
jwks_secret_key = "jwks.json"

-- The fields of a `Secret` that are read or set; the entries are its data.
pub record Secret (Bytes : Type 0) : Type 0 where
  pub name : Option String
  pub type : Option String
  pub entries : Option (BTreeMap Bytes)

module _ {Bytes : Type 0} where
  abbrev pub opaque : String → BTreeMap Bytes → Secret Bytes
  opaque name entries = record { name = some name; type = some "Opaque"; entries = some entries }

  -- The data of a new signing secret, from text as bytes.
  unfoldable pub signing_data : (String → Bytes) → SigningMaterial → BTreeMap Bytes
  unfolding insert
  signing_data into_bytes material =
      insert signing_secret_key_kid (into_bytes material.kid)
        (insert signing_secret_key_pem (into_bytes material.private_key_pem) [])

  -- What is read from an existing signing secret, by `String::from_utf8`.
  unfoldable pub material_of :
      (Bytes → Result String String) → Secret Bytes → Result SigningMaterial String
  unfolding lookup
  material_of from_utf8 existing = do
    entries ← ok_or existing.entries "existing signing secret missing data"
    pem_bytes ←
        ok_or (lookup signing_secret_key_pem entries) "signing secret missing private_key_pkcs8.pem"
    kid_bytes ← ok_or (lookup signing_secret_key_kid entries) "signing secret missing kid"
    pem ← from_utf8 pem_bytes
    kid ← from_utf8 kid_bytes
    ok (record { kid = kid; private_key_pem = pem })

  -- A new signing secret is read back.
  pub material_of-signing_data :
      (from_utf8 : Bytes → Result String String) (into_bytes : String → Bytes)
      (material : SigningMaterial) (existing : Secret Bytes)
      → ((t : String) → from_utf8 (into_bytes t) ≡ ok t)
      → existing.entries ≡ some (signing_data into_bytes material)
      → material_of from_utf8 existing ≡ ok material
  unfolding material_of signing_data
  material_of-signing_data from_utf8 into_bytes material existing back held =
      rw held (rw (back material.private_key_pem) (rw (back material.kid) refl))
