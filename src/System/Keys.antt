-- ===== src/System/Keys.antt =====
-- app/crates/kif-federation/src/k8s.rs against app/crates/kif-issuer/src: the issuer serves the keys
-- that the federation service has published. The API server brings the secret from one to the other.
use kubernetes_identity_fede.Base.{
  String, ◌≡◌, ◌≢◌, refl, sym, ap, ◌∙◌, Bool, false, some, List, [], ◌∷◌, ◌++◌, Result, ok,
  ok-injective, string_has_eq,
}
use kubernetes_identity_fede.Base.BTreeMap.{lookup}
use kubernetes_identity_fede.Federation.Claims.{Crypto, SigningMaterial, jwks_json_from_private_pem}
use kubernetes_identity_fede.Federation.Keys.Secrets.{Secret, jwks_secret_key}
use kubernetes_identity_fede.Federation.Keys.{Server, ensure_signing_and_jwks}
use kubernetes_identity_fede.Federation.Keys.Again.{Storage, ensure-Holds}
use kubernetes_identity_fede.Federation.Mint.{status_ok}
use kubernetes_identity_fede.Issuer.Jwks.{
  Library, Store, parse_jwks, on_event, for_each, run_secret_watcher, is_loaded, set,
}
use kubernetes_identity_fede.Issuer.Serve.{startupz, get_jwks, served}

-- The issuer's view of the same cluster: the bytes of the secrets, and JSON Web Key Sets.
pub record Keysets : Type 1 where
  pub KeySet : Type 0
  pub from_str : String → Result KeySet String
  pub has_no_keys : KeySet → Bool
  pub to_string : KeySet → Result String String

abbrev pub library : Server → Keysets → Library
library server keysets = record {
  Bytes = server.Bytes;
  KeySet = keysets.KeySet;
  from_utf8 = server.from_utf8;
  from_str = keysets.from_str;
  has_no_keys = keysets.has_no_keys;
}

module _ (server : Server) (keysets : Keysets) where
  for_each-last :
      (evs : List (Result (Secret server.Bytes) String)) (ev : Result (Secret server.Bytes) String)
      (store : Store keysets.KeySet)
      → for_each (library server keysets) (evs ++ (ev ∷ [])) store
        ≡ on_event (library server keysets) ev (for_each (library server keysets) evs store)
  unfolding for_each
  for_each-last [] ev store = refl
  for_each-last (e ∷ evs) ev store =
      for_each-last evs ev (on_event (library server keysets) e store)

  on_event-published :
      (storage : Storage server) (secret : Secret server.Bytes) (json : String)
      (keys : keysets.KeySet) (store : Store keysets.KeySet)
      → secret.entries ≡ some ((jwks_secret_key, server.into_bytes json) ∷ [])
      → keysets.from_str json ≡ ok keys
      → keysets.has_no_keys keys ≡ false
      → on_event (library server keysets) (ok secret) store ≡ some keys
  unfolding on_event parse_jwks lookup set
  on_event-published storage secret json keys store entries parsed full =
      rw (entries, on_event) (rw (storage.from_utf8-into_bytes json) (rw parsed (rw full refl)))

  serves :
      (store : Store keysets.KeySet) (keys : keysets.KeySet)
      → store ≡ some keys
      → (startupz store ≡ status_ok)
        × (get_jwks keysets.to_string store ≡ served keysets.to_string (keysets.to_string keys))
  unfolding startupz get_jwks is_loaded
  serves store keys h = (rw h refl, rw h refl)

  -- What the issuer serves after the events, the last of which brings the secret.
  abbrev pub Serves :
      List (Result (Secret server.Bytes) String)
      → Secret server.Bytes
      → Store keysets.KeySet
      → keysets.KeySet
      → Type 0
  Serves evs secret store keys =
      let after =
        (run_secret_watcher (library server keysets) (ok tt) (evs ++ (ok secret ∷ [])) store).1 in
      (startupz after ≡ status_ok)
      × (get_jwks keysets.to_string after ≡ served keysets.to_string (keysets.to_string keys))

  -- If the two secrets have different names, a start of the federation service that succeeds
  -- leaves a JWKS secret such that an issuer that receives it, after whatever it has loaded and
  -- received, says that it has started and serves the key set of the service's signing key, if
  -- that can be parsed and is not empty.
  pub published-Serves :
      (crypto : Crypto) (storage : Storage server) (signing jwks : String)
      → jwks ≢ signing
      → (material : SigningMaterial) (s s' : server.State)
      → ensure_signing_and_jwks server crypto signing jwks s ≡ (ok material, s')
      → (json : String) (keys : keysets.KeySet)
      → jwks_json_from_private_pem crypto material ≡ ok json
      → keysets.from_str json ≡ ok keys
      → keysets.has_no_keys keys ≡ false
      → (evs : List (Result (Secret server.Bytes) String)) (store : Store keysets.KeySet)
      → (secret : Secret server.Bytes) × (server.get_opt jwks s' ≡ ok (some secret))
        × Serves evs secret store keys
  unfolding run_secret_watcher
  published-Serves crypto storage signing jwks distinct material s s' h json keys made parsed full
        evs store =
      let holds = ensure-Holds server crypto storage signing jwks distinct material s s' h in
      let same : holds.json ≡ json = ok-injective (sym holds.document ∙ made) in
      let entries =
        holds.entries ∙ ap (λ t. some ((jwks_secret_key, server.into_bytes t) ∷ [])) same in
      (
        holds.public,
        holds.published,
        serves _ keys (
            for_each-last evs (ok holds.public) store
            ∙ on_event-published storage holds.public json keys _ entries parsed full),
      )
