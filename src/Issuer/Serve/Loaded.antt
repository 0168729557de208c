-- ===== src/Issuer/Serve/Loaded.antt =====
-- http.rs: what is served, from the file on and whatever the watcher brings.
use kubernetes_identity_fede.Base.{
  String, ◌≡◌, refl, ap, ok, sym, subst, Option, none, some, List, Result, option_or, unwrap_or,
}
use kubernetes_identity_fede.Federation.Keys.Secrets.{Secret}
use kubernetes_identity_fede.Federation.Mint.{status_ok}
use kubernetes_identity_fede.Issuer.Jwks.{Library, run_secret_watcher}
use kubernetes_identity_fede.Issuer.Jwks.LastGood.{last_good, run_secret_watcher-last_good}
use kubernetes_identity_fede.Issuer.Serve.{startupz, get_jwks, served}

module _ (library : Library) (to_string : library.KeySet → Result String String) where
  open library use {Bytes, KeySet}

  -- The key set that the events make of a loaded one.
  abbrev pub current : List (Result (Secret Bytes) String) → KeySet → KeySet
  current evs jwks = unwrap_or (last_good library evs) jwks

  store-serves :
      (newer : Option KeySet) (jwks : KeySet)
      → (startupz (option_or newer (some jwks)) ≡ status_ok)
        × (get_jwks to_string (option_or newer (some jwks))
            ≡ served to_string (to_string (unwrap_or newer jwks)))
  unfolding startupz get_jwks
  store-serves none jwks = (refl, refl)
  store-serves (some set) jwks = (refl, refl)

  -- Once a key set is loaded, whatever the watcher receives, the startup probe says so, and the
  -- reply is the last good key set, if it can be serialized.
  pub loaded-serves :
      (evs : List (Result (Secret Bytes) String)) (jwks : KeySet)
      → let store = (run_secret_watcher library (ok tt) evs (some jwks)).1 in
        (startupz store ≡ status_ok)
        × (get_jwks to_string store ≡ served to_string (to_string (current evs jwks)))
  loaded-serves evs jwks =
      subst
        (λ store.
          (startupz store ≡ status_ok)
          × (get_jwks to_string store ≡ served to_string (to_string (current evs jwks))))
        (sym (ap (λ t. t.1) (run_secret_watcher-last_good library (ok tt) evs (some jwks))))
        (store-serves (last_good library evs) jwks)
