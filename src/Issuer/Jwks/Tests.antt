-- ===== src/Issuer/Jwks/Tests.antt =====
-- jwks.rs, kube_watch.rs and main.rs: key sets as lists of names.
use kubernetes_identity_fede.Base.{
  String, ◌≡◌, refl, false, none, some, List, [], ◌∷◌, Result, ok, err, option_or, ◌==◌,
  string_has_eq,
}
use kubernetes_identity_fede.Base.BTreeMap.{lookup}
use kubernetes_identity_fede.Federation.Keys.Secrets.{Secret, opaque}
use kubernetes_identity_fede.Issuer.Jwks.{Library, Try, loaded, run_secret_watcher, load}
use kubernetes_identity_fede.Issuer.Jwks.LastGood.{last_good, run_secret_watcher-last_good}
use kubernetes_identity_fede.Issuer.Jwks.Load.{Loads, load-Loads}

abbrev pub library : Library
library = record {
  Bytes = String;
  KeySet = String;
  from_utf8 = λ bytes. ok bytes;
  from_str = λ t. ok t;
  has_no_keys = λ jwks. jwks == "";
}

-- A good document, one without keys, and an error of the watch.
abbrev events : List (Result (Secret String) String)
events =
    ok (opaque "kif-jwks" (("jwks.json", "key-2") ∷ []))
    ∷ ok (opaque "kif-jwks" (("jwks.json", "") ∷ []))
    ∷ err "watch"
    ∷ []

abbrev pub tries : List (Try String)
tries =
    record { bytes = err "no file"; late = false }
    ∷ record { bytes = ok "key-1"; late = false }
    ∷ []

keeps : run_secret_watcher library (ok tt) events (some "key-1") ≡ (none, some "key-2")
unfolding run_secret_watcher lookup
keeps = refl

loads_second : load library "/jwks" tries none ≡ loaded (some "key-1")
unfolding load
loads_second = refl

run_secret_watcher-last_good_example :
    run_secret_watcher library (ok tt) events (some "key-1")
    ≡ (none, option_or (last_good library events) (some "key-1"))
run_secret_watcher-last_good_example =
    run_secret_watcher-last_good library (ok tt) events (some "key-1")

load-Loads_example : Loads library "/jwks" none tries (load library "/jwks" tries none)
load-Loads_example = load-Loads library "/jwks" none tries
