-- ===== src/Issuer/Main/Tests.antt =====
-- main.rs: an issuer whose file is not there in time, and one that goes on with its server.
use kubernetes_identity_fede.Base.{
  String, ◌≡◌, refl, ◌↔◌, none, some, List, [], ◌∷◌, Result, ok, err, true, false, if◌then◌else◌,
  ◌==◌, string_has_eq,
}
use kubernetes_identity_fede.Base.Parse.{Env}
use kubernetes_identity_fede.Issuer.Config.{IssuerConfig}
use kubernetes_identity_fede.Issuer.Jwks.{Try, load_jwks_and_watch}
use kubernetes_identity_fede.Issuer.Jwks.Tests.{library, tries}
use kubernetes_identity_fede.Issuer.Main.{start, main}
use kubernetes_identity_fede.Issuer.Main.Exit.{beside_server, returned, Fails, main-Fails_iff}

abbrev env : Env
env name =
    if name == "ISSUER_URL"
    then some "https://issuer"
    else if name == "JWKS_FILE_PATH"
    then some "/jwks"
    else none

abbrev cfg : IssuerConfig String
cfg = record {
  issuer_url = "https://issuer";
  running_in_cluster = false;
  port = 5002;
  jwks_secret_name = "kif-jwks";
  jwks_file_path = "/jwks";
}

abbrev files : String → Result String String
files path = err "no such file"

abbrev bind : String → Result (Unit {0}) String
bind address = if address == "0.0.0.0:5002" then ok tt else err "in use"

started : start (λ t. ok t) env bind ≡ ok cfg
unfolding start
started = refl

abbrev too_late : List (Try String)
too_late = record { bytes = err "no file"; late = true } ∷ []

fails :
    main
      (λ t. ok t)
      env
      bind
      (λ (c : IssuerConfig String). beside_server (returned library files too_late (ok tt) [] c))
    ≡ some (err "failed to read JWKS_FILE_PATH=/jwks: no file")
unfolding main load_jwks_and_watch
fails = refl

-- The loader is done, and the process runs.
goes_on :
    main
      (λ t. ok t)
      env
      bind
      (λ (c : IssuerConfig String). beside_server (returned library files tries (ok tt) [] c))
    ≡ none
unfolding main load_jwks_and_watch
goes_on = refl

main-Fails_iff_example :
    (main
        (λ t. ok t)
        env
        bind
        (λ (c : IssuerConfig String). beside_server (returned library files too_late (ok tt) [] c))
      ≡ some (err "failed to read JWKS_FILE_PATH=/jwks: no file"))
    ↔ ((e : String) × (◌≡◌ {A = Result (Unit {0}) String}
          (err "failed to read JWKS_FILE_PATH=/jwks: no file")
          (err e))
        × Fails library files too_late (ok tt) [] cfg e)
main-Fails_iff_example =
    main-Fails_iff library files too_late (ok tt) [] (λ t. ok t) env bind cfg started
      (err "failed to read JWKS_FILE_PATH=/jwks: no file")
