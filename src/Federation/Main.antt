-- ===== src/Federation/Main.antt =====
-- app/crates/kif-federation/src/main.rs: `main`. The port is an argument, and so is the end of the
-- server.
use kubernetes_identity_fede.Base.{String, ◌<>◌, Result}
use kubernetes_identity_fede.Base.Calls.{Calls, ◌>>=◌, ◌>>◌, lift}
use kubernetes_identity_fede.Base.Decimal.{to_string}
use kubernetes_identity_fede.Base.Parse.{Env}
use kubernetes_identity_fede.Federation.Config.{Startup, AppState, from_env}

unfoldable pub main :
    (startup : Startup)
    → Env
    → (String → Result (Unit {0}) String)
    → (AppState startup.IssuerUrl → Result (Unit {0}) String)
    → Calls startup.server.State (Unit {0})
unfolding from_env to_string
main startup env bind serve = do
  state ← from_env startup env
  lift (bind ("0.0.0.0:" <> to_string state.port))
  lift (serve state)
