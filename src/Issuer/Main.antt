-- ===== src/Issuer/Main.antt =====
-- app/crates/kif-issuer/src/main.rs: `main`. Binding the port is an argument; which task ends first, and
-- how the server ends, is what the world answers.
pub mod Exit
mod Tests
use kubernetes_identity_fede.Base.{
  String, ◌<>◌, Option, none, some, Result, ok, err, ◌>>=◌, option_map,
}
use kubernetes_identity_fede.Base.Decimal.{to_string}
use kubernetes_identity_fede.Base.Parse.{Env}
use kubernetes_identity_fede.Base.Select.{Select, pending, first, second, Join, joined}
use kubernetes_identity_fede.Issuer.Config.{IssuerConfig, from_env}

module _ {IssuerUrl : Type 0} (issuer_url : String → Result IssuerUrl String) (env : Env)
    (bind : String → Result (Unit {0}) String) where
  -- The part before the tasks: the configuration that they get.
  unfoldable pub start : Result (IssuerConfig IssuerUrl) String
  unfolding from_env to_string
  start = do
    cfg ← from_env issuer_url env
    listener ← bind ("0.0.0.0:" <> to_string cfg.port)
    ok cfg

-- A loader that has succeeded leaves the process to the server.
abbrev after_loader : Result (Unit {0}) String → Option Join → Option (Result (Unit {0}) String)
after_loader (err e) served = some (err e)
after_loader (ok _) served = option_map joined served

-- The `select!` over the server and the loader, with the later end of the server; `none` while the
-- process runs.
unfoldable pub exit : Select Join Join → Option Join → Option (Result (Unit {0}) String)
exit pending served = none
exit (first server) served = some (joined server)
exit (second loader) served = after_loader (joined loader) served

-- `main`, with what its tasks do for the configuration.
unfoldable pub main :
    {IssuerUrl : Type 0}
    → (String → Result IssuerUrl String)
    → Env
    → (String → Result (Unit {0}) String)
    → (IssuerConfig IssuerUrl → Select Join Join × Option Join)
    → Option (Result (Unit {0}) String)
unfolding start exit
main issuer_url env bind tasks = elim (start issuer_url env bind) [
  | err e ↦ some (err e)
  | ok cfg ↦ exit (tasks cfg).0 (tasks cfg).1
]
