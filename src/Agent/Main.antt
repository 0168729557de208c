-- ===== src/Agent/Main.antt =====
-- app/crates/kif-agent/src/main.rs: `main`. The HTTP client's builder and the port are arguments.
use kubernetes_identity_fede.Base.{
  String, ◌<>◌, Option, none, some, Result, ok, err, ◌>>=◌, map_err,
}
use kubernetes_identity_fede.Base.Decimal.{to_string}
use kubernetes_identity_fede.Base.Parse.{Env}
use kubernetes_identity_fede.Base.Select.{Select, pending, first, second, Join, joined}
use kubernetes_identity_fede.Agent.Config.{AgentConfig, from_env}

module _ (read_to_string : String → Result String String) (env : Env)
    (build : Result (Unit {0}) String) (bind : String → Result (Unit {0}) String) where
  -- The part before the `select!`; the loop has been spawned before the port is bound, and ends with
  -- the process.
  unfoldable pub start : Result AgentConfig String
  unfolding from_env to_string
  start = do
    cfg ← from_env read_to_string env
    client ← map_err (λ e. "build reqwest client") build
    listener ← bind ("0.0.0.0:" <> to_string cfg.port)
    ok cfg

-- The `select!` over the server and the loop; `none` while the process runs.
unfoldable pub exit : Select (Result (Unit {0}) String) Join → Option (Result (Unit {0}) String)
exit pending = none
exit (first server) = some server
exit (second refresh) = some (joined refresh)

unfoldable pub main :
    (String → Result String String)
    → Env
    → Result (Unit {0}) String
    → (String → Result (Unit {0}) String)
    → (AgentConfig → Select (Result (Unit {0}) String) Join)
    → Option (Result (Unit {0}) String)
unfolding start exit
main read_to_string env build bind tasks = elim (start read_to_string env build bind) [
  | err e ↦ some (err e)
  | ok cfg ↦ exit (tasks cfg)
]
