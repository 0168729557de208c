-- ===== src/Webhook/Main.antt =====
-- app/crates/kif-webhook/src/main.rs: `main`. kube's client, the sockets and the certificates are
-- arguments; which task ends first, and how, is what the world answers.
use kubernetes_identity_fede.Base.{String, ◌<>◌, Option, none, some, Result, ok, err, ◌>>=◌}
use kubernetes_identity_fede.Base.Decimal.{to_string}
use kubernetes_identity_fede.Base.Parse.{Env}
use kubernetes_identity_fede.Base.Select.{Join, joined}
use kubernetes_identity_fede.Webhook.Config.{WebhookConfig, from_env}
use kubernetes_identity_fede.Webhook.Watch as W
use kubernetes_identity_fede.Webhook.Watch.{Watcher}

pub record Host : Type 0 where
  pub to_lowercase : String → String
  -- `Client::try_default`
  pub try_default : Result (Unit {0}) String
  -- `TcpListener::bind`
  pub bind : String → Result (Unit {0}) String
  -- `RustlsConfig::from_pem_file`
  pub from_pem_file : String → String → Result (Unit {0}) String
  -- `str::parse::<SocketAddr>`
  pub parse_address : String → Result (Unit {0}) String

-- What the watcher's task starts from: the flag of the probe, and `Queue::new(2048)`.
unfoldable pub initial : Watcher
unfolding W.start
initial = W.start 2048

-- The part of `main` before the `select!`: the configuration of the tasks, which have been spawned
-- before the ports are bound, and end with the process.
unfoldable pub start : Host → Env → Result WebhookConfig String
unfolding from_env to_string
start host env = do
  cfg ← from_env host.to_lowercase env
  client ← host.try_default
  health_listener ← host.bind ("0.0.0.0:" <> to_string cfg.health_port)
  tls ← host.from_pem_file cfg.tls_cert_path cfg.tls_key_path
  address ← host.parse_address ("0.0.0.0:" <> to_string cfg.https_port)
  ok cfg

-- The tasks of the `select!`: all run, or one has ended first.
pub data Ended : Type 0 where
  running : Ended
  server : Result (Unit {0}) String → Ended
  watcher workers health : Join → Ended

unfoldable pub exit : Ended → Option (Result (Unit {0}) String)
exit running = none
exit (server result) = some result
exit (watcher result) = some (joined result)
exit (workers result) = some (joined result)
exit (health result) = some (joined result)

unfoldable pub main : Host → Env → (WebhookConfig → Ended) → Option (Result (Unit {0}) String)
unfolding start exit
main host env tasks = elim (start host env) [ err e ↦ some (err e) | ok cfg ↦ exit (tasks cfg) ]
