-- ===== src/Agent/Refresh/Tests.antt =====
-- main.rs: a loop whose first round is refused, whose second gets a token, and whose third learns of
-- another configuration; and a round's sleep.
use kubernetes_identity_fede.Base.{
  ℕ, ◌+◌, ◌≤◌, ◌≡◌, refl, inl, true, none, some, List, [], ◌∷◌, ok, arith,
}
use kubernetes_identity_fede.Agent.Config.{AgentConfig}
use kubernetes_identity_fede.Agent.Client.{Http, mint}
use kubernetes_identity_fede.Base.Text.{trim}
use kubernetes_identity_fede.Agent.Files.{atomic_write}
use kubernetes_identity_fede.Agent.Refresh.{
  World, State, initial, round, refresh_loop, compute_sleep_seconds,
}
use kubernetes_identity_fede.Agent.Refresh.Sleep.{compute_sleep_seconds_bounds}
use kubernetes_identity_fede.Agent.Refresh.Ending.{Ends, round-Ends}
use kubernetes_identity_fede.Agent.Refresh.Loop.{IsConsistent, refresh_loop-IsConsistent}

abbrev cfg : AgentConfig
cfg = record {
  port = 5004;
  federation_url = "http://kif-federation:5001";
  service_account_name = "test-sa";
  config_hash = "hash";
  namespace = "default";
  pod_name = none;
  sa_token_path = "/sa/token";
  aws_token_path = "/aws/token";
  refresh_skew_seconds = 300;
  min_refresh_seconds = 30;
  max_jitter_seconds = 60;
}

-- A server that answers with this status.
abbrev http : ℕ → Http
http status = record {
  post = λ url bearer request. ok (record { status = status; body = ok "body" });
  from_json =
      λ body. ok (record { aws = some (record { token = "jwt"; expires_in_seconds = 3600 }) });
  show_status = λ s. "status";
}

abbrev answers : ℕ → World
answers status = record {
  sa_token_file = ok "sa-token\n";
  http = http status;
  outcomes = record { dirs = true; create = true; partial = none; sync = true; rename = true };
  random = 7;
}

abbrev rounds : List World
rounds = answers 503 ∷ answers 200 ∷ answers 409 ∷ []

-- No token has been written yet.
abbrev start : State
start = initial (λ path. none)

loop_stops : (refresh_loop cfg rounds start).1 ≡ some "config hash mismatch"
unfolding refresh_loop compute_sleep_seconds atomic_write trim mint
loop_stops = refl

loop_ready :
    ((refresh_loop cfg rounds start).0.ready ≡ true)
    × ((refresh_loop cfg rounds start).0.files "/aws/token" ≡ some "jwt")
unfolding refresh_loop compute_sleep_seconds atomic_write trim mint
loop_ready = (refl, refl)

sleeps_long : compute_sleep_seconds 3600 300 30 60 7 ≡ 3293
unfolding compute_sleep_seconds
sleeps_long = refl

start-IsConsistent : IsConsistent cfg start
start-IsConsistent = record { agrees = refl; written = inl refl }

round-Ends_example : Ends cfg (answers 200) start (round cfg (answers 200) start)
round-Ends_example = round-Ends cfg (answers 200) start

refresh_loop-IsConsistent_example : IsConsistent cfg (refresh_loop cfg rounds start).0
refresh_loop-IsConsistent_example = refresh_loop-IsConsistent cfg rounds start start-IsConsistent

compute_sleep_seconds_bounds_example :
    (30 ≤ compute_sleep_seconds 3600 300 30 60 7)
    × (compute_sleep_seconds 3600 300 30 60 7 + 300 ≤ 3600)
    × (3600 ≤ compute_sleep_seconds 3600 300 30 60 7 + 300 + 60)
compute_sleep_seconds_bounds_example =
    compute_sleep_seconds_bounds 3600 300 30 60 7 (omega arith) (omega arith)
