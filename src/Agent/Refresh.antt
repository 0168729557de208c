-- ===== src/Agent/Refresh.antt =====
-- app/crates/kif-agent/src/main.rs: `refresh_loop` and the time until the next refresh. The world
-- answers each round of the loop: what the ServiceAccount's token file holds, how the exchange goes,
-- the outcomes of the calls of `atomic_write`, and the random jitter. The loop runs over the rounds that have been answered.
pub mod Sleep
pub mod Ending
pub mod Loop
mod Tests
use kubernetes_identity_fede.Base.{
  ℕ, ◌-◌, ◌≤◌, String, ◌<>◌, ◌≡◌, Bool, true, false, ◌||◌, Option, none, some, List, [], ◌∷◌,
  Result, ok, err, if◌then◌else◌, nat_eq, leb,
}
use kubernetes_identity_fede.Base.Text.{trim, is_empty}
use kubernetes_identity_fede.Agent.Config.{AgentConfig}
use kubernetes_identity_fede.Agent.Files.{Files, Outcomes, Run, latest, atomic_write}
use kubernetes_identity_fede.Agent.Client.{
  Http, MintError, config_hash_mismatch, other, MintRequest, MintResponse, MintedToken, mint,
}

abbrev max : ℕ → ℕ → ℕ
max a b = if leb a b then b else a

-- `rng.random_range(0..=max)` is the second argument.
unfoldable pub compute_jitter : ℕ → ℕ → ℕ
compute_jitter max_jitter random = if nat_eq max_jitter 0 then 0 else random

-- `saturating_sub` is the subtraction of ℕ.
unfoldable pub compute_sleep_seconds : ℕ → ℕ → ℕ → ℕ → ℕ → ℕ
unfolding compute_jitter
compute_sleep_seconds expires_in skew min_sleep max_jitter random =
    max (expires_in - skew - compute_jitter max_jitter random) min_sleep

-- What the world answers in one round.
pub record World : Type 1 where
  pub sa_token_file : Result String String
  pub http : Http
  pub outcomes : Outcomes
  pub random : ℕ

-- The local of the loop, the shared flag, and the files.
pub record State : Type 0 where
  pub first_success : Bool
  pub ready : Bool
  pub files : Files

abbrev pub initial : Files → State
initial files = record { first_success = false; ready = false; files = files }

-- A round ends in a sleep, or in the loop's `return Err`.
pub data Round : Type 0 where
  sleeps : State → ℕ → Round
  stops : State → String → Round

module _ (cfg : AgentConfig) where
  abbrev pub request : MintRequest
  request = record {
    namespace = cfg.namespace;
    service_account_name = cfg.service_account_name;
    config_hash = cfg.config_hash;
    pod_name = cfg.pod_name;
  }

  abbrev pub retry : State → Round
  retry s = sleeps s cfg.min_refresh_seconds

  abbrev pub write_of : World → MintedToken → State → Run
  write_of w aws s = atomic_write cfg.aws_token_path aws.token w.outcomes s.files

  abbrev pub stored : World → MintedToken → State → State
  stored w aws s = record {
    first_success = true;
    ready = if s.first_success then s.ready else true;
    files = latest (write_of w aws s) s.files;
  }

  -- A token was minted.
  unfoldable pub store_token : World → MintedToken → State → Round
  unfolding compute_sleep_seconds atomic_write
  store_token w aws s = elim (write_of w aws s).1 [
    | err e ↦
        stops (record s { files = latest (write_of w aws s) s.files })
          ("failed writing AWS token to " <> cfg.aws_token_path)
    | ok _ ↦ sleeps (stored w aws s) (
        compute_sleep_seconds aws.expires_in_seconds cfg.refresh_skew_seconds
          cfg.min_refresh_seconds cfg.max_jitter_seconds w.random)
  ]

  unfoldable pub handle_mint : World → Result MintResponse MintError → State → Round
  unfolding store_token
  handle_mint w (ok resp) s = elim resp.aws [ some aws ↦ store_token w aws s | none ↦ retry s ]
  handle_mint w (err config_hash_mismatch) s = stops s "config hash mismatch"
  handle_mint w (err (other e)) s = retry s

  unfoldable pub exchange : World → String → State → Round
  unfolding handle_mint
  exchange w sa_token s =
      if is_empty sa_token
      then retry s
      else handle_mint w (mint w.http cfg.federation_url sa_token request) s

  unfoldable pub round : World → State → Round
  unfolding exchange
  round w s = elim w.sa_token_file [ err e ↦ retry s | ok text ↦ exchange w (trim text) s ]

  -- The loop over the answered rounds: the state that it is in, and the error if it has returned.
  unfoldable pub refresh_loop : List World → State → State × Option String
  unfolding round
  refresh_loop [] s = (s, none)
  refresh_loop (w ∷ ws) s = elim (round w s) [
    | sleeps s' seconds ↦ refresh_loop ws s'
    | stops s' e ↦ (s', some e)
  ]
