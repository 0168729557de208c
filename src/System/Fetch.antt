-- ===== src/System/Fetch.antt =====
-- app/crates/kif-agent/src/main.rs with its two neighbours: the agent that the webhook puts into a
-- pod, in a round in which the federation service grants its request, and where its loop ends.
use kubernetes_identity_fede.Base.{
  ℕ, ◌<◌, String, ◌<>◌, ◌≡◌, refl, Option, none, some, List, Result, ok, true, false, inl, inr,
}
use kubernetes_identity_fede.Base.Parse.{Env, u16_mod}
use kubernetes_identity_fede.Base.Text.{trim, is_empty}
use kubernetes_identity_fede.Api.Bindings.{AwsProviderSpec}
use kubernetes_identity_fede.Webhook.Mutate.Pod.{EnvVar}
use kubernetes_identity_fede.Webhook.Mutate.{env_value, inject_env}
use kubernetes_identity_fede.Webhook.Mutate.Env.{find_env, token_file-inject_env}
use kubernetes_identity_fede.Federation.Mint.{MintContext, token_ttl}
use kubernetes_identity_fede.Federation.Mint as F
use kubernetes_identity_fede.Federation.Mint.Grant.{Grant}
use kubernetes_identity_fede.Agent.Config.{AgentConfig, from_env}
use kubernetes_identity_fede.Agent.Client.{MintedToken}
use kubernetes_identity_fede.Agent.Files.{Files, Outcomes, atomic_write, latest}
use kubernetes_identity_fede.Agent.Files.Atomic.{latest-atomic_write}
use kubernetes_identity_fede.Agent.Refresh.{
  World, State, sleeps, request, stored, store_token, handle_mint, exchange, round,
  compute_sleep_seconds,
}
use kubernetes_identity_fede.System.Wire.{IsConnected, received, called-Grant_iff}
use kubernetes_identity_fede.System.Launch.{Deployed, IsStarted, told, from_env-agent}

-- No call of `atomic_write` fails.
pub record Writable (o : Outcomes) : Type 0 where
  pub dirs : o.dirs ≡ true
  pub create : o.create ≡ true
  pub partial : o.partial ≡ none
  pub sync : o.sync ≡ true
  pub rename : o.rename ≡ true

atomic_write-ok :
    (path contents : String) (o : Outcomes) (files : Files)
    → Writable o
    → (atomic_write path contents o files).1 ≡ ok tt
unfolding atomic_write
atomic_write-ok path contents o files w =
    rw (w.dirs, w.create, w.partial) (rw (w.sync, w.rename) refl)

pub latest-ok :
    (path contents : String) (o : Outcomes) (files : Files)
    → Writable o
    → latest (atomic_write path contents o files) files path ≡ some contents
latest-ok path contents o files w = elim (latest-atomic_write path contents files o) [
  | inl (done, new) ↦ new
  | inr (e, failed, same) ↦ absurd (cc (failed, atomic_write-ok path contents o files w))
]

-- The round finds a ServiceAccount token, and the service that it is connected to.
pub record Asks (cfg : AgentConfig) (w : World) (ctx : MintContext) (text : String) : Type 0 where
  pub wire : IsConnected w.http ctx cfg.federation_url
  pub read : w.sa_token_file ≡ ok text
  pub present : is_empty (trim text) ≡ false

-- The header that the request of such a round arrives with.
abbrev pub bearer_of : String → Option String
bearer_of text = some ("Bearer " <> trim text)

module _ (cfg : AgentConfig) (w : World) (s : State) where
  abbrev pub slept : MintedToken → ℕ
  slept aws =
      compute_sleep_seconds aws.expires_in_seconds cfg.refresh_skew_seconds cfg.min_refresh_seconds
        cfg.max_jitter_seconds w.random

  store_token-ok :
      (aws : MintedToken)
      → Writable w.outcomes
      → store_token cfg w aws s ≡ sleeps (stored cfg w aws s) (slept aws)
  unfolding store_token
  store_token-ok aws o =
      rw (atomic_write-ok cfg.aws_token_path aws.token w.outcomes s.files o, store_token) refl

  -- A round that is granted a token and can write it stores it.
  pub round-granted :
      (ctx : MintContext) (text token : String)
      → Asks cfg w ctx text
      → (g : Grant ctx (received (request cfg)) (bearer_of text) token) → Writable w.outcomes
      → let aws : MintedToken = record { token = token; expires_in_seconds = token_ttl g.aws } in
        round cfg w s ≡ sleeps (stored cfg w aws s) (slept aws)
  unfolding round exchange handle_mint
  round-granted ctx text token a g o =
      let aws : MintedToken = record { token = token; expires_in_seconds = token_ttl g.aws } in
      let got =
        (called-Grant_iff a.wire (trim text) (request cfg) token (token_ttl g.aws)).1 (g, refl) in
      rw (a.read, round) (rw a.present (rw got (store_token-ok aws o)))

-- The request of the agent in a pod, as the service receives it.
abbrev pub own_request : Deployed → F.MintRequest
own_request d = record {
  namespace = trim d.namespace;
  service_account_name = d.service_account_name;
  config_hash = d.config_hash;
  pod_name = some d.pod_name;
}

-- The environment points to the file, and the file holds the token.
pub record Reads (env : List EnvVar) (files : Files) (token : String) : Type 0 where
  pub path : String
  pub pointed :
      find_env "AWS_WEB_IDENTITY_TOKEN_FILE" env
      ≡ some (env_value "AWS_WEB_IDENTITY_TOKEN_FILE" path)
  pub held : files path ≡ some token

module _ (d : Deployed) {env : Env} {read_to_string : String → Result String String} where
  -- An agent that is started in the container that the webhook builds, with a port below 2^16 and
  -- in a namespace that is not blank, stores a token in any round in which it has a ServiceAccount
  -- token, a connected service grants the pod's own request and the file can be written, and
  -- stores it in the file that the webhook points the pod's containers to.
  agent_fetches :
      {ctx : MintContext} {w : World} {text token : String}
      → d.agent_port < u16_mod
      → is_empty (trim d.namespace) ≡ false
      → IsStarted d env read_to_string
      → Asks (told d) w ctx text
      → Grant ctx (own_request d) (bearer_of text) token
      → Writable w.outcomes
      → (aws : AwsProviderSpec) (vars : List EnvVar) (s : State)
      → (cfg : AgentConfig) × (from_env read_to_string env ≡ ok cfg)
        × (s' : State) × (seconds : ℕ) × (round cfg w s ≡ sleeps s' seconds)
        × (s'.first_success ≡ true)
        × Reads (inject_env aws vars) s'.files token
  agent_fetches {ctx} {w} {text} {token} bound named started a g o aws vars s =
      let t : MintedToken = record { token = token; expires_in_seconds = token_ttl g.aws } in
      (
        told d,
        from_env-agent d bound named started,
        stored (told d) w t s,
        slept (told d) w s t,
        round-granted (told d) w s ctx text token a g o,
        refl,
        record {
          path = "/var/run/kif/aws/token";
          pointed = token_file-inject_env aws vars;
          held = latest-ok "/var/run/kif/aws/token" token w.outcomes s.files o;
        },
      )
