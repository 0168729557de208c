-- ===== src/System/Journey.antt =====
-- The way of a pod through the programs: the webhook has patched it, the kubelet starts the agent in
-- it, and the federation service answers the agent.
use kubernetes_identity_fede.Base.{
  ℕ, String, ◌≡◌, some, List, ◌∷◌, Result, ok, false, or_nil, All, All-imp,
}
use kubernetes_identity_fede.Base.Parse.{Env}
use kubernetes_identity_fede.Base.Text.{trim, is_empty}
use kubernetes_identity_fede.Webhook.Config as W
use kubernetes_identity_fede.Webhook.Config.{WebhookConfig}
use kubernetes_identity_fede.Webhook.Config.Bounds.{from_env-IsBounded}
use kubernetes_identity_fede.Webhook.Mutate.Pod.{Container, PodSpec}
use kubernetes_identity_fede.Webhook.Mutate.Env.{HasVars-token_file}
use kubernetes_identity_fede.Webhook.Mutate.Inject.{IsInjected}
use kubernetes_identity_fede.Webhook.Admission.{Platform}
use kubernetes_identity_fede.Webhook.Admission.Applied.{Applied}
use kubernetes_identity_fede.Webhook.Admission.Patching.{Patching, patched_pod}
use kubernetes_identity_fede.Federation.Claims.{AwsClaims}
use kubernetes_identity_fede.Federation.Subject.{token_review, parse_service_account_username}
use kubernetes_identity_fede.Federation.Subject.Laws.{strip_prefix-append}
use kubernetes_identity_fede.Federation.Mint.{MintContext, claims_for, token_ttl}
use kubernetes_identity_fede.Federation.Mint.Grant.{Grant}
use kubernetes_identity_fede.Agent.Config.{from_env}
use kubernetes_identity_fede.Agent.Client.{MintedToken}
use kubernetes_identity_fede.Agent.Refresh.{World, State, sleeps, round, stored}
use kubernetes_identity_fede.System.Launch.{Deployed, IsStarted, agent, told, from_env-agent}
use kubernetes_identity_fede.System.Fetch.{
  Writable, Asks, Reads, bearer_of, own_request, slept, round-granted, latest-ok,
}

module _ (platform : Platform) (cfg : WebhookConfig) (patching : Patching platform)
    {review : platform.Review} {patch : platform.Patch}
    (a : Applied platform cfg patching review patch) (pod_name namespace : String) where
  -- The agent of the patched pod, with what the cluster knows of the pod.
  abbrev pub admitted : Deployed
  admitted = record {
    agent_image = cfg.agent_image;
    agent_image_pull_policy = cfg.agent_image_pull_policy;
    agent_port = cfg.agent_port;
    federation_url = cfg.federation_url;
    service_account_name = a.bound.sa_name;
    config_hash = a.hash;
    pod_name = pod_name;
    namespace = namespace;
  }

  -- The service authenticates the pod's token as that of its ServiceAccount, has the binding still that
  -- the webhook has used, and can sign.
  pub record Knows (ctx : MintContext) (text : String) : Type 0 where
    pub username : String
    pub authentic : token_review ctx.review (trim text) ≡ ok username
    pub own : parse_service_account_username username ≡ some (trim namespace, a.bound.sa_name)
    pub current : ctx.get_resolved (trim namespace) a.bound.sa_name ≡ ok a.resolved
    pub signs : (claims : AwsClaims) → (token : String) × (ctx.sign claims ≡ ok token)

  Knows-Grant :
      (ctx : MintContext) (text : String)
      → Knows ctx text
      → (token : String) × Grant ctx (own_request admitted) (bearer_of text) token
  Knows-Grant ctx text k =
      let (token, signed) =
        k.signs (claims_for ctx (own_request admitted) k.username a.aws a.resolved) in
      (
        token,
        record {
          bearer = trim text;
          username = k.username;
          resolved = a.resolved;
          status = a.status;
          aws = a.aws;
          carried = strip_prefix-append "Bearer " (trim text);
          authentic = k.authentic;
          own = k.own;
          found = k.current;
          configured = a.configured;
          recorded = a.recorded;
          current = a.hashed;
          signed = signed;
        },
      )

  -- The patched pod has the agent before its other containers, the agent stores a token in the round,
  -- and every main container is pointed to it.
  pub record Arrives (env : Env) (read_to_string : String → Result String String)
      (ctx : MintContext) (text : String) (w : World) (s : State) : Type 0 where
    pub spec' : PodSpec
    pub inits : List Container
    pub applied :
        patched_pod platform cfg patching patch a.bound.pod
        ≡ some (record a.bound.pod { spec = some spec' })
    pub agent_first : spec'.init_containers ≡ some (agent admitted ∷ inits)
    pub told_so : from_env read_to_string env ≡ ok (told admitted)
    pub token : String
    pub granted : Grant ctx (own_request admitted) (bearer_of text) token
    pub s' : State
    pub seconds : ℕ
    pub stores : round (told admitted) w s ≡ sleeps s' seconds
    pub reads : All (λ c. Reads (or_nil c.env) s'.files token) spec'.containers

  -- A pod that the webhook's patch has been applied to has the agent before its other init
  -- containers; if the kubelet starts it in a namespace that is not blank, it reads the webhook's
  -- settings, and in any round in which it has a ServiceAccount token and can write its file, and
  -- a connected service that can sign authenticates the token as the pod's ServiceAccount and has
  -- the binding still that the webhook has used, it is granted a token and stores it in the file
  -- that every main container is pointed to.
  pub pod-Arrives :
      (to_lowercase : String → String) (webhook_env : Env) {env : Env}
      {read_to_string : String → Result String String} {ctx : MintContext} {w : World}
      {text : String}
      → W.from_env to_lowercase webhook_env ≡ ok cfg
      → is_empty (trim namespace) ≡ false
      → IsStarted admitted env read_to_string
      → Asks (told admitted) w ctx text
      → Knows ctx text
      → Writable w.outcomes
      → (s : State) → Arrives env read_to_string ctx text w s
  pod-Arrives to_lowercase webhook_env {env} {read_to_string} {ctx} {w} {text} configured named
        started asks knows writable s =
      let bounds = from_env-IsBounded to_lowercase webhook_env configured in
      let (token, g) = Knows-Grant ctx text knows in
      let t : MintedToken = record { token = token; expires_in_seconds = token_ttl g.aws } in
      record {
        spec' = a.spec';
        inits = a.mutated.inits;
        applied = a.applied;
        agent_first = a.mutated.agent_first;
        told_so = from_env-agent admitted bounds.agent_port named started;
        token = token;
        granted = g;
        s' = stored (told admitted) w t s;
        seconds = slept (told admitted) w s t;
        stores = round-granted (told admitted) w s ctx text token asks g writable;
        reads =
            All-imp (IsInjected a.aws)
              (λ c. Reads (or_nil c.env) (stored (told admitted) w t s).files token)
              (λ c injected. record {
                path = "/var/run/kif/aws/token";
                pointed = HasVars-token_file a.aws (or_nil c.env) injected.vars;
                held = latest-ok "/var/run/kif/aws/token" token w.outcomes s.files writable;
              })
              a.spec'.containers a.mutated.all_injected;
      }
