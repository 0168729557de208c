-- ===== src/System/Tests/Deployment.antt =====
-- An agent in a pod, as the kubelet starts it, and a round in which the service answers it.
use kubernetes_identity_fede.Base.{
  String, refl, ap, Option, none, some, Result, ok, err, true, if◌then◌else◌, option_map, and_then,
  option_or, or_nil, ◌==◌, string_has_eq,
}
use kubernetes_identity_fede.Base.Parse.{Env}
use kubernetes_identity_fede.System.Launch.{Deployed, IsStarted, agent, told}
use kubernetes_identity_fede.System.Fetch.{Asks}
use kubernetes_identity_fede.Federation.Mint.Tests.{ctx}
use kubernetes_identity_fede.Webhook.Mutate.Pod.{EnvVar}
use kubernetes_identity_fede.Webhook.Mutate.{build_agent_container}
use kubernetes_identity_fede.Webhook.Mutate.Env.{find_env}
use kubernetes_identity_fede.Agent.Refresh.{World, State, initial}
use kubernetes_identity_fede.Api.Shared.{namespace_path}
use kubernetes_identity_fede.Base.Text.{trim}
use kubernetes_identity_fede.System.Tests.Service.{http, http-IsConnected}

abbrev pub deployed : String → Deployed
deployed hash = record {
  agent_image = "kif-agent:latest";
  agent_image_pull_policy = "IfNotPresent";
  agent_port = 5004;
  federation_url = "http://kif-federation:5001";
  service_account_name = "test-sa";
  config_hash = hash;
  pod_name = "pod";
  namespace = "default";
}

-- The kubelet's values for the container's variables.
abbrev pub value_of : EnvVar → Option String
value_of e = elim e.value [ some v ↦ some v | none ↦ option_map (λ f. "pod") e.value_from ]

-- What the kubelet and the image set beside them.
abbrev pub beside : Env
beside name =
    if name == "KUBERNETES_SERVICE_HOST"
    then some "10.96.0.1"
    else if name == "HOSTNAME"
    then some "pod"
    else if name == "PATH"
    then some "/usr/bin"
    else none

abbrev pub env : String → Env
env hash name =
    option_or (and_then (find_env name (or_nil (agent (deployed hash)).env)) value_of) (beside name)

abbrev pub files : String → Result String String
files path = if path == namespace_path then ok "default" else err "no such file"

pub started : (hash : String) → IsStarted (deployed hash) (env hash) files
unfolding build_agent_container
started hash = record {
  values = λ name value h. ap (λ o. option_or (and_then o value_of) (beside name)) h;
  fields = λ name h. ap (λ o. option_or (and_then o value_of) (beside name)) h;
  unset = (refl, (refl, (refl, (refl, (refl, tt)))));
  projected = refl;
}

-- A round that reads its token, reaches the service, and can write.
abbrev pub world : World
world = record {
  sa_token_file = ok "test-sa";
  http = http ctx "http://kif-federation:5001";
  outcomes = record { dirs = true; create = true; partial = none; sync = true; rename = true };
  random = 7;
}

pub asks : (hash : String) → Asks (told (deployed hash)) world ctx "test-sa"
unfolding trim
asks hash = record {
  wire = http-IsConnected ctx "http://kif-federation:5001";
  read = refl;
  present = refl;
}

abbrev pub jwt : String
jwt = "system:serviceaccount:default:test-sa"

abbrev pub start : State
start = initial (λ path. none)
