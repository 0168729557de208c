-- ===== src/System/Tests.antt =====
-- A pod, an agent that is started in it, and a service that answers it; and the theorems on them.
mod Service
mod Resolved
mod Published
mod Deployment
mod Probed
mod Issued
mod Arrived
mod Rotated
use Prim.Native.Char.{Char, code}
use kubernetes_identity_fede.Base.{
  ℕ, zero, suc, String, ◌<>◌, ◌≡◌, refl, sym, ap, ◌∙◌, ◌↔◌, Option, none, some, List, [], ◌∷◌,
  Result, ok, err, true, false, arith, if◌then◌else◌, nat_eq, ◌+◌, Any, option_map, and_then,
  or_nil, ◌==◌, string_has_eq,
}
use kubernetes_identity_fede.Base.Parse.{Env}
use kubernetes_identity_fede.Agent.Client as A
use kubernetes_identity_fede.Agent.Client.{Http, config_hash_mismatch}
use kubernetes_identity_fede.Federation.Mint as F
use kubernetes_identity_fede.Federation.Router.{router}
use kubernetes_identity_fede.Federation.Mint.{
  MintContext, StatusCode, status_ok, bad_request, unauthorized, forbidden, not_found,
  status_conflict, internal_server_error, not_implemented, service_unavailable, Body, text, json,
  Response, token_ttl,
}
use kubernetes_identity_fede.Federation.Mint.Grant.{Grant, granted}
use kubernetes_identity_fede.System.Wire.{
  IsConnected, received, taken, called-Grant_iff, called-OutdatedCall_iff,
}
use kubernetes_identity_fede.System.Launch.{Deployed, IsStarted, agent, told, from_env-agent}
use kubernetes_identity_fede.System.Fetch.{Asks, Reads, own_request, bearer_of}
use kubernetes_identity_fede.Agent.Main.{main}
use kubernetes_identity_fede.System.Exit.{beside_server, agent_exits}
use kubernetes_identity_fede.System.Stop.{Ended}
use kubernetes_identity_fede.Federation.Mint.Tests.{ctx}
use kubernetes_identity_fede.Federation.Mint.Refusal.{mint-Grant_iff}
use kubernetes_identity_fede.Federation.Mint.Conflict.{OutdatedCall}
use kubernetes_identity_fede.Webhook.Merge.Tests.{test_aws}
use kubernetes_identity_fede.Webhook.Mutate.{inject_env}
use kubernetes_identity_fede.Webhook.Mutate.Pod.{EnvVar}
use kubernetes_identity_fede.Webhook.Mutate.Env.{find_env}
use kubernetes_identity_fede.Agent.Config.{AgentConfig, from_env}
use kubernetes_identity_fede.Agent.Refresh.{World, State, initial, sleeps, round, refresh_loop}
use kubernetes_identity_fede.Api.Shared.{namespace_path}
use kubernetes_identity_fede.Base.Text.{trim}
use kubernetes_identity_fede.Base.Decimal.{to_string}
use Deployment.{deployed, env, files, started, world, asks, jwt, start}
use Service.{print_token, parse_token, http, http-IsConnected}
use kubernetes_identity_fede.Webhook.Admission.Tests as W
use kubernetes_identity_fede.Webhook.Admission.Tests.{platform, cfg, pod, answer}
use kubernetes_identity_fede.Webhook.Admission.{inject}
use kubernetes_identity_fede.Webhook.Mutate.{build_agent_container}
use kubernetes_identity_fede.Webhook.Mutate.Pod.{Pod as KubePod}
use kubernetes_identity_fede.Webhook.Mutate.Tests.{plain_spec}
use kubernetes_identity_fede.Api.Status.{is_true}

grants :
    F.mint ctx (own_request (deployed "hash")) (bearer_of "test-sa")
    ≡ granted ctx (own_request (deployed "hash")) (bearer_of "test-sa") jwt 900
unfolding F.mint trim
grants = refl

from_env-agent_example : from_env files (env "hash") ≡ ok (told (deployed "hash"))
unfolding trim
from_env-agent_example = from_env-agent (deployed "hash") (omega arith) refl (started "hash")

called-Grant_iff_example :
    (A.mint (http ctx "url") "url" "test-sa" (record {
      namespace = "default";
      service_account_name = "test-sa";
      config_hash = "hash";
      pod_name = none;
    })
      ≡ ok (record { aws = some (record { token = jwt; expires_in_seconds = 900 }) }))
    ↔ ((g : Grant ctx
          (record {
            namespace = "default";
            service_account_name = "test-sa";
            config_hash = "hash";
            pod_name = none;
          })
          (some ("Bearer " <> "test-sa"))
          jwt)
        × (token_ttl g.aws ≡ 900))
called-Grant_iff_example =
    called-Grant_iff (http-IsConnected ctx "url") "test-sa"
      (record {
        namespace = "default";
        service_account_name = "test-sa";
        config_hash = "hash";
        pod_name = none;
      })
      jwt 900

called-OutdatedCall_iff_example :
    (A.mint (http ctx "url") "url" "test-sa" (record {
      namespace = "default";
      service_account_name = "test-sa";
      config_hash = "old";
      pod_name = none;
    })
      ≡ err config_hash_mismatch)
    ↔ OutdatedCall ctx
        (record {
          namespace = "default";
          service_account_name = "test-sa";
          config_hash = "old";
          pod_name = none;
        })
        (some ("Bearer " <> "test-sa"))
called-OutdatedCall_iff_example =
    called-OutdatedCall_iff (http-IsConnected ctx "url") "test-sa" (record {
      namespace = "default";
      service_account_name = "test-sa";
      config_hash = "old";
      pod_name = none;
    })

abbrev bind : String → Result (Unit {0}) String
bind address = if address == "0.0.0.0:5004" then ok tt else err "in use"

exits_old :
    main files
      (env "old")
      (ok tt)
      bind
      (λ cfg. beside_server (refresh_loop cfg (world ∷ []) start).1)
    ≡ some (err "config hash mismatch")
unfolding main refresh_loop A.mint F.mint trim parse_token print_token router build_agent_container
exits_old = refl

agent_exits_example :
    (e : String) × (◌≡◌ {A = Result (Unit {0}) String} (err "config hash mismatch") (err e))
    × Any (λ w. Ended (deployed "old") w e) (world ∷ [])
unfolding trim to_string
agent_exits_example =
    agent_exits (deployed "old") (ok tt) bind (omega arith) refl (started "old") refl refl
      (world ∷ []) (λ path. none) ((ctx, http-IsConnected ctx "http://kif-federation:5001"), tt)
      (err "config hash mismatch") exits_old
