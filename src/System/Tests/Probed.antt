-- ===== src/System/Tests/Probed.antt =====
-- http.rs and main.rs: the probe of an agent that has had one round.
use kubernetes_identity_fede.Base.{String, ◌≡◌, refl, some, none, [], ◌∷◌, List, Any}
use kubernetes_identity_fede.Base.Routes.{get, calls}
use kubernetes_identity_fede.Base.Routes.Tests.{take, axum}
use kubernetes_identity_fede.Base.Text.{trim}
use kubernetes_identity_fede.Api.Bindings.{AwsProviderSpec}
use kubernetes_identity_fede.Federation.Mint.{StatusCode, status_ok}
use kubernetes_identity_fede.Federation.Mint as F
use kubernetes_identity_fede.Federation.Mint.Tests.{ctx}
use kubernetes_identity_fede.Federation.Router as R
use kubernetes_identity_fede.Webhook.Mutate.{build_agent_container, inject_env}
use kubernetes_identity_fede.Webhook.Mutate.Pod.{EnvVar, HttpGetAction}
use kubernetes_identity_fede.Agent.Client as A
use kubernetes_identity_fede.Agent.Router.{router}
use kubernetes_identity_fede.Agent.Refresh.{State, initial, refresh_loop}
use kubernetes_identity_fede.System.Launch.{told}
use kubernetes_identity_fede.System.Fetch.{Reads}
use kubernetes_identity_fede.System.Probe.{probed, IsGranted, probe-IsGranted}
use kubernetes_identity_fede.System.Tests.Service.{print_token, parse_token, http-IsConnected}
use kubernetes_identity_fede.System.Tests.Deployment.{deployed, world}

abbrev after : State
after = (refresh_loop (told (deployed "hash")) (world ∷ []) (initial (λ path. none))).0

abbrev action : HttpGetAction
action = record { path = some "/startupz"; port = 5004 }

built : probed (deployed "hash") ≡ some action
unfolding build_agent_container
built = refl

succeeds : take (router after.ready) get "/startupz" ≡ calls status_ok
unfolding refresh_loop A.mint F.mint trim parse_token print_token R.router router
succeeds = refl

probe-IsGranted_example :
    (action.port ≡ (told (deployed "hash")).port)
    × (token : String) × ((aws : AwsProviderSpec) (vars : List EnvVar)
        → Reads (inject_env aws vars) after.files token)
    × Any (IsGranted (deployed "hash") token) (world ∷ [])
probe-IsGranted_example =
    probe-IsGranted (deployed "hash") (axum StatusCode) (world ∷ []) (λ path. none)
      ((ctx, http-IsConnected ctx "http://kif-federation:5001"), tt) action "/startupz" built refl
      succeeds
