-- ===== src/Webhook/Router.antt =====
-- app/crates/kif-webhook/src/http.rs: the two routers.
use kubernetes_identity_fede.Base.{Bool, List, [], ◌∷◌}
use kubernetes_identity_fede.Base.Routes.{Route, get, post, route}
use kubernetes_identity_fede.Federation.Mint.{StatusCode}
use kubernetes_identity_fede.Webhook.Config.{WebhookConfig}
use kubernetes_identity_fede.Webhook.Admission.{Platform}
use kubernetes_identity_fede.Webhook.Http.{Reply, livez, startupz, mutate}

unfoldable pub health_router : Bool → List (Route StatusCode)
unfolding livez startupz
health_router ready = route get "/livez" livez ∷ route get "/startupz" (startupz ready) ∷ []

unfoldable pub admission_router :
    (platform : Platform) → WebhookConfig → List (Route (platform.Review → Reply platform.Patch))
unfolding mutate
admission_router platform cfg = route post "/mutate" (mutate platform cfg) ∷ []
