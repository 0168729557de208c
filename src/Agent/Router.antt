-- ===== src/Agent/Router.antt =====
-- app/crates/kif-agent/src/http.rs: `router`, in the state of the shared flag.
use kubernetes_identity_fede.Base.{Bool, List, [], ◌∷◌}
use kubernetes_identity_fede.Base.Routes.{Route, get, route}
use kubernetes_identity_fede.Federation.Mint.{StatusCode}
use kubernetes_identity_fede.Agent.Config.{livez, startupz}

unfoldable pub router : Bool → List (Route StatusCode)
unfolding livez startupz
router ready = route get "/livez" livez ∷ route get "/startupz" (startupz ready) ∷ []
