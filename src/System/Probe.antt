-- ===== src/System/Probe.antt =====
-- The startup probe that app/crates/kif-webhook/src/mutate.rs gives to the agent's container, against
-- the routes of app/crates/kif-agent/src/http.rs and the loop behind them. Kubernetes starts the pod's
-- main containers once the probe of a sidecar has succeeded.
use kubernetes_identity_fede.Base.{
  String, ◌≡◌, refl, sym, ap, ◌∙◌, ◌≢◌, ◌↔◌, inl, inr, Bool, true, Option, none, some, and_then,
  List, ok, Any, here, there, All, Any-All, arith, subst, Option-cases,
}
use mathlib.Core.Option.{some-injective}
use kubernetes_identity_fede.Base.Text.{trim}
use kubernetes_identity_fede.Base.Routes.{Axum, get, route, calls}
use kubernetes_identity_fede.Api.Bindings.{AwsProviderSpec}
use kubernetes_identity_fede.Federation.Mint.{MintContext, StatusCode, status_ok}
use kubernetes_identity_fede.Federation.Mint.Grant.{Grant}
use kubernetes_identity_fede.Webhook.Mutate.{inject_env, build_agent_container}
use kubernetes_identity_fede.Webhook.Mutate.Env.{token_file-inject_env}
use kubernetes_identity_fede.Webhook.Mutate.Pod.{HttpGetAction, EnvVar}
use kubernetes_identity_fede.Agent.Config.{startupz}
use kubernetes_identity_fede.Agent.Files.{Files}
use kubernetes_identity_fede.Agent.Router.{router}
use kubernetes_identity_fede.Agent.Refresh.{World, initial, request, refresh_loop}
use kubernetes_identity_fede.Agent.Refresh.Loop.{
  Writes, IsConsistent, refresh_loop-IsConsistent, refresh_loop-Writes,
}
use kubernetes_identity_fede.System.Wire.{minted, IsConnected, called-Grant_iff}
use kubernetes_identity_fede.System.Launch.{Deployed, agent, told}
use kubernetes_identity_fede.System.Fetch.{own_request, bearer_of, Reads}
use kubernetes_identity_fede.System.Stop.{IsAnswered}

router-startupz :
    (axum : Axum StatusCode) (ready : Bool)
    → axum.matched (router ready) get "/startupz" ≡ calls (startupz ready)
unfolding router
router-startupz axum ready =
    axum.matched-route (router ready) (route get "/startupz" (startupz ready)) refl
      (there (here refl))

startupz_iff : (ready : Bool) → (calls (startupz ready) ≡ calls status_ok) ↔ (ready ≡ true)
unfolding startupz
startupz_iff ready = ground arith

module _ (d : Deployed) where
  -- The action of the probe in the container that the webhook builds.
  abbrev pub probed : Option HttpGetAction
  unfolding build_agent_container
  probed = and_then (agent d).startup_probe (λ p. p.http_get)

  -- The service that answers the round has granted the token to the pod's own request, with the
  -- ServiceAccount token that the round has read.
  pub record IsGranted (token : String) (w : World) : Type 0 where
    pub ctx : MintContext
    pub text : String
    pub wire : IsConnected w.http ctx d.federation_url
    pub read : w.sa_token_file ≡ ok text
    pub grant : Grant ctx (own_request d) (bearer_of text) token

  Writes-IsGranted :
      (token : String) (w : World)
      → Writes (told d) (some token) w
      → IsAnswered d w
      → IsGranted token w
  Writes-IsGranted token w (s, aws, delivered, same) (ctx, wire) =
      let resp : delivered.resp
          ≡ minted wire (trim delivered.text) (request (told d)) token aws.expires_in_seconds =
        λ i. record {
          aws =
              (delivered.given
                  ∙ ap
                      (λ t.
                        some (record { token = t; expires_in_seconds = aws.expires_in_seconds }))
                      (some-injective _ _ (sym same)))
                i;
        } in
      let (g, ttl) =
        (called-Grant_iff wire (trim delivered.text) (request (told d)) token
            aws.expires_in_seconds).0
          (delivered.minted ∙ ap ok resp) in
      record { ctx = ctx; text = delivered.text; wire = wire; read = delivered.read; grant = g }

  loop-written :
      (ws : List World) (files : Files)
      → let s = (refresh_loop (told d) ws (initial files)).0 in
        s.ready ≡ true → s.files (told d).aws_token_path ≢ none
  loop-written ws files ready =
      let fresh : IsConsistent (told d) (initial files) = record {
        agrees = refl;
        written = inl refl;
      } in
      elim (refresh_loop-IsConsistent (told d) ws (initial files) fresh).written [
        | inl unready ↦ absurd (cc (unready, ready))
        | inr present ↦ present
      ]

  -- The file of a loop that is ready.
  ready-IsGranted :
      (ws : List World) (files : Files)
      → All (IsAnswered d) ws
      → let s = (refresh_loop (told d) ws (initial files)).0 in
        s.ready ≡ true
        → (token : String) × (s.files (told d).aws_token_path ≡ some token)
          × Any (IsGranted token) ws
  ready-IsGranted ws files answered ready =
      let s = (refresh_loop (told d) ws (initial files)).0 in
      elim (refresh_loop-Writes (told d) ws (initial files)) [
        | inl (unready, same) ↦ absurd (cc (unready, ready))
        | inr writes ↦ elim (Option-cases (s.files (told d).aws_token_path)) [
          | inl missing ↦ absurd (loop-written ws files ready missing)
          | inr (token, held) ↦ (
            token,
            held,
            Any-All (Writes (told d) (some token)) (IsAnswered d) (IsGranted token)
                (Writes-IsGranted token) ws
                (subst (λ content. Any (Writes (told d) content) ws) held writes) answered,
          )
        ]
      ]

  -- If a service answers every round of a fresh agent, and the path that the webhook's startup
  -- probe asks for is answered with 200, then the probe asks on the agent's port, and the file
  -- that the pod's containers are pointed to holds a token that the service of one of these rounds
  -- has granted to the pod's own request, with the ServiceAccount token that the round has read.
  pub probe-IsGranted :
      (axum : Axum StatusCode) (ws : List World) (files : Files)
      → All (IsAnswered d) ws
      → (action : HttpGetAction) (path : String) → probed ≡ some action
      → action.path ≡ some path
      → let s = (refresh_loop (told d) ws (initial files)).0 in
        axum.matched (router s.ready) get path ≡ calls status_ok
        → (action.port ≡ (told d).port)
          × (token : String) × ((aws : AwsProviderSpec) (vars : List EnvVar)
              → Reads (inject_env aws vars) s.files token)
          × Any (IsGranted token) ws
  unfolding build_agent_container
  probe-IsGranted axum ws files answered action path built at_path found =
      let s = (refresh_loop (told d) ws (initial files)).0 in
      let port = ap (λ (a : HttpGetAction). a.port) (some-injective _ _ built) in
      let startup : path ≡ "/startupz" =
        some-injective _ _
          (sym at_path ∙ ap (λ (a : HttpGetAction). a.path) (sym (some-injective _ _ built))) in
      let found' =
        subst (λ p. axum.matched (router s.ready) get p ≡ calls status_ok) startup found in
      let ready = (startupz_iff s.ready).0 (sym (router-startupz axum s.ready) ∙ found') in
      let (token, held, granted) = ready-IsGranted ws files answered ready in
      (
        sym port,
        token,
        λ aws vars. record {
          path = "/var/run/kif/aws/token";
          pointed = token_file-inject_env aws vars;
          held = held;
        },
        granted,
      )
