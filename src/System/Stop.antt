-- ===== src/System/Stop.antt =====
-- app/crates/kif-agent/src/main.rs and app/crates/kif-federation/src/http.rs: why an agent's loop
-- ends, if the service answers its rounds.
use kubernetes_identity_fede.Base.{
  ◌<>◌, ◌∙◌, ap, ok, String, ◌≡◌, some, List, Any, All, Any-All, err,
}
use kubernetes_identity_fede.Base.Text.{trim}
use kubernetes_identity_fede.Federation.Mint.{MintContext}
use kubernetes_identity_fede.Federation.Mint.Grant.{Grant}
use kubernetes_identity_fede.Federation.Mint.Conflict.{OutdatedCall}
use kubernetes_identity_fede.Agent.Client.{MintedToken}
use kubernetes_identity_fede.Agent.Refresh.{World, State, request, write_of, refresh_loop}
use kubernetes_identity_fede.Agent.Refresh.Ending.{Stops, unwritten, outdated}
use kubernetes_identity_fede.Agent.Refresh.Loop.{refresh_loop-Stops}
use kubernetes_identity_fede.System.Wire.{
  minted, called-Grant_iff, IsConnected, called-OutdatedCall_iff,
}
use kubernetes_identity_fede.System.Launch.{Deployed, told}
use kubernetes_identity_fede.System.Fetch.{own_request, bearer_of}

module _ (d : Deployed) where
  -- A service answers the round.
  abbrev pub IsAnswered : World → Type 0
  IsAnswered w = (ctx : MintContext) × IsConnected w.http ctx d.federation_url

  -- The round has read the ServiceAccount token, and the service answers it.
  pub record Answers (w : World) (ctx : MintContext) (text : String) : Type 0 where
    pub wire : IsConnected w.http ctx d.federation_url
    pub read : w.sa_token_file ≡ ok text

  -- The error of the round, which cannot write the token that its service has granted it, or whose
  -- service holds another configuration than the one that the webhook has given to the agent.
  pub data Ended (w : World) : String → Type 0 where
    disk :
        (ctx : MintContext) (text : String) (aws : MintedToken)
        → Answers w ctx text
        → Grant ctx (own_request d) (bearer_of text) aws.token
        → (s : State) (cause : String) → (write_of (told d) w aws s).1 ≡ err cause
        → Ended w ("failed writing AWS token to " <> (told d).aws_token_path)
    changed :
        (ctx : MintContext) (text : String)
        → Answers w ctx text
        → OutdatedCall ctx (own_request d) (bearer_of text)
        → Ended w "config hash mismatch"

  Stops-Ended :
      (e : String) (w : World) → ((s : State) × Stops (told d) w s e) → IsAnswered w → Ended w e
  Stops-Ended _ w (s, unwritten text resp aws cause read present made given failed) (ctx, wire) =
      let same : resp
          ≡ minted wire (trim text) (request (told d)) aws.token aws.expires_in_seconds =
        λ i. record { aws = given i } in
      let (g, ttl) =
        (called-Grant_iff wire (trim text) (request (told d)) aws.token aws.expires_in_seconds).0
          (made ∙ ap ok same) in
      disk ctx text aws (record { wire = wire; read = read }) g s cause failed
  Stops-Ended _ w (s, outdated text read present mismatch) (ctx, wire) =
      changed ctx text (record { wire = wire; read = read })
        ((called-OutdatedCall_iff wire (trim text) (request (told d))).0 mismatch)

  -- If a service answers every round, an agent that has the webhook's settings stops only in a
  -- round in which it cannot write the token that it is granted, or in which the service has
  -- authenticated it and holds another configuration hash for its ServiceAccount than the
  -- webhook's.
  pub agent_stops :
      (ws : List World) (s : State) (e : String)
      → All IsAnswered ws
      → (refresh_loop (told d) ws s).1 ≡ some e
      → Any (λ w. Ended w e) ws
  agent_stops ws s e answered h =
      Any-All (λ w. (s' : State) × Stops (told d) w s' e) IsAnswered (λ w. Ended w e)
        (Stops-Ended e) ws (refresh_loop-Stops (told d) ws s e h) answered
