-- ===== src/System/Exit.antt =====
-- `main` of app/crates/kif-agent/src/main.rs, in the pod that the webhook has built and beside a
-- federation service: why the agent's process ends.
use kubernetes_identity_fede.Base.{
  ◌<◌, String, ◌<>◌, ◌≡◌, refl, sym, ◌∙◌, false, Option, none, some, List, Result, ok, err, Any,
  All,
}
use mathlib.Core.Option.{some-injective}
use kubernetes_identity_fede.Base.Decimal.{to_string}
use kubernetes_identity_fede.Base.Parse.{Env, u16_mod}
use kubernetes_identity_fede.Base.Select.{Select, pending, second, Join}
use kubernetes_identity_fede.Base.Text.{trim, is_empty}
use kubernetes_identity_fede.Agent.Files.{Files}
use kubernetes_identity_fede.Agent.Main.{start, exit, main}
use kubernetes_identity_fede.Agent.Refresh.{World, initial, refresh_loop}
use kubernetes_identity_fede.System.Launch.{Deployed, IsStarted, told, from_env-agent}
use kubernetes_identity_fede.System.Stop.{IsAnswered, Ended, agent_stops}

-- The loop beside a server that runs: the `select!` waits for it.
abbrev pub beside_server : Option String → Select (Result (Unit {0}) String) Join
beside_server none = pending
beside_server (some e) = second (ok (err e))

abbrev pub failed : Option String → Option (Result (Unit {0}) String)
failed none = none
failed (some e) = some (err e)

exit-beside_server : (o : Option String) → exit (beside_server o) ≡ failed o
unfolding exit
exit-beside_server none = refl
exit-beside_server (some e) = refl

failed_inv :
    (o : Option String) (r : Result (Unit {0}) String)
    → failed o ≡ some r
    → (e : String) × (o ≡ some e) × (r ≡ err e)
failed_inv none r h = absurd (cc h)
failed_inv (some e) r h = (e, refl, sym (some-injective _ _ h))

module _ (d : Deployed) {env : Env} {read_to_string : String → Result String String}
    (build : Result (Unit {0}) String) (bind : String → Result (Unit {0}) String) where
  start-agent :
      d.agent_port < u16_mod
      → is_empty (trim d.namespace) ≡ false
      → IsStarted d env read_to_string
      → build ≡ ok tt
      → bind ("0.0.0.0:" <> to_string d.agent_port) ≡ ok tt
      → start read_to_string env build bind ≡ ok (told d)
  unfolding start
  start-agent bound named started built bound_to =
      rw (from_env-agent d bound named started, start) (rw built (rw bound_to refl))

  -- A started agent's process ends with its loop, while its server runs.
  pub main-told :
      d.agent_port < u16_mod
      → is_empty (trim d.namespace) ≡ false
      → IsStarted d env read_to_string
      → build ≡ ok tt
      → bind ("0.0.0.0:" <> to_string d.agent_port) ≡ ok tt
      → (ws : List World) (files : Files)
      → main read_to_string env build bind
          (λ cfg. beside_server (refresh_loop cfg ws (initial files)).1)
        ≡ failed (refresh_loop (told d) ws (initial files)).1
  unfolding main
  main-told bound named started built bound_to ws files =
      rw (start-agent bound named started built bound_to, main)
        (exit-beside_server (refresh_loop (told d) ws (initial files)).1)

  -- An agent that is started in the container that the webhook builds, with none of its other
  -- settings in its environment, with a port below 2^16 that it can bind and in a namespace that
  -- is not blank, ends while its server runs and services answer its rounds only with an error,
  -- and only if there is a round in which its service has granted it a token that it cannot write,
  -- and then with the error of the write, or in which its service has authenticated the token that
  -- the round has read and holds another configuration hash for its ServiceAccount than the
  -- webhook's, and then with the error of the mismatch.
  pub agent_exits :
      d.agent_port < u16_mod
      → is_empty (trim d.namespace) ≡ false
      → IsStarted d env read_to_string
      → build ≡ ok tt
      → bind ("0.0.0.0:" <> to_string d.agent_port) ≡ ok tt
      → (ws : List World) (files : Files) → All (IsAnswered d) ws
      → (r : Result (Unit {0}) String)
      → main read_to_string env build bind
          (λ cfg. beside_server (refresh_loop cfg ws (initial files)).1)
        ≡ some r
      → (e : String) × (r ≡ err e) × Any (λ w. Ended d w e) ws
  agent_exits bound named started built bound_to ws files answered r h =
      let loop = (refresh_loop (told d) ws (initial files)).1 in
      let whole = main-told bound named started built bound_to ws files in
      let (e, ends, same) = failed_inv loop r (sym whole ∙ h) in
      (e, same, agent_stops d ws (initial files) e answered ends)
