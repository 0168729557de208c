-- ===== src/System/Tests/Rotated.antt =====
-- An agent that was admitted with another hash than the round on the two bindings has left.
use kubernetes_identity_fede.Base.{
  none, ok, err, String, Result, if◌then◌else◌, ◌==◌, ◌≡◌, ◌≢◌, refl, some, [], ◌∷◌, arith, eq_iff,
  string_has_eq,
}
use kubernetes_identity_fede.Base.Text.{trim}
use kubernetes_identity_fede.Webhook.Merge.Tests.{two_bindings}
use kubernetes_identity_fede.Webhook.Reconcile.Tests.{cluster, storage, key, reconciles}
use kubernetes_identity_fede.Agent.Refresh.{initial, refresh_loop}
use kubernetes_identity_fede.System.Launch.{told}
use kubernetes_identity_fede.System.Fetch.{Asks}
use kubernetes_identity_fede.System.Rotated.{rotated-Exits}
use kubernetes_identity_fede.System.Exit.{beside_server}
use kubernetes_identity_fede.Agent.Main.{main}
use kubernetes_identity_fede.Base.Decimal.{to_string}
use kubernetes_identity_fede.System.Tests.Service.{http-IsConnected}
use kubernetes_identity_fede.System.Tests.Deployment.{deployed, env, files, started, world}
use kubernetes_identity_fede.System.Tests.Arrived.{usable, serves, ctx, round}

asks : Asks (told (deployed "old")) round ctx "test-sa"
unfolding trim
asks = record {
  wire = http-IsConnected ctx "http://kif-federation:5001";
  read = refl;
  present = refl;
}

differs : (deployed "old").config_hash ≢ "hash"
differs e = ground (arith, eq_iff "old" "hash")

abbrev bind : String → Result (Unit {0}) String
bind address = if address == "0.0.0.0:5004" then ok tt else err "in use"

rotated-Exits_example :
    main files
      (env "old")
      (ok tt)
      bind
      (λ cfg. beside_server (refresh_loop cfg (round ∷ world ∷ []) (initial (λ path. none))).1)
    ≡ some (err "config hash mismatch")
unfolding trim to_string
rotated-Exits_example =
    rotated-Exits (deployed "old") key refl refl (ok tt) bind cluster 0 storage two_bindings usable
      (omega arith) refl (started "old") refl refl refl reconciles differs serves asks (world ∷ [])
      (λ path. none)
