-- ===== src/System/Rotated.antt =====
-- app/crates/kif-webhook/src/reconcile.rs, app/crates/kif-federation/src/http.rs and
-- app/crates/kif-agent/src/main.rs: what an agent meets whose bindings have changed since its pod was
-- admitted.
use kubernetes_identity_fede.Base.{
  err, ◌<◌, ◌<>◌, false, Result, String, ◌≡◌, ◌≢◌, refl, sym, ap, ◌∙◌, some, List, ◌∷◌, ok,
}
use kubernetes_identity_fede.Base.Text.{trim, is_empty}
use kubernetes_identity_fede.Api.Status.{Time, CloudRoleBinding, ResolvedCloudRoleBinding}
use kubernetes_identity_fede.Webhook.Queue.{Key}
use kubernetes_identity_fede.Webhook.Reconcile.{Cluster, relevant, reconcile}
use kubernetes_identity_fede.Webhook.Reconcile.Resolved.{Storage, reconcile-IsResolved}
use kubernetes_identity_fede.Federation.Subject.Laws.{strip_prefix-append}
use kubernetes_identity_fede.Federation.Mint.{MintContext}
use kubernetes_identity_fede.Federation.Mint.Conflict.{OutdatedCall}
use kubernetes_identity_fede.Agent.Refresh.{
  initial, World, State, stops, exchange, handle_mint, round, refresh_loop, request,
}
use kubernetes_identity_fede.System.Wire.{called-OutdatedCall_iff}
use kubernetes_identity_fede.System.Launch.{Deployed, IsStarted, told}
use kubernetes_identity_fede.System.Exit.{beside_server, failed, main-told}
use kubernetes_identity_fede.Base.Parse.{Env, u16_mod}
use kubernetes_identity_fede.Base.Decimal.{to_string}
use kubernetes_identity_fede.Agent.Files.{Files}
use kubernetes_identity_fede.Agent.Main.{main}
use kubernetes_identity_fede.System.Fetch.{Asks, own_request, bearer_of}
use kubernetes_identity_fede.System.Stored.{Usable, IsMerged, IsResolved-IsMerged, Serves}

module _ (d : Deployed) (key : Key) (account : d.service_account_name ≡ key.service_account_name)
    (namespace : trim d.namespace ≡ key.namespace) where
  Serves-OutdatedCall :
      {cluster : Cluster} {storage : Storage cluster} {t : cluster.State} {ctx : MintContext}
      {text : String} {crbs : List CloudRoleBinding}
      (u : Usable cluster key.service_account_name crbs) (o : ResolvedCloudRoleBinding)
      → storage.get_opt key.namespace key.service_account_name t ≡ some o
      → IsMerged cluster key.service_account_name crbs u o
      → d.config_hash ≢ cluster.sha256_hex u.bytes
      → Serves key cluster storage t ctx text
      → OutdatedCall ctx (own_request d) (bearer_of text)
  Serves-OutdatedCall {cluster} {ctx = ctx} {text = text} u o stored m differs serves = record {
    bearer = trim text;
    username = serves.username;
    resolved = o;
    carried = strip_prefix-append "Bearer " (trim text);
    authentic = serves.authentic;
    own =
        serves.own
        ∙ ap (λ ns. some (ns, key.service_account_name)) (sym namespace)
        ∙ ap (λ sa. some (trim d.namespace, sa)) (sym account);
    found =
        ap (λ ns. ctx.get_resolved ns d.service_account_name) namespace
        ∙ ap (λ sa. ctx.get_resolved key.namespace sa) account
        ∙ serves.reads o stored;
    outdated = record {
      aws = u.aws;
      status = m.status;
      hash = cluster.sha256_hex u.bytes;
      configured = m.configured;
      recorded = m.recorded;
      hashed = m.hashed;
      differs = λ e. differs (sym e);
    };
  }

  round-outdated :
      {w : World} {ctx : MintContext} {text : String} (s : State)
      → Asks (told d) w ctx text
      → OutdatedCall ctx (own_request d) (bearer_of text)
      → round (told d) w s ≡ stops s "config hash mismatch"
  unfolding round exchange handle_mint
  round-outdated {text = text} s a call =
      let got = (called-OutdatedCall_iff a.wire (trim text) (request (told d))).1 call in
      rw a.read (rw a.present (rw got refl))

  rotated-Stops :
      (cluster : Cluster) (now : Time) (storage : Storage cluster) (listed : List CloudRoleBinding)
      (u : Usable cluster key.service_account_name (relevant key.service_account_name listed))
      {t t' : cluster.State} {ctx : MintContext} {w : World} {text : String}
      → cluster.list_bindings key.namespace t ≡ ok listed
      → reconcile cluster now key t ≡ (ok tt, t')
      → d.config_hash ≢ cluster.sha256_hex u.bytes
      → Serves key cluster storage t' ctx text
      → Asks (told d) w ctx text
      → (ws : List World) (s : State)
      → refresh_loop (told d) (w ∷ ws) s ≡ (s, some "config hash mismatch")
  unfolding refresh_loop
  rotated-Stops cluster now storage listed u lists done differs serves asks ws s =
      let (o, stored, resolved) =
        reconcile-IsResolved cluster now storage key listed _ _ lists done in
      let m =
        IsResolved-IsMerged cluster now key (relevant key.service_account_name listed) u o
          resolved in
      rw (round-outdated s asks (Serves-OutdatedCall u o stored m differs serves), refresh_loop)
        refl

  -- After a worker's round has succeeded, at an API server that reads back what is applied to it,
  -- on bindings that merge to a spec that can be serialized, with an AWS role that is not blank,
  -- an agent of their ServiceAccount that is started in the container that the webhook has built
  -- with another hash than the one of the merge, with none of its other settings in its
  -- environment, with a port below 2^16 that it can bind and in a namespace that is not blank,
  -- ends its process with an error while its server runs, if it has a ServiceAccount token in its
  -- first round and a connected service that can sign authenticates the token as that of its
  -- ServiceAccount and reads what the worker's round has stored.
  pub rotated-Exits :
      {env : Env} {read_to_string : String → Result String String}
      (build : Result (Unit {0}) String) (bind : String → Result (Unit {0}) String)
      (cluster : Cluster) (now : Time) (storage : Storage cluster) (listed : List CloudRoleBinding)
      (u : Usable cluster key.service_account_name (relevant key.service_account_name listed))
      {t t' : cluster.State} {ctx : MintContext} {w : World} {text : String}
      → d.agent_port < u16_mod
      → is_empty (trim d.namespace) ≡ false
      → IsStarted d env read_to_string
      → build ≡ ok tt
      → bind ("0.0.0.0:" <> to_string d.agent_port) ≡ ok tt
      → cluster.list_bindings key.namespace t ≡ ok listed
      → reconcile cluster now key t ≡ (ok tt, t')
      → d.config_hash ≢ cluster.sha256_hex u.bytes
      → Serves key cluster storage t' ctx text
      → Asks (told d) w ctx text
      → (ws : List World) (files : Files)
      → main read_to_string env build bind
          (λ cfg. beside_server (refresh_loop cfg (w ∷ ws) (initial files)).1)
        ≡ some (err "config hash mismatch")
  rotated-Exits build bind cluster now storage listed u {w = w} bound named started built bound_to
        lists done differs serves asks ws files =
      main-told d build bind bound named started built bound_to (w ∷ ws) files
      ∙ ap (λ p. failed p.1)
          (rotated-Stops cluster now storage listed u lists done differs serves asks ws
            (initial files))
