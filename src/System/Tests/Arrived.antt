-- ===== src/System/Tests/Arrived.antt =====
-- The agent of that pod, and a service that reads the binding where the round has left it.
use kubernetes_identity_fede.Base.{◌≡◌, refl, ap, sym, none, some, [], ok, ok_or, ok-injective}
use kubernetes_identity_fede.Base.Text.{trim}
use kubernetes_identity_fede.Webhook.Config as C
use kubernetes_identity_fede.Webhook.Merge.{merge_inputs}
use kubernetes_identity_fede.Webhook.Merge.Tests.{test_aws, two_bindings, two_merged}
use kubernetes_identity_fede.Webhook.Mutate.Tests.{plain_spec}
use kubernetes_identity_fede.Webhook.Admission.{create}
use kubernetes_identity_fede.Webhook.Admission.Tests.{cfg, request}
use kubernetes_identity_fede.Webhook.Admission.Patching.{Patching}
use kubernetes_identity_fede.Webhook.Reconcile.{relevant}
use kubernetes_identity_fede.Webhook.Reconcile.Tests.{cluster, storage, key, after, reconciles}
use kubernetes_identity_fede.Federation.Mint.{MintContext}
use kubernetes_identity_fede.Federation.Mint.Tests as M
use kubernetes_identity_fede.Federation.Subject.{token_review, parse_service_account_username}
use kubernetes_identity_fede.Agent.Refresh.{World}
use kubernetes_identity_fede.System.Launch.{told}
use kubernetes_identity_fede.System.Fetch.{Asks}
use kubernetes_identity_fede.System.Arrival.{Delivers, bindings-Deliver}
use kubernetes_identity_fede.System.Stored.{Usable, Serves}
use kubernetes_identity_fede.System.Tests.Service.{http, http-IsConnected}
use kubernetes_identity_fede.System.Tests.Deployment.{deployed, env, files, started, world, start}
use kubernetes_identity_fede.System.Tests.Resolved.{platform, comes, serializes}

patching : Patching platform
patching = record {
  apply = λ (original, modified) v. some modified;
  from_value = λ pod. some pod;
  apply-diff = λ a b. refl;
  from_value-to_value = λ pod v e. ap some (sym (ok-injective e));
}

pub usable : Usable cluster "test-sa" (relevant "test-sa" two_bindings)
unfolding merge_inputs trim
usable = record {
  merged = two_merged;
  aws = test_aws;
  bytes = [];
  merges = refl;
  configured = refl;
  role = refl;
  written = refl;
}

abbrev pub ctx : MintContext
ctx = record M.ctx { get_resolved = λ ns name. ok_or (storage.get_opt ns name after) "not found" }

abbrev pub round : World
round = record world { http = http ctx "http://kif-federation:5001" }

asks : Asks (told (deployed "hash")) round ctx "test-sa"
unfolding trim
asks = record {
  wire = http-IsConnected ctx "http://kif-federation:5001";
  read = refl;
  present = refl;
}

pub serves : Serves key cluster storage after ctx "test-sa"
unfolding trim token_review parse_service_account_username
serves = record {
  username = "system:serviceaccount:default:test-sa";
  authentic = refl;
  own = refl;
  reads = λ o stored. ap (λ r. ok_or r "not found") stored;
  signs = λ claims. (claims.sub, refl);
}

configured : C.from_env (λ s. s) (λ name. none) ≡ ok cfg
unfolding C.from_env
configured = refl

bindings-Deliver_example :
    Delivers platform cfg patching
      (request create plain_spec)
      key
      comes
      (relevant "test-sa" two_bindings)
      "pod"
      (env "hash")
      files
      ctx
      "test-sa"
      round
      start
unfolding trim
bindings-Deliver_example =
    bindings-Deliver platform cfg patching (request create plain_spec) key comes cluster 0 storage
      serializes two_bindings usable (λ s. s) (λ name. none) refl reconciles refl configured refl
      refl (started "hash") asks serves
      (record { dirs = refl; create = refl; partial = refl; sync = refl; rename = refl }) start
