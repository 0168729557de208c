-- ===== src/Webhook/Reconcile/Tests/Stored.antt =====
-- reconcile.rs: a cluster that stores the bindings' statuses, and a round on it.
use kubernetes_identity_fede.Base.{
  String, ◌≡◌, ◌≢◌, refl, sym, ap, ◌∙◌, ◌&&◌, Option, none, some, [], ok, if◌then◌else◌, ◌==◌,
  string_has_eq, ok-injective, eq_iff, arith,
}
use kubernetes_identity_fede.Api.Status.{CloudRoleBinding}
use kubernetes_identity_fede.Webhook.Queue.{Key}
use kubernetes_identity_fede.Webhook.Merge.{merge_inputs}
use kubernetes_identity_fede.Webhook.Merge.Build.{build_resolved_from_spec, build_crb_status}
use kubernetes_identity_fede.Webhook.Merge.Tests.{two_bindings}
use kubernetes_identity_fede.Webhook.Reconcile.{Cluster, relevant, reconcile}
use kubernetes_identity_fede.Webhook.Reconcile.Writes.{Bindings, NodupCrbs}
use kubernetes_identity_fede.Webhook.Reconcile.Statuses.{Reported, reconcile-Reported}

abbrev Store : Type 0
Store = String → String → Option CloudRoleBinding

abbrev put : String → String → CloudRoleBinding → Store → Store
put ns name c s n m = if n == ns && m == name then some c else s n m

abbrev cluster : Cluster
cluster = record {
  State = Store;
  list_bindings = λ ns s. ok two_bindings;
  replace_status = λ ns name c s. ok (put ns name c s);
  patch = λ ns name r s. ok s;
  patch_status = λ ns name r s. ok s;
  to_vec = λ spec. ok [];
  sha256_hex = λ bytes. "hash";
}

put-same : (ns name : String) (c : CloudRoleBinding) (s : Store) → put ns name c s ns name ≡ some c
put-same ns name c s = ground (arith, eq_iff ns ns, eq_iff name name)

put-other :
    (ns name other : String) (c : CloudRoleBinding) (s : Store)
    → name ≢ other
    → put ns name c s ns other ≡ s ns other
put-other ns name other c s h = ground (arith, eq_iff other name)

bindings : Bindings cluster
bindings = record {
  get = λ ns name s. s ns name;
  get-replace = λ ns name c s s' e.
      (c, ap (λ (t : Store). t ns name) (sym (ok-injective e)) ∙ put-same ns name c s, refl);
  get-replace_other = λ ns name other c s s' differs e.
      ap (λ (t : Store). t ns other) (sym (ok-injective e)) ∙ put-other ns name other c s differs;
  get-patch = λ ns name other r s s' e. ap (λ (t : Store). t ns other) (sym (ok-injective e));
  get-patch_status =
      λ ns name other r s s' e. ap (λ (t : Store). t ns other) (sym (ok-injective e));
}

abbrev key : Key
key = record { namespace = "default"; service_account_name = "test-sa" }

abbrev empty : Store
empty ns name = none

abbrev after : Store
after = (reconcile cluster 0 key empty).1

reconciles : reconcile cluster 0 key empty ≡ (ok tt, after)
unfolding reconcile merge_inputs build_resolved_from_spec build_crb_status
reconciles = refl

distinct : NodupCrbs (relevant "test-sa" two_bindings)
distinct = (((λ e. ground (arith, eq_iff "crb1" "crb2")), tt), (tt, tt))

reconcile-Reported_example :
    Reported cluster 0 bindings "default"
      (relevant "test-sa" two_bindings)
      empty
      after
      (merge_inputs "test-sa" (relevant "test-sa" two_bindings))
reconcile-Reported_example =
    reconcile-Reported cluster 0 bindings key two_bindings empty after refl distinct reconciles
