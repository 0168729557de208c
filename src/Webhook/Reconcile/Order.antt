-- ===== src/Webhook/Reconcile/Order.antt =====
-- reconcile.rs: the resource and its hash do not depend on the order in which the API server lists the
-- bindings, so that a later round does not stop the agents.
use mathlib.Core.List.{Perm}
use kubernetes_identity_fede.Base.{
  String, ◌≡◌, refl, sym, ap, ◌∙◌, Option, none, some, List, ok, err, and_then, to_option, map,
  >>=-eq-ok, ok-injective,
}
use kubernetes_identity_fede.Base.Calls.{bind_inv, lift, lift_inv}
use kubernetes_identity_fede.Api.Bindings.{ResolvedCloudRoleBindingSpec, no_providers}
use kubernetes_identity_fede.Api.Status.{
  Time, CloudRoleBinding, CloudRoleBindingRef, ResolvedCloudRoleBinding,
}
use kubernetes_identity_fede.Webhook.Merge.{MergeIssue, MergeResult, merge_inputs}
use kubernetes_identity_fede.Webhook.Merge.Build.{build_resolved_from_spec, build_failed_resolved}
use kubernetes_identity_fede.Webhook.Merge.Order.{merge_inputs-Perm}
use kubernetes_identity_fede.Webhook.Queue.{Key}
use kubernetes_identity_fede.Webhook.Reconcile.{
  Cluster, reference, mark_ready, mark_failed, resolve,
}

abbrev pub hash_of : ResolvedCloudRoleBinding → Option String
hash_of r = and_then r.status (λ s. s.config_hash)

module _ (cluster : Cluster) where
  open cluster use {State, to_vec, sha256_hex}

  -- The hash that a merge gets.
  abbrev hash_for : Option ResolvedCloudRoleBindingSpec → Option String
  hash_for none = none
  hash_for (some spec) = and_then (to_option (to_vec spec)) (λ bytes. some (sha256_hex bytes))

  abbrev spec_for : String → Option ResolvedCloudRoleBindingSpec → ResolvedCloudRoleBindingSpec
  spec_for sa_name none = record {
    subject = record { service_account_name = sa_name };
    attributes = none;
    providers = no_providers;
  }
  spec_for sa_name (some spec) = spec

  build-hash :
      (now : Time) (namespace sa_name : String) (sources : List CloudRoleBindingRef)
      (spec : ResolvedCloudRoleBindingSpec) (r : ResolvedCloudRoleBinding)
      → build_resolved_from_spec to_vec sha256_hex now namespace sa_name sources spec ≡ ok r
      → (r.spec ≡ spec) × (hash_of r ≡ hash_for (some spec))
  unfolding build_resolved_from_spec
  build-hash now namespace sa_name sources spec r h =
      let (bytes, written, h') = >>=-eq-ok (to_vec spec) _ h in
      let value = sym (ok-injective h') in
      (
        ap (λ (x : ResolvedCloudRoleBinding). x.spec) value,
        ap hash_of value ∙ sym (rw written refl),
      )

  failed-hash :
      (now : Time) (namespace sa_name : String) (sources : List CloudRoleBindingRef)
      (issue : MergeIssue)
      → let r = build_failed_resolved now namespace sa_name sources issue in
        (r.spec ≡ spec_for sa_name none) × (hash_of r ≡ none)
  unfolding build_failed_resolved
  failed-hash now namespace sa_name sources issue = (refl, refl)

  resolve-hash :
      (now : Time) (key : Key) (crbs : List CloudRoleBinding)
      (m : MergeResult ResolvedCloudRoleBindingSpec) (s s' : State) (r : ResolvedCloudRoleBinding)
      → resolve cluster now key crbs m s ≡ (ok r, s')
      → (r.spec ≡ spec_for key.service_account_name (to_option m))
        × (hash_of r ≡ hash_for (to_option m))
  unfolding resolve
  resolve-hash now key crbs (ok spec) s s' r h =
      let result =
        build_resolved_from_spec to_vec sha256_hex now key.namespace key.service_account_name
          (map reference crbs) spec in
      let (u, s₁, marked, h') =
        bind_inv (mark_ready cluster now key.namespace crbs) (λ _. lift result) s h in
      let (built, at_s) = lift_inv result s₁ h' in
      build-hash now key.namespace key.service_account_name (map reference crbs) spec r built
  resolve-hash now key crbs (err issue) s s' r h =
      let failed =
        build_failed_resolved now key.namespace key.service_account_name (map reference crbs)
          issue in
      let (u, s₁, marked, h') =
        bind_inv (mark_failed cluster now key.namespace issue crbs) (λ _. lift (ok failed)) s h in
      let (built, at_s) = lift_inv (ok failed) s₁ h' in
      let value : r ≡ failed = sym (ok-injective built) in
      let (spec, hash) =
        failed-hash now key.namespace key.service_account_name (map reference crbs) issue in
      (ap (λ (x : ResolvedCloudRoleBinding). x.spec) value ∙ spec, ap hash_of value ∙ hash)

  -- Two rounds that resolve the same bindings of a ServiceAccount, in whatever order and at
  -- whatever time, resolve them to the same spec and the same configuration hash.
  pub resolve-Perm :
      (key : Key) (crbs crbs' : List CloudRoleBinding)
      → Perm crbs crbs'
      → (now now' : Time) (s s₁ s' s₁' : State) (r r' : ResolvedCloudRoleBinding)
      → resolve cluster now key crbs (merge_inputs key.service_account_name crbs) s ≡ (ok r, s₁)
      → resolve cluster now' key crbs' (merge_inputs key.service_account_name crbs') s'
        ≡ (ok r', s₁')
      → (r.spec ≡ r'.spec) × (hash_of r ≡ hash_of r')
  resolve-Perm key crbs crbs' p now now' s s₁ s' s₁' r r' h h' =
      let same = merge_inputs-Perm key.service_account_name crbs crbs' p in
      let (spec, hash) = resolve-hash now key crbs _ s s₁ r h in
      let (spec', hash') = resolve-hash now' key crbs' _ s' s₁' r' h' in
      (
        spec ∙ ap (spec_for key.service_account_name) same ∙ sym spec',
        hash ∙ ap hash_for same ∙ sym hash',
      )
