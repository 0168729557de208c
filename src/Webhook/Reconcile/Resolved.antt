-- ===== src/Webhook/Reconcile/Resolved.antt =====
-- reconcile.rs: what a round of a worker leaves at the API server for the admission webhook and the
-- federation service.
use kubernetes_identity_fede.Base.{
  String, ◌≡◌, refl, sym, ap, ◌∙◌, subst, >>=-eq-ok, ok-injective, ◌⊎◌, inl, inr, Option, some,
  List, map, ok, err, unwrap_or, and_then, arith, Result-cases, here, ℕ,
}
use kubernetes_identity_fede.Base.Calls.{lift, bind_inv}
use kubernetes_identity_fede.Api.Bindings.{ResolvedCloudRoleBindingSpec}
use kubernetes_identity_fede.Api.Status.{
  Time, CloudRoleBinding, CloudRoleBindingRef, ResolvedCloudRoleBinding,
  ResolvedCloudRoleBindingStatus,
}
use kubernetes_identity_fede.Webhook.Merge.{MergeIssue, MergeResult, merge_inputs}
use kubernetes_identity_fede.Webhook.Merge.Build.{build_resolved_from_spec, build_failed_resolved}
use kubernetes_identity_fede.Webhook.Merge.Compatible.{Compatible}
use kubernetes_identity_fede.Webhook.Merge.Sound.{merge_inputs-ok_iff}
use kubernetes_identity_fede.Webhook.Admission.Ready.{IsReady, is_ready_iff}
use kubernetes_identity_fede.Webhook.Admission.{is_ready}
use kubernetes_identity_fede.Webhook.Queue.{Key}
use kubernetes_identity_fede.Webhook.Reconcile.{
  Cluster, mark_ready, mark_failed, upsert_resolved, relevant, reference, resolve, reconcile,
}
use kubernetes_identity_fede.Webhook.Reconcile.Inversion.{upsert_resolved_inv, reconcile_inv}

-- What the code relies on: an applied resource can be read back with its spec, and its status is
-- the one that was applied to the subresource, which leaves the spec alone.
pub record Storage (cluster : Cluster) : Type 0 where
  pub get_opt : String → String → cluster.State → Option ResolvedCloudRoleBinding
  pub get_opt-patch :
      (ns name : String) (r : ResolvedCloudRoleBinding) (s s' : cluster.State)
      → cluster.patch ns name r s ≡ ok s'
      → (o : ResolvedCloudRoleBinding) × (get_opt ns name s' ≡ some o) × (o.spec ≡ r.spec)
  pub get_opt-patch_status :
      (ns name : String) (r o : ResolvedCloudRoleBinding) (s s' : cluster.State)
      → cluster.patch_status ns name r s ≡ ok s'
      → get_opt ns name s ≡ some o
      → (o' : ResolvedCloudRoleBinding) × (get_opt ns name s' ≡ some o')
        × (o'.spec ≡ o.spec)
        × (o'.status ≡ r.status)

-- The status has the hash of the resource's spec as it is written out.
abbrev pub IsHashed : Cluster → ResolvedCloudRoleBinding → Type 0
IsHashed cluster r =
    (bytes : List ℕ) × (cluster.to_vec r.spec ≡ ok bytes)
    × (and_then r.status (λ s. s.config_hash) ≡ some (cluster.sha256_hex bytes))

module _ (cluster : Cluster) (now : Time) where
  -- What `resolve` hands over is ready just when the merge went well, and then has the merged
  -- specification and its hash.
  abbrev pub Follows :
      String → MergeResult ResolvedCloudRoleBindingSpec → ResolvedCloudRoleBinding → Type 0
  Follows sa merge r =
      (r.metadata.name ≡ some sa)
      × ((spec : ResolvedCloudRoleBindingSpec)
          → merge ≡ ok spec
          → IsReady r × (r.spec ≡ spec) × IsHashed cluster r)
      × ((issue : MergeIssue) → merge ≡ err issue → ¬ IsReady r)

  build_resolved-Follows :
      (ns sa : String) (refs : List CloudRoleBindingRef) (merged : ResolvedCloudRoleBindingSpec)
      (r : ResolvedCloudRoleBinding)
      → build_resolved_from_spec cluster.to_vec cluster.sha256_hex now ns sa refs merged ≡ ok r
      → Follows sa (ok merged) r
  unfolding build_resolved_from_spec
  build_resolved-Follows ns sa refs merged r h =
      let (bytes, written, built) = >>=-eq-ok (cluster.to_vec merged) _ h in
      subst (Follows sa (ok merged)) (ok-injective built) (
        refl,
        λ spec e. ((_, refl, here (refl, refl)), ok-injective e, (bytes, written, refl)),
        λ issue e. absurd (ground arith),
      )

  build_failed-Follows :
      (ns sa : String) (refs : List CloudRoleBindingRef) (issue : MergeIssue)
      → Follows sa (err issue) (build_failed_resolved now ns sa refs issue)
  unfolding build_failed_resolved is_ready
  build_failed-Follows ns sa refs issue = (
    refl,
    λ spec h. absurd (ground arith),
    λ i h answered.
        let found = (is_ready_iff (build_failed_resolved now ns sa refs issue)).1 answered in
        absurd (ground arith),
  )

  pub resolve-Follows :
      (key : Key) (crbs : List CloudRoleBinding) (merge : MergeResult ResolvedCloudRoleBindingSpec)
      (r : ResolvedCloudRoleBinding) (s s' : cluster.State)
      → resolve cluster now key crbs merge s ≡ (ok r, s')
      → Follows key.service_account_name merge r
  unfolding resolve
  resolve-Follows key crbs (ok merged) r s s' h =
      let (u, s₁, marked, built) =
        bind_inv (mark_ready cluster now key.namespace crbs)
          (λ _. lift (
            build_resolved_from_spec cluster.to_vec cluster.sha256_hex now key.namespace
              key.service_account_name (map reference crbs) merged))
          s h in
      build_resolved-Follows key.namespace key.service_account_name (map reference crbs) merged r
        (ap (λ p. p.0) built)
  resolve-Follows key crbs (err issue) r s s' h =
      let (u, s₁, marked, built) =
        bind_inv (mark_failed cluster now key.namespace issue crbs)
          (λ _. lift (
            ok (
              build_failed_resolved now key.namespace key.service_account_name (map reference crbs)
                issue)))
          s h in
      subst (Follows key.service_account_name (err issue)) (ok-injective (ap (λ p. p.0) built))
        (build_failed-Follows key.namespace key.service_account_name (map reference crbs) issue)

  IsReady-status :
      (r o : ResolvedCloudRoleBinding)
      → o.status ≡ r.status
      → (IsReady o → IsReady r) × (IsReady r → IsReady o)
  IsReady-status r o same = (
    λ (status, found, any). (status, sym same ∙ found, any),
    λ (status, found, any). (status, same ∙ found, any),
  )

  -- The stored resource `o` has the merge of `crbs` and is ready, or they do not merge and it is not.
  abbrev pub IsResolved : Key → List CloudRoleBinding → ResolvedCloudRoleBinding → Type 0
  IsResolved key crbs o =
      (Compatible crbs
        × IsReady o
        × (merge_inputs key.service_account_name crbs ≡ ok o.spec)
        × IsHashed cluster o)
      ⊎ (¬ Compatible crbs × ¬ IsReady o)

  IsHashed-status :
      (r o : ResolvedCloudRoleBinding)
      → o.spec ≡ r.spec
      → o.status ≡ r.status
      → IsHashed cluster r
      → IsHashed cluster o
  IsHashed-status r o spec status (bytes, written, hashed) = (
    bytes,
    ap cluster.to_vec spec ∙ written,
    ap (λ s. and_then s (λ (t : ResolvedCloudRoleBindingStatus). t.config_hash)) status ∙ hashed,
  )

  -- The object of the store, from what the two calls were given.
  Follows-IsResolved :
      (key : Key) (crbs : List CloudRoleBinding) (r o : ResolvedCloudRoleBinding)
      → Follows key.service_account_name (merge_inputs key.service_account_name crbs) r
      → o.spec ≡ r.spec
      → o.status ≡ r.status
      → IsResolved key crbs o
  Follows-IsResolved key crbs r o (named, merges, fails) spec status =
      let sa = key.service_account_name in
      let (into, back) = IsReady-status r o status in
      elim (Result-cases (merge_inputs sa crbs)) [
        | inl (merged, e) ↦
            let (is_ready, has, hashed) = merges merged e in
            inl (
              (merge_inputs-ok_iff sa crbs).0 (merged, e),
              back is_ready,
              e ∙ ap (λ x. ok x) (sym (spec ∙ has)),
              IsHashed-status r o spec status hashed,
            )
        | inr (issue, e) ↦ inr (
          λ compatible.
              let (merged, e') = (merge_inputs-ok_iff sa crbs).1 compatible in
              absurd (ground arith),
          λ is_ready. fails issue e (into is_ready),
        )
      ]

  upserted :
      (storage : Storage cluster) (key : Key) (crbs : List CloudRoleBinding)
      (r : ResolvedCloudRoleBinding) (s s' : cluster.State)
      → Follows key.service_account_name (merge_inputs key.service_account_name crbs) r
      → upsert_resolved cluster now key.namespace r s ≡ (ok tt, s')
      → (o : ResolvedCloudRoleBinding) × (storage.get_opt key.namespace key.service_account_name s'
          ≡ some o)
        × IsResolved key crbs o
  upserted storage key crbs r s s' follows done =
      let (named, merges, fails) = follows in
      let name = key.service_account_name in
      let same : unwrap_or r.metadata.name "" ≡ name = ap (λ n. unwrap_or n "") named in
      let (s₁, first, second) = upsert_resolved_inv cluster now key.namespace r s s' done in
      let first' = subst (λ n. cluster.patch key.namespace n r s ≡ ok s₁) same first in
      let second' = subst (λ n. cluster.patch_status key.namespace n r s₁ ≡ ok s') same second in
      let (o, stored, spec) = storage.get_opt-patch key.namespace name r s s₁ first' in
      let (o', stored', spec', status') =
        storage.get_opt-patch_status key.namespace name r o s₁ s' second' stored in
      (o', stored', Follows-IsResolved key crbs r o' follows (spec' ∙ spec) status')

  -- At an API server that reads back what is applied to it, a reconcile round that returns a value
  -- has left a resource under the ServiceAccount's name: where the listed bindings of that
  -- ServiceAccount are compatible, the webhook finds it ready, its spec is their merge and its
  -- hash is the hash of that spec as it is written out, and otherwise the webhook does not find it
  -- ready.
  pub reconcile-IsResolved :
      (storage : Storage cluster) (key : Key) (listed : List CloudRoleBinding)
      (s s' : cluster.State)
      → cluster.list_bindings key.namespace s ≡ ok listed
      → reconcile cluster now key s ≡ (ok tt, s')
      → let crbs = relevant key.service_account_name listed in
        (o : ResolvedCloudRoleBinding) × (storage.get_opt key.namespace key.service_account_name s'
          ≡ some o)
        × IsResolved key crbs o
  reconcile-IsResolved storage key listed s s' lists done =
      let crbs = relevant key.service_account_name listed in
      let merge = merge_inputs key.service_account_name crbs in
      let (r, s₂, resolved, written) = reconcile_inv cluster now key listed s s' lists done in
      upserted storage key crbs r s₂ s' (resolve-Follows key crbs merge r s s₂ resolved) written
