-- ===== src/Webhook/Reconcile/Statuses.antt =====
-- reconcile.rs: the statuses that a round leaves at the bindings of its ServiceAccount.
use kubernetes_identity_fede.Base.{
  String, ◌≡◌, refl, sym, ap, ◌∙◌, List, map, ok, err, All, All-imp, contains, string_has_eq, ◌&&◌,
}
use kubernetes_identity_fede.Base.Calls.{lift, bind_inv, lift_inv}
use kubernetes_identity_fede.Api.Bindings.{ResolvedCloudRoleBindingSpec}
use kubernetes_identity_fede.Api.Status.{Time, CloudRoleBinding, ResolvedCloudRoleBinding}
use kubernetes_identity_fede.Webhook.Queue.{Key}
use kubernetes_identity_fede.Webhook.Merge.{MergeIssue, MergeResult, merge_inputs, crb_name}
use kubernetes_identity_fede.Webhook.Merge.Build.{build_resolved_from_spec, build_failed_resolved}
use kubernetes_identity_fede.Webhook.Reconcile.{
  Cluster, relevant, reference, mark_ready, mark_failed, resolve, reconcile,
}
use kubernetes_identity_fede.Webhook.Reconcile.Reports.{
  ReportsReady, ReportsIssue, merge_inputs-IsIssue, IsIssue,
}
use kubernetes_identity_fede.Webhook.Reconcile.Inversion.{upsert_resolved_inv, reconcile_inv}
use kubernetes_identity_fede.Webhook.Reconcile.Writes.{Bindings, NodupCrbs, write_all-Written}
use kubernetes_identity_fede.Webhook.Reconcile.Said.{
  ready_status, failed_status, mark_ready-write_all, mark_failed-write_all, Said, has_name,
  Written-ready, Written-failed, Said-later,
}

module _ (cluster : Cluster) (now : Time) (bindings : Bindings cluster) (ns : String) where
  open cluster use {State}

  -- What the bindings say of the merge.
  pub data Reported (crbs : List CloudRoleBinding) (s s' : State)
      (merge : MergeResult ResolvedCloudRoleBindingSpec) : Type 0 where
    merged :
        (spec : ResolvedCloudRoleBindingSpec)
        → merge ≡ ok spec
        → All (λ c. Said cluster now bindings ns s s' c (has_name c) (ReportsReady now c)) crbs
        → Reported crbs s s' merge
    failed :
        (issue : MergeIssue)
        → merge ≡ err issue
        → All
            (λ c.
              Said cluster now bindings ns s s' c
                (has_name c && contains issue.affected_crb_names (crb_name c))
                (ReportsIssue now issue c))
            crbs
        → Reported crbs s s' merge

module _ (cluster : Cluster) (now : Time) (bindings : Bindings cluster) (key : Key) where
  open cluster use {State, list_bindings, patch, patch_status, to_vec, sha256_hex}

  resolve-Reported :
      (crbs : List CloudRoleBinding) (m : MergeResult ResolvedCloudRoleBindingSpec) (s s' : State)
      (r : ResolvedCloudRoleBinding)
      → ((issue : MergeIssue) → m ≡ err issue → IsIssue issue)
      → NodupCrbs crbs
      → resolve cluster now key crbs m s ≡ (ok r, s')
      → Reported cluster now bindings key.namespace crbs s s' m
  unfolding resolve
  resolve-Reported crbs (ok spec) s s' r issues distinct h =
      let result =
        build_resolved_from_spec to_vec sha256_hex now key.namespace key.service_account_name
          (map reference crbs) spec in
      let (u, s₁, marked, h') =
        bind_inv (mark_ready cluster now key.namespace crbs) (λ _. lift result) s h in
      let at_s = (lift_inv result s₁ h').1 in
      merged spec refl (
        All-imp _ _ (Written-ready cluster now bindings key.namespace s s') crbs (
          write_all-Written cluster bindings key.namespace
            (ready_status cluster now bindings key.namespace) crbs s s' distinct
            (ap (λ f. f s) (sym (mark_ready-write_all cluster now bindings key.namespace crbs))
              ∙ marked
              ∙ ap (λ t. (ok tt, t)) at_s)))
  resolve-Reported crbs (err issue) s s' r issues distinct h =
      let result =
        build_failed_resolved now key.namespace key.service_account_name (map reference crbs)
          issue in
      let (u, s₁, marked, h') =
        bind_inv (mark_failed cluster now key.namespace issue crbs) (λ _. lift (ok result)) s h in
      let at_s = (lift_inv (ok result) s₁ h').1 in
      failed issue refl (
        All-imp _ _
          (Written-failed cluster now bindings key.namespace issue (issues issue refl) s s') crbs
          (write_all-Written cluster bindings key.namespace
            (failed_status cluster now bindings key.namespace issue) crbs s s' distinct
            (ap (λ f. f s)
                (sym (mark_failed-write_all cluster now bindings key.namespace issue crbs))
              ∙ marked
              ∙ ap (λ t. (ok tt, t)) at_s)))

  -- A write to a resolved resource leaves the bindings' statuses.
  Reported-later :
      (crbs : List CloudRoleBinding) (s s₁ s' : State)
      (m : MergeResult ResolvedCloudRoleBindingSpec)
      → ((name : String) → bindings.get key.namespace name s' ≡ bindings.get key.namespace name s₁)
      → Reported cluster now bindings key.namespace crbs s s₁ m
      → Reported cluster now bindings key.namespace crbs s s' m
  Reported-later crbs s s₁ s' m same (merged spec e w) = merged spec e (
      All-imp _ _ (λ c. Said-later cluster now bindings key.namespace c s s₁ s' (same (crb_name c)))
        crbs w)
  Reported-later crbs s s₁ s' m same (failed issue e w) = failed issue e (
      All-imp _ _ (λ c. Said-later cluster now bindings key.namespace c s s₁ s' (same (crb_name c)))
        crbs w)

  -- If a replaced status is read back and no write changes another binding, and the bindings of
  -- the ServiceAccount have different names, after a round that succeeds either their merge has
  -- succeeded and every binding with a name has a status that is of its generation and time, says
  -- Ready, no Conflict and no InvalidSpec, and has no last error; or it has failed and every
  -- binding with a name that the issue names has a status that is of its generation and time, says
  -- not Ready and the issue's own condition, both with the issue's reason and message, and has
  -- that message as its last error; and all other bindings are as before.
  pub reconcile-Reported :
      (all_ : List CloudRoleBinding) (s s' : State)
      → list_bindings key.namespace s ≡ ok all_
      → NodupCrbs (relevant key.service_account_name all_)
      → reconcile cluster now key s ≡ (ok tt, s')
      → let crbs = relevant key.service_account_name all_ in
        Reported cluster now bindings key.namespace crbs s s'
          (merge_inputs key.service_account_name crbs)
  reconcile-Reported all_ s s' listed distinct h =
      let crbs = relevant key.service_account_name all_ in
      let merge = merge_inputs key.service_account_name crbs in
      let (r, s₁, resolved, written) = reconcile_inv cluster now key all_ s s' listed h in
      let (s₂, first, second) = upsert_resolved_inv cluster now key.namespace r s₁ s' written in
      Reported-later crbs s s₁ s' merge
        (λ name.
          bindings.get-patch_status key.namespace _ name r s₂ s' second
          ∙ bindings.get-patch key.namespace _ name r s₁ s₂ first)
        (resolve-Reported crbs merge s s₁ r (merge_inputs-IsIssue key.service_account_name crbs)
          distinct resolved)
