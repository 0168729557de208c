-- ===== src/Webhook/Reconcile.antt =====
-- app/crates/kif-webhook/src/reconcile.rs: `reconcile`, and
-- `upsert_resolved` of app/crates/kif-webhook/src/merge.rs. The API server is a state that the calls
-- read and change; a call can fail, and what was written before it stays.
pub mod Inversion
pub mod Resolved
pub mod Order
pub mod Reports
pub mod Said
pub mod Statuses
pub mod Writes
pub mod Total
pub mod Tests
use kubernetes_identity_fede.Base.{
  ℕ, String, Bool, true, false, Option, none, some, List, [], ◌∷◌, map, Result, ok, err, unwrap_or,
  filter, contains, if◌then◌else◌, ◌==◌, string_has_eq,
}
use kubernetes_identity_fede.Base.Calls.{Calls, ◌>>=◌, ◌>>◌, skip, lift, read, change}
use kubernetes_identity_fede.Base.Text.{is_empty}
use kubernetes_identity_fede.Api.Bindings.{ResolvedCloudRoleBindingSpec}
use kubernetes_identity_fede.Api.Status.{
  Time, CloudRoleBinding, CloudRoleBindingRef, CloudRoleBindingStatus, ResolvedCloudRoleBinding,
}
use kubernetes_identity_fede.Webhook.Merge.{MergeIssue, MergeResult, merge_inputs, crb_name}
use kubernetes_identity_fede.Webhook.Merge.Build.{
  build_resolved_from_spec, build_failed_resolved, build_crb_status,
}
use kubernetes_identity_fede.Webhook.Queue.{Key, System, mark}

-- The calls of the API server, and the pure libraries.
pub record Cluster : Type 1 where
  pub State : Type 0
  pub list_bindings : String → State → Result (List CloudRoleBinding) String
  pub replace_status : String → String → CloudRoleBinding → State → Result State String
  pub patch : String → String → ResolvedCloudRoleBinding → State → Result State String
  pub patch_status : String → String → ResolvedCloudRoleBinding → State → Result State String
  pub to_vec : ResolvedCloudRoleBindingSpec → Result (List ℕ) String
  pub sha256_hex : List ℕ → String

-- The bindings that name the ServiceAccount, and the references to them.
abbrev pub relevant : String → List CloudRoleBinding → List CloudRoleBinding
relevant sa = filter (λ crb. crb.spec.subject.service_account_name == sa)

abbrev pub reference : CloudRoleBinding → CloudRoleBindingRef
reference crb = record { name = crb_name crb; generation = crb.metadata.generation }

module _ (cluster : Cluster) (now : Time) where
  open cluster use {State, list_bindings, replace_status, patch, patch_status, to_vec, sha256_hex}

  abbrev pub M : Type 0 → Type 0
  M A = Calls State A

  abbrev pub with_status : CloudRoleBinding → CloudRoleBindingStatus → CloudRoleBinding
  with_status crb status = record crb { status = some status }

  -- The loop over the bindings after a success.
  unfoldable pub mark_ready : String → List CloudRoleBinding → M (Unit {0})
  mark_ready ns [] = skip
  mark_ready ns (crb ∷ crbs) =
      (if is_empty (crb_name crb)
        then skip
        else change (
            replace_status ns (crb_name crb)
              (with_status crb (build_crb_status now crb true none))))
      >> mark_ready ns crbs

  -- The loop over the bindings after a failure.
  unfoldable pub mark_failed : String → MergeIssue → List CloudRoleBinding → M (Unit {0})
  mark_failed ns issue [] = skip
  mark_failed ns issue (crb ∷ crbs) =
      (if is_empty (crb_name crb)
        then skip
        else if contains issue.affected_crb_names (crb_name crb)
        then change (
            replace_status ns (crb_name crb)
              (with_status crb (build_crb_status now crb false (some issue))))
        else skip)
      >> mark_failed ns issue crbs

  unfoldable pub upsert_resolved : String → ResolvedCloudRoleBinding → M (Unit {0})
  upsert_resolved ns resolved =
      let name = unwrap_or resolved.metadata.name "" in
      if is_empty name
      then lift (err "ResolvedCloudRoleBinding.metadata.name is required")
      else (change (patch ns name resolved) >> change (patch_status ns name resolved))

  -- The two arms of the match on the merge.
  unfoldable pub resolve :
      Key
      → List CloudRoleBinding
      → MergeResult ResolvedCloudRoleBindingSpec
      → M ResolvedCloudRoleBinding
  unfolding mark_ready mark_failed
  resolve key crbs (ok merged) = do
    mark_ready key.namespace crbs
    lift (
        build_resolved_from_spec to_vec sha256_hex now key.namespace key.service_account_name
          (map reference crbs) merged)
  resolve key crbs (err issue) = do
    mark_failed key.namespace issue crbs
    lift (
        ok (
          build_failed_resolved now key.namespace key.service_account_name (map reference crbs)
            issue))

  unfoldable pub reconcile : Key → M (Unit {0})
  unfolding resolve upsert_resolved
  reconcile key = do
    all ← read (list_bindings key.namespace)
    let crbs = relevant key.service_account_name all
    resolved ← resolve key crbs (merge_inputs key.service_account_name crbs)
    upsert_resolved key.namespace resolved
