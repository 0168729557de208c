-- ===== src/Webhook/Reconcile/Said.antt =====
-- reconcile.rs: the two loops over the bindings, and what they leave at one binding.
use kubernetes_identity_fede.Base.{
  String, ◌≡◌, refl, sym, ap, ◌∙◌, Bool, true, false, Option, none, some, List, [], ◌∷◌,
  if◌then◌else◌, contains, string_has_eq, not, ◌&&◌, Bool-cases, inl, inr, arith,
}
use kubernetes_identity_fede.Base.Calls.{◌>>◌, skip, change}
use kubernetes_identity_fede.Base.Text.{is_empty}
use kubernetes_identity_fede.Api.Status.{Time, CloudRoleBinding, CloudRoleBindingStatus}
use kubernetes_identity_fede.Webhook.Merge.{MergeIssue, crb_name}
use kubernetes_identity_fede.Webhook.Merge.Build.{build_crb_status}
use kubernetes_identity_fede.Webhook.Reconcile.{Cluster, with_status, mark_ready, mark_failed}
use mathlib.Core.Option.{some-injective}
use kubernetes_identity_fede.Webhook.Reconcile.Reports.{
  ReportsReady, ReportsIssue, build_crb_status-ReportsReady, build_crb_status-ReportsIssue, IsIssue,
}
use kubernetes_identity_fede.Webhook.Reconcile.Writes.{
  Bindings, write_to, write_all, Written, kept, replaced,
}

abbrev pub has_name : CloudRoleBinding → Bool
has_name c = not (is_empty (crb_name c))

module _ (cluster : Cluster) (now : Time) (bindings : Bindings cluster) (ns : String) where
  open cluster use {State, replace_status}

  -- A binding with a name is reported as ready.
  abbrev pub ready_status : CloudRoleBinding → Option CloudRoleBinding
  ready_status c =
      if is_empty (crb_name c)
      then none
      else some (with_status cluster now c (build_crb_status now c true none))

  -- A binding that the issue names is reported as not ready, for that issue.
  abbrev pub failed_status : MergeIssue → CloudRoleBinding → Option CloudRoleBinding
  failed_status issue c =
      if is_empty (crb_name c)
      then none
      else if contains issue.affected_crb_names (crb_name c)
      then some (with_status cluster now c (build_crb_status now c false (some issue)))
      else none

  ready_step :
      (b : Bool) (name : String) (d : CloudRoleBinding)
      → (if b then skip else change (replace_status ns name d))
        ≡ write_to cluster bindings ns ready_status name (if b then none else some d)
  ready_step true name d = refl
  ready_step false name d = refl

  failed_step :
      (issue : MergeIssue) (b b' : Bool) (name : String) (d : CloudRoleBinding)
      → (if b then skip else if b' then change (replace_status ns name d) else skip)
        ≡ write_to cluster bindings ns
            (failed_status issue)
            name
            (if b then none else if b' then some d else none)
  failed_step issue true b' name d = refl
  failed_step issue false true name d = refl
  failed_step issue false false name d = refl

  pub mark_ready-write_all :
      (crbs : List CloudRoleBinding)
      → mark_ready cluster now ns crbs ≡ write_all cluster bindings ns ready_status crbs
  unfolding mark_ready write_all
  mark_ready-write_all [] = refl
  mark_ready-write_all (c ∷ crbs) =
      let step =
        ready_step (is_empty (crb_name c)) (crb_name c)
          (with_status cluster now c (build_crb_status now c true none)) in
      λ i. step i >> mark_ready-write_all crbs i

  pub mark_failed-write_all :
      (issue : MergeIssue) (crbs : List CloudRoleBinding)
      → mark_failed cluster now ns issue crbs
        ≡ write_all cluster bindings ns (failed_status issue) crbs
  unfolding mark_failed write_all
  mark_failed-write_all issue [] = refl
  mark_failed-write_all issue (c ∷ crbs) =
      let step =
        failed_step issue (is_empty (crb_name c)) (contains issue.affected_crb_names (crb_name c))
          (crb_name c) (with_status cluster now c (build_crb_status now c false (some issue))) in
      λ i. step i >> mark_failed-write_all issue crbs i

  -- The binding's status is a new one that tells this, if it is picked, and is as before if not.
  pub data Said (s s' : State) (c : CloudRoleBinding) (picked : Bool)
      (Tells : CloudRoleBindingStatus → Type 0) : Type 0 where
    passed_over :
        picked ≡ false
        → bindings.get ns (crb_name c) s' ≡ bindings.get ns (crb_name c) s
        → Said s s' c picked Tells
    told :
        (o : CloudRoleBinding) (status : CloudRoleBindingStatus)
        → picked ≡ true
        → bindings.get ns (crb_name c) s' ≡ some o
        → o.status ≡ some status
        → Tells status
        → Said s s' c picked Tells

  pub Written-ready :
      (s s' : State) (c : CloudRoleBinding)
      → Written cluster bindings ns ready_status s s' c
      → Said s s' c (has_name c) (ReportsReady now c)
  Written-ready s s' c w = elim (Bool-cases (is_empty (crb_name c))) [
    | inl blank ↦ elim w [
      | kept e h ↦ passed_over (ap not blank) h
      | replaced d o e found same ↦ absurd (ground arith)
    ]
    | inr named ↦ elim w [
      | kept e h ↦ absurd (ground arith)
      | replaced d o e found same ↦
          let new : some (with_status cluster now c (build_crb_status now c true none)) ≡ some d =
            rw named at e in
          told o _ (ap not named) found (same ∙ ap (λ x. x.status) (sym (some-injective _ _ new)))
            (build_crb_status-ReportsReady now c)
    ]
  ]

  pub Written-failed :
      (issue : MergeIssue)
      → IsIssue issue
      → (s s' : State) (c : CloudRoleBinding)
      → Written cluster bindings ns (failed_status issue) s s' c
      → Said s s' c
          (has_name c && contains issue.affected_crb_names (crb_name c))
          (ReportsIssue now issue c)
  Written-failed issue is_issue s s' c w =
      let picked = has_name c && contains issue.affected_crb_names (crb_name c) in
      let chosen : failed_status issue c ≡ (
          if picked
          then some (with_status cluster now c (build_crb_status now c false (some issue)))
          else none) =
        ground arith in
      elim (Bool-cases picked) [
        | inr out ↦ elim w [
          | kept e h ↦ passed_over out h
          | replaced d o e found same ↦ absurd (ground arith)
        ]
        | inl within ↦ elim w [
          | kept e h ↦ absurd (ground arith)
          | replaced d o e found same ↦
              let new : some (with_status cluster now c (build_crb_status now c false (some issue)))
                  ≡ some d =
                ground arith in
              told o _ within found (same ∙ ap (λ x. x.status) (sym (some-injective _ _ new)))
                (build_crb_status-ReportsIssue now c issue is_issue)
        ]
      ]

  pub Said-later :
      {picked : Bool} {Tells : CloudRoleBindingStatus → Type 0} (c : CloudRoleBinding)
      (s s₁ s' : State)
      → bindings.get ns (crb_name c) s' ≡ bindings.get ns (crb_name c) s₁
      → Said s s₁ c picked Tells
      → Said s s' c picked Tells
  Said-later c s s₁ s' same (passed_over out h) = passed_over out (same ∙ h)
  Said-later c s s₁ s' same (told o status within found at tells) =
      told o status within (same ∙ found) at tells
