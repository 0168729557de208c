-- ===== src/Webhook/Reconcile/Reports.antt =====
-- merge.rs: what a status of `build_crb_status` tells of its binding.
use kubernetes_identity_fede.Base.{
  String, ◌≡◌, ◌≢◌, ap, err, refl, ◌⊎◌, inl, inr, none, some, List, Any, here, there, All,
  unwrap_or, true, false,
}
use kubernetes_identity_fede.Base.Signed.{pos}
use kubernetes_identity_fede.Api.Status.{
  Time, Condition, ConditionType, ConditionStatus, ConditionReason, CloudRoleBinding,
  CloudRoleBindingStatus, ready, conflict, invalid_spec, is_true, is_false, validated,
}
use kubernetes_identity_fede.Webhook.Merge.{MergeIssue, merge_inputs, aws_issue, crb_name}
use kubernetes_identity_fede.Webhook.Merge.Failure.{
  Breaks, no_provider, two_aws, include_differs, same_key, at_binding, no_aws, merge_inputs-Fails,
}
use kubernetes_identity_fede.Webhook.Merge.Build.{build_crb_status}

-- The status has such a condition, and none of this type that says otherwise.
pub record Says (type : ConditionType) (says : ConditionStatus) (reason : ConditionReason)
    (message : String) (status : CloudRoleBindingStatus) : Type 0 where
  pub present :
      Any
        (λ (c : Condition).
          (c.type ≡ type) × (c.status ≡ says) × (c.reason ≡ reason) × (c.message ≡ message))
        status.conditions
  pub only : All (λ (c : Condition). (c.type ≢ type) ⊎ (c.status ≡ says)) status.conditions

-- The conditions are those of the binding's generation, at this time.
abbrev pub IsObserved : Time → CloudRoleBinding → CloudRoleBindingStatus → Type 0
IsObserved now crb status =
    All
      (λ (c : Condition).
        (c.observed_generation ≡ unwrap_or crb.metadata.generation (pos 0))
        × (c.last_transition_time ≡ now))
      status.conditions

-- The binding is ready, in no conflict, and valid.
pub record ReportsReady (now : Time) (crb : CloudRoleBinding) (status : CloudRoleBindingStatus)
    : Type 0 where
  pub ready_so : Says ready is_true validated "validated" status
  pub no_conflict : Says conflict is_false validated "no conflicts" status
  pub valid : Says invalid_spec is_false validated "spec is valid" status
  pub observed : IsObserved now crb status
  pub no_error : status.last_error ≡ none

-- The binding is not ready, and has the issue.
pub record ReportsIssue (now : Time) (issue : MergeIssue) (crb : CloudRoleBinding)
    (status : CloudRoleBindingStatus) : Type 0 where
  pub unready : Says ready is_false issue.reason issue.message status
  pub has_issue : Says issue.condition_type is_true issue.reason issue.message status
  pub observed : IsObserved now crb status
  pub last_error : status.last_error ≡ some issue.message

pub build_crb_status-ReportsReady :
    (now : Time) (crb : CloudRoleBinding)
    → ReportsReady now crb (build_crb_status now crb true none)
unfolding build_crb_status
build_crb_status-ReportsReady now crb = record {
  ready_so = record {
    present = here (refl, refl, refl, refl);
    only = (inr refl, (inl (λ e. cc e), (inl (λ e. cc e), tt)));
  };
  no_conflict = record {
    present = there (here (refl, refl, refl, refl));
    only = (inl (λ e. cc e), (inr refl, (inl (λ e. cc e), tt)));
  };
  valid = record {
    present = there (there (here (refl, refl, refl, refl)));
    only = (inl (λ e. cc e), (inl (λ e. cc e), (inr refl, tt)));
  };
  observed = ((refl, refl), ((refl, refl), ((refl, refl), tt)));
  no_error = refl;
}

-- A failed merge is a conflict or an invalid spec.
abbrev pub IsIssue : MergeIssue → Type 0
IsIssue issue = (issue.condition_type ≡ conflict) ⊎ (issue.condition_type ≡ invalid_spec)

two_aws-conflict :
    (c : CloudRoleBinding) (issue : MergeIssue) {before : List CloudRoleBinding}
    → Any
        (λ b. (b.spec.providers.aws ≢ none) × (issue ≡ aws_issue (some (crb_name b)) (crb_name c)))
        before
    → issue.condition_type ≡ conflict
two_aws-conflict c issue (here (set, e)) = ap (λ i. i.condition_type) e
two_aws-conflict c issue (there later) = two_aws-conflict c issue later

Breaks-IsIssue :
    {names : List String} {before : List CloudRoleBinding} {c : CloudRoleBinding}
    {issue : MergeIssue}
    → Breaks names before c issue
    → IsIssue issue
Breaks-IsIssue (no_provider p e) = inr (ap (λ i. i.condition_type) e)
Breaks-IsIssue {c = c} {issue = issue} (two_aws p earlier) = inl (two_aws-conflict c issue earlier)
Breaks-IsIssue (include_differs u v p q r e) = inl (ap (λ i. i.condition_type) e)
Breaks-IsIssue (same_key k v earlier later p q e) = inl (ap (λ i. i.condition_type) e)

pub merge_inputs-IsIssue :
    (sa_name : String) (crbs : List CloudRoleBinding) (issue : MergeIssue)
    → merge_inputs sa_name crbs ≡ err issue
    → IsIssue issue
merge_inputs-IsIssue sa_name crbs issue h = elim (merge_inputs-Fails sa_name crbs issue h) [
  | at_binding before after c split breaks ↦ Breaks-IsIssue breaks
  | no_aws missing e ↦ inr (ap (λ i. i.condition_type) e)
]

-- A status with the condition of an issue behind the first.
issue_reports :
    (now : Time) (crb : CloudRoleBinding) (type : ConditionType) (issue : MergeIssue)
    → IsIssue issue
    → issue.condition_type ≡ type
    → ReportsIssue now
        (record issue { condition_type = type })
        crb
        (build_crb_status now crb false (some (record issue { condition_type = type })))
unfolding build_crb_status
issue_reports now crb ready issue is_issue e =
    absurd (elim is_issue [ inl c ↦ cc (c, e) | inr c ↦ cc (c, e) ])
issue_reports now crb conflict issue is_issue e = record {
  unready = record {
    present = here (refl, refl, refl, refl);
    only = (inr refl, (inl (λ h. cc h), tt));
  };
  has_issue = record {
    present = there (here (refl, refl, refl, refl));
    only = (inl (λ h. cc h), (inr refl, tt));
  };
  observed = ((refl, refl), ((refl, refl), tt));
  last_error = refl;
}
issue_reports now crb invalid_spec issue is_issue e = record {
  unready = record {
    present = here (refl, refl, refl, refl);
    only = (inr refl, (inl (λ h. cc h), tt));
  };
  has_issue = record {
    present = there (here (refl, refl, refl, refl));
    only = (inl (λ h. cc h), (inr refl, tt));
  };
  observed = ((refl, refl), ((refl, refl), tt));
  last_error = refl;
}

pub build_crb_status-ReportsIssue :
    (now : Time) (crb : CloudRoleBinding) (issue : MergeIssue)
    → IsIssue issue
    → ReportsIssue now issue crb (build_crb_status now crb false (some issue))
build_crb_status-ReportsIssue now crb issue is_issue =
    issue_reports now crb issue.condition_type issue is_issue refl
