-- ===== src/Webhook/Admission/Ready.antt =====
-- admission.rs: what `is_ready` looks for.
use kubernetes_identity_fede.Base.{
  ◌≡◌, refl, inl, inr, ◌↔◌, true, some, Any, any-Any, Any-any, Any-imp, arith, Option-cases,
}
use kubernetes_identity_fede.Api.Status.{
  Condition, ready, is_true, ResolvedCloudRoleBinding, ResolvedCloudRoleBindingStatus,
}
use kubernetes_identity_fede.Webhook.Admission.{says_ready, is_ready}

abbrev IsReadyCondition : Condition → Type 0
IsReadyCondition c = (c.type ≡ ready) × (c.status ≡ is_true)

-- A condition of the status is Ready and True.
abbrev pub IsReady : ResolvedCloudRoleBinding → Type 0
IsReady resolved =
    (status : ResolvedCloudRoleBindingStatus) × (resolved.status ≡ some status)
    × Any (λ (c : Condition). (c.type ≡ ready) × (c.status ≡ is_true)) status.conditions

says_ready_sound : (c : Condition) → says_ready c ≡ true → IsReadyCondition c
says_ready_sound c h = ground arith

says_ready_complete : (c : Condition) → IsReadyCondition c → says_ready c ≡ true
says_ready_complete c (type, status) = rw type (rw status refl)

-- `is_ready` finds such a condition.
pub is_ready_iff :
    (resolved : ResolvedCloudRoleBinding) → (is_ready resolved ≡ true) ↔ IsReady resolved
unfolding is_ready
is_ready_iff resolved = (sound, complete)
  where
    sound : is_ready resolved ≡ true → IsReady resolved
    sound h = elim (Option-cases resolved.status) [
      | inl missing ↦ absurd (ground arith)
      | inr (status, found) ↦ (
        status,
        found,
        Any-imp (λ c. says_ready c ≡ true) IsReadyCondition says_ready_sound status.conditions
            (any-Any says_ready status.conditions (ground arith)),
      )
    ]

    complete : IsReady resolved → is_ready resolved ≡ true
    complete (status, found, h) = rw found (
        Any-any says_ready status.conditions (
          Any-imp IsReadyCondition (λ c. says_ready c ≡ true) says_ready_complete status.conditions
            h))
