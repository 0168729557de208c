-- ===== src/Webhook/Reconcile/Writes.antt =====
-- reconcile.rs: a loop that replaces the statuses of some of the bindings.
use kubernetes_identity_fede.Base.{
  String, ◌≡◌, ◌≢◌, refl, sym, ap, ◌∙◌, Option, none, some, List, [], ◌∷◌, ok, All,
}
use kubernetes_identity_fede.Base.Calls.{Calls, ◌>>◌, skip, change, bind_inv, change_inv}
use kubernetes_identity_fede.Api.Status.{CloudRoleBinding, ResolvedCloudRoleBinding}
use kubernetes_identity_fede.Webhook.Merge.{crb_name}
use kubernetes_identity_fede.Webhook.Reconcile.{Cluster}

-- What the code relies on: a replaced status is the one that the binding has then, and neither it nor
-- what is applied to the resolved resources changes another binding.
pub record Bindings (cluster : Cluster) : Type 0 where
  pub get : String → String → cluster.State → Option CloudRoleBinding
  pub get-replace :
      (ns name : String) (c : CloudRoleBinding) (s s' : cluster.State)
      → cluster.replace_status ns name c s ≡ ok s'
      → (o : CloudRoleBinding) × (get ns name s' ≡ some o) × (o.status ≡ c.status)
  pub get-replace_other :
      (ns name other : String) (c : CloudRoleBinding) (s s' : cluster.State)
      → name ≢ other
      → cluster.replace_status ns name c s ≡ ok s'
      → get ns other s' ≡ get ns other s
  pub get-patch :
      (ns name other : String) (r : ResolvedCloudRoleBinding) (s s' : cluster.State)
      → cluster.patch ns name r s ≡ ok s'
      → get ns other s' ≡ get ns other s
  pub get-patch_status :
      (ns name other : String) (r : ResolvedCloudRoleBinding) (s s' : cluster.State)
      → cluster.patch_status ns name r s ≡ ok s'
      → get ns other s' ≡ get ns other s

-- The bindings have different names, as those of one namespace do.
abbrev pub NodupCrbs : List CloudRoleBinding → Type 0
NodupCrbs [] = Unit
NodupCrbs (c ∷ crbs) = All (λ d. crb_name c ≢ crb_name d) crbs × NodupCrbs crbs

module _ (cluster : Cluster) (bindings : Bindings cluster) (ns : String)
    (chosen : CloudRoleBinding → Option CloudRoleBinding) where
  open cluster use {State, replace_status}

  abbrev pub write_to : String → Option CloudRoleBinding → Calls State (Unit {0})
  write_to name none = skip
  write_to name (some d) = change (replace_status ns name d)

  -- The loop, over the bindings with new statuses.
  unfoldable pub write_all : List CloudRoleBinding → Calls State (Unit {0})
  write_all [] = skip
  write_all (c ∷ crbs) = write_to (crb_name c) (chosen c) >> write_all crbs

  -- The binding has its new status, or is as before if it gets none.
  pub data Written (s s' : State) (c : CloudRoleBinding) : Type 0 where
    kept :
        chosen c ≡ none
        → bindings.get ns (crb_name c) s' ≡ bindings.get ns (crb_name c) s
        → Written s s' c
    replaced :
        (d o : CloudRoleBinding)
        → chosen c ≡ some d
        → bindings.get ns (crb_name c) s' ≡ some o
        → o.status ≡ d.status
        → Written s s' c

  -- One write, and another binding.
  write_to-other :
      (name other : String) (w : Option CloudRoleBinding) (s s' : State)
      → name ≢ other
      → write_to name w s ≡ (ok tt, s')
      → bindings.get ns other s' ≡ bindings.get ns other s
  write_to-other name other none s s' differs h = ap (λ p. bindings.get ns other p.1) (sym h)
  write_to-other name other (some d) s s' differs h =
      bindings.get-replace_other ns name other d s s' differs
        (change_inv (replace_status ns name d) s {u = tt} h)

  write_to-Written :
      (c : CloudRoleBinding) (w : Option CloudRoleBinding) (s s' : State)
      → chosen c ≡ w
      → write_to (crb_name c) w s ≡ (ok tt, s')
      → Written s s' c
  write_to-Written c none s s' e h = kept e (ap (λ p. bindings.get ns (crb_name c) p.1) (sym h))
  write_to-Written c (some d) s s' e h =
      let (o, found, same) =
        bindings.get-replace ns (crb_name c) d s s'
          (change_inv (replace_status ns (crb_name c) d) s {u = tt} h) in
      replaced d o e found same

  -- What comes later leaves the binding alone, or what came before did.
  pub Written-later :
      (c : CloudRoleBinding) (s s₁ s' : State)
      → bindings.get ns (crb_name c) s' ≡ bindings.get ns (crb_name c) s₁
      → Written s s₁ c
      → Written s s' c
  Written-later c s s₁ s' same (kept e h) = kept e (same ∙ h)
  Written-later c s s₁ s' same (replaced d o e h k) = replaced d o e (same ∙ h) k

  Written-earlier :
      (s s₁ s' : State) (c : CloudRoleBinding)
      → bindings.get ns (crb_name c) s₁ ≡ bindings.get ns (crb_name c) s
      → Written s₁ s' c
      → Written s s' c
  Written-earlier s s₁ s' c same (kept e h) = kept e (h ∙ same)
  Written-earlier s s₁ s' c same (replaced d o e h k) = replaced d o e h k

  write_all-other :
      (other : String) (crbs : List CloudRoleBinding) (s s' : State)
      → All (λ d. other ≢ crb_name d) crbs
      → write_all crbs s ≡ (ok tt, s')
      → bindings.get ns other s' ≡ bindings.get ns other s
  unfolding write_all
  write_all-other other [] s s' differs h = ap (λ p. bindings.get ns other p.1) (sym h)
  write_all-other other (c ∷ crbs) s s' (p, differs) h =
      let (u, s₁, first, rest) =
        bind_inv (write_to (crb_name c) (chosen c)) (λ _. write_all crbs) s h in
      write_all-other other crbs s₁ s' differs rest
      ∙ write_to-other (crb_name c) other (chosen c) s s₁ (λ e. p (sym e)) first

  All-earlier :
      (name : String) (w : Option CloudRoleBinding) (crbs : List CloudRoleBinding) (s s₁ s' : State)
      → All (λ d. name ≢ crb_name d) crbs
      → write_to name w s ≡ (ok tt, s₁)
      → All (Written s₁ s') crbs
      → All (Written s s') crbs
  All-earlier name w [] s s₁ s' differs h rest = tt
  All-earlier name w (c ∷ crbs) s s₁ s' (p, differs) h (r, rest) = (
    Written-earlier s s₁ s' c (write_to-other name (crb_name c) w s s₁ p h) r,
    All-earlier name w crbs s s₁ s' differs h rest,
  )

  -- After the loop every binding has its new status, or is as before.
  pub write_all-Written :
      (crbs : List CloudRoleBinding) (s s' : State)
      → NodupCrbs crbs
      → write_all crbs s ≡ (ok tt, s')
      → All (Written s s') crbs
  unfolding write_all
  write_all-Written [] s s' distinct h = tt
  write_all-Written (c ∷ crbs) s s' (differs, distinct) h =
      let (u, s₁, first, rest) =
        bind_inv (write_to (crb_name c) (chosen c)) (λ _. write_all crbs) s h in
      (
        Written-later c s s₁ s' (write_all-other (crb_name c) crbs s₁ s' differs rest)
            (write_to-Written c (chosen c) s s₁ refl first),
        All-earlier (crb_name c) (chosen c) crbs s s₁ s' differs first
            (write_all-Written crbs s₁ s' distinct rest),
      )
