-- ===== src/Webhook/Reconcile/Total.antt =====
-- reconcile.rs: a round on an API server that answers every call.
use kubernetes_identity_fede.Base.{
  ℕ, String, ◌≡◌, refl, Bool, true, false, List, [], ◌∷◌, map, Result, ok, err, contains, arith, ap,
  ◌∙◌, if◌then◌else◌, string_has_eq, unwrap_or, Result-cases, inl, inr,
}
use kubernetes_identity_fede.Base.Text.{is_empty}
use kubernetes_identity_fede.Base.Calls.{Calls, ◌>>=◌, skip, read, change}
use kubernetes_identity_fede.Api.Bindings.{ResolvedCloudRoleBindingSpec}
use kubernetes_identity_fede.Api.Status.{Time, CloudRoleBinding, ResolvedCloudRoleBinding}
use kubernetes_identity_fede.Webhook.Merge.{MergeIssue, MergeResult, merge_inputs, crb_name}
use kubernetes_identity_fede.Webhook.Merge.Build.{build_resolved_from_spec, build_failed_resolved}
use kubernetes_identity_fede.Webhook.Queue.{Key}
use kubernetes_identity_fede.Webhook.Reconcile.Inversion.{upsert_resolved-named}
use kubernetes_identity_fede.Webhook.Reconcile.Resolved.{resolve-Follows}
use kubernetes_identity_fede.Webhook.Reconcile.{
  Cluster, mark_ready, mark_failed, upsert_resolved, relevant, reference, resolve, reconcile,
}

-- Every call succeeds.
pub record Answers (cluster : Cluster) : Type 0 where
  pub lists :
      (ns : String) (s : cluster.State)
      → (all : List CloudRoleBinding) × (cluster.list_bindings ns s ≡ ok all)
  pub replaces :
      (ns name : String) (crb : CloudRoleBinding) (s : cluster.State)
      → (s' : cluster.State) × (cluster.replace_status ns name crb s ≡ ok s')
  pub patches :
      (ns name : String) (r : ResolvedCloudRoleBinding) (s : cluster.State)
      → (s' : cluster.State) × (cluster.patch ns name r s ≡ ok s')
  pub patches_status :
      (ns name : String) (r : ResolvedCloudRoleBinding) (s : cluster.State)
      → (s' : cluster.State) × (cluster.patch_status ns name r s ≡ ok s')
  pub writes :
      (spec : ResolvedCloudRoleBindingSpec) → (bytes : List ℕ) × (cluster.to_vec spec ≡ ok bytes)

-- The calls return a value.
abbrev pub Returns : {S A : Type 0} → Calls S A → Type 0
Returns {S} {A} m = (s : S) → (a : A) × (s' : S) × (m s ≡ (ok a, s'))

chain :
    {S A B : Type 0} (m : Calls S A) (f : A → Calls S B) (s : S) {a : A} {s₁ : S}
    {p : Result B String × S}
    → m s ≡ (ok a, s₁)
    → f a s₁ ≡ p
    → (m >>= f) s ≡ p
chain {S} {A} {B} m f s h h' =
    ap (λ (q : Result A String × S). elim q.0 [ ok a ↦ f a q.1 | err e ↦ (err e, q.1) ]) h ∙ h'

Returns-bind :
    {S A B : Type 0} (m : Calls S A) (f : A → Calls S B)
    → Returns m
    → ((a : A) → Returns (f a))
    → Returns (m >>= f)
Returns-bind {S} {A} {B} m f first later s =
    let (a, s₁, h) = first s in let (b, s₂, h') = later a s₁ in (b, s₂, chain m f s h h')

Returns-change :
    {S : Type 0} (f : S → Result S String)
    → ((s : S) → (s' : S) × (f s ≡ ok s'))
    → Returns (change f)
Returns-change f succeeds s = let (s', h) = succeeds s in (tt, s', rw (h, change) refl)

Returns-skip : {S : Type 0} → Returns (skip {S = S})
Returns-skip s = (tt, s, refl)

Returns-if :
    {S A : Type 0} (t : Bool) (m n : Calls S A)
    → Returns m
    → Returns n
    → Returns (if t then m else n)
Returns-if true m n p q = p
Returns-if false m n p q = q

module _ (cluster : Cluster) (now : Time) (answers : Answers cluster) where
  mark_ready-Returns :
      (ns : String) (crbs : List CloudRoleBinding) → Returns (mark_ready cluster now ns crbs)
  unfolding mark_ready
  mark_ready-Returns ns [] = Returns-skip
  mark_ready-Returns ns (crb ∷ crbs) =
      Returns-bind _ (λ _. mark_ready cluster now ns crbs)
        (Returns-if (is_empty (crb_name crb)) skip _ Returns-skip
          (Returns-change _ (answers.replaces ns (crb_name crb) _)))
        (λ u. mark_ready-Returns ns crbs)

  mark_failed-Returns :
      (ns : String) (issue : MergeIssue) (crbs : List CloudRoleBinding)
      → Returns (mark_failed cluster now ns issue crbs)
  unfolding mark_failed
  mark_failed-Returns ns issue [] = Returns-skip
  mark_failed-Returns ns issue (crb ∷ crbs) =
      Returns-bind _ (λ _. mark_failed cluster now ns issue crbs)
        (Returns-if (is_empty (crb_name crb)) skip _ Returns-skip (
          Returns-if (contains issue.affected_crb_names (crb_name crb)) _ skip
            (Returns-change _ (answers.replaces ns (crb_name crb) _)) Returns-skip))
        (λ u. mark_failed-Returns ns issue crbs)

  build_resolved-ok :
      (ns sa : String) (crbs : List CloudRoleBinding) (merged : ResolvedCloudRoleBindingSpec)
      → (r : ResolvedCloudRoleBinding) × (build_resolved_from_spec cluster.to_vec cluster.sha256_hex
            now ns sa
            (map reference crbs)
            merged
          ≡ ok r)
  unfolding build_resolved_from_spec
  build_resolved-ok ns sa crbs merged =
      let (bytes, written) = answers.writes merged in
      elim (Result-cases (
        build_resolved_from_spec cluster.to_vec cluster.sha256_hex now ns sa (map reference crbs)
          merged)) [ inl built ↦ built | inr (e, failed) ↦ absurd (ground arith) ]

  resolve-Returns :
      (key : Key) (crbs : List CloudRoleBinding) (merge : MergeResult ResolvedCloudRoleBindingSpec)
      → Returns (resolve cluster now key crbs merge)
  unfolding resolve
  resolve-Returns key crbs (ok merged) =
      let (r, built) = build_resolved-ok key.namespace key.service_account_name crbs merged in
      Returns-bind (mark_ready cluster now key.namespace crbs) _
        (mark_ready-Returns key.namespace crbs) (λ u s. (r, s, ap (λ b. (b, s)) built))
  resolve-Returns key crbs (err issue) =
      Returns-bind (mark_failed cluster now key.namespace issue crbs) _
        (mark_failed-Returns key.namespace issue crbs)
        (λ u s. (
          build_failed_resolved now key.namespace key.service_account_name (map reference crbs)
              issue,
          s,
          refl,
        ))

  upsert_resolved-Returns :
      (ns : String) (r : ResolvedCloudRoleBinding)
      → is_empty (unwrap_or r.metadata.name "") ≡ false
      → Returns (upsert_resolved cluster now ns r)
  upsert_resolved-Returns ns r named s =
      let name = unwrap_or r.metadata.name "" in
      let (u, s', h) =
        Returns-bind (change (cluster.patch ns name r))
          (λ _. change (cluster.patch_status ns name r))
          (Returns-change (cluster.patch ns name r) (answers.patches ns name r))
          (λ _. Returns-change (cluster.patch_status ns name r) (answers.patches_status ns name r))
          s in
      (u, s', upsert_resolved-named cluster now ns r s named ∙ h)

  -- If the API server answers every call and every spec can be serialized, a round for a
  -- ServiceAccount whose name is not empty succeeds.
  pub reconcile-ok :
      (key : Key) (s : cluster.State)
      → is_empty key.service_account_name ≡ false
      → (s' : cluster.State) × (reconcile cluster now key s ≡ (ok tt, s'))
  unfolding reconcile
  reconcile-ok key s named =
      let (all, listed) = answers.lists key.namespace s in
      let crbs = relevant key.service_account_name all in
      let merge = merge_inputs key.service_account_name crbs in
      let (r, s₁, resolved) = resolve-Returns key crbs merge s in
      let (has_name, merges, fails) = resolve-Follows cluster now key crbs merge r s s₁ resolved in
      let (u, s₂, upserted) = upsert_resolved-Returns key.namespace r (rw has_name named) s₁ in
      (
        s₂,
        chain (read (cluster.list_bindings key.namespace))
            (λ all.
              ◌>>=◌
                (resolve cluster now key (relevant key.service_account_name all)
                  (merge_inputs key.service_account_name (relevant key.service_account_name all)))
                (upsert_resolved cluster now key.namespace))
            s (ap (λ l. (l, s)) listed)
            (chain (resolve cluster now key crbs merge) (upsert_resolved cluster now key.namespace)
              s resolved upserted),
      )
