-- ===== src/Webhook/Reconcile/Inversion.antt =====
-- reconcile.rs: the calls that a round of a worker has made once it has returned a value.
use kubernetes_identity_fede.Base.{
  String, ◌≡◌, sym, ap, ◌∙◌, subst, ok-injective, inl, inr, true, false, List, ok, err, unwrap_or,
  arith, Bool-cases,
}
use kubernetes_identity_fede.Base.Calls.{◌>>=◌, read, change, bind_inv, change_inv}
use kubernetes_identity_fede.Base.Text.{is_empty}
use kubernetes_identity_fede.Api.Status.{Time, CloudRoleBinding, ResolvedCloudRoleBinding}
use kubernetes_identity_fede.Webhook.Merge.{merge_inputs}
use kubernetes_identity_fede.Webhook.Queue.{Key}
use kubernetes_identity_fede.Webhook.Reconcile.{
  Cluster, upsert_resolved, relevant, resolve, reconcile,
}

module _ (cluster : Cluster) (now : Time) where
  -- The two calls of `upsert_resolved`, once there is a name.
  pub upsert_resolved-named :
      (ns : String) (r : ResolvedCloudRoleBinding) (s : cluster.State)
      → is_empty (unwrap_or r.metadata.name "") ≡ false
      → upsert_resolved cluster now ns r s
        ≡ ◌>>=◌
            (change (cluster.patch ns (unwrap_or r.metadata.name "") r))
            (λ _. change (cluster.patch_status ns (unwrap_or r.metadata.name "") r))
            s
  unfolding upsert_resolved
  upsert_resolved-named ns r s named = rw named

  upsert_resolved-unnamed :
      (ns : String) (r : ResolvedCloudRoleBinding) (s : cluster.State)
      → is_empty (unwrap_or r.metadata.name "") ≡ true
      → upsert_resolved cluster now ns r s
        ≡ (err "ResolvedCloudRoleBinding.metadata.name is required", s)
  unfolding upsert_resolved
  upsert_resolved-unnamed ns r s named = rw named

  pub upsert_resolved_inv :
      (ns : String) (r : ResolvedCloudRoleBinding) (s s' : cluster.State)
      → upsert_resolved cluster now ns r s ≡ (ok tt, s')
      → let name = unwrap_or r.metadata.name "" in
        (s₁ : cluster.State) × (cluster.patch ns name r s ≡ ok s₁)
        × (cluster.patch_status ns name r s₁ ≡ ok s')
  upsert_resolved_inv ns r s s' h =
      let name = unwrap_or r.metadata.name "" in
      elim (Bool-cases (is_empty name)) [
        | inl empty ↦
            let failed = sym (upsert_resolved-unnamed ns r s empty) ∙ h in absurd (ground arith)
        | inr named ↦
            let (u, s₁, first, second) =
              bind_inv (change (cluster.patch ns name r))
                (λ _. change (cluster.patch_status ns name r)) s
                (sym (upsert_resolved-named ns r s named) ∙ h) in
            (
              s₁,
              change_inv (cluster.patch ns name r) s {u = u} first,
              change_inv (cluster.patch_status ns name r) s₁ {u = tt} second,
            )
      ]

  -- The two parts of a round that returns a value.
  pub reconcile_inv :
      (key : Key) (listed : List CloudRoleBinding) (s s' : cluster.State)
      → cluster.list_bindings key.namespace s ≡ ok listed
      → reconcile cluster now key s ≡ (ok tt, s')
      → let crbs = relevant key.service_account_name listed in
        (r : ResolvedCloudRoleBinding) × (s₁ : cluster.State) × (resolve cluster now key crbs
            (merge_inputs key.service_account_name crbs)
            s
          ≡ (ok r, s₁))
        × (upsert_resolved cluster now key.namespace r s₁ ≡ (ok tt, s'))
  unfolding reconcile
  reconcile_inv key listed s s' lists done =
      let crbs = relevant key.service_account_name listed in
      let merge = merge_inputs key.service_account_name crbs in
      let (all, s₁, listing, rest) =
        bind_inv (read (cluster.list_bindings key.namespace))
          (λ all.
            ◌>>=◌
              (resolve cluster now key (relevant key.service_account_name all)
                (merge_inputs key.service_account_name (relevant key.service_account_name all)))
              (upsert_resolved cluster now key.namespace))
          s done in
      let same : all ≡ listed = ok-injective (sym (ap (λ p. p.0) listing) ∙ lists) in
      let rest' =
        subst
          (λ all.
            ◌>>=◌
              (resolve cluster now key (relevant key.service_account_name all)
                (merge_inputs key.service_account_name (relevant key.service_account_name all)))
              (upsert_resolved cluster now key.namespace) s₁
            ≡ (ok tt, s'))
          same rest in
      let (r, s₂, resolved, written) =
        bind_inv (resolve cluster now key crbs merge) (upsert_resolved cluster now key.namespace) s₁
          rest' in
      let at_s : s₁ ≡ s = sym (ap (λ p. p.1) listing) in
      (r, s₂, ap (resolve cluster now key crbs merge) (sym at_s) ∙ resolved, written)
