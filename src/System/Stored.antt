-- ===== src/System/Stored.antt =====
-- app/crates/kif-webhook/src/reconcile.rs: what a round on bindings that merge leaves at the API server,
-- and a federation service that reads it.
use kubernetes_identity_fede.Base.{
  ℕ, String, ◌≡◌, sym, ap, ◌∙◌, inl, inr, some, List, ok, and_then-eq-some, ok-injective,
}
use kubernetes_identity_fede.Base.Text.{trim}
use kubernetes_identity_fede.Api.Bindings.{AwsProviderSpec, ResolvedCloudRoleBindingSpec}
use kubernetes_identity_fede.Api.Status.{
  Time, CloudRoleBinding, ResolvedCloudRoleBinding, ResolvedCloudRoleBindingStatus,
}
use kubernetes_identity_fede.Webhook.Merge.{merge_inputs}
use kubernetes_identity_fede.Webhook.Merge.Sound.{merge_inputs-ok_iff}
use kubernetes_identity_fede.Webhook.Mutate.Inject.{HasRole}
use kubernetes_identity_fede.Webhook.Admission.Ready.{IsReady}
use kubernetes_identity_fede.Webhook.Queue.{Key}
use kubernetes_identity_fede.Webhook.Reconcile.{Cluster}
use kubernetes_identity_fede.Webhook.Reconcile.Resolved.{Storage, IsResolved}
use kubernetes_identity_fede.Federation.Claims.{AwsClaims}
use kubernetes_identity_fede.Federation.Subject.{token_review, parse_service_account_username}
use kubernetes_identity_fede.Federation.Mint.{MintContext}

-- The bindings merge, their AWS role is not blank, and the merged spec can be written out.
pub record Usable (cluster : Cluster) (sa_name : String) (crbs : List CloudRoleBinding)
    : Type 0 where
  pub merged : ResolvedCloudRoleBindingSpec
  pub aws : AwsProviderSpec
  pub bytes : List ℕ
  pub merges : merge_inputs sa_name crbs ≡ ok merged
  pub configured : merged.providers.aws ≡ some aws
  pub role : HasRole aws
  pub written : cluster.to_vec merged ≡ ok bytes

-- The resource is the ready merge of the bindings.
pub record IsMerged (cluster : Cluster) (sa_name : String) (crbs : List CloudRoleBinding)
    (u : Usable cluster sa_name crbs) (o : ResolvedCloudRoleBinding) : Type 0 where
  pub is_so : IsReady o
  pub status : ResolvedCloudRoleBindingStatus
  pub recorded : o.status ≡ some status
  pub hashed : status.config_hash ≡ some (cluster.sha256_hex u.bytes)
  pub configured : o.spec.providers.aws ≡ some u.aws

module _ (cluster : Cluster) (now : Time) (key : Key) (crbs : List CloudRoleBinding)
    (u : Usable cluster key.service_account_name crbs) where
  pub IsResolved-IsMerged :
      (o : ResolvedCloudRoleBinding)
      → IsResolved cluster now key crbs o
      → IsMerged cluster key.service_account_name crbs u o
  IsResolved-IsMerged o (inr (incompatible, not_so)) =
      absurd
        (incompatible ((merge_inputs-ok_iff key.service_account_name crbs).0 (u.merged, u.merges)))
  IsResolved-IsMerged o (inl (compatible, is_so, merged, written_so)) =
      let (bytes, written, hashed) = written_so in
      let same : o.spec ≡ u.merged = ok-injective (sym merged ∙ u.merges) in
      let bytes_same : bytes ≡ u.bytes =
        ok-injective (sym written ∙ ap cluster.to_vec same ∙ u.written) in
      let hashed' = hashed ∙ ap (λ b. some (cluster.sha256_hex b)) bytes_same in
      let (status, recorded, found) = and_then-eq-some o.status (λ s. s.config_hash) hashed' in
      record {
        is_so = is_so;
        status = status;
        recorded = recorded;
        hashed = found;
        configured = ap (λ s. s.providers.aws) same ∙ u.configured;
      }

-- The service authenticates a pod's token as that of its ServiceAccount, reads the resource that is
-- stored for it, and can sign.
pub record Serves (key : Key) (cluster : Cluster) (storage : Storage cluster) (s : cluster.State)
    (ctx : MintContext) (text : String) : Type 0 where
  pub username : String
  pub authentic : token_review ctx.review (trim text) ≡ ok username
  pub own : parse_service_account_username username ≡ some (key.namespace, key.service_account_name)
  pub reads :
      (o : ResolvedCloudRoleBinding)
      → storage.get_opt key.namespace key.service_account_name s ≡ some o
      → ctx.get_resolved key.namespace key.service_account_name ≡ ok o
  pub signs : (claims : AwsClaims) → (token : String) × (ctx.sign claims ≡ ok token)
