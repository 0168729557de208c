-- ===== src/Webhook/Reconcile/Tests.antt =====
-- reconcile.rs: a cluster that stores what is applied, and a round on it.
mod Stored
use kubernetes_identity_fede.Base.{
  String, ◌≡◌, refl, ◌&&◌, List, ◌∷◌, false, unwrap_or, to_option, Option, none, some, [], Result,
  ok, err, if◌then◌else◌, and_then, ◌==◌, string_has_eq, ok-injective, subst, ap, sym, ◌∙◌, eq_iff,
  arith,
}
use kubernetes_identity_fede.Api.Status.{Time, CloudRoleBinding, ResolvedCloudRoleBinding}
use kubernetes_identity_fede.Webhook.Queue.{Key}
use kubernetes_identity_fede.Webhook.Merge.{merge_inputs}
use kubernetes_identity_fede.Webhook.Merge.Build.{build_resolved_from_spec, build_crb_status}
use kubernetes_identity_fede.Webhook.Merge.Tests.{two_bindings, two_merged, crb, aws_only, gcp_only}
use kubernetes_identity_fede.Webhook.Reconcile.{Cluster, relevant, reconcile, resolve}
use kubernetes_identity_fede.Webhook.Reconcile.Order.{hash_of, resolve-Perm}
use mathlib.Core.List.Permᴰ.{swap}
use kubernetes_identity_fede.Webhook.Reconcile.Total.{Answers, reconcile-ok}
use kubernetes_identity_fede.Webhook.Reconcile.Resolved.{Storage, IsResolved, reconcile-IsResolved}

abbrev Store : Type 0
Store = String → String → Option ResolvedCloudRoleBinding

abbrev put : String → String → ResolvedCloudRoleBinding → Store → Store
put ns name r s n m = if n == ns && m == name then some r else s n m

abbrev with_status_of :
    String
    → String
    → ResolvedCloudRoleBinding
    → Store
    → Option ResolvedCloudRoleBinding
    → Result Store String
with_status_of ns name r s none = err "not found"
with_status_of ns name r s (some o) = ok (put ns name (record o { status = r.status }) s)

abbrev pub cluster : Cluster
cluster = record {
  State = Store;
  list_bindings = λ ns s. ok two_bindings;
  replace_status = λ ns name binding s. ok s;
  patch = λ ns name r s.
      ok (put ns name (record r { status = and_then (s ns name) (λ o. o.status) }) s);
  patch_status = λ ns name r s. with_status_of ns name r s (s ns name);
  to_vec = λ spec. ok [];
  sha256_hex = λ bytes. "hash";
}

put-same :
    (ns name : String) (r : ResolvedCloudRoleBinding) (s : Store) → put ns name r s ns name ≡ some r
put-same ns name r s = ground (arith, eq_iff ns ns, eq_iff name name)

pub storage : Storage cluster
storage = record {
  get_opt = λ ns name s. s ns name;
  get_opt-patch = λ ns name r s s' e.
      let stored = record r { status = and_then (s ns name) (λ o. o.status) } in
      (
        stored,
        ap (λ (t : Store). t ns name) (sym (ok-injective e)) ∙ put-same ns name stored s,
        refl,
      );
  get_opt-patch_status = λ ns name r o s s' e found.
      let stored = record o { status = r.status } in
      let e' = subst (λ f. with_status_of ns name r s f ≡ ok s') found e in
      (
        stored,
        ap (λ (t : Store). t ns name) (sym (ok-injective e')) ∙ put-same ns name stored s,
        refl,
        refl,
      );
}

abbrev pub key : Key
key = record { namespace = "default"; service_account_name = "test-sa" }

abbrev pub empty : Store
empty ns name = none

-- What the round makes of the empty store.
abbrev pub after : Store
after = (reconcile cluster 0 key empty).1

pub reconciles : reconcile cluster 0 key empty ≡ (ok tt, after)
unfolding reconcile merge_inputs build_resolved_from_spec build_crb_status
reconciles = refl

reconcile-IsResolved_example :
    (o : ResolvedCloudRoleBinding) × (storage.get_opt "default" "test-sa" after ≡ some o)
    × IsResolved cluster 0 key (relevant "test-sa" two_bindings) o
reconcile-IsResolved_example =
    reconcile-IsResolved cluster 0 storage key two_bindings empty after refl reconciles

-- A server that takes every status.
abbrev lenient : Cluster
lenient = record cluster { patch_status = λ ns name r s. ok s }

answers : Answers lenient
answers = record {
  lists = λ ns s. (two_bindings, refl);
  replaces = λ ns name binding s. (s, refl);
  patches = λ ns name r s. (_, refl);
  patches_status = λ ns name r s. (s, refl);
  writes = λ spec. ([], refl);
}

reconcile-ok_example : (s : Store) × (reconcile lenient 0 key empty ≡ (ok tt, s))
reconcile-ok_example = reconcile-ok lenient 0 answers key empty refl

abbrev swapped : List CloudRoleBinding
swapped =
    crb "crb2" gcp_only none (some (("env", "prod") ∷ []))
    ∷ crb "crb1" aws_only (some false) (some (("team", "core") ∷ []))
    ∷ []

abbrev unresolved : ResolvedCloudRoleBinding
unresolved = record {
  metadata = record { name = none; namespace = none; generation = none };
  spec = two_merged;
  status = none;
}

-- What a round on the bindings resolves them to, at a time.
abbrev resolved_at : Time → List CloudRoleBinding → ResolvedCloudRoleBinding
resolved_at now crbs =
    unwrap_or (to_option (resolve cluster now key crbs (merge_inputs "test-sa" crbs) empty).0)
      unresolved

resolves :
    (resolve cluster 0 key two_bindings (merge_inputs "test-sa" two_bindings) empty
      ≡ (ok (resolved_at 0 two_bindings), empty))
    × (resolve cluster 9 key swapped (merge_inputs "test-sa" swapped) empty
        ≡ (ok (resolved_at 9 swapped), empty))
unfolding resolve merge_inputs build_resolved_from_spec build_crb_status
resolves = (refl, refl)

resolve-Perm_example :
    ((resolved_at 0 two_bindings).spec ≡ (resolved_at 9 swapped).spec)
    × (hash_of (resolved_at 0 two_bindings) ≡ hash_of (resolved_at 9 swapped))
resolve-Perm_example =
    resolve-Perm cluster key two_bindings swapped ∣ swap refl refl ∣₁ 0 9 empty empty empty empty
      (resolved_at 0 two_bindings) (resolved_at 9 swapped) resolves.0 resolves.1
