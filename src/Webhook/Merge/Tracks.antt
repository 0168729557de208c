-- ===== src/Webhook/Merge/Tracks.antt =====
-- merge.rs: what the locals of the loop know of the bindings that it has merged.
use kubernetes_identity_fede.Base.{
  String, ◌≡◌, refl, sym, ap, ◌∙◌, ◌≢◌, ◌⊎◌, inl, inr, Bool, none, some, List, [], ◌∷◌, ◌++◌, ok,
  option_or, Any, arith, Option-cases, Any-imp, Any-left, Any-last, flat_map-append, subst,
}
use mathlib.Core.List.{append-nil}
use kubernetes_identity_fede.Base.BTreeMap.{lookup}
use kubernetes_identity_fede.Api.Bindings.{AwsProviderSpec}
use kubernetes_identity_fede.Api.Status.{CloudRoleBinding}
use kubernetes_identity_fede.Webhook.Merge.{
  Merged, nothing_merged, crb_name, crb_include, crb_extra, merge_one, take_aws, take_include,
}
use kubernetes_identity_fede.Webhook.Merge.Extras.{lookup-take_extra}
use kubernetes_identity_fede.Webhook.Merge.Compatible.{all_extra, merge_one-Round}

-- What the locals know of the bindings that were merged.
pub record Tracks (before : List CloudRoleBinding) (m : Merged) : Type 0 where
  pub aws :
      (m.aws ≡ none)
      ⊎ Any
          (λ (b : CloudRoleBinding).
            (b.spec.providers.aws ≢ none) × (m.aws_set_by ≡ some (crb_name b)))
          before
  pub include_prov : (v : Bool) → m.include_prov ≡ some v → Any (λ b. crb_include b ≡ some v) before
  pub extra : (k : String) → lookup k m.extra ≢ none → lookup k (all_extra before) ≢ none

lookup-append :
    (k : String) (es fs : List (String × String))
    → lookup k (es ++ fs) ≡ option_or (lookup k es) (lookup k fs)
unfolding lookup
lookup-append k [] fs = refl
lookup-append k ((j, v) ∷ es) fs = ground (arith, lookup-append k es fs)

-- A key that the locals or the entries have is a key of the bindings or of the entries.
pub used_before :
    (before : List CloudRoleBinding) (m : Merged) (k : String) (earlier : List (String × String))
    → Tracks before m
    → option_or (lookup k earlier) (lookup k m.extra) ≢ none
    → lookup k (all_extra before ++ earlier) ≢ none
used_before before m k earlier t used missing =
    let parts = lookup-append k (all_extra before) earlier in
    elim (Option-cases (lookup k m.extra)) [
      | inl fresh ↦ used (ground arith)
      | inr (w, taken) ↦ t.extra k (λ n. cc (taken, n)) (ground arith)
    ]

pub nothing-Tracks : Tracks [] nothing_merged
unfolding lookup
nothing-Tracks = record {
  aws = inl refl;
  include_prov = λ v h. absurd (ground arith);
  extra = λ k used. used;
}

module _ (names : List String) where
  merge_one-set_by :
      (c : CloudRoleBinding) (m m' : Merged) {p : AwsProviderSpec}
      → c.spec.providers.aws ≡ some p
      → merge_one names c m ≡ ok m'
      → m'.aws_set_by ≡ some (crb_name c)
  unfolding merge_one take_aws take_include
  merge_one-set_by c m m' has h = ground arith

  merge_one-kept :
      (c : CloudRoleBinding) (m m' : Merged)
      → c.spec.providers.aws ≡ none
      → merge_one names c m ≡ ok m'
      → (m'.aws ≡ m.aws) × (m'.aws_set_by ≡ m.aws_set_by)
  unfolding merge_one take_aws take_include
  merge_one-kept c m m' missing h = (ground arith, ground arith)

  pub merge_one-Tracks :
      (before : List CloudRoleBinding) (c : CloudRoleBinding) (m m' : Merged)
      → Tracks before m
      → merge_one names c m ≡ ok m'
      → Tracks (before ++ (c ∷ [])) m'
  merge_one-Tracks before c m m' t h =
      let r = merge_one-Round names c m m' h in
      let keys : all_extra (before ++ (c ∷ [])) ≡ all_extra before ++ crb_extra c =
        flat_map-append crb_extra before (c ∷ [])
        ∙ ap (λ es. all_extra before ++ es) (append-nil (crb_extra c)) in
      record {
        aws = elim (Option-cases c.spec.providers.aws) [
          | inr (p, has) ↦
              inr (Any-last _ before ((λ n. cc (has, n)), merge_one-set_by c m m' has h))
          | inl missing ↦
              let (kept, kept_by) = merge_one-kept c m m' missing h in
              elim t.aws [
                | inl unset ↦ inl (kept ∙ unset)
                | inr found ↦ inr (
                    Any-left _ before (c ∷ [])
                      (Any-imp _ _ (λ b (p, by). (p, kept_by ∙ by)) before found))
              ]
        ];
        include_prov = λ v set. elim (Option-cases m.include_prov) [
          | inl unset ↦ Any-last _ before (ground (arith, r.included))
          | inr (u, was) ↦
              Any-left _ before (c ∷ []) (t.include_prov v (ground (arith, r.included)))
        ];
        extra = λ k used.
            subst (λ es. lookup k es ≢ none) (sym keys)
              (used_before before m k (crb_extra c) t
                (λ n. used (lookup-take_extra names k (crb_extra c) m.extra m'.extra r.extra ∙ n)));
      }
