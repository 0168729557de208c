-- ===== src/Webhook/Merge/Sound.antt =====
-- merge.rs: `merge_inputs` succeeds exactly on compatible bindings, and what it returns then.
use kubernetes_identity_fede.Base.{
  String, ◌≡◌, refl, ◌⊎◌, inl, inr, Bool, true, Option, none, some, List, [], ◌∷◌, ◌++◌, ok,
  option_or, opt_list, All, Any, here, there, arith, Result-cases, ◌∙◌, ◌↔◌, or_nil,
  opt_list-singleton, unwrap_or, All-imp, sym, >>=-eq-ok, ok_or-eq-ok, ok-injective, ok_or,
}
use mathlib.Core.List.{append_assoc}
use kubernetes_identity_fede.Base.BTreeMap.{BTreeMap, lookup}
use kubernetes_identity_fede.Base.BTreeMap.Order.{IsSorted}
use kubernetes_identity_fede.Api.Bindings.{AwsProviderSpec, ResolvedCloudRoleBindingSpec}
use kubernetes_identity_fede.Api.Status.{CloudRoleBinding}
use kubernetes_identity_fede.Webhook.Merge.{
  Merged, nothing_merged, crb_names, crb_include, crb_extra, take_extra, merge_one, merge_loop,
  merge_inputs, merged_spec, none_if_empty, empty_issue,
}
use kubernetes_identity_fede.Webhook.Merge.Extras.{
  Unused, take_extra-append, take_extra_sound, take_extra_complete, lookup-take_extra,
  take_extra-IsSorted,
}
use kubernetes_identity_fede.Webhook.Merge.Compatible.{
  Provides, aws_specs, all_extra, Agrees, Compatible, merge_one-Round, merge_one_of_Round,
  merge_loop-Effect,
}

module _ (names : List String) where
  merge_loop-cons :
      (c : CloudRoleBinding) (crbs : List CloudRoleBinding) (m : Merged) {m₁ m' : Merged}
      → merge_one names c m ≡ ok m₁
      → merge_loop names crbs m₁ ≡ ok m'
      → merge_loop names (c ∷ crbs) m ≡ ok m'
  unfolding merge_loop
  merge_loop-cons c crbs m done rest = rw (done, merge_loop) rest

  merge_loop_complete :
      (crbs : List CloudRoleBinding) (m : Merged) (v : Option Bool) (extra : BTreeMap String)
      (aws : Option AwsProviderSpec)
      → All Provides crbs
      → opt_list m.aws ++ aws_specs crbs ≡ opt_list aws
      → (m.include_prov ≡ none) ⊎ (m.include_prov ≡ v)
      → All (Agrees v) crbs
      → take_extra names (all_extra crbs) m.extra ≡ ok extra
      → (m' : Merged) × (merge_loop names crbs m ≡ ok m')
  unfolding merge_loop
  merge_loop_complete [] m v extra aws p one prev a taken = (m, refl)
  merge_loop_complete (c ∷ crbs) m v extra aws (p, ps) one prev (a, agree) taken =
      let split = take_extra-append names (crb_extra c) (all_extra crbs) m.extra in
      elim (Result-cases (take_extra names (crb_extra c) m.extra)) [
        | inr (e, failed) ↦ absurd (ground arith)
        | inl (mid, first) ↦
            let (m₁, done) = merge_one_of_Round names c m v mid p (ground arith) prev a first in
            let r = merge_one-Round names c m m₁ done in
            let (m', rest) =
              merge_loop_complete crbs m₁ v extra aws ps
                (rw (← r.aws, append_assoc (opt_list m.aws)) one) (ground arith) agree
                (ground arith) in
            (m', merge_loop-cons c crbs m {m₁ = m₁} {m' = m'} done rest)
      ]

-- The spec is the merge of the bindings.
pub record IsMergeOf (sa_name : String) (crbs : List CloudRoleBinding)
    (spec : ResolvedCloudRoleBindingSpec) : Type 0 where
  pub aws : AwsProviderSpec
  pub include_prov : Bool
  pub extra : Option (BTreeMap String)
  pub value : spec ≡ record {
    subject = record { service_account_name = sa_name };
    attributes = some (record { include_provenance = some include_prov; extra = extra });
    providers = record { aws = some aws; azure = none; gcp = none };
  }
  pub one_aws : aws_specs crbs ≡ aws ∷ []
  pub agrees : All (Agrees (some include_prov)) crbs
  pub default : (include_prov ≡ true) ⊎ Any (λ c. crb_include c ≡ some include_prov) crbs
  pub entries : (k : String) → lookup k (or_nil extra) ≡ lookup k (all_extra crbs)
  pub canonical : extra ≡ none_if_empty (or_nil extra)
  pub sorted : IsSorted (or_nil extra)

lookup-none_if_empty :
    (k : String) (m : BTreeMap String) → lookup k (or_nil (none_if_empty m)) ≡ lookup k m
lookup-none_if_empty k [] = refl
lookup-none_if_empty k (e ∷ es) = refl

none_if_empty-canonical :
    (m : BTreeMap String) → none_if_empty m ≡ none_if_empty (or_nil (none_if_empty m))
none_if_empty-canonical [] = refl
none_if_empty-canonical (e ∷ es) = refl

IsSorted-none_if_empty : (m : BTreeMap String) → IsSorted m → IsSorted (or_nil (none_if_empty m))
IsSorted-none_if_empty [] s = s
IsSorted-none_if_empty (e ∷ es) s = s

option_or-lookup-nil : (k : String) (o : Option String) → option_or o (lookup {V = String} k []) ≡ o
unfolding lookup
option_or-lookup-nil k none = refl
option_or-lookup-nil k (some v) = refl

-- Bindings that agree all leave `includeProvenance` open, or one of them sets it.
open_or_set :
    (v : Bool) (crbs : List CloudRoleBinding)
    → All (Agrees (some v)) crbs
    → All (λ c. crb_include c ≡ none) crbs ⊎ Any (λ c. crb_include c ≡ some v) crbs
open_or_set v [] h = inl tt
open_or_set v (c ∷ crbs) (inr set, h) = inr (here set)
open_or_set v (c ∷ crbs) (inl is_open, h) = elim (open_or_set v crbs h) [
  | inl opens ↦ inl (is_open, opens)
  | inr set ↦ inr (there set)
]

-- The loop ran to its end, with AWS set.
merge_inputs-ok :
    (sa_name : String) (crbs : List CloudRoleBinding) (spec : ResolvedCloudRoleBindingSpec)
    → merge_inputs sa_name crbs ≡ ok spec
    → (m : Merged) × (aws : AwsProviderSpec) × (merge_loop (crb_names crbs) crbs nothing_merged
        ≡ ok m)
      × (m.aws ≡ some aws)
      × (spec ≡ merged_spec sa_name aws m)
unfolding merge_inputs
merge_inputs-ok sa_name crbs spec h =
    let (m, looped, h') = >>=-eq-ok (merge_loop (crb_names crbs) crbs nothing_merged) _ h in
    let (aws, found, h'') = >>=-eq-ok (ok_or m.aws (empty_issue (crb_names crbs))) _ h' in
    (m, aws, looped, ok_or-eq-ok m.aws _ found, sym (ok-injective h''))

module _ (sa_name : String) (crbs : List CloudRoleBinding) where
  -- Bindings that merge are compatible.
  pub merge_inputs-Compatible :
      (spec : ResolvedCloudRoleBindingSpec) → merge_inputs sa_name crbs ≡ ok spec → Compatible crbs
  merge_inputs-Compatible spec h =
      let (m, aws, looped, found, value) = merge_inputs-ok sa_name crbs spec h in
      let e = merge_loop-Effect (crb_names crbs) crbs nothing_merged m looped in
      record {
        aws = aws;
        include_prov = m.include_prov;
        provides = e.provides;
        one_aws = ground arith;
        agrees = e.agrees;
        distinct = (take_extra_sound (crb_names crbs) (all_extra crbs) [] m.extra e.extra).1;
      }

  Unused-nil : (es : List (String × String)) → Unused [] es
  unfolding lookup
  Unused-nil [] = tt
  Unused-nil (e ∷ es) = (refl, Unused-nil es)

  -- Compatible bindings merge.
  pub merge_inputs_complete :
      Compatible crbs
      → (spec : ResolvedCloudRoleBindingSpec) × (merge_inputs sa_name crbs ≡ ok spec)
  unfolding merge_inputs
  merge_inputs_complete c =
      let names = crb_names crbs in
      let (extra, taken) =
        take_extra_complete names (all_extra crbs) [] (Unused-nil (all_extra crbs)) c.distinct in
      let (m, looped) =
        merge_loop_complete names crbs nothing_merged c.include_prov extra (some c.aws) c.provides
          c.one_aws (inl refl) c.agrees taken in
      let e = merge_loop-Effect names crbs nothing_merged m looped in
      let found : m.aws ≡ some c.aws = opt_list-singleton m.aws c.aws (sym e.aws ∙ c.one_aws) in
      (merged_spec sa_name c.aws m, rw (looped, merge_inputs) (rw found refl))

  -- What bindings merge to: the AWS block of the one binding that has it, the includeProvenance
  -- that they agree on, true unless one of them sets it, and exactly the entries of their extra
  -- maps.
  pub merge_inputs-IsMergeOf :
      (spec : ResolvedCloudRoleBindingSpec)
      → merge_inputs sa_name crbs ≡ ok spec
      → IsMergeOf sa_name crbs spec
  merge_inputs-IsMergeOf spec h =
      let (m, aws, looped, found, value) = merge_inputs-ok sa_name crbs spec h in
      let e = merge_loop-Effect (crb_names crbs) crbs nothing_merged m looped in
      record {
        aws = aws;
        include_prov = unwrap_or m.include_prov true;
        extra = none_if_empty m.extra;
        value = ground arith;
        one_aws = ground arith;
        agrees =
            All-imp (Agrees m.include_prov) (Agrees (some (unwrap_or m.include_prov true)))
              (λ c a. ground arith) crbs e.agrees;
        default =
            elim (open_or_set (unwrap_or m.include_prov true) crbs (
              All-imp (Agrees m.include_prov) (Agrees (some (unwrap_or m.include_prov true)))
                (λ c a. ground arith) crbs e.agrees)) [
                  | inl opens ↦ inl (ground (arith, e.default refl opens))
                  | inr set ↦ inr set
                ];
        entries = λ k.
            lookup-none_if_empty k m.extra
            ∙ lookup-take_extra (crb_names crbs) k (all_extra crbs) [] m.extra e.extra
            ∙ option_or-lookup-nil k (lookup k (all_extra crbs));
        canonical = none_if_empty-canonical m.extra;
        sorted =
            IsSorted-none_if_empty m.extra
              (take_extra-IsSorted (crb_names crbs) (all_extra crbs) [] m.extra tt e.extra);
      }

-- The bindings of a ServiceAccount merge exactly when each has a provider block, one alone has
-- AWS, those that set includeProvenance set it alike, and no key of extra occurs twice.
pub merge_inputs-ok_iff :
    (sa_name : String) (crbs : List CloudRoleBinding)
    → ((spec : ResolvedCloudRoleBindingSpec) × (merge_inputs sa_name crbs ≡ ok spec))
      ↔ Compatible crbs
merge_inputs-ok_iff sa_name crbs =
    (λ (spec, h). merge_inputs-Compatible sa_name crbs spec h, merge_inputs_complete sa_name crbs)
