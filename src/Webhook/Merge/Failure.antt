-- ===== src/Webhook/Merge/Failure.antt =====
-- merge.rs: what a failed merge is reported as. The conditions are on the bindings before the one at
-- which the loop stops, and do not mention the loop's locals.
use kubernetes_identity_fede.Base.{
  String, ◌<>◌, ◌≡◌, refl, sym, ap, ◌∙◌, ◌≢◌, inl, inr, Bool, Option, none, some, List, [], ◌∷◌,
  ◌++◌, ok, err, option_or, Any, arith, Result-cases, Option-cases, opt_list, ensure, Any-imp,
  >>=-eq-err,
}
use mathlib.Core.List.{append_assoc}
use kubernetes_identity_fede.Base.BTreeMap.{BTreeMap, lookup, insert, lookup-insert}
use kubernetes_identity_fede.Api.Bindings.{AwsProviderSpec}
use kubernetes_identity_fede.Api.Status.{CloudRoleBinding}
use kubernetes_identity_fede.Webhook.Merge.{
  MergeIssue, Merged, nothing_merged, crb_name, crb_names, crb_include, crb_extra, take_extra,
  merge_one, merge_loop, merge_inputs, provider_present, take_aws, take_include, no_provider_issue,
  aws_issue, attribute_issue, empty_issue,
}
use kubernetes_identity_fede.Webhook.Merge.Tracks.{
  Tracks, used_before, nothing-Tracks, merge_one-Tracks,
}
use kubernetes_identity_fede.Webhook.Merge.Compatible.{
  Provides, aws_specs, all_extra, merge_loop-Effect,
}

-- The binding cannot follow those before it, for the reason that the issue names.
pub data Breaks (names : List String) (before : List CloudRoleBinding) (c : CloudRoleBinding)
    (issue : MergeIssue) : Type 0 where
  no_provider : ¬ Provides c → issue ≡ no_provider_issue (crb_name c) → Breaks names before c issue
  two_aws :
      c.spec.providers.aws ≢ none
      → Any
          (λ b.
            (b.spec.providers.aws ≢ none) × (issue ≡ aws_issue (some (crb_name b)) (crb_name c)))
          before
      → Breaks names before c issue
  include_differs :
      (prev v : Bool)
      → prev ≢ v
      → crb_include c ≡ some v
      → Any (λ b. crb_include b ≡ some prev) before
      → issue ≡ attribute_issue names "conflict: includeProvenance differs across CloudRoleBindings"
      → Breaks names before c issue
  same_key :
      (k v : String) (earlier later : List (String × String))
      → crb_extra c ≡ earlier ++ ((k, v) ∷ later)
      → lookup k (all_extra before ++ earlier) ≢ none
      → issue ≡ attribute_issue names ("conflict: duplicate attributes.extra key: " <> k)
      → Breaks names before c issue

-- Why a merge fails: at its first binding that breaks a rule, or because none has AWS.
pub data Fails (crbs : List CloudRoleBinding) (issue : MergeIssue) : Type 0 where
  at_binding :
      (before after : List CloudRoleBinding) (c : CloudRoleBinding)
      → crbs ≡ before ++ (c ∷ after)
      → Breaks (crb_names crbs) before c issue
      → Fails crbs issue
  no_aws : aws_specs crbs ≡ [] → issue ≡ empty_issue (crb_names crbs) → Fails crbs issue

module _ (names : List String) where
  take_extra_err :
      (es : List (String × String)) (seen : BTreeMap String) (issue : MergeIssue)
      → take_extra names es seen ≡ err issue
      → (k : String) × (v : String) × (earlier : List (String × String)) × (later : List
          (String × String))
        × (es ≡ earlier ++ ((k, v) ∷ later))
        × (option_or (lookup k earlier) (lookup k seen) ≢ none)
        × (issue ≡ attribute_issue names ("conflict: duplicate attributes.extra key: " <> k))
  unfolding take_extra lookup
  take_extra_err [] seen issue h = absurd (ground arith)
  take_extra_err ((k, v) ∷ es) seen issue h = elim (Option-cases (lookup k seen)) [
    | inr (w, taken) ↦ (k, v, [], es, refl, λ missing. cc (taken, missing), ground arith)
    | inl fresh ↦
        let (j, w, earlier, later, split, used, named) =
          take_extra_err es (insert k v seen) issue (ground arith) in
        (
          j,
          w,
          (k, v) ∷ earlier,
          later,
          ap (◌∷◌ (k, v)) split,
          λ missing. used (ground (arith, lookup-insert k j v seen)),
          named,
        )
  ]

  take_aws_err :
      (name : String) (aws : Option AwsProviderSpec) (m : Merged) (issue : MergeIssue)
      → take_aws name aws m ≡ err issue
      → (aws ≢ none) × (m.aws ≢ none) × (issue ≡ aws_issue m.aws_set_by name)
  unfolding take_aws
  take_aws_err name aws m issue h = (λ e. ground arith, λ e. ground arith, ground arith)

  take_aws_ok :
      (name : String) (aws : Option AwsProviderSpec) (m m₁ : Merged)
      → take_aws name aws m ≡ ok m₁
      → (m₁.include_prov ≡ m.include_prov) × (m₁.extra ≡ m.extra)
  unfolding take_aws
  take_aws_ok name aws m m₁ h = (ground arith, ground arith)

  take_include_err :
      (o prev : Option Bool) (issue : MergeIssue)
      → take_include names o prev ≡ err issue
      → (u : Bool) × (v : Bool) × (u ≢ v)
        × (o ≡ some v)
        × (prev ≡ some u)
        × (issue
            ≡ attribute_issue names "conflict: includeProvenance differs across CloudRoleBindings")
  unfolding take_include
  take_include_err none prev issue h = absurd (ground arith)
  take_include_err (some v) none issue h = absurd (ground arith)
  take_include_err (some v) (some u) issue h = (u, v, λ e. ground arith, refl, refl, ground arith)

  merge_one-Breaks :
      (before : List CloudRoleBinding) (c : CloudRoleBinding) (m : Merged) (issue : MergeIssue)
      → Tracks before m
      → merge_one names c m ≡ err issue
      → Breaks names before c issue
  unfolding merge_one take_aws take_include
  merge_one-Breaks before c m issue t h =
      let name = crb_name c in
      let aws = c.spec.providers.aws in
      elim (>>=-eq-err (ensure (provider_present c.spec.providers) (no_provider_issue name)) _ h) [
        | inl e ↦ no_provider (λ p. ground arith) (ground arith)
        | inr (u, present, h₁) ↦ elim (>>=-eq-err (take_aws name aws m) _ h₁) [
          | inl e ↦
              let (has, set, named) = take_aws_err name aws m issue e in
              elim t.aws [
                | inl missing ↦ absurd (set missing)
                | inr found ↦ two_aws has (
                    Any-imp _ _ (λ b (p, by). (p, named ∙ ap (λ o. aws_issue o name) by)) before
                      found)
              ]
          | inr (m₁, taken, h₂) ↦
              let same = take_aws_ok name aws m m₁ taken in
              elim (>>=-eq-err (take_include names (crb_include c) m₁.include_prov) _ h₂) [
                | inl e ↦
                    let (prev, v, differs, set, was, named) =
                      take_include_err (crb_include c) m₁.include_prov issue e in
                    include_differs prev v differs set (t.include_prov prev (sym same.0 ∙ was))
                      named
                | inr (i, included, h₃) ↦
                    elim (>>=-eq-err (take_extra names (crb_extra c) m₁.extra) _ h₃) [
                      | inl e ↦
                          let (k, v, earlier, later, split, used, named) =
                            take_extra_err (crb_extra c) m₁.extra issue e in
                          same_key k v earlier later split
                            (used_before before m k earlier t (λ n.
                              used
                                (ap (λ x. option_or (lookup k earlier) (lookup k x)) same.1 ∙ n)))
                            named
                      | inr (x, done, h₄) ↦ absurd (ground arith)
                    ]
              ]
        ]
      ]

  merge_loop-Breaks :
      (before crbs : List CloudRoleBinding) (m : Merged) (issue : MergeIssue)
      → Tracks before m
      → merge_loop names crbs m ≡ err issue
      → (before' : List CloudRoleBinding) × (c : CloudRoleBinding) × (after : List CloudRoleBinding)
        × (before ++ crbs ≡ before' ++ (c ∷ after))
        × Breaks names before' c issue
  unfolding merge_loop
  merge_loop-Breaks before [] m issue t h = absurd (ground arith)
  merge_loop-Breaks before (c ∷ crbs) m issue t h = elim (Result-cases (merge_one names c m)) [
    | inr (e, failed) ↦ (before, c, crbs, refl, merge_one-Breaks before c m issue t (ground arith))
    | inl (m', done) ↦
        let (before', c', after, split, breaks) =
          merge_loop-Breaks (before ++ (c ∷ [])) crbs m' issue
            (merge_one-Tracks names before c m m' t done) (ground arith) in
        (before', c', after, sym (append_assoc before (c ∷ []) crbs) ∙ split, breaks)
  ]

-- A failed merge is reported as the rule that one binding breaks with those before it, which are a
-- missing provider block, a second AWS block, a different includeProvenance and a repeated key of
-- extra, with the names of the bindings concerned, or as a lack of AWS in all of them.
pub merge_inputs-Fails :
    (sa_name : String) (crbs : List CloudRoleBinding) (issue : MergeIssue)
    → merge_inputs sa_name crbs ≡ err issue
    → Fails crbs issue
unfolding merge_inputs
merge_inputs-Fails sa_name crbs issue h =
    let names = crb_names crbs in
    elim (>>=-eq-err (merge_loop names crbs nothing_merged) _ h) [
      | inl e ↦
          let (before, c, after, split, breaks) =
            merge_loop-Breaks names [] crbs nothing_merged issue nothing-Tracks e in
          at_binding before after c split breaks
      | inr (m, looped, h') ↦
          let effect = merge_loop-Effect names crbs nothing_merged m looped in
          elim (Option-cases m.aws) [
            | inl missing ↦ no_aws (effect.aws ∙ ap opt_list missing) (ground arith)
            | inr (aws, found) ↦ absurd (ground arith)
          ]
    ]
