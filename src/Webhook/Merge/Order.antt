-- ===== src/Webhook/Merge/Order.antt =====
-- merge.rs: `merge_inputs` on the same bindings in another order. The API server lists them in an
-- order that the webhook does not choose.
use kubernetes_identity_fede.Base.{
  String, ◌≡◌, refl, sym, ap, ◌∙◌, Bool, Option, some, List, [], ◌∷◌, ok, All, Any, here, there,
  arith, eq_iff, or_nil, to_option, Result-cases, inl, inr, string_has_eq,
}
use kubernetes_identity_fede.Base.Perms.{Perm-All, flat_map-Perm, filter_map-Perm, Perm-singleton}
use mathlib.Core.List.{Perm}
use mathlib.Core.Logic.{∥∥₁_elim}
use text.Mathlib.TextEquality.{IsScalar-prop}
use mathlib.Core.List.Permᴰ
use mathlib.Core.List.Permᴰ.{Permᴰ, nil, cons, swap, trans}
use kubernetes_identity_fede.Base.BTreeMap.{lookup}
use kubernetes_identity_fede.Base.BTreeMap.Order.{IsSorted-ext}
use kubernetes_identity_fede.Api.Bindings.{ResolvedCloudRoleBindingSpec}
use kubernetes_identity_fede.Api.Status.{CloudRoleBinding}
use kubernetes_identity_fede.Webhook.Merge.{merge_inputs, crb_extra, crb_include, none_if_empty}
use kubernetes_identity_fede.Webhook.Merge.Compatible.{Compatible, Provides, Agrees, all_extra}
use kubernetes_identity_fede.Webhook.Merge.Extras.{NodupKeys}
use kubernetes_identity_fede.Webhook.Merge.Sound.{
  IsMergeOf, merge_inputs-IsMergeOf, merge_inputs-Compatible, merge_inputs_complete,
}

-- Entries with different keys stay so in another order, and are found as before.
SameEntries : List (String × String) → List (String × String) → Type 0
SameEntries es fs = NodupKeys fs × ((k : String) → lookup k es ≡ lookup k fs)

NodupKeys-Perm : {es fs : List (String × String)} → Permᴰ es fs → NodupKeys es → SameEntries es fs
unfolding SameEntries lookup
NodupKeys-Perm nil n = (n, λ k. refl)
NodupKeys-Perm (cons {a = (j, v)} {b = (i, w)} {l₁ = es} {l₂ = fs} e d) (absent, n) =
    let (n', same) = NodupKeys-Perm d n in
    let keys = ap (λ p. p.0) e in
    let values = ap (λ p. p.1) e in
    ((rw (← keys, ← same j) absent, n'), λ k. ground (arith, same k))
NodupKeys-Perm (swap {a = (j, v)} {b = (i, w)} {a' = (i', w')} {b' = (j', v')} {l = l} e e')
      (absent, (absent', n)) =
    let keys = ap (λ p. p.0) e in
    let values = ap (λ p. p.1) e in
    let keys' = ap (λ p. p.0) e' in
    let values' = ap (λ p. p.1) e' in
    (
      (ground (arith, eq_iff i j, eq_iff j i), (ground arith, n)),
      λ k. ground (arith, eq_iff i j, eq_iff j i, eq_iff j k, eq_iff i k),
    )
NodupKeys-Perm (trans d d') n =
    let (n', same) = NodupKeys-Perm d n in
    let (n'', same') = NodupKeys-Perm d' n' in (n'', λ k. same k ∙ same' k)

module _ {crbs crbs' : List CloudRoleBinding} (d : Permᴰ crbs crbs') where
  all_extra-Perm : NodupKeys (all_extra crbs) → SameEntries (all_extra crbs) (all_extra crbs')
  all_extra-Perm n = NodupKeys-Perm (flat_map-Perm crb_extra d) n

  Compatible-Perm : Compatible crbs → Compatible crbs'
  unfolding SameEntries
  Compatible-Perm c = record {
    aws = c.aws;
    include_prov = c.include_prov;
    provides = Perm-All Provides d c.provides;
    one_aws = Perm-singleton c.aws (filter_map-Perm (λ c. c.spec.providers.aws) d) c.one_aws;
    agrees = Perm-All (Agrees c.include_prov) d c.agrees;
    distinct = (all_extra-Perm c.distinct).0;
  }

-- A value that one binding sets is the value that all agree on.
set-Agrees :
    (u v : Bool) (crbs : List CloudRoleBinding)
    → Any (λ c. crb_include c ≡ some u) crbs
    → All (Agrees (some v)) crbs
    → u ≡ v
set-Agrees u v [] p a = elim p [ ]
set-Agrees u v (c ∷ crbs) (here p) (a, agree) = ground arith
set-Agrees u v (c ∷ crbs) (there p) (a, agree) = set-Agrees u v crbs p agree

module _ {sa_name : String} {crbs crbs' : List CloudRoleBinding} (d : Permᴰ crbs crbs')
    {spec spec' : ResolvedCloudRoleBindingSpec} (h : IsMergeOf sa_name crbs spec)
    (h' : IsMergeOf sa_name crbs' spec') where
  same_aws : h.aws ≡ h'.aws
  same_aws =
      let one = Perm-singleton h.aws (filter_map-Perm (λ c. c.spec.providers.aws) d) h.one_aws in
      cc (one, h'.one_aws)

  same_include : h.include_prov ≡ h'.include_prov
  same_include = elim h.default [
    | inr set ↦
        set-Agrees h.include_prov h'.include_prov crbs set
          (Perm-All (Agrees (some h'.include_prov)) (Permᴰ.symm d) h'.agrees)
    | inl default ↦ elim h'.default [
      | inl default' ↦ default ∙ sym default'
      | inr set' ↦ sym (
          set-Agrees h'.include_prov h.include_prov crbs' set'
            (Perm-All (Agrees (some h.include_prov)) d h.agrees))
    ]
  ]

  same_extra : NodupKeys (all_extra crbs) → h.extra ≡ h'.extra
  unfolding SameEntries
  same_extra n =
      h.canonical
      ∙ ap none_if_empty (
          IsSorted-ext (or_nil h.extra) (or_nil h'.extra) h.sorted h'.sorted
            (λ k. h.entries k ∙ (all_extra-Perm d n).1 k ∙ sym (h'.entries k)))
      ∙ sym h'.canonical

  IsMergeOf-unique : NodupKeys (all_extra crbs) → spec ≡ spec'
  IsMergeOf-unique n = cc (h.value, h'.value, same_aws, same_include, same_extra n)

merge_inputs-swap :
    (sa_name : String) {crbs crbs' : List CloudRoleBinding}
    → Permᴰ crbs crbs'
    → (spec : ResolvedCloudRoleBindingSpec) → merge_inputs sa_name crbs ≡ ok spec
    → merge_inputs sa_name crbs' ≡ ok spec
merge_inputs-swap sa_name {crbs} {crbs'} d spec h =
    let c = merge_inputs-Compatible sa_name crbs spec h in
    let (spec', h') = merge_inputs_complete sa_name crbs' (Compatible-Perm d c) in
    let same =
      IsMergeOf-unique d (merge_inputs-IsMergeOf sa_name crbs spec h)
        (merge_inputs-IsMergeOf sa_name crbs' spec' h') c.distinct in
    h' ∙ ap ok (sym same)

merge_inputs-swap_option :
    (sa_name : String) (crbs crbs' : List CloudRoleBinding)
    → Permᴰ crbs crbs'
    → to_option (merge_inputs sa_name crbs) ≡ to_option (merge_inputs sa_name crbs')
merge_inputs-swap_option sa_name crbs crbs' d = elim (Result-cases (merge_inputs sa_name crbs)) [
  | inl (spec, h) ↦ cc (h, merge_inputs-swap sa_name d spec h)
  | inr (e, h) ↦ elim (Result-cases (merge_inputs sa_name crbs')) [
    | inl (spec', h') ↦ absurd (cc (h, merge_inputs-swap sa_name (Permᴰ.symm d) spec' h'))
    | inr (e', h') ↦ cc (h, h')
  ]
]

merged_set : IsSet (Option ResolvedCloudRoleBindingSpec)
merged_set = hlevel IsScalar-prop

-- Bindings in another order merge to the same spec, or fail to merge alike.
pub merge_inputs-Perm :
    (sa_name : String) (crbs crbs' : List CloudRoleBinding)
    → Perm crbs crbs'
    → to_option (merge_inputs sa_name crbs) ≡ to_option (merge_inputs sa_name crbs')
merge_inputs-Perm sa_name crbs crbs' p =
    ∥∥₁_elim p (merged_set _ _) (merge_inputs-swap_option sa_name crbs crbs')
