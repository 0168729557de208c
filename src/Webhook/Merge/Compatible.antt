-- ===== src/Webhook/Merge/Compatible.antt =====
-- merge.rs: what the bindings of one ServiceAccount must satisfy together, and `merge_inputs`
-- against it. The conditions are on the list of bindings, and do not mention the loops.
use kubernetes_identity_fede.Base.{
  String, ◌≡◌, ◌≢◌, ◌⊎◌, inl, inr, Bool, Option, none, List, [], ◌∷◌, ◌++◌, ok, ◌>>=◌, option_or,
  opt_list, filter_map, flat_map, All, arith, Result-cases, ap, ◌∙◌,
}
use mathlib.Core.List.{append-nil, append_assoc}
use kubernetes_identity_fede.Base.BTreeMap.{BTreeMap}
use kubernetes_identity_fede.Api.Bindings.{AwsProviderSpec}
use kubernetes_identity_fede.Api.Status.{CloudRoleBinding}
use kubernetes_identity_fede.Webhook.Merge.{
  Merged, crb_include, crb_extra, take_aws, take_include, take_extra, merge_one, merge_loop,
}
use kubernetes_identity_fede.Webhook.Merge.Extras.{NodupKeys, take_extra-append}

-- The binding has a block for some provider.
abbrev pub Provides : CloudRoleBinding → Type 0
Provides c =
    (c.spec.providers.aws ≢ none)
    ⊎ ((c.spec.providers.azure ≢ none) ⊎ (c.spec.providers.gcp ≢ none))

abbrev pub aws_specs : List CloudRoleBinding → List AwsProviderSpec
aws_specs = filter_map (λ c. c.spec.providers.aws)

abbrev pub all_extra : List CloudRoleBinding → List (String × String)
all_extra = flat_map crb_extra

-- The binding leaves `includeProvenance` open, or sets it to the given value.
abbrev pub Agrees : Option Bool → CloudRoleBinding → Type 0
Agrees v c = (crb_include c ≡ none) ⊎ (crb_include c ≡ v)

-- The bindings can be merged: each has a provider, one alone has AWS, those that set
-- `includeProvenance` set it alike, and no key of `extra` occurs twice.
pub record Compatible (crbs : List CloudRoleBinding) : Type 0 where
  pub aws : AwsProviderSpec
  pub include_prov : Option Bool
  pub provides : All Provides crbs
  pub one_aws : aws_specs crbs ≡ aws ∷ []
  pub agrees : All (Agrees include_prov) crbs
  pub distinct : NodupKeys (all_extra crbs)

-- What the loop does to the four locals, taken apart.
pub record Effect (names : List String) (crbs : List CloudRoleBinding) (m m' : Merged)
    : Type 0 where
  pub provides : All Provides crbs
  pub aws : opt_list m.aws ++ aws_specs crbs ≡ opt_list m'.aws
  pub prev : (m.include_prov ≡ none) ⊎ (m.include_prov ≡ m'.include_prov)
  pub agrees : All (Agrees m'.include_prov) crbs
  pub default :
      m.include_prov ≡ none → All (λ c. crb_include c ≡ none) crbs → m'.include_prov ≡ none
  pub extra : take_extra names (all_extra crbs) m.extra ≡ ok m'.extra

module _ (names : List String) where
  -- One round, with the map of the binding's own entries.
  pub record Round (c : CloudRoleBinding) (m m' : Merged) : Type 0 where
    pub provides : Provides c
    pub aws : opt_list m.aws ++ opt_list c.spec.providers.aws ≡ opt_list m'.aws
    pub prev : (m.include_prov ≡ none) ⊎ (m.include_prov ≡ m'.include_prov)
    pub agrees : Agrees m'.include_prov c
    pub included : m'.include_prov ≡ option_or m.include_prov (crb_include c)
    pub extra : take_extra names (crb_extra c) m.extra ≡ ok m'.extra

  pub merge_one-Round :
      (c : CloudRoleBinding) (m m' : Merged) → merge_one names c m ≡ ok m' → Round c m m'
  unfolding merge_one take_aws take_include
  merge_one-Round c m m' h = record {
    provides = ground arith;
    aws = ground arith;
    prev = ground arith;
    agrees = ground arith;
    included = ground arith;
    extra = ground arith;
  }

  pub merge_one_of_Round :
      (c : CloudRoleBinding) (m : Merged) (include_prov : Option Bool) (extra : BTreeMap String)
      → Provides c
      → (m.aws ≡ none) ⊎ (c.spec.providers.aws ≡ none)
      → (m.include_prov ≡ none) ⊎ (m.include_prov ≡ include_prov)
      → Agrees include_prov c
      → take_extra names (crb_extra c) m.extra ≡ ok extra
      → (m' : Merged) × (merge_one names c m ≡ ok m')
  unfolding merge_one take_aws take_include
  merge_one_of_Round c m include_prov extra provides aws prev agrees taken =
      elim (Result-cases (merge_one names c m)) [
        | inl done ↦ done
        | inr (e, failed) ↦ absurd (ground arith)
      ]

  -- The effect of one round and of the rounds that follow it.
  Effect-cons :
      {c : CloudRoleBinding} {crbs : List CloudRoleBinding} {m m₁ m' : Merged}
      → Round c m m₁
      → Effect names crbs m₁ m'
      → Effect names (c ∷ crbs) m m'
  Effect-cons {c} {crbs} {m} {m₁} {m'} r e = record {
    provides = (r.provides, e.provides);
    aws = rw (← append_assoc (opt_list m.aws) (opt_list c.spec.providers.aws), r.aws) e.aws;
    prev = ground arith;
    agrees = (ground arith, e.agrees);
    default = λ none_before (open_, opens). e.default (ground arith) opens;
    extra =
        take_extra-append names (crb_extra c) (all_extra crbs) m.extra
        ∙ ap (λ t. t >>= take_extra names (all_extra crbs)) r.extra
        ∙ e.extra;
  }

  pub merge_loop-Effect :
      (crbs : List CloudRoleBinding) (m m' : Merged)
      → merge_loop names crbs m ≡ ok m'
      → Effect names crbs m m'
  unfolding merge_loop take_extra
  merge_loop-Effect [] m m' h = record {
    provides = tt;
    aws = ground (arith, append-nil (opt_list m.aws));
    prev = ground arith;
    agrees = tt;
    default = λ none_before opens. ground arith;
    extra = ground arith;
  }
  merge_loop-Effect (c ∷ crbs) m m' h = elim (Result-cases (merge_one names c m)) [
    | inr (e, failed) ↦ absurd (ground arith)
    | inl (m₁, done) ↦
        Effect-cons (merge_one-Round c m m₁ done)
          (merge_loop-Effect crbs m₁ m' (rw (done, merge_loop) at h))
  ]
