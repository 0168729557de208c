-- ===== src/Webhook/Mutate/Inject.antt =====
-- mutate.rs: what the injection does to one container, and to a list of them.
use kubernetes_identity_fede.Base.{
  ◌≡◌, refl, sym, ◌∙◌, true, false, List, [], ◌∷◌, map, ok, err, any, or_nil, All, arith,
  Bool-cases, Result-cases, ◌≢◌, inl, inr, ok-injective, ◌==◌, string_has_eq, if◌then◌else◌,
}
use kubernetes_identity_fede.Base.Text.{trim, is_empty}
use kubernetes_identity_fede.Api.Bindings.{AwsProviderSpec}
use kubernetes_identity_fede.Webhook.Mutate.Pod.{Container}
use kubernetes_identity_fede.Webhook.Mutate.{
  injected, inject_aws_into_app_container, inject_init, inject_main,
}
use kubernetes_identity_fede.Webhook.Mutate.Env.{
  HasVars, required_env, inject_env-HasVars, ensure_mount-any,
}

-- The container sees the binding's variables and mounts the token volume.
pub record IsInjected (aws : AwsProviderSpec) (c : Container) : Type 0 where
  pub vars : HasVars (or_nil c.env) (required_env aws)
  pub mounted : any (λ m. m.name == "kif-aws") (or_nil c.volume_mounts) ≡ true

-- The role is not blank, which every injection checks.
abbrev pub HasRole : AwsProviderSpec → Type 0
HasRole aws = is_empty (trim aws.role_arn) ≡ false

module _ (aws : AwsProviderSpec) where
  pub injected-IsInjected : (c : Container) → IsInjected aws (injected aws c)
  injected-IsInjected c = record {
    vars = inject_env-HasVars aws (or_nil c.env);
    mounted = ensure_mount-any (or_nil c.volume_mounts);
  }

  inject_ok :
      (c : Container) → HasRole aws → inject_aws_into_app_container c aws ≡ ok (injected aws c)
  unfolding inject_aws_into_app_container
  inject_ok c h = rw h refl

  inject_err :
      (c : Container)
      → is_empty (trim aws.role_arn) ≡ true
      → inject_aws_into_app_container c aws ≡ err "aws.role_arn is empty in resolved binding"
  unfolding inject_aws_into_app_container
  inject_err c h = rw h refl

  -- What the loop over the init containers does to one of them.
  abbrev pub init_injected : Container → Container
  init_injected c = if c.name == "kif-agent" then c else injected aws c

  pub inject_main-map :
      (cs : List Container) → HasRole aws → inject_main aws cs ≡ ok (map (injected aws) cs)
  unfolding inject_main
  inject_main-map [] h = refl
  inject_main-map (c ∷ cs) h = rw (inject_ok c h) (rw (inject_main-map cs h) refl)

  pub inject_init-map :
      (cs : List Container) → HasRole aws → inject_init aws cs ≡ ok (map init_injected cs)
  unfolding inject_init
  inject_init-map [] h = refl
  inject_init-map (c ∷ cs) h = ground (arith, inject_ok c h, inject_init-map cs h)

  pub inject_main-ok :
      (cs : List Container) {cs' : List Container}
      → inject_main aws cs ≡ ok cs'
      → cs' ≡ map (injected aws) cs
  unfolding inject_main
  inject_main-ok [] h = sym (ok-injective h)
  inject_main-ok (c ∷ cs) h = elim (Bool-cases (is_empty (trim aws.role_arn))) [
    | inl blank ↦ absurd (ground (arith, inject_err c blank))
    | inr role ↦ ok-injective (sym h ∙ inject_main-map (c ∷ cs) role)
  ]

  pub inject_main-blank :
      (c : Container) (cs : List Container) {cs' : List Container}
      → is_empty (trim aws.role_arn) ≡ true
      → inject_main aws (c ∷ cs) ≢ ok cs'
  unfolding inject_main
  inject_main-blank c cs blank h = ground (arith, inject_err c blank)

  pub inject_init-ok :
      (cs : List Container) {cs' : List Container}
      → inject_init aws cs ≡ ok cs'
      → cs' ≡ map init_injected cs
  unfolding inject_init
  inject_init-ok [] h = sym (ok-injective h)
  inject_init-ok (c ∷ cs) {cs'} h = elim (Bool-cases (is_empty (trim aws.role_arn))) [
    | inr role ↦ ok-injective (sym h ∙ inject_init-map (c ∷ cs) role)
    | inl blank ↦ elim (Result-cases (inject_init aws cs)) [
      | inl (ds, done) ↦ ground (arith, inject_err c blank, inject_init-ok cs done)
      | inr (e, failed) ↦ absurd (ground (arith, inject_err c blank))
    ]
  ]

  pub All-injected : (cs : List Container) → All (IsInjected aws) (map (injected aws) cs)
  All-injected [] = tt
  All-injected (c ∷ cs) = (injected-IsInjected c, All-injected cs)
