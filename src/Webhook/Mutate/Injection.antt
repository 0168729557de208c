-- ===== src/Webhook/Mutate/Injection.antt =====
-- mutate.rs: the pod that comes out of `build_pod_patch`.
use kubernetes_identity_fede.Base.{
  String, ◌≡◌, refl, sym, ap, ◌∙◌, Bool, true, false, Option, some, List, [], ◌∷◌, map, ok, any,
  or_nil, All, arith, eq_iff, Bool-cases, ◌↔◌, inl, inr, >>=-eq-ok, ok-injective, ◌==◌,
  string_has_eq, any-push_unless, any-push_mono, ◌⊎◌,
}
use kubernetes_identity_fede.Base.Text.{trim, is_empty}
use kubernetes_identity_fede.Api.Bindings.{AwsProviderSpec}
use kubernetes_identity_fede.Webhook.Mutate.Pod.{Container, Volume, PodSpec}
use kubernetes_identity_fede.Webhook.Mutate.{
  injected, inject_init, inject_main, with_volumes, mutate_spec, ensure_sa_projected_token_volume,
  ensure_aws_emptydir_volume, token_volume, aws_volume,
}
use kubernetes_identity_fede.Webhook.Mutate.Inject.{
  All-injected, HasRole, IsInjected, init_injected, inject_init-map, inject_init-ok,
  inject_main-blank, inject_main-map, inject_main-ok, injected-IsInjected,
}

-- An init container of a mutated pod: another agent, or one that is injected.
abbrev IsInjectedInit : AwsProviderSpec → Container → Type 0
IsInjectedInit aws c = (c.name ≡ "kif-agent") ⊎ IsInjected aws c

All-init_injected :
    (aws : AwsProviderSpec) (cs : List Container)
    → All (IsInjectedInit aws) (map (init_injected aws) cs)
All-init_injected aws [] = tt
All-init_injected aws (c ∷ cs) = (head, All-init_injected aws cs)
  where
    head : IsInjectedInit aws (init_injected aws c)
    head = elim (Bool-cases (c.name == "kif-agent")) [
      | inl same ↦ rw same (inl ((eq_iff c.name "kif-agent").0 same))
      | inr other ↦ rw other (inr (injected-IsInjected aws c))
    ]

-- The fields that no injection touches.
abbrev identity : Container → String × Option String × Option String
identity c = (c.name, c.image, c.restart_policy)

map-identity :
    (aws : AwsProviderSpec) (cs : List Container)
    → map identity (map (injected aws) cs) ≡ map identity cs
map-identity aws [] = refl
map-identity aws (c ∷ cs) = ap (◌∷◌ (identity c)) (map-identity aws cs)

map-identity_init :
    (aws : AwsProviderSpec) (cs : List Container)
    → map identity (map (init_injected aws) cs) ≡ map identity cs
map-identity_init aws [] = refl
map-identity_init aws (c ∷ cs) = ground (arith, map-identity_init aws cs)

-- The spec of an admitted pod: the agent comes first among the init containers and is unchanged,
-- every other container keeps its place, name, image and restart policy and is injected, both
-- volumes are there, and the ServiceAccount's own token is not mounted.
pub record IsMutated (agent : Container) (aws : AwsProviderSpec) (spec spec' : PodSpec)
    : Type 0 where
  pub inits : List Container
  pub agent_first : spec'.init_containers ≡ some (agent ∷ inits)
  pub inits_kept : map identity inits ≡ map identity (or_nil spec.init_containers)
  pub inits_injected : All (IsInjectedInit aws) inits
  pub kept : map identity spec'.containers ≡ map identity spec.containers
  pub all_injected : All (IsInjected aws) spec'.containers
  pub has_token_volume :
      any (λ (v : Volume). v.name == "kif-sa-token") (or_nil spec'.volumes) ≡ true
  pub has_aws_volume : any (λ (v : Volume). v.name == "kif-aws") (or_nil spec'.volumes) ≡ true
  pub no_automount : spec'.automount_service_account_token ≡ some false

with_volumes-any :
    (volumes : List Volume)
    → (any (λ (v : Volume). v.name == "kif-sa-token") (with_volumes volumes) ≡ true)
      × (any (λ (v : Volume). v.name == "kif-aws") (with_volumes volumes) ≡ true)
unfolding ensure_sa_projected_token_volume ensure_aws_emptydir_volume
with_volumes-any volumes =
    let with_token = ensure_sa_projected_token_volume volumes in
    let is_aws : Volume → Bool = λ v. v.name == "kif-aws" in
    let is_token : Volume → Bool = λ v. v.name == "kif-sa-token" in
    (
      any-push_mono is_token (any is_aws with_token) with_token (aws_volume ∷ [])
          (any-push_unless is_token token_volume volumes refl),
      any-push_unless is_aws aws_volume with_token refl,
    )

-- If the changes to a pod's spec succeed, an agent named kif-agent is the first init container and
-- unchanged, every other container keeps its place, name, image and restart policy and has the
-- variables and the mount (init containers that are agents are left alone), both volumes are
-- there, and the ServiceAccount's own token is not mounted.
pub mutate_spec-IsMutated :
    (agent : Container) (aws : AwsProviderSpec) (spec spec' : PodSpec)
    → agent.name ≡ "kif-agent"
    → mutate_spec agent aws spec ≡ ok spec'
    → IsMutated agent aws spec spec'
unfolding mutate_spec
mutate_spec-IsMutated agent aws spec spec' named h =
    let old = or_nil spec.init_containers in
    let (inits', hi, h') = >>=-eq-ok (inject_init aws (agent ∷ old)) _ h in
    let (cs', hc, h'') = >>=-eq-ok (inject_main aws spec.containers) _ h' in
    let value = ok-injective h'' in
    let volumes = with_volumes-any (or_nil spec.volumes) in
    let same : init_injected aws agent ≡ agent =
      rw ((eq_iff agent.name "kif-agent").1 named) refl in
    record {
      inits = map (init_injected aws) old;
      agent_first =
          ap (λ (s : PodSpec). s.init_containers) (sym value)
          ∙ ap some (inject_init-ok aws (agent ∷ old) hi)
          ∙ ap (λ c. some (c ∷ map (init_injected aws) old)) same;
      inits_kept = map-identity_init aws old;
      inits_injected = All-init_injected aws old;
      kept = rw (← value, inject_main-ok aws spec.containers hc) (map-identity aws spec.containers);
      all_injected =
          rw (← value, inject_main-ok aws spec.containers hc) (All-injected aws spec.containers);
      has_token_volume = rw (← value) volumes.0;
      has_aws_volume = rw (← value) volumes.1;
      no_automount = rw (← value) refl;
    }

-- For a pod that has a main container, and an agent named kif-agent, the changes succeed exactly
-- if the role is not blank.
pub mutate_spec-HasRole_iff :
    (agent : Container) (aws : AwsProviderSpec) (spec : PodSpec) (c : Container)
    (cs : List Container)
    → agent.name ≡ "kif-agent"
    → spec.containers ≡ c ∷ cs
    → ((spec' : PodSpec) × (mutate_spec agent aws spec ≡ ok spec')) ↔ HasRole aws
unfolding mutate_spec
mutate_spec-HasRole_iff agent aws spec c cs named has = (needs, succeeds)
  where
    after : PodSpec
    after = record spec {
      automount_service_account_token = some false;
      volumes = some (with_volumes (or_nil spec.volumes));
      init_containers = some (map (init_injected aws) (agent ∷ or_nil spec.init_containers));
      containers = map (injected aws) spec.containers;
    }

    succeeds : HasRole aws → (spec' : PodSpec) × (mutate_spec agent aws spec ≡ ok spec')
    succeeds role = (
      after,
      rw (inject_init-map aws (agent ∷ or_nil spec.init_containers) role)
          (rw (inject_main-map aws spec.containers role) refl),
    )

    needs : (spec' : PodSpec) × (mutate_spec agent aws spec ≡ ok spec') → HasRole aws
    needs (spec', h) = elim (Bool-cases (is_empty (trim aws.role_arn))) [
      | inr role ↦ role
      | inl blank ↦
          let (inits', hi, h') =
            >>=-eq-ok (inject_init aws (agent ∷ or_nil spec.init_containers)) _ h in
          let (cs', hc, h'') = >>=-eq-ok (inject_main aws spec.containers) _ h' in
          absurd (inject_main-blank aws c cs blank (ap (inject_main aws) (sym has) ∙ hc))
    ]
