-- ===== src/Webhook/Mutate/Env.antt =====
-- mutate.rs: the environment and the mounts of one container.
use kubernetes_identity_fede.Base.{
  String, ◌≡◌, refl, Bool, true, false, Option, none, some, List, [], ◌∷◌, ◌++◌, All, All-imp, any,
  any-push_unless, find, arith, eq_iff, if◌then◌else◌, ◌==◌, string_has_eq, ◌∙◌, ap,
}
use kubernetes_identity_fede.Base.BTreeMap.{lookup}
use kubernetes_identity_fede.Api.Bindings.{AwsProviderSpec}
use kubernetes_identity_fede.Webhook.Mutate.Pod.{EnvVar, VolumeMount}
use kubernetes_identity_fede.Webhook.Mutate.{env_value, upsert_env, inject_env, ensure_mount}

-- The variable that a container sees under a name, if names are not repeated.
abbrev pub find_env : String → List EnvVar → Option EnvVar
find_env name = find (λ e. e.name == name)

pub find_env-upsert_env :
    (name value j : String) (env : List EnvVar)
    → find_env j (upsert_env name value env)
      ≡ (if name == j then some (env_value name value) else find_env j env)
unfolding upsert_env
find_env-upsert_env name value j [] = refl
find_env-upsert_env name value j (e ∷ env) = ground (
  arith,
  find_env-upsert_env name value j env,
  eq_iff e.name name,
  eq_iff e.name j,
  eq_iff name j,
)

upsert_env-present :
    (name value : String) (env : List EnvVar)
    → find_env name env ≡ some (env_value name value)
    → upsert_env name value env ≡ env
unfolding upsert_env
upsert_env-present name value [] h = ground arith
upsert_env-present name value (e ∷ env) h = ground (arith, upsert_env-present name value env)

-- No name is listed twice.
abbrev pub NodupNames : List EnvVar → Type 0
NodupNames [] = Unit
NodupNames (e ∷ env) = (find_env e.name env ≡ none) × NodupNames env

upsert_env-NodupNames :
    (name value : String) (env : List EnvVar)
    → NodupNames env
    → NodupNames (upsert_env name value env)
unfolding upsert_env
upsert_env-NodupNames name value [] h = (refl, tt)
upsert_env-NodupNames name value (e ∷ env) (fresh, h) = ground (
  arith,
  upsert_env-NodupNames name value env h,
  find_env-upsert_env name value e.name env,
  eq_iff e.name name,
  eq_iff name e.name,
)

-- The variables that a binding asks for.
abbrev region_env : Option String → List (String × String)
region_env none = []
region_env (some region) = ("AWS_DEFAULT_REGION", region) ∷ ("AWS_REGION", region) ∷ []

abbrev sts_env : Bool → List (String × String)
sts_env true = ("AWS_STS_REGIONAL_ENDPOINTS", "regional") ∷ []
sts_env false = []

abbrev all_env : Bool → Option String → String → List (String × String)
all_env sts region role_arn =
    sts_env sts
    ++ (region_env region
        ++ (("AWS_WEB_IDENTITY_TOKEN_FILE", "/var/run/kif/aws/token")
            ∷ ("AWS_ROLE_ARN", role_arn)
            ∷ []))

abbrev pub required_env : AwsProviderSpec → List (String × String)
required_env aws = all_env aws.sts_regional_endpoints aws.region aws.role_arn

-- The names are distinct, so each one finds its own value.
abbrev IsOwn : List (String × String) → String × String → Type 0
IsOwn vars (name, value) = lookup name vars ≡ some value

all_env-IsOwn :
    (sts : Bool) (region : Option String) (role_arn : String)
    → All (IsOwn (all_env sts region role_arn)) (all_env sts region role_arn)
unfolding lookup
all_env-IsOwn true none role_arn = (refl, (refl, (refl, tt)))
all_env-IsOwn true (some region) role_arn = (refl, (refl, (refl, (refl, (refl, tt)))))
all_env-IsOwn false none role_arn = (refl, (refl, tt))
all_env-IsOwn false (some region) role_arn = (refl, (refl, (refl, (refl, tt))))

abbrev pub env_or : String → Option String → Option EnvVar → Option EnvVar
env_or j (some v) e = some (env_value j v)
env_or j none e = e

upsert_all : List (String × String) → List EnvVar → List EnvVar
upsert_all [] env = env
upsert_all ((name, value) ∷ vars) env = upsert_env name value (upsert_all vars env)

find_env-upsert_all :
    (j : String) (vars : List (String × String)) (env : List EnvVar)
    → find_env j (upsert_all vars env) ≡ env_or j (lookup j vars) (find_env j env)
unfolding upsert_all lookup
find_env-upsert_all j [] env = refl
find_env-upsert_all j ((name, value) ∷ vars) env = ground (
  arith,
  find_env-upsert_env name value j (upsert_all vars env),
  find_env-upsert_all j vars env,
  eq_iff name j,
)

upsert_all-NodupNames :
    (vars : List (String × String)) (env : List EnvVar)
    → NodupNames env
    → NodupNames (upsert_all vars env)
unfolding upsert_all
upsert_all-NodupNames [] env h = h
upsert_all-NodupNames ((name, value) ∷ vars) env h =
    upsert_env-NodupNames name value _ (upsert_all-NodupNames vars env h)

-- Every variable of the list has its value.
abbrev pub HasVars : List EnvVar → List (String × String) → Type 0
HasVars env = All (λ (name, value). find_env name env ≡ some (env_value name value))

upsert_all-HasVars :
    (vars : List (String × String)) (env : List EnvVar)
    → HasVars env vars
    → upsert_all vars env ≡ env
unfolding upsert_all
upsert_all-HasVars [] env h = refl
upsert_all-HasVars ((name, value) ∷ vars) env (p, h) =
    ap (upsert_env name value) (upsert_all-HasVars vars env h) ∙ upsert_env-present name value env p

module _ (aws : AwsProviderSpec) where
  inject_env-upsert_all :
      (env : List EnvVar) → inject_env aws env ≡ upsert_all (required_env aws) env
  unfolding inject_env upsert_all
  inject_env-upsert_all env = ground arith

  -- After an injection a variable that the binding asks for has the binding's value, and every
  -- other name has what it had.
  pub find_env-inject_env :
      (j : String) (env : List EnvVar)
      → find_env j (inject_env aws env) ≡ env_or j (lookup j (required_env aws)) (find_env j env)
  find_env-inject_env j env =
      rw (inject_env-upsert_all env) (find_env-upsert_all j (required_env aws) env)

  -- An environment that lists no name twice still does so after an injection.
  pub inject_env-NodupNames : (env : List EnvVar) → NodupNames env → NodupNames (inject_env aws env)
  inject_env-NodupNames env h =
      rw (inject_env-upsert_all env) (upsert_all-NodupNames (required_env aws) env h)

  -- Every required variable is there.
  pub inject_env-HasVars : (env : List EnvVar) → HasVars (inject_env aws env) (required_env aws)
  inject_env-HasVars env =
      All-imp (IsOwn (required_env aws))
        (λ (name, value). find_env name (inject_env aws env) ≡ some (env_value name value))
        (λ (name, value) own. find_env-inject_env name env ∙ rw own) (required_env aws)
        (all_env-IsOwn aws.sts_regional_endpoints aws.region aws.role_arn)

  -- A second injection of the variables changes nothing.
  pub inject_env_idem :
      (env : List EnvVar) → inject_env aws (inject_env aws env) ≡ inject_env aws env
  inject_env_idem env =
      rw (inject_env-upsert_all (inject_env aws env))
        (upsert_all-HasVars (required_env aws) (inject_env aws env) (inject_env-HasVars env))

lookup-token_file :
    (sts : Bool) (region : Option String) (role_arn : String)
    → lookup "AWS_WEB_IDENTITY_TOKEN_FILE" (all_env sts region role_arn)
      ≡ some "/var/run/kif/aws/token"
unfolding lookup
lookup-token_file true none role_arn = refl
lookup-token_file true (some region) role_arn = refl
lookup-token_file false none role_arn = refl
lookup-token_file false (some region) role_arn = refl

-- An injection points a container to the file of the agent.
pub token_file-inject_env :
    (aws : AwsProviderSpec) (env : List EnvVar)
    → find_env "AWS_WEB_IDENTITY_TOKEN_FILE" (inject_env aws env)
      ≡ some (env_value "AWS_WEB_IDENTITY_TOKEN_FILE" "/var/run/kif/aws/token")
token_file-inject_env aws env =
    find_env-inject_env aws "AWS_WEB_IDENTITY_TOKEN_FILE" env
    ∙ ap (λ o. env_or "AWS_WEB_IDENTITY_TOKEN_FILE" o (find_env "AWS_WEB_IDENTITY_TOKEN_FILE" env))
        (lookup-token_file aws.sts_regional_endpoints aws.region aws.role_arn)

pub ensure_mount-any :
    (vms : List VolumeMount) → any (λ m. m.name == "kif-aws") (ensure_mount vms) ≡ true
unfolding ensure_mount
ensure_mount-any vms = any-push_unless (λ m. m.name == "kif-aws") _ vms refl

all_env-token_file :
    (sts : Bool) (region : Option String) (role_arn : String) (env : List EnvVar)
    → HasVars env (all_env sts region role_arn)
    → find_env "AWS_WEB_IDENTITY_TOKEN_FILE" env
      ≡ some (env_value "AWS_WEB_IDENTITY_TOKEN_FILE" "/var/run/kif/aws/token")
all_env-token_file true none role_arn env h = h.1.0
all_env-token_file true (some region) role_arn env h = h.1.1.1.0
all_env-token_file false none role_arn env h = h.0
all_env-token_file false (some region) role_arn env h = h.1.1.0

-- A container with the binding's variables is pointed to the file of the agent.
pub HasVars-token_file :
    (aws : AwsProviderSpec) (env : List EnvVar)
    → HasVars env (required_env aws)
    → find_env "AWS_WEB_IDENTITY_TOKEN_FILE" env
      ≡ some (env_value "AWS_WEB_IDENTITY_TOKEN_FILE" "/var/run/kif/aws/token")
HasVars-token_file aws = all_env-token_file aws.sts_regional_endpoints aws.region aws.role_arn
