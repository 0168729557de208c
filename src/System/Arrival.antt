-- ===== src/System/Arrival.antt =====
-- The whole way: the bindings of a ServiceAccount, a round of the webhook's worker on them, the pod that
-- is created behind it, and the agent that is started in that pod. The webhook's worker, its handler and
-- the federation service read and write one API server.
use kubernetes_identity_fede.Base.{
  String, ◌≡◌, sym, ap, ◌∙◌, true, false, none, some, List, [], ◌∷◌, Result, ok, and_then,
}
use kubernetes_identity_fede.Base.Parse.{Env}
use kubernetes_identity_fede.Base.Text.{trim, is_empty}
use kubernetes_identity_fede.Api.Bindings.{AwsProviderSpec, ResolvedCloudRoleBindingSpec}
use kubernetes_identity_fede.Api.Status.{
  Time, CloudRoleBinding, ResolvedCloudRoleBinding, ResolvedCloudRoleBindingStatus,
}
use kubernetes_identity_fede.Webhook.Config as W
use kubernetes_identity_fede.Webhook.Config.{WebhookConfig}
use kubernetes_identity_fede.Webhook.Merge.{merge_inputs}
use kubernetes_identity_fede.Webhook.Merge.Compatible.{aws_specs}
use kubernetes_identity_fede.Webhook.Merge.Sound.{merge_inputs-IsMergeOf}
use kubernetes_identity_fede.Webhook.Admission.{Platform, handle}
use kubernetes_identity_fede.Webhook.Admission.Decision.{Bound}
use kubernetes_identity_fede.Webhook.Admission.Patching.{Patching}
use kubernetes_identity_fede.Webhook.Admission.Applied.{Applied, applied_of}
use kubernetes_identity_fede.Webhook.Admission.Complete.{Serializes, Comes, handle_ready, inject_ok}
use kubernetes_identity_fede.Webhook.Queue.{Key}
use kubernetes_identity_fede.Webhook.Reconcile.{Cluster, relevant, reconcile}
use kubernetes_identity_fede.Webhook.Reconcile.Resolved.{Storage, reconcile-IsResolved}
use kubernetes_identity_fede.Federation.Mint.{MintContext}
use kubernetes_identity_fede.Agent.Refresh.{World, State}
use kubernetes_identity_fede.System.Launch.{Deployed, IsStarted, told}
use kubernetes_identity_fede.System.Fetch.{Writable, Asks}
use kubernetes_identity_fede.System.Journey.{Arrives, pod-Arrives}
use kubernetes_identity_fede.System.Stored.{Usable, IsResolved-IsMerged, Serves}

module _ (platform : Platform) (cfg : WebhookConfig) (patching : Patching platform)
    (review : platform.Review) (key : Key) (comes : Comes platform review key) where
  open platform use {Patch, get_opt}

  abbrev bound_of :
      (o : ResolvedCloudRoleBinding)
      → get_opt key.namespace key.service_account_name ≡ ok (some o)
      → Bound platform cfg review o
  bound_of o found = record {
    req = comes.req;
    pod = comes.pod;
    sa_name = key.service_account_name;
    asked = comes.asked;
    creates = comes.creates;
    given = comes.given;
    agentless = comes.agentless;
    account = sym comes.account;
    found = ap (λ ns. get_opt ns key.service_account_name) comes.namespace ∙ found;
  }

  -- The agent of the pod, with what the cluster knows of the pod.
  abbrev pub created : String → String → Deployed
  created hash name = record {
    agent_image = cfg.agent_image;
    agent_image_pull_policy = cfg.agent_image_pull_policy;
    agent_port = cfg.agent_port;
    federation_url = cfg.federation_url;
    service_account_name = key.service_account_name;
    config_hash = hash;
    pod_name = name;
    namespace = key.namespace;
  }

  -- The pod is patched for the AWS block of the bindings, and its agent gets there.
  pub record Delivers (crbs : List CloudRoleBinding) (name : String) (env : Env)
      (read_to_string : String → Result String String) (ctx : MintContext) (text : String)
      (w : World) (s : State) : Type 0 where
    pub patch : Patch
    pub answered :
        handle platform cfg review
        ≡ ok (record { allowed = true; reason = none; patch = some patch }, [])
    pub applied : Applied platform cfg patching review patch
    pub one_aws : aws_specs crbs ≡ applied.aws ∷ []
    pub arrives :
        Arrives platform cfg patching applied name key.namespace env read_to_string ctx text w s

  one_aws :
      (crbs : List CloudRoleBinding) (spec : ResolvedCloudRoleBindingSpec) (aws : AwsProviderSpec)
      → merge_inputs key.service_account_name crbs ≡ ok spec
      → spec.providers.aws ≡ some aws
      → aws_specs crbs ≡ aws ∷ []
  one_aws crbs spec aws merges configured =
      let m = merge_inputs-IsMergeOf key.service_account_name crbs spec merges in
      let same : some m.aws ≡ some aws = sym (ap (λ s. s.providers.aws) m.value) ∙ configured in
      m.one_aws ∙ ap (λ a. a ∷ []) (cc same)

  -- If the API server reads back what is applied to it, what is written can be serialized and
  -- json_patch makes the second value of the first, the bindings of a ServiceAccount merge, with
  -- an AWS role that is not blank, and a worker's round for it succeeds, then a pod of the
  -- ServiceAccount, with a main container and no agent yet, that is created while the webhook,
  -- configured from its environment, reads what the round has stored, in a namespace that is not
  -- empty and has no blanks around it, is patched for the AWS block of the bindings; and the agent
  -- that the kubelet starts in it, with none of its other settings in its environment, in any
  -- round in which it has a ServiceAccount token and can write its file, and a connected service
  -- that can sign authenticates the token as the pod's ServiceAccount and reads what the round has
  -- stored, is granted a token and stores it in the file that every main container is pointed to.
  pub bindings-Deliver :
      (cluster : Cluster) (now : Time) (storage : Storage cluster)
      (serializes : Serializes platform) (listed : List CloudRoleBinding)
      (u : Usable cluster key.service_account_name (relevant key.service_account_name listed))
      {t t' : cluster.State} (to_lowercase : String → String) (webhook_env : Env) {env : Env}
      {read_to_string : String → Result String String} {ctx : MintContext} {w : World}
      {name text : String}
      → cluster.list_bindings key.namespace t ≡ ok listed
      → reconcile cluster now key t ≡ (ok tt, t')
      → get_opt key.namespace key.service_account_name
        ≡ ok (storage.get_opt key.namespace key.service_account_name t')
      → W.from_env to_lowercase webhook_env ≡ ok cfg
      → trim key.namespace ≡ key.namespace
      → is_empty key.namespace ≡ false
      → IsStarted (created (cluster.sha256_hex u.bytes) name) env read_to_string
      → Asks (told (created (cluster.sha256_hex u.bytes) name)) w ctx text
      → Serves key cluster storage t' ctx text
      → Writable w.outcomes
      → (s : State)
      → Delivers (relevant key.service_account_name listed) name env read_to_string ctx text w s
  bindings-Deliver cluster now storage serializes listed u to_lowercase webhook_env {ctx = ctx}
        {name = name} lists done reads configured trimmed named started asks serves writable s =
      let sa_name = key.service_account_name in
      let crbs = relevant sa_name listed in
      let (o, stored, resolved) =
        reconcile-IsResolved cluster now storage key listed _ _ lists done in
      let found = reads ∙ ap (λ x. ok x) stored in
      let m = IsResolved-IsMerged cluster now key crbs u o resolved in
      let hash = cluster.sha256_hex u.bytes in
      let hashed =
        ap (λ s. and_then s (λ (st : ResolvedCloudRoleBindingStatus). st.config_hash)) m.recorded
        ∙ m.hashed in
      let (patch, built, injected) =
        inject_ok platform cfg review key comes serializes o hash u.aws hashed m.configured
          u.role in
      let a =
        applied_of platform cfg patching review patch o (bound_of o found) m.status hash u.aws
          m.recorded m.hashed m.configured built in
      record {
        patch = patch;
        answered = handle_ready platform cfg review key comes o found m.is_so ∙ injected;
        applied = a;
        one_aws = one_aws crbs u.merged u.aws u.merges u.configured;
        arrives =
            pod-Arrives platform cfg patching a name key.namespace to_lowercase webhook_env
              configured (ap is_empty trimmed ∙ named) started asks
              (record {
                username = serves.username;
                authentic = serves.authentic;
                own = serves.own ∙ ap (λ ns. some (ns, sa_name)) (sym trimmed);
                current = ap (λ ns. ctx.get_resolved ns sa_name) trimmed ∙ serves.reads o stored;
                signs = serves.signs;
              })
              writable s;
      }
