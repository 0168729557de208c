-- ===== src/Federation/Mint/Tests.antt =====
-- http.rs: a federation service with one binding, and the theorems on its answers.
use kubernetes_identity_fede.Base.{
  String, ◌<>◌, ◌≡◌, refl, ◌↔◌, true, false, none, some, [], ok, err, ◌==◌, string_has_eq,
  if◌then◌else◌,
}
use kubernetes_identity_fede.Api.Status.{ResolvedCloudRoleBinding}
use kubernetes_identity_fede.Base.Text.{is_empty}
use kubernetes_identity_fede.Federation.Subject.{parse_service_account_username}
use kubernetes_identity_fede.Federation.Subject.Laws.{NoColon, username, parse-username}
use kubernetes_identity_fede.Federation.Subject.Inversion.{
  IsAccount, parse_service_account_username_inv,
}
use kubernetes_identity_fede.Federation.Mint.{
  MintContext, MintRequest, mint, status_conflict, forbidden, unauthorized, token_ttl,
}
use kubernetes_identity_fede.Federation.Mint.Grant.{Grant, granted}
use kubernetes_identity_fede.Federation.Mint.Refusal.{mint-Grant_iff}

abbrev pub binding : ResolvedCloudRoleBinding
binding = record {
  metadata = record { name = some "test-sa"; namespace = some "default"; generation = none };
  spec = record {
    subject = record { service_account_name = "test-sa" };
    attributes = none;
    providers = record {
      aws = some (record {
        role_arn = "arn";
        region = none;
        sts_regional_endpoints = true;
        audience = none;
        max_session_duration_seconds = some 900;
      });
      azure = none;
      gcp = none;
    };
  };
  status = some (record {
    providers = "aws";
    conditions = [];
    sources = [];
    config_hash = some "hash";
    last_error = none;
  });
}

-- Every token is the one of its ServiceAccount.
abbrev pub ctx : MintContext
ctx = record {
  review = λ token. ok (
      some (record {
        authenticated = some true;
        user = some (record { username = some ("system:serviceaccount:default:" <> token) });
      }));
  get_resolved = λ ns name. if name == "test-sa" then ok binding else err "not found";
  sign = λ claims. ok claims.sub;
  issuer_url = "https://issuer";
  clock = record { seconds = 1000; nanos = 5 };
}

abbrev req : String → MintRequest
req config_hash = record {
  namespace = "default";
  service_account_name = "test-sa";
  config_hash = config_hash;
  pod_name = none;
}

mints :
    mint ctx (req "hash") (some "Bearer test-sa")
    ≡ granted ctx (req "hash") (some "Bearer test-sa") "system:serviceaccount:default:test-sa" 900
unfolding mint
mints = refl

conflicts : (mint ctx (req "old") (some "Bearer test-sa")).status ≡ status_conflict
unfolding mint
conflicts = refl

another_is_forbidden : (mint ctx (req "hash") (some "Bearer other")).status ≡ forbidden
unfolding mint
another_is_forbidden = refl

no_token_is_unauthorized : (mint ctx (req "hash") (some "Basic test-sa")).status ≡ unauthorized
unfolding mint
no_token_is_unauthorized = refl

-- What stands behind a further colon is ignored.
parse_four : parse_service_account_username "system:serviceaccount:ns:sa:more" ≡ some ("ns", "sa")
unfolding parse_service_account_username
parse_four = refl

parse_empty : parse_service_account_username "system:serviceaccount::sa" ≡ none
unfolding parse_service_account_username
parse_empty = refl

no_colon : NoColon "ns" × NoColon "sa"
no_colon = ((λ h. cc, (λ h. cc, tt)), (λ h. cc, (λ h. cc, tt)))

parse-username_example : parse_service_account_username (username "ns" "sa") ≡ some ("ns", "sa")
parse-username_example = parse-username "ns" "sa" no_colon.0 no_colon.1 refl refl

parse_service_account_username_inv_example :
    (t : String) × ("system:serviceaccount:ns:sa:more" ≡ username "ns" t)
    × IsAccount "sa" t
    × NoColon "ns"
    × NoColon "sa"
    × (is_empty "ns" ≡ false)
    × (is_empty "sa" ≡ false)
parse_service_account_username_inv_example =
    parse_service_account_username_inv "system:serviceaccount:ns:sa:more" "ns" "sa" parse_four

mint-Grant_iff_example :
    (mint ctx (req "hash") (some "Bearer test-sa")
      ≡ granted ctx
          (req "hash")
          (some "Bearer test-sa")
          "system:serviceaccount:default:test-sa"
          900)
    ↔ ((g : Grant ctx (req "hash") (some "Bearer test-sa") "system:serviceaccount:default:test-sa")
        × (token_ttl g.aws ≡ 900))
mint-Grant_iff_example =
    mint-Grant_iff ctx (req "hash") (some "Bearer test-sa") "system:serviceaccount:default:test-sa"
      900
