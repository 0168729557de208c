-- ===== src/Federation/Mint/Errs.antt =====
-- http.rs: the statuses of the early responses of `mint`'s steps.
use kubernetes_identity_fede.Base.{
  String, ◌≡◌, true, false, Bool, Option, none, some, Result, ok, err, ◌>>=◌, ok_or, map_err,
  ensure, and_then, arith, ◌==◌, string_has_eq,
}
use kubernetes_identity_fede.Base.Text.{strip_prefix}
use kubernetes_identity_fede.Api.Status.{ResolvedCloudRoleBinding}
use kubernetes_identity_fede.Federation.Subject.{token_review, parse_service_account_username}
use kubernetes_identity_fede.Federation.Mint.{
  MintContext, MintRequest, Response, StatusCode, bad_request, unauthorized, forbidden,
  status_conflict, internal_server_error, refuse, authenticate, authorize, configuration,
}

module _ (P : StatusCode → Type 0) {A : Type 0} where
  -- An early response of the step has a status with the property.
  abbrev pub Errs : Result A Response → Type 0
  Errs m = (r : Response) → m ≡ err r → P r.status

  pub Errs-ok : (a : A) → Errs (ok a)
  Errs-ok a r h = cc

  pub Errs-ok_or :
      (o : Option A) (s : StatusCode) (message : String) → P s → Errs (ok_or o (refuse s message))
  Errs-ok_or none s message p r h = ground arith
  Errs-ok_or (some a) s message p r h = cc

  pub Errs-map_err :
      (m : Result A String) (s : StatusCode) (message : String → String)
      → P s
      → Errs (map_err (λ e. refuse s (message e)) m)
  Errs-map_err (ok a) s message p r h = cc
  Errs-map_err (err e) s message p r h = ground arith

pub Errs-ensure :
    (P : StatusCode → Type 0) (b : Bool) (s : StatusCode) (message : String)
    → P s
    → Errs P (ensure b (refuse s message))
Errs-ensure P true s message p r h = cc
Errs-ensure P false s message p r h = ground arith

pub Errs->>= :
    (P : StatusCode → Type 0) {A B : Type 0} (m : Result A Response) (f : A → Result B Response)
    → Errs P m
    → ((a : A) → Errs P (f a))
    → Errs P (m >>= f)
Errs->>= P (ok a) f p q r h = q a r h
Errs->>= P (err e) f p q r h = p r (ground arith)

module _ (ctx : MintContext) (req : MintRequest) (header : Option String) where
  pub authenticate-Errs :
      (P : StatusCode → Type 0) → P unauthorized → Errs P (authenticate ctx req header)
  unfolding authenticate
  authenticate-Errs P p =
      Errs->>= P (ok_or (and_then header (strip_prefix "Bearer ")) _) _
        (Errs-ok_or P (and_then header (strip_prefix "Bearer ")) unauthorized _ p)
        (λ bearer. Errs-map_err P (token_review ctx.review bearer) unauthorized _ p)

  pub authorize-Errs :
      (P : StatusCode → Type 0) (username : String)
      → P unauthorized
      → P forbidden
      → Errs P (authorize ctx req username)
  unfolding authorize
  authorize-Errs P username p q =
      Errs->>= P (ok_or (parse_service_account_username username) _) _
        (Errs-ok_or P (parse_service_account_username username) unauthorized _ p)
        (λ subject. Errs-ensure P _ forbidden _ q)

  pub configuration-Errs :
      (P : StatusCode → Type 0) (resolved : ResolvedCloudRoleBinding)
      → P bad_request
      → P internal_server_error
      → P status_conflict
      → Errs P (configuration ctx req resolved)
  unfolding configuration
  configuration-Errs P resolved p q s =
      Errs->>= P (ok_or resolved.spec.providers.aws _) _
        (Errs-ok_or P resolved.spec.providers.aws bad_request _ p)
        (λ aws.
          Errs->>= P (ok_or (and_then resolved.status (λ s. s.config_hash)) _) _
            (Errs-ok_or P (and_then resolved.status (λ s. s.config_hash)) internal_server_error _ q)
            (λ hash.
              Errs->>= P (ensure (hash == req.config_hash) _) _
                (Errs-ensure P (hash == req.config_hash) status_conflict _ s) (λ _. Errs-ok P aws)))
