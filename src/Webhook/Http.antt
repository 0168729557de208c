-- ===== src/Webhook/Http.antt =====
-- app/crates/kif-webhook/src/http.rs: the probes, and the response to an admission review. A JSON body
-- stands for what is serialized into it.
use kubernetes_identity_fede.Base.{String, Bool, Result, ok, err, if◌then◌else◌}
use kubernetes_identity_fede.Federation.Mint.{
  StatusCode, status_ok, internal_server_error, service_unavailable,
}
use kubernetes_identity_fede.Webhook.Config.{WebhookConfig}
use kubernetes_identity_fede.Webhook.Admission.{Platform, AdmissionResponse, Answer, handle}

unfoldable pub livez : StatusCode
livez = status_ok

unfoldable pub startupz : Bool → StatusCode
startupz ready = if ready then status_ok else service_unavailable

-- The status with the body: an admission response, or the text of an error.
pub record Reply (Patch : Type 0) : Type 0 where
  pub status : StatusCode
  pub body : Result (AdmissionResponse Patch) String

abbrev pub replied : {Patch : Type 0} → Answer Patch → Reply Patch
replied (ok (resp, events)) = record { status = status_ok; body = ok resp }
replied (err e) = record { status = internal_server_error; body = err e }

unfoldable pub mutate :
    (platform : Platform) → WebhookConfig → platform.Review → Reply platform.Patch
unfolding handle
mutate platform cfg review = replied (handle platform cfg review)
