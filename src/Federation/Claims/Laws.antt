-- ===== src/Federation/Claims/Laws.antt =====
-- jwt.rs: the lifetime and the provenance of the claims.
use kubernetes_identity_fede.Base.{ℕ, ◌+◌, ◌<◌, ◌≤◌, String, ◌↔◌, Bool, Option, arith}
use kubernetes_identity_fede.Base.BTreeMap.{BTreeMap}
use kubernetes_identity_fede.Base.Parse.{u64_mod}
use kubernetes_identity_fede.Federation.Claims.{AwsClaims, Clock, new_claims}

module _ (clock : Clock) (issuer subject audience : String) (ttl : ℕ) (include_provenance : Bool)
    (namespace service_account : String) (pod_name : Option String)
    (extra : Option (BTreeMap String)) where
  abbrev claims : AwsClaims
  claims =
      new_claims clock issuer subject audience ttl include_provenance namespace service_account
        pod_name extra

  -- For a clock and a lifetime that fit into a u64, a token expires no earlier than it is issued
  -- exactly if their sum does not wrap around.
  pub new_claims-exp_iff :
      clock.seconds < u64_mod
      → ttl < u64_mod
      → (claims.iat ≤ claims.exp) ↔ (clock.seconds + ttl < u64_mod)
  unfolding new_claims
  new_claims-exp_iff fits fits' = ground arith
