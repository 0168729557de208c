-- ===== src/Federation/Claims/Tests.antt =====
-- jwt.rs: the claims of a binding with and without provenance.
use kubernetes_identity_fede.Base.{
  ℕ, ◌+◌, ◌<◌, ◌≤◌, ◌≡◌, refl, ◌↔◌, Bool, true, some, [], ◌∷◌, arith,
}
use kubernetes_identity_fede.Base.Parse.{u64_mod}
use kubernetes_identity_fede.Federation.Claims.{AwsClaims, new_claims}
use kubernetes_identity_fede.Federation.Claims.Laws.{new_claims-exp_iff}

abbrev claims : ℕ → Bool → AwsClaims
claims ttl include_provenance =
    new_claims (record { seconds = 1000; nanos = 5 }) "https://issuer" "subject" "audience" ttl
      include_provenance "default" "test-sa" (some "pod") (some (("team", "core") ∷ []))

-- The largest lifetime wraps around to before the time of issue.
wraps : (claims 18446744073709551615 true).exp ≡ 999
unfolding new_claims
wraps = refl

new_claims-exp_iff_example :
    ((claims 3600 true).iat ≤ (claims 3600 true).exp) ↔ (1000 + 3600 < u64_mod)
new_claims-exp_iff_example =
    new_claims-exp_iff (record { seconds = 1000; nanos = 5 }) "https://issuer" "subject" "audience"
      3600 true "default" "test-sa" (some "pod") (some (("team", "core") ∷ [])) (omega arith)
      (omega arith)
