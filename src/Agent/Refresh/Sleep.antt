-- ===== src/Agent/Refresh/Sleep.antt =====
-- main.rs: the sleep before a refresh.
use kubernetes_identity_fede.Base.{ℕ, ◌+◌, ◌≤◌, ◌≡◌, arith}
use kubernetes_identity_fede.Agent.Refresh.{compute_jitter, compute_sleep_seconds}

-- For a random number in the range that is asked for, the jitter is at most its maximum.
pub compute_jitter-le : (most random : ℕ) → random ≤ most → compute_jitter most random ≤ most
unfolding compute_jitter
compute_jitter-le most random h = ground arith

module _ (expires_in skew min_sleep most random : ℕ) (drawn : random ≤ most) where
  -- If the jitter is drawn up to its maximum and the minimum and the skew fit into the token's
  -- lifetime, the sleep is at least the minimum, ends the skew before the token expires, and at
  -- most the jitter's maximum earlier.
  pub compute_sleep_seconds_bounds :
      min_sleep + skew ≤ expires_in
      → let s = compute_sleep_seconds expires_in skew min_sleep most random in
        (min_sleep ≤ s) × (s + skew ≤ expires_in) × (expires_in ≤ s + skew + most)
  unfolding compute_sleep_seconds
  compute_sleep_seconds_bounds room = ground (arith, compute_jitter-le most random drawn)

  -- If it does not, the sleep is the minimum, and the token can expire before the refresh.
  pub compute_sleep_seconds_short :
      expires_in ≤ min_sleep + skew
      → compute_sleep_seconds expires_in skew min_sleep most random ≡ min_sleep
  unfolding compute_sleep_seconds
  compute_sleep_seconds_short h = ground arith
