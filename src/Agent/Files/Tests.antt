-- ===== src/Agent/Files/Tests.antt =====
-- federation.rs: a write whose rename fails, and one that succeeds.
use kubernetes_identity_fede.Base.{
  String, ◌≡◌, ◌≢◌, refl, Bool, true, false, none, some, ok, err, arith, eq_iff, string_has_eq,
}
use kubernetes_identity_fede.Agent.Files.{Files, write, Outcomes, atomic_write}
use kubernetes_identity_fede.Agent.Files.Atomic.{IsAtomic, atomic_write-IsAtomic}

abbrev files : Files
files = write (write (λ p. none) "/aws/token" (some "old")) "/aws/other" (some "kept")

abbrev outcomes : Bool → Outcomes
outcomes rename = record {
  dirs = true;
  create = true;
  partial = none;
  sync = true;
  rename = rename;
}

renames : (atomic_write "/aws/token" "new" (outcomes true) files).1 ≡ ok tt
unfolding atomic_write
renames = refl

fails :
    (atomic_write "/aws/token" "new" (outcomes false) files).1
    ≡ err "failed to rename tmp file /aws/token.tmp to /aws/token"
unfolding atomic_write
fails = refl

abbrev other : String
other = "/aws/other"

other_path : (other ≢ "/aws/token") × (other ≢ "/aws/token.tmp")
other_path = (
  λ h. ground (arith, eq_iff other "/aws/token"),
  λ h. ground (arith, eq_iff other "/aws/token.tmp"),
)

atomic_write-IsAtomic_example :
    IsAtomic "/aws/token" "new" files (atomic_write "/aws/token" "new" (outcomes true) files)
atomic_write-IsAtomic_example = atomic_write-IsAtomic "/aws/token" "new" files (outcomes true)
