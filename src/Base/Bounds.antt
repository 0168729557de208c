-- ===== src/Base/Bounds.antt =====
-- The bounds of the numbers that `str::parse` returns.
use Prim.Native.Char.{code}
use Prim.Native.Nat.{ℕ, ◌+◌, ◌-◌, ◌*◌, ◌<◌}
use Prim.Native.String.{String}
use mathlib.Core.Path.{◌≡◌, refl}
use mathlib.Core.Option.{Option, none, some}
use native.Mathlib.Omega.{arith}
use package.kubernetes_identity_fede.Base.Results.{and_then, unwrap_or}
use package.kubernetes_identity_fede.Base.Parse.{Env, parse_digits, parse_uint, uint_or}

parse_digits-lt :
    (limit acc : ℕ) (s : String) {n : ℕ}
    → acc < limit
    → parse_digits limit acc s ≡ some n
    → n < limit
unfolding parse_digits
parse_digits-lt limit acc String.[] fits h = ground arith
parse_digits-lt limit acc (String.◌∷◌ c s) {n} fits h =
    let next = acc * 10 + (code c - 0x30) in ground (arith, parse_digits-lt limit next s {n = n})

parse_uint-lt :
    (limit : ℕ) (s : String) {n : ℕ} → 0 < limit → parse_uint limit s ≡ some n → n < limit
unfolding parse_uint
parse_uint-lt limit String.[] pos h = cc
parse_uint-lt limit (String.◌∷◌ c String.[]) pos h =
    parse_digits-lt limit 0 (String.◌∷◌ c String.[]) pos h
parse_uint-lt limit (String.◌∷◌ c (String.◌∷◌ d s)) {n} pos h = ground (
  arith,
  parse_digits-lt limit 0 (String.◌∷◌ d s) {n = n},
  parse_digits-lt limit 0 (String.◌∷◌ c (String.◌∷◌ d s)) {n = n},
)

unwrap_or-lt :
    (limit default : ℕ) (o : Option ℕ)
    → default < limit
    → ((n : ℕ) → o ≡ some n → n < limit)
    → unwrap_or o default < limit
unwrap_or-lt limit default none fits h = fits
unwrap_or-lt limit default (some n) fits h = h n (refl)

module _ (limit default : ℕ) (fits : default < limit) where
  parsed-lt : (o : Option String) → unwrap_or (and_then o (parse_uint limit)) default < limit
  parsed-lt none = fits
  parsed-lt (some t) =
      unwrap_or-lt limit default (parse_uint limit t) fits
        (λ n. parse_uint-lt limit t {n = n} (omega arith))

  -- A variable that does not parse leaves the default.
  pub uint_or-lt : (env : Env) (name : String) → uint_or env limit name default < limit
  unfolding uint_or
  uint_or-lt env name = parsed-lt (env name)
