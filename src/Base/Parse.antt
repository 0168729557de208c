-- ===== src/Base/Parse.antt =====
-- `str::parse` for the unsigned integers below a bound, and the environment variables read by it.
use Prim.Native.Char.{Char, code}
use Prim.Native.Nat.{ℕ, ◌+◌, ◌-◌, ◌*◌}
use Prim.Native.String.{String}
use mathlib.Core.Bool.{Bool, ◌&&◌}
use mathlib.Core.Option.{Option, none, some}
use package.kubernetes_identity_fede.Base.Tests.{if◌then◌else◌, ltb, leb, nat_eq}
use package.kubernetes_identity_fede.Base.Results.{and_then, unwrap_or}

unfoldable pub is_digit : Char → Bool
is_digit c = leb 0x30 (code c) && leb (code c) 0x39

unfoldable pub parse_digits : ℕ → ℕ → String → Option ℕ
parse_digits limit acc String.[] = some acc
parse_digits limit acc (String.◌∷◌ c s) =
    let next = acc * 10 + (code c - 0x30) in
    let rest = parse_digits limit next s in if is_digit c && ltb next limit then rest else none

-- `parse::<uN>`, for the limit `2 ^ N`: a `+` may stand in front of the digits.
unfoldable pub parse_uint : ℕ → String → Option ℕ
unfolding parse_digits is_digit
parse_uint limit String.[] = none
parse_uint limit (String.◌∷◌ c String.[]) = parse_digits limit 0 (String.◌∷◌ c String.[])
parse_uint limit (String.◌∷◌ c (String.◌∷◌ d s)) =
    if nat_eq (code c) 0x2b
    then parse_digits limit 0 (String.◌∷◌ d s)
    else parse_digits limit 0 (String.◌∷◌ c (String.◌∷◌ d s))

abbrev pub u16_mod : ℕ
u16_mod = 65536

abbrev pub u64_mod : ℕ
u64_mod = 18446744073709551616

-- `env::var`, `none` where it fails
abbrev pub Env : Type 0
Env = String → Option String

-- `env::var(name).ok().and_then(|v| v.parse().ok()).unwrap_or(default)`
unfoldable pub uint_or : Env → ℕ → String → ℕ → ℕ
unfolding parse_uint
uint_or env limit name default = unwrap_or (and_then (env name) (parse_uint limit)) default
