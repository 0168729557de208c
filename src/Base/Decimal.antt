-- ===== src/Base/Decimal.antt =====
-- Numbers in decimal, as `to_string` prints them.
use Prim.Native.Nat.{ℕ, zero, suc, ◌/◌, ◌%◌}
use Prim.Native.String.{String, ◌++◌ as ◌<>◌}
use package.kubernetes_identity_fede.Base.Tests.{if◌then◌else◌, ltb, nat_eq}

unfoldable pub digit : ℕ → String
digit d =
    if nat_eq d 0
    then "0"
    else if nat_eq d 1
    then "1"
    else if nat_eq d 2
    then "2"
    else if nat_eq d 3
    then "3"
    else if nat_eq d 4
    then "4"
    else if nat_eq d 5
    then "5"
    else if nat_eq d 6
    then "6"
    else if nat_eq d 7
    then "7"
    else if nat_eq d 8
    then "8"
    else "9"

-- A number has no more digits than one more than its value, so the fuel of `to_string` is enough.
unfoldable pub digits : ℕ → ℕ → String
digits zero n = ""
digits (suc fuel) n =
    let more = digits fuel (n / 10) in if ltb n 10 then digit n else more <> digit (n % 10)

unfoldable pub to_string : ℕ → String
unfolding digits digit
to_string n = digits (suc n) n
