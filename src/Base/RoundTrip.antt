-- ===== src/Base/RoundTrip.antt =====
-- A number that is printed in decimal is parsed back, below the bound of the parser.
use Prim.Native.Char.{code}
use Prim.Native.Nat.{ℕ, zero, suc, ◌+◌, ◌-◌, ◌*◌, ◌/◌, ◌%◌, ◌<◌}
use Prim.Native.String.{String, ◌++◌ as ◌<>◌}
use Prim.Native.String.append
use mathlib.Core.Path.{◌≡◌, refl, ap, ◌∙◌}
use mathlib.Core.Logic.{◌≢◌, inl, inr}
use mathlib.Core.Bool.{Bool, true, false}
use mathlib.Core.Option.{some}
use native.Mathlib.Omega.{arith}
use package.kubernetes_identity_fede.Base.Tests.{if◌then◌else◌, nat_eq, ltb, Bool-cases}
use package.kubernetes_identity_fede.Base.Results.{and_then}
use package.kubernetes_identity_fede.Base.Text.{is_empty}
use package.kubernetes_identity_fede.Base.Parse.{parse_digits, parse_uint, is_digit}
use package.kubernetes_identity_fede.Base.Decimal.{digit, digits, to_string}

module _ (limit : ℕ) where
  parse_digits-append :
      (acc : ℕ) (s t : String)
      → parse_digits limit acc (s <> t)
        ≡ and_then (parse_digits limit acc s) (λ a. parse_digits limit a t)
  unfolding parse_digits
  parse_digits-append acc String.[] t = rw (append.nil t) refl
  parse_digits-append acc (String.◌∷◌ c s) t =
      rw (append.cons c s t) (ground (arith, parse_digits-append (acc * 10 + (code c - 0x30)) s t))

  parse_digits-digit :
      (acc d : ℕ)
      → d < 10
      → acc * 10 + d < limit
      → parse_digits limit acc (digit d) ≡ some (acc * 10 + d)
  unfolding parse_digits is_digit digit
  parse_digits-digit acc zero h k = ground arith
  parse_digits-digit acc (suc zero) h k = ground arith
  parse_digits-digit acc (suc (suc zero)) h k = ground arith
  parse_digits-digit acc (suc (suc (suc zero))) h k = ground arith
  parse_digits-digit acc (suc (suc (suc (suc zero)))) h k = ground arith
  parse_digits-digit acc (suc (suc (suc (suc (suc zero))))) h k = ground arith
  parse_digits-digit acc (suc (suc (suc (suc (suc (suc zero)))))) h k = ground arith
  parse_digits-digit acc (suc (suc (suc (suc (suc (suc (suc zero))))))) h k = ground arith
  parse_digits-digit acc (suc (suc (suc (suc (suc (suc (suc (suc zero)))))))) h k = ground arith
  parse_digits-digit acc (suc (suc (suc (suc (suc (suc (suc (suc (suc zero))))))))) h k =
      ground arith
  parse_digits-digit acc (suc (suc (suc (suc (suc (suc (suc (suc (suc (suc d)))))))))) h k =
      absurd (omega arith)

  parse_digits-small : (n : ℕ) → n < 10 → n < limit → parse_digits limit 0 (digit n) ≡ some n
  parse_digits-small n h k = parse_digits-digit 0 n h (omega arith) ∙ ap some (omega arith)

  parse_digits-last :
      (n : ℕ) (s : String)
      → n < limit
      → parse_digits limit 0 s ≡ some (n / 10)
      → parse_digits limit 0 (s <> digit (n % 10)) ≡ some n
  parse_digits-last n s k h =
      rw (parse_digits-append 0 s (digit (n % 10)), h)
        (parse_digits-digit (n / 10) (n % 10) (omega arith) (omega arith) ∙ ap some (omega arith))

  parse_digits-digits :
      (fuel n : ℕ) → n < suc fuel → n < limit → parse_digits limit 0 (digits (suc fuel) n) ≡ some n
  unfolding digits
  parse_digits-digits zero n h k =
      let small : ltb n 10 ≡ true = ground arith in rw small (parse_digits-small n (ground arith) k)
  parse_digits-digits (suc fuel) n h k = elim (Bool-cases (ltb n 10)) [
    | inl small ↦ rw small (parse_digits-small n (ground arith) k)
    | inr large ↦ rw large (
        parse_digits-last n (digits (suc fuel) (n / 10)) k
          (parse_digits-digits fuel (n / 10) (ground arith) (omega arith)))
  ]

  -- What is parsed digit by digit has no sign in front.
  parse_uint-digits :
      (s : String) (n : ℕ) → s ≢ "" → parse_digits limit 0 s ≡ some n → parse_uint limit s ≡ some n
  unfolding parse_uint parse_digits is_digit
  parse_uint-digits String.[] n h k = absurd (h refl)
  parse_uint-digits (String.◌∷◌ c String.[]) n h k = k
  parse_uint-digits (String.◌∷◌ c (String.◌∷◌ d s)) n h k = ground arith

is_empty-if :
    (b : Bool) (s t : String)
    → is_empty s ≡ false
    → is_empty t ≡ false
    → is_empty (if b then s else t) ≡ false
is_empty-if true s t h k = h
is_empty-if false s t h k = k

is_empty-digit : (d : ℕ) → is_empty (digit d) ≡ false
unfolding digit
is_empty-digit d = is_empty-if (nat_eq d 0) _ _ refl (
    is_empty-if (nat_eq d 1) _ _ refl (
      is_empty-if (nat_eq d 2) _ _ refl (
        is_empty-if (nat_eq d 3) _ _ refl (
          is_empty-if (nat_eq d 4) _ _ refl (
            is_empty-if (nat_eq d 5) _ _ refl (
              is_empty-if (nat_eq d 6) _ _ refl
                (is_empty-if (nat_eq d 7) _ _ refl (is_empty-if (nat_eq d 8) _ _ refl refl))))))))

is_empty-append : (s t : String) → is_empty t ≡ false → is_empty (s <> t) ≡ false
is_empty-append String.[] t h = rw (append.nil t) h
is_empty-append (String.◌∷◌ c s) t h = rw (append.cons c s t) refl

is_empty-digits : (fuel n : ℕ) → is_empty (digits (suc fuel) n) ≡ false
unfolding digits
is_empty-digits fuel n = ground (
  arith,
  is_empty-digit n,
  is_empty-append (digits fuel (n / 10)) (digit (n % 10)) (is_empty-digit (n % 10)),
)

-- Below the parser's bound a printed number is read back.
pub parse_uint-to_string : (limit n : ℕ) → n < limit → parse_uint limit (to_string n) ≡ some n
unfolding to_string
parse_uint-to_string limit n h =
    parse_uint-digits limit (digits (suc n) n) n (λ e. cc (ap is_empty e, is_empty-digits n n))
      (parse_digits-digits limit n n (omega arith) h)
