-- ===== src/Base/TextOrder.antt =====
-- The order of `str`.
use Prim.Native.Nat.{Ordering}
use Prim.Native.String.compare
use Prim.Native.String.{String, [], ◌∷◌, compare}
use mathlib.Core.Path.{◌≡◌, sym, ◌∙◌}
use native.Mathlib.Omega.{arith}

-- The order of `str` is a strict one.
pub compare_trans :
    (a b c : String)
    → compare a b ≡ Ordering.lt
    → compare b c ≡ Ordering.lt
    → compare a c ≡ Ordering.lt
compare_trans [] [] c h k = absurd (cc (compare.nil-nil))
compare_trans [] (y ∷ b) [] h k = absurd (cc (compare.cons-nil y b))
compare_trans [] (y ∷ b) (z ∷ c) h k = compare.nil-cons z c
compare_trans (x ∷ a) [] c h k = absurd (cc (compare.cons-nil x a))
compare_trans (x ∷ a) (y ∷ b) [] h k = absurd (cc (compare.cons-nil y b))
compare_trans (x ∷ a) (y ∷ b) (z ∷ c) h k =
    let first = sym (compare.cons-cons x y a b) ∙ h in
    let second = sym (compare.cons-cons y z b c) ∙ k in
    rw (compare.cons-cons x z a c) (ground (arith, compare_trans a b c))

pub compare-flip : (a b : String) → compare a b ≡ Ordering.gt → compare b a ≡ Ordering.lt
compare-flip [] [] h = absurd (cc (compare.nil-nil))
compare-flip [] (y ∷ b) h = absurd (cc (compare.nil-cons y b))
compare-flip (x ∷ a) [] h = compare.nil-cons x a
compare-flip (x ∷ a) (y ∷ b) h =
    let both = sym (compare.cons-cons x y a b) ∙ h in
    rw (compare.cons-cons y x b a) (ground (arith, compare-flip a b))
