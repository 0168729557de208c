-- ===== src/Base/Lines.antt =====
-- `str::lines` on lines that are put together again.
use Prim.Native.Char.{Char, code}
use Prim.Native.String.{String, ◌++◌ as ◌<>◌}
use text.Mathlib.TextLemmas.{nil-append, cons-append, append_assoc}
use mathlib.Core.Path.{◌≡◌, refl, sym, ap, ◌∙◌}
use mathlib.Core.Logic.{◌≢◌}
use mathlib.Core.List.{List, [], ◌∷◌, ◌++◌}
use native.Mathlib.Omega.{arith}
use package.kubernetes_identity_fede.Base.Tests.{nat_eq_iff}
use package.kubernetes_identity_fede.Base.Lists.{All}
use package.kubernetes_identity_fede.Base.Text.{split, split_first, strip_cr, lines, lines_of}

-- A line: no line feed in it, and no carriage return at its end.
abbrev pub NoFeed : String → Type 0
NoFeed String.[] = Unit
NoFeed (String.◌∷◌ c s) = (code c ≢ b'\n') × NoFeed s

abbrev pub IsLine : String → Type 0
IsLine s = NoFeed s × (strip_cr s ≡ s)

-- Every line with a line feed behind it.
unfoldable pub unlines : List String → String
unlines [] = ""
unlines (l ∷ ls) = l <> ("\n" <> unlines ls)

pub unlines-append : (ls ms : List String) → unlines (ls ++ ms) ≡ unlines ls <> unlines ms
unfolding unlines
unlines-append [] ms = sym (nil-append (unlines ms))
unlines-append (l ∷ ls) ms =
    ap (λ t. l <> ("\n" <> t)) (unlines-append ls ms)
    ∙ ap (λ t. l <> t) (sym (append_assoc "\n" (unlines ls) (unlines ms)))
    ∙ sym (append_assoc l ("\n" <> unlines ls) (unlines ms))

abbrev feed : Char
feed = "\n"

feed-append : (t : String) → "\n" <> t ≡ String.◌∷◌ feed t
feed-append t = cons-append feed String.[] t ∙ ap (String.◌∷◌ feed) (nil-append t)

split_first-feed :
    (s t : String) → NoFeed s → split_first b'\n' (s <> ("\n" <> t)) ≡ (s, split b'\n' t)
unfolding split
split_first-feed String.[] t h = rw (nil-append ("\n" <> t), feed-append t) refl
split_first-feed (String.◌∷◌ c s) t (p, h) =
    rw (cons-append c s ("\n" <> t), split_first)
      (rw (split_first-feed s t h) (ground (arith, nat_eq_iff (code c) b'\n')))

lines-cons : (l t : String) → IsLine l → lines (l <> ("\n" <> t)) ≡ l ∷ lines t
unfolding lines lines_of split
lines-cons l t (h, plain) = rw (split_first-feed l t h) (ap (λ m. m ∷ lines t) plain)

lines-nil : lines "" ≡ []
unfolding lines lines_of split
lines-nil = refl

pub lines-unlines : (ls : List String) → All IsLine ls → lines (unlines ls) ≡ ls
unfolding unlines
lines-unlines [] h = lines-nil
lines-unlines (l ∷ ls) (p, h) = lines-cons l (unlines ls) p ∙ ap (λ ms. l ∷ ms) (lines-unlines ls h)
