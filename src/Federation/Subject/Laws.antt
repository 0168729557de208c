-- ===== src/Federation/Subject/Laws.antt =====
-- k8s.rs: the username of a ServiceAccount is read back as its namespace and name.
use Prim.Native.Char.{Char, code}
use text.Mathlib.TextLemmas.{nil-append, cons-append}
use kubernetes_identity_fede.Base.{
  String, ◌<>◌, ◌≡◌, refl, ◌≢◌, ◌∙◌, ap, false, some, [], arith, nat_eq_iff,
}
use kubernetes_identity_fede.Base.Text.{strip_prefix, split, split_first, is_empty}
use kubernetes_identity_fede.Federation.Subject.{username_prefix, parse_service_account_username}

abbrev pub colon : Char
colon = ":"

-- The text has no colon.
abbrev pub NoColon : String → Type 0
NoColon String.[] = Unit
NoColon (String.◌∷◌ c s) = (code c ≢ b':') × NoColon s

-- `<ns>:<sa>`
abbrev pub username : String → String → String
username ns sa = username_prefix <> (ns <> (":" <> sa))

-- `":" <> t` as a character in front of a text.
pub colon-append : (t : String) → ":" <> t ≡ String.◌∷◌ colon t
colon-append t = cons-append colon String.[] t ∙ ap (String.◌∷◌ colon) (nil-append t)

split_first-colon :
    (s t : String) → NoColon s → split_first b':' (s <> (":" <> t)) ≡ (s, split b':' t)
unfolding split
split_first-colon String.[] t h = rw (nil-append (":" <> t), colon-append t) refl
split_first-colon (String.◌∷◌ c s) t (p, h) =
    rw (cons-append c s (":" <> t), split_first)
      (rw (split_first-colon s t h) (ground (arith, nat_eq_iff (code c) b':')))

split_first-NoColon : (s : String) → NoColon s → split_first b':' s ≡ (s, [])
unfolding split
split_first-NoColon String.[] h = refl
split_first-NoColon (String.◌∷◌ c s) (p, h) =
    rw (split_first-NoColon s h, split_first) (ground (arith, nat_eq_iff (code c) b':'))

pub strip_prefix-append : (p s : String) → strip_prefix p (p <> s) ≡ some s
unfolding strip_prefix
strip_prefix-append String.[] s = rw (nil-append s) refl
strip_prefix-append (String.◌∷◌ c p) s =
    rw (cons-append c p s) (ground (arith, strip_prefix-append p s))

-- The username of a ServiceAccount whose namespace and name are not empty and have no colon is
-- read back as the two.
pub parse-username :
    (ns sa : String)
    → NoColon ns
    → NoColon sa
    → is_empty ns ≡ false
    → is_empty sa ≡ false
    → parse_service_account_username (username ns sa) ≡ some (ns, sa)
unfolding parse_service_account_username split
parse-username ns sa no_colon no_colon' named named' =
    rw (strip_prefix-append username_prefix (ns <> (":" <> sa))) (
      rw (split_first-colon ns sa no_colon, split_first-NoColon sa no_colon')
        (rw (named, named') refl))
