-- ===== src/Federation/Subject/Inversion.antt =====
-- k8s.rs: what a username that is accepted looks like.
use Prim.Native.Char.{Char, code}
use text.Mathlib.TextLemmas.{nil-append, cons-append}
use text.Mathlib.TextEquality.{Char-path}
use mathlib.Core.Option.{some-injective}
use kubernetes_identity_fede.Base.{
  String, ◌<>◌, ◌≡◌, refl, ◌≢◌, ◌∙◌, ap, sym, false, some, List, [], ◌∷◌, and_then-eq-some, arith,
  Bool-cases, inl, inr, ◌⊎◌, nat_eq, nat_eq_iff,
}
use kubernetes_identity_fede.Base.Text.{strip_prefix, split, split_first, is_empty}
use kubernetes_identity_fede.Federation.Subject.{
  username_prefix, first_two, parse_service_account_username,
}
use kubernetes_identity_fede.Federation.Subject.Laws.{NoColon, username, colon, colon-append}

-- The first part has no colon, and is all of the text or ends at the first colon.
abbrev SplitsAs : String → String × List String → Type 0
SplitsAs s (part, parts) =
    NoColon part
    × (((parts ≡ []) × (s ≡ part))
        ⊎ ((t : String) × (s ≡ part <> (":" <> t)) × (parts ≡ split b':' t)))

SplitsAs-cons :
    (c : Char) (s : String) (p : String × List String)
    → code c ≢ b':'
    → SplitsAs s p
    → SplitsAs (String.◌∷◌ c s) (String.◌∷◌ c p.0, p.1)
SplitsAs-cons c s (part, parts) other (free, inl (none_, same)) =
    ((other, free), inl (none_, ap (String.◌∷◌ c) same))
SplitsAs-cons c s (part, parts) other (free, inr (t, same, rest)) =
    ((other, free), inr (t, ap (String.◌∷◌ c) same ∙ sym (cons-append c part (":" <> t)), rest))

split_first-SplitsAs : (s : String) → SplitsAs s (split_first b':' s)
unfolding split split_first
split_first-SplitsAs String.[] = (tt, inl (refl, refl))
split_first-SplitsAs (String.◌∷◌ c s) = elim (Bool-cases (nat_eq (code c) b':')) [
  | inl same ↦
      let c-colon : c ≡ colon = Char-path c colon ((nat_eq_iff (code c) b':').0 same) in
      rw same
        (tt, inr (s, ap (λ d. String.◌∷◌ d s) c-colon ∙ sym (nil-append _ ∙ colon-append s), refl))
  | inr other ↦ rw other (
      SplitsAs-cons c s (split_first b':' s) (ground (arith, nat_eq_iff (code c) b':'))
        (split_first-SplitsAs s))
]

strip_prefix_inv : (p u : String) {r : String} → strip_prefix p u ≡ some r → u ≡ p <> r
unfolding strip_prefix
strip_prefix_inv String.[] u h = some-injective _ _ h ∙ sym (nil-append _)
strip_prefix_inv (String.◌∷◌ c p) String.[] h = cc
strip_prefix_inv (String.◌∷◌ c p) (String.◌∷◌ d u) {r} h =
    elim (Bool-cases (nat_eq (code c) (code d))) [
      | inl same ↦
          let tail = strip_prefix_inv p u {r = r} (ground arith) in
          ap (λ e. String.◌∷◌ e u) (sym (Char-path c d ((nat_eq_iff (code c) (code d)).0 same)))
          ∙ ap (String.◌∷◌ c) tail
          ∙ sym (cons-append c p r)
      | inr other ↦ absurd (ground arith)
    ]

-- The first two parts.
first_two_inv :
    (parts : List String) {ns sa : String}
    → first_two parts ≡ some (ns, sa)
    → (more : List String) × (parts ≡ ns ∷ sa ∷ more)
      × (is_empty ns ≡ false)
      × (is_empty sa ≡ false)
unfolding first_two
first_two_inv [] h = cc
first_two_inv (ns ∷ []) h = cc
first_two_inv (a ∷ b ∷ more) h = (more, ground arith, ground arith, ground arith)

-- What stands behind the namespace: the name alone, or the name and a colon with more.
abbrev pub IsAccount : String → String → Type 0
IsAccount sa t = (t ≡ sa) ⊎ ((more : String) × (t ≡ sa <> (":" <> more)))

IsAccount-of :
    (sa t : String) (q : String × List String)
    → SplitsAs t q
    → q.0 ≡ sa
    → NoColon sa × IsAccount sa t
IsAccount-of sa t (part, parts) (free, inl (none_, same)) e = rw (← e) (free, inl same)
IsAccount-of sa t (part, parts) (free, inr (more, same, rest)) e = rw (← e) (free, inr (more, same))

IsAccount-parts :
    (ns sa rest : String) (more : List String) (p : String × List String)
    → SplitsAs rest p
    → p.0 ∷ p.1 ≡ ns ∷ sa ∷ more
    → NoColon ns × (t : String) × (rest ≡ ns <> (":" <> t)) × NoColon sa × IsAccount sa t
unfolding split
IsAccount-parts ns sa rest more (part, parts) (free, inl (none_, same)) e = absurd (ground arith)
IsAccount-parts ns sa rest more (part, parts) (free, inr (t, same, follow)) e =
    let first : part ≡ ns = cc in
    let (free', found) =
      IsAccount-of sa t (split_first b':' t) (split_first-SplitsAs t) (ground arith) in
    (rw first at free, t, rw first at same, free', found)

-- An accepted username is the prefix, a namespace, a colon and a name, neither of which is empty
-- or has a colon, and possibly a further colon with more text.
pub parse_service_account_username_inv :
    (u ns sa : String)
    → parse_service_account_username u ≡ some (ns, sa)
    → (t : String) × (u ≡ username ns t)
      × IsAccount sa t
      × NoColon ns
      × NoColon sa
      × (is_empty ns ≡ false)
      × (is_empty sa ≡ false)
unfolding parse_service_account_username split
parse_service_account_username_inv u ns sa h =
    let (rest, stripped, h') = and_then-eq-some (strip_prefix username_prefix u) _ h in
    let whole = strip_prefix_inv username_prefix u {r = rest} stripped in
    let (more, parts, named, named') = first_two_inv (split b':' rest) {ns = ns} {sa = sa} h' in
    let (free, t, same, free', found) =
      IsAccount-parts ns sa rest more (split_first b':' rest) (split_first-SplitsAs rest) parts in
    (t, whole ∙ ap (λ r. username_prefix <> r) same, found, free, free', named, named')
