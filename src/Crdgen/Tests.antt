-- ===== src/Crdgen/Tests.antt =====
-- main.rs: a small CRD with its annotation.
use Prim.Native.Char.{code}
use kubernetes_identity_fede.Base.{
  nat_eq, not, ◌&&◌, true, Bool, String, ◌≡◌, refl, false, List, [], ◌∷◌, ok, All, arith, eq_iff,
}
use kubernetes_identity_fede.Base.Text.{strip_cr}
use kubernetes_identity_fede.Base.Lines.{NoFeed, IsLine, unlines}
use kubernetes_identity_fede.Crdgen.{add_helm_wrapper}
use kubernetes_identity_fede.Crdgen.Wrapped.{crd, wrapped, add_helm_wrapper-crd}

abbrev before : List String
before = "kind: X" ∷ []

abbrev metadata : List String
metadata = "  name: x" ∷ []

abbrev after : List String
after = "  y: 1" ∷ []

small :
    add_helm_wrapper (λ yaml. ok false) "metadata:\n  name: x\nspec:\n  y: 1\n"
    ≡ ok
        "{{- if .Values.crds.install }}\nmetadata:\n  name: x\n  {{- if .Values.crds.keep }}\n  annotations:\n    \"helm.sh/resource-policy\": keep\n  {{- end }}\nspec:\n  y: 1\n{{- end }}\n"
unfolding add_helm_wrapper
small = refl

-- The text has no line feed, as a test.
abbrev no_feed : String → Bool
no_feed String.[] = true
no_feed (String.◌∷◌ c s) = not (nat_eq (code c) b'\n') && no_feed s

no_feed-NoFeed : (s : String) → no_feed s ≡ true → NoFeed s
no_feed-NoFeed String.[] h = tt
no_feed-NoFeed (String.◌∷◌ c s) h = (ground arith, no_feed-NoFeed s (ground arith))

is_line : (s : String) → no_feed s ≡ true → strip_cr s ≡ s → IsLine s
is_line s h k = (no_feed-NoFeed s h, k)

plain : All IsLine (crd before metadata after)
unfolding strip_cr
plain = (
  is_line "kind: X" refl refl,
  (
    is_line "metadata:" refl refl,
    (is_line "  name: x" refl refl, (is_line "spec:" refl refl, (is_line "  y: 1" refl refl, tt))),
  ),
)

add_helm_wrapper-crd_example :
    add_helm_wrapper (λ yaml. ok false) (unlines (crd before metadata after))
    ≡ ok (unlines (wrapped before metadata after))
add_helm_wrapper-crd_example =
    add_helm_wrapper-crd before metadata after
      ((λ h. ground (arith, eq_iff "kind: X" "metadata:")), tt)
      ((λ h. ground (arith, eq_iff "  name: x" "spec:")), tt)
      ((λ h. ground (arith, eq_iff "  y: 1" "metadata:")), tt) (λ yaml. ok false) plain refl
