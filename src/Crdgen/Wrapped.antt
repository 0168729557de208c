-- ===== src/Crdgen/Wrapped.antt =====
-- main.rs: where the annotation is put.
use text.Mathlib.TextLemmas.{append_assoc, append-nil}
use mathlib.Core.List.{append-nil as append-nil_list}
use kubernetes_identity_fede.Base.{
  inl, inr, Bool-cases, ◌==◌, string_has_eq, String, ◌<>◌, ◌≡◌, refl, sym, ap, ◌∙◌, ◌≢◌, Bool, true,
  false, List, [], ◌∷◌, ◌++◌, Result, ok, All, eq_iff,
}
use kubernetes_identity_fede.Base.Lines.{IsLine, unlines, unlines-append, lines-unlines}
use kubernetes_identity_fede.Crdgen.{annotations, wrap_lines, add_helm_wrapper}

abbrev annotation_lines : List String
annotation_lines =
    "  {{- if .Values.crds.keep }}" ∷ "  annotations:" ∷ "    \"helm.sh/resource-policy\": keep"
    ∷ "  {{- end }}" ∷ []

annotations-unlines : annotations ≡ unlines annotation_lines
unfolding unlines
annotations-unlines = refl

differs : (l k : String) → l ≢ k → (l == k) ≡ false
differs l k h = elim (Bool-cases (l == k)) [
  | inl same ↦ absurd (h ((eq_iff l k).0 same))
  | inr other ↦ other
]

-- A line that is pushed to the output.
push :
    (output l : String) (ls : List String)
    → (output <> (l <> "\n")) <> unlines ls ≡ output <> unlines (l ∷ ls)
unfolding unlines
push output l ls =
    append_assoc output (l <> "\n") (unlines ls)
    ∙ ap (λ t. output <> t) (append_assoc l "\n" (unlines ls))

-- Outside the metadata the lines are copied, and inside it up to the spec.
wrap_lines-outside :
    (ls ms : List String) (output : String)
    → All (λ l. l ≢ "metadata:") ls
    → wrap_lines (ls ++ ms) false output ≡ wrap_lines ms false (output <> unlines ls)
unfolding wrap_lines unlines
wrap_lines-outside [] ms output h = ap (wrap_lines ms false) (sym (append-nil output))
wrap_lines-outside (l ∷ ls) ms output (p, h) =
    rw (differs l "metadata:" p, wrap_lines)
      (wrap_lines-outside ls ms (output <> (l <> "\n")) h
        ∙ ap (wrap_lines ms false) (push output l ls))

wrap_lines-inside :
    (ls ms : List String) (output : String)
    → All (λ l. l ≢ "spec:") ls
    → wrap_lines (ls ++ ms) true output ≡ wrap_lines ms true (output <> unlines ls)
unfolding wrap_lines unlines
wrap_lines-inside [] ms output h = ap (wrap_lines ms true) (sym (append-nil output))
wrap_lines-inside (l ∷ ls) ms output (p, h) =
    rw (differs l "spec:" p, wrap_lines)
      (wrap_lines-inside ls ms (output <> (l <> "\n")) h
        ∙ ap (wrap_lines ms true) (push output l ls))

wrap_lines-behind :
    (ls : List String) (output : String)
    → All (λ l. l ≢ "metadata:") ls
    → wrap_lines ls false output ≡ output <> unlines ls
unfolding wrap_lines
wrap_lines-behind ls output h =
    ap (λ ms. wrap_lines ms false output) (sym (append-nil_list ls))
    ∙ wrap_lines-outside ls [] output h

glue :
    (output : String) (ls ms : List String)
    → output <> unlines (ls ++ ms) ≡ (output <> unlines ls) <> unlines ms
glue output ls ms =
    ap (λ t. output <> t) (unlines-append ls ms)
    ∙ sym (append_assoc output (unlines ls) (unlines ms))

abbrev opening : List String
opening = "{{- if .Values.crds.install }}" ∷ []

abbrev closing : List String
closing = "{{- end }}" ∷ []

module _ (before metadata after : List String) where
  -- A CRD: its metadata, and the spec behind it.
  abbrev pub crd : List String
  crd = before ++ ("metadata:" ∷ metadata ++ ("spec:" ∷ after))

  -- The CRD with its annotation, under the condition.
  abbrev pub wrapped : List String
  wrapped =
      "{{- if .Values.crds.install }}" ∷ before
      ++ ("metadata:" ∷ metadata ++ (annotation_lines ++ ("spec:" ∷ after ++ ("{{- end }}" ∷ []))))

  module _ (outside : All (λ l. l ≢ "metadata:") before) (inside : All (λ l. l ≢ "spec:") metadata)
      (behind : All (λ l. l ≢ "metadata:") after) where
    wrap_lines-crd :
        (output : String)
        → wrap_lines crd false output
          ≡ (((((output <> unlines before) <> unlines ("metadata:" ∷ [])) <> unlines metadata)
                <> annotations)
              <> unlines ("spec:" ∷ []))
            <> unlines after
    unfolding wrap_lines unlines
    wrap_lines-crd output =
        wrap_lines-outside before _ output outside
        ∙ wrap_lines-inside metadata _ _ inside
        ∙ wrap_lines-behind after _ behind

    collect :
        (((((((unlines opening <> unlines before) <> unlines ("metadata:" ∷ []))
                  <> unlines metadata)
                <> unlines annotation_lines)
              <> unlines ("spec:" ∷ []))
            <> unlines after)
          <> unlines closing)
        ≡ unlines wrapped
    collect =
        let spec = "spec:" ∷ [] in
        let meta = "metadata:" ∷ [] in
        let end_ = after ++ closing in
        let tail = annotation_lines ++ (spec ++ end_) in
        sym (
          unlines-append opening (before ++ (meta ++ (metadata ++ tail)))
          ∙ glue _ before (meta ++ (metadata ++ tail))
          ∙ glue _ meta (metadata ++ tail)
          ∙ glue _ metadata tail
          ∙ glue _ annotation_lines (spec ++ end_)
          ∙ glue _ spec end_
          ∙ glue _ after closing)

    -- For a CRD without annotations, whose lines have one line of metadata and behind it a line of
    -- the spec, the wrapper puts the four lines of the annotation directly before that line of the
    -- spec, the conditions around all, and copies the rest.
    pub add_helm_wrapper-crd :
        (has_annotations : String → Result Bool String)
        → All IsLine crd
        → has_annotations (unlines crd) ≡ ok false
        → add_helm_wrapper has_annotations (unlines crd) ≡ ok (unlines wrapped)
    unfolding add_helm_wrapper unlines
    add_helm_wrapper-crd has_annotations plain none_yet = rw none_yet (
        ap ok (
          rw (lines-unlines crd plain)
            (ap (λ t. t <> unlines closing) (wrap_lines-crd (unlines opening)) ∙ collect)))
