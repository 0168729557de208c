-- ===== src/Crdgen.antt =====
-- app/crates/kif-crdgen/src/main.rs: the CRD that is chosen, and the Helm conditions around it. A
-- panic is an `err`. The YAML library, the CRDs and `str::to_lowercase` are arguments.
pub mod Wrapped
mod Tests
use kubernetes_identity_fede.Base.{
  String, ◌<>◌, Bool, true, false, not, ◌&&◌, ◌||◌, List, [], ◌∷◌, Result, ok, err, ◌>>=◌, ◌>>◌,
  ensure, map_err, if◌then◌else◌, ◌==◌, string_has_eq,
}
use kubernetes_identity_fede.Base.Text.{lines}

abbrev pub annotations : String
annotations =
    "  {{- if .Values.crds.keep }}\n  annotations:\n    \"helm.sh/resource-policy\": keep\n  {{- end }}\n"

-- The loop over the lines, with its flag `in_metadata` and the output.
unfoldable pub wrap_lines : List String → Bool → String → String
wrap_lines [] in_metadata output = output
wrap_lines (line ∷ rest) in_metadata output =
    let opened = in_metadata || (line == "metadata:") in
    let closes = opened && (line == "spec:") in
    wrap_lines rest (opened && not closes)
      ((if closes then output <> annotations else output) <> (line <> "\n"))

-- `serde_yaml::from_str`, and whether the document's metadata has annotations.
module _ (has_annotations : String → Result Bool String) where
  unfoldable pub add_helm_wrapper : String → Result String String
  unfolding wrap_lines lines
  add_helm_wrapper yaml = do
    annotated ← map_err (λ e. "CRD serialization produced invalid YAML") (has_annotations yaml)
    ensure (not annotated)
        "CRD metadata already contains annotations; add_helm_wrapper must be updated to merge them"
    ok (wrap_lines (lines yaml) false "{{- if .Values.crds.install }}\n" <> "{{- end }}\n")

  -- The arguments of the process, and the two CRDs in YAML.
  unfoldable pub main :
      (String → String)
      → Result String String
      → Result String String
      → List String
      → Result String String
  unfolding add_helm_wrapper
  main to_lowercase crb rcrb [] = err "No CRD specified. Usage: crdgen <crb|rcrb>"
  main to_lowercase crb rcrb (program ∷ []) = err "No CRD specified. Usage: crdgen <crb|rcrb>"
  main to_lowercase crb rcrb (program ∷ crd_type ∷ args) = do
    let name = to_lowercase crd_type
    yaml ←
        if name == "crb"
        then map_err (λ e. "Failed to serialize CloudRoleBinding CRD to YAML") crb
        else if name == "rcrb"
        then map_err (λ e. "Failed to serialize ResolvedCloudRoleBinding CRD to YAML") rcrb
        else err ("Invalid CRD type: " <> (crd_type <> ". Use 'crb' or 'rcrb'."))
    add_helm_wrapper yaml
