-- ===== src/Api/Shared.antt =====
-- app/crates/kif-api/src/shared.rs
use kubernetes_identity_fede.Base.{String, ◌<>◌, Result, ok, err, if◌then◌else◌}
use kubernetes_identity_fede.Base.Text.{trim, is_empty}

abbrev pub namespace_path : String
namespace_path = "/var/run/secrets/kubernetes.io/serviceaccount/namespace"

-- `fs::read_to_string` is the argument; it gives the text of a file or fails.
unfoldable pub pod_namespace : (String → Result String String) → Result String String
pod_namespace read_to_string = elim (read_to_string namespace_path) [
  | err e ↦ err ("failed to read pod namespace file " <> namespace_path)
  | ok text ↦
      let ns = trim text in
      if is_empty ns then err ("pod namespace file " <> (namespace_path <> " was empty")) else ok ns
]
