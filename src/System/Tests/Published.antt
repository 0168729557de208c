-- ===== src/System/Tests/Published.antt =====
-- The key sets of the tests.
use kubernetes_identity_fede.Base.{String, false, ok}
use kubernetes_identity_fede.System.Keys.{Keysets}

-- A key set is its text.
abbrev pub keysets : Keysets
keysets = record {
  KeySet = String;
  from_str = λ s. ok s;
  has_no_keys = λ keys. false;
  to_string = λ keys. ok keys;
}
