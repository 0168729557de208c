-- ===== src/Issuer/Jwks.antt =====
-- app/crates/kif-issuer/src/jwks.rs, `run_secret_watcher` of kube_watch.rs and the loop of
-- `load_jwks_and_watch` of main.rs. JSON and UTF-8 are arguments. The watcher runs over the events
-- that it receives, and the loop over the answers of the file system and the clock.
pub mod LastGood
pub mod Load
pub mod Tests
use kubernetes_identity_fede.Base.{
  String, ◌<>◌, Bool, true, false, not, Option, none, some, List, [], ◌∷◌, Result, ok, err, ◌>>=◌,
  ◌>>◌, ensure, is_some, if◌then◌else◌,
}
use kubernetes_identity_fede.Api.Shared.{pod_namespace}
use kubernetes_identity_fede.Base.BTreeMap.{lookup}
use kubernetes_identity_fede.Federation.Keys.Secrets.{Secret}

pub record Library : Type 1 where
  pub Bytes : Type 0
  pub KeySet : Type 0
  pub from_utf8 : Bytes → Result String String
  pub from_str : String → Result KeySet String
  -- `keys().is_empty()`
  pub has_no_keys : KeySet → Bool

-- `JwksStore`: what is behind the lock.
abbrev pub Store : Type 0 → Type 0
Store KeySet = Option KeySet

-- `JwksStore::new`
abbrev pub new : {KeySet : Type 0} → Store KeySet
new = none

unfoldable pub is_loaded : {KeySet : Type 0} → Store KeySet → Bool
is_loaded store = is_some store

-- `JwksStore::set`
unfoldable pub set : {KeySet : Type 0} → KeySet → Store KeySet → Store KeySet
set jwks store = some jwks

-- One answer for the loop: what `read` gives, and whether the deadline has passed.
pub record Try (Bytes : Type 0) : Type 0 where
  pub bytes : Result Bytes String
  pub late : Bool

-- The loop sleeps still, has broken, or has bailed out.
pub data Loading (KeySet : Type 0) : Type 0 where
  waiting loaded : Store KeySet → Loading KeySet
  failed : String → Loading KeySet

module _ (library : Library) where
  open library use {Bytes, KeySet, from_utf8, from_str, has_no_keys}

  unfoldable pub parse_jwks : Bytes → Result KeySet String
  parse_jwks bytes = do
    jwks_json ← from_utf8 bytes
    jwks ← from_str jwks_json
    ensure (not (has_no_keys jwks)) "attempted to set empty JWKS; ignoring"
    ok jwks

  abbrev pub store_parsed : Result KeySet String → Store KeySet → Store KeySet
  store_parsed (ok jwks) store = set jwks store
  store_parsed (err e) store = store

  abbrev pub store_bytes : Option Bytes → Store KeySet → Store KeySet
  store_bytes none store = store
  store_bytes (some bytes) store = store_parsed (parse_jwks bytes) store

  -- One event of the watcher.
  unfoldable pub on_event : Result (Secret Bytes) String → Store KeySet → Store KeySet
  unfolding parse_jwks set
  on_event (err e) store = store
  on_event (ok secret) store = elim secret.entries [
    | none ↦ store
    | some data_ ↦ store_bytes (lookup "jwks.json" data_) store
  ]

  -- What a task has returned, if it has, and the store.
  abbrev pub Task : Type 0
  Task = Option (Result (Unit {0}) String) × Store KeySet

  -- The `for_each` over the watcher's stream, which does not end.
  unfoldable pub for_each : List (Result (Secret Bytes) String) → Store KeySet → Store KeySet
  unfolding on_event
  for_each [] store = store
  for_each (ev ∷ evs) store = for_each evs (on_event ev store)

  -- The first argument is the outcome of `Client::try_default`.
  unfoldable pub run_secret_watcher :
      Result (Unit {0}) String → List (Result (Secret Bytes) String) → Store KeySet → Task
  unfolding for_each
  run_secret_watcher (err e) evs store = (some (err e), store)
  run_secret_watcher (ok client) evs store = (none, for_each evs store)

  -- A file that was read.
  abbrev pub load_parsed : String → Result KeySet String → Store KeySet → Loading KeySet
  load_parsed path (ok jwks) store = loaded (set jwks store)
  load_parsed path (err e) store = failed ("failed to parse JWKS from " <> (path <> (": " <> e)))

  unfoldable pub load : String → List (Try Bytes) → Store KeySet → Loading KeySet
  unfolding parse_jwks set
  load path [] store = waiting store
  load path (t ∷ ts) store =
      let rest = load path ts store in
      elim t.bytes [
        | ok bytes ↦ load_parsed path (parse_jwks bytes) store
        | err e ↦
            if t.late
            then failed ("failed to read JWKS_FILE_PATH=" <> (path <> (": " <> e)))
            else rest
      ]

  -- What is left of the task in a cluster.
  unfoldable pub watch_secret :
      Result String String
      → Result (Unit {0}) String
      → List (Result (Secret Bytes) String)
      → Store KeySet
      → Task
  unfolding run_secret_watcher
  watch_secret (ok ns) client evs store = run_secret_watcher client evs store
  watch_secret (err e) client evs store = (some (err e), store)

  -- The loop, and the watcher behind it in a cluster.
  unfoldable pub load_jwks_and_watch :
      (String → Result String String)
      → String
      → Bool
      → List (Try Bytes)
      → Result (Unit {0}) String
      → List (Result (Secret Bytes) String)
      → Store KeySet
      → Task
  unfolding load watch_secret pod_namespace
  load_jwks_and_watch read_to_string path running_in_cluster tries client evs store =
      elim (load path tries store) [
        | waiting store' ↦ (none, store')
        | failed e ↦ (some (err e), store)
        | loaded store' ↦
            if running_in_cluster
            then watch_secret (pod_namespace read_to_string) client evs store'
            else (some (ok tt), store')
      ]
