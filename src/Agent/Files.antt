-- ===== src/Agent/Files.antt =====
-- app/crates/kif-agent/src/federation.rs: `atomic_write`. A file system maps paths to contents; which
-- call fails, and what a failed write leaves behind, is an argument. Every state that a reader can
-- meet on the way is in the result.
pub mod Atomic
mod Tests
use kubernetes_identity_fede.Base.{
  String, ◌<>◌, Bool, Option, none, some, List, [], ◌∷◌, Result, ok, err, if◌then◌else◌, ◌==◌,
  string_has_eq,
}

abbrev pub Files : Type 0
Files = String → Option String

abbrev pub write : Files → String → Option String → Files
write files path content p = if p == path then content else files p

-- The outcome of each call: of a write that fails, what it has written.
pub record Outcomes : Type 0 where
  pub dirs : Bool
  pub create : Bool
  pub partial : Option String
  pub sync : Bool
  pub rename : Bool

-- `with_added_extension("tmp")`, for a path that ends in a file name.
abbrev pub tmp_path : String → String
tmp_path path = path <> ".tmp"

-- The states after each call, the last one first, and the result.
abbrev pub Run : Type 0
Run = List Files × Result (Unit {0}) String

-- The files as a run leaves them.
abbrev pub latest : Run → Files → Files
latest ([], result) files = files
latest (f ∷ seen, result) files = f

module _ (path contents : String) where
  abbrev renamed : Files → Files
  renamed files = write (write files path (files (tmp_path path))) (tmp_path path) none

  -- The calls behind the write: sync and rename.
  unfoldable pub finish : Outcomes → List Files → Files → Run
  finish o seen files =
      if o.sync
      then (if o.rename then (renamed files ∷ files ∷ seen, ok tt) else (
        files ∷ seen,
        err ("failed to rename tmp file " <> (tmp_path path <> (" to " <> path))),
      ))
      else (files ∷ seen, err ("failed to sync tmp file " <> tmp_path path))

  unfoldable pub write_tmp : Outcomes → Option String → List Files → Files → Run
  unfolding finish
  write_tmp o none seen files = finish o seen (write files (tmp_path path) (some contents))
  write_tmp o (some part) seen files = (
    write files (tmp_path path) (some part) ∷ seen,
    err ("failed to write contents to tmp file " <> tmp_path path),
  )

  unfoldable pub atomic_write : Outcomes → Files → Run
  unfolding write_tmp
  atomic_write o files =
      if o.dirs
      then (if o.create
          then (let created = write files (tmp_path path) (some "") in
              write_tmp o o.partial (created ∷ files ∷ []) created)
          else (files ∷ [], err ("failed to create tmp file " <> tmp_path path)))
      else (files ∷ [], err ("failed to create parent dirs for " <> path))
