-- ===== src/Agent/Files/Atomic.antt =====
-- federation.rs: a reader of the token file never meets a partly written token.
use text.Mathlib.TextLemmas.{append-nil, append_cancel_left}
use kubernetes_identity_fede.Base.{
  String, ◌≡◌, refl, ◌≢◌, ◌⊎◌, inl, inr, ap, sym, ◌∙◌, Bool, true, false, Option, none, some, List,
  [], ◌∷◌, Result, ok, err, All, arith, eq_iff, string_has_eq,
}
use kubernetes_identity_fede.Agent.Files.{
  Files, write, Outcomes, tmp_path, Run, latest, atomic_write,
}

tmp_path-ne : (path : String) → tmp_path path ≢ path
tmp_path-ne path e =
    let empty : ◌≡◌ {A = String} ".tmp" "" =
      append_cancel_left path ".tmp" "" (e ∙ sym (append-nil path)) in
    ground (arith, eq_iff ".tmp" "")

module _ (path contents : String) (files : Files) where
  -- A run that replaces the target in its last step, or leaves it as it was.
  pub data IsAtomic (run : List Files × Result (Unit {0}) String) : Type 0 where
    is_done :
        (f : Files) (seen : List Files)
        → run ≡ (f ∷ seen, ok tt)
        → f path ≡ some contents
        → f (tmp_path path) ≡ none
        → All (λ g. g path ≡ files path) seen
        → IsAtomic run
    is_failed : (e : String) → run.1 ≡ err e → All (λ f. f path ≡ files path) run.0 → IsAtomic run

  write_ne : (f : Files) (p q : String) (c : Option String) → p ≢ q → write f p c q ≡ f q
  write_ne f p q c h = ground (arith, eq_iff q p)

  write_self : (f : Files) (p : String) (c : Option String) → write f p c p ≡ c
  write_self f p c = ground (arith, eq_iff p p)

  abbrev tmp : String
  tmp = tmp_path path

  -- A write to the temporary file leaves another file alone.
  kept : (f : Files) (q : String) (c : Option String) → q ≢ tmp → write f tmp c q ≡ f q
  kept f q c h = write_ne f tmp q c (λ e. h (sym e))

  target_kept : (f : Files) (c : Option String) → write f tmp c path ≡ f path
  target_kept f c = write_ne f tmp path c (tmp_path-ne path)

  abbrev created : Files
  created = write files tmp (some "")

  abbrev written : String → Files
  written text = write created tmp (some text)

  abbrev moved : Files
  moved = write (write (written contents) path (written contents tmp)) tmp none

  created_kept : created path ≡ files path
  created_kept = target_kept files (some "")

  written_kept : (text : String) → written text path ≡ files path
  written_kept text = target_kept created (some text) ∙ created_kept

  moved_new : moved path ≡ some contents
  moved_new =
      target_kept (write (written contents) path (written contents tmp)) none
      ∙ write_self (written contents) path (written contents tmp)
      ∙ write_self created tmp (some contents)

  written_other : (q text : String) → q ≢ tmp → written text q ≡ files q
  written_other q text h = kept created q (some text) h ∙ kept files q (some "") h

  moved_other : (q : String) → q ≢ path → q ≢ tmp → moved q ≡ files q
  moved_other q h k =
      kept (write (written contents) path (written contents tmp)) q none k
      ∙ write_ne (written contents) path q (written contents tmp) (λ e. h (sym e))
      ∙ written_other q contents k

  abbrev outcomes : Bool → Bool → Option String → Bool → Bool → Outcomes
  outcomes dirs create partial sync rename = record {
    dirs = dirs;
    create = create;
    partial = partial;
    sync = sync;
    rename = rename;
  }

  atomic :
      (dirs create : Bool) (partial : Option String) (sync rename : Bool)
      → IsAtomic (atomic_write path contents (outcomes dirs create partial sync rename) files)
  unfolding atomic_write
  atomic false create partial sync rename = is_failed _ refl (refl, tt)
  atomic true false partial sync rename = is_failed _ refl (refl, tt)
  atomic true true (some part) sync rename =
      is_failed _ refl (written_kept part, (created_kept, (refl, tt)))
  atomic true true none false rename =
      is_failed _ refl (written_kept contents, (created_kept, (refl, tt)))
  atomic true true none true false =
      is_failed _ refl (written_kept contents, (created_kept, (refl, tt)))
  atomic true true none true true =
      is_done moved (written contents ∷ created ∷ files ∷ []) refl moved_new
        (write_self (write (written contents) path (written contents tmp)) tmp none)
        (written_kept contents, (created_kept, (refl, tt)))

  -- Whichever call of atomic_write fails, a reader of the target meets the old contents until the
  -- rename: either the run succeeds, and the last state alone has the new contents and no
  -- temporary file, or it fails and the target is the old one in every state.
  pub atomic_write-IsAtomic : (o : Outcomes) → IsAtomic (atomic_write path contents o files)
  atomic_write-IsAtomic o = atomic o.dirs o.create o.partial o.sync o.rename

  others :
      (q : String) (dirs create : Bool) (partial : Option String) (sync rename : Bool)
      → q ≢ path
      → q ≢ tmp_path path
      → All
          (λ f. f q ≡ files q)
          (atomic_write path contents (outcomes dirs create partial sync rename) files).0
  unfolding atomic_write
  others q false create partial sync rename h k = (refl, tt)
  others q true false partial sync rename h k = (refl, tt)
  others q true true (some part) sync rename h k =
      (written_other q part k, (kept files q (some "") k, (refl, tt)))
  others q true true none false rename h k =
      (written_other q contents k, (kept files q (some "") k, (refl, tt)))
  others q true true none true false h k =
      (written_other q contents k, (kept files q (some "") k, (refl, tt)))
  others q true true none true true h k =
      (moved_other q h k, (written_other q contents k, (kept files q (some "") k, (refl, tt))))

  -- A file other than the target and the temporary one is the same in every state of atomic_write.
  pub atomic_write-others :
      (q : String) (o : Outcomes)
      → q ≢ path
      → q ≢ tmp_path path
      → All (λ f. f q ≡ files q) (atomic_write path contents o files).0
  atomic_write-others q o = others q o.dirs o.create o.partial o.sync o.rename

latest-All :
    (path : String) (files : Files) (run : Run)
    → All (λ f. f path ≡ files path) run.0
    → latest run files path ≡ files path
latest-All path files ([], result) same = refl
latest-All path files (f ∷ seen, result) (same, rest) = same

-- A write that succeeds leaves the new contents, and one that fails the old ones.
pub latest-atomic_write :
    (path contents : String) (files : Files) (o : Outcomes)
    → let run = atomic_write path contents o files in
      ((run.1 ≡ ok tt) × (latest run files path ≡ some contents))
      ⊎ ((e : String) × (run.1 ≡ err e) × (latest run files path ≡ files path))
latest-atomic_write path contents files o =
    let run = atomic_write path contents o files in
    elim (atomic_write-IsAtomic path contents files o) [
      | is_done f seen e new gone old ↦
          inl (ap (λ (r : Run). r.1) e, ap (λ (r : Run). latest r files path) e ∙ new)
      | is_failed e failed same ↦ inr (e, failed, latest-All path files run same)
    ]
