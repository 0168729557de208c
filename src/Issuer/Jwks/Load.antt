-- ===== src/Issuer/Jwks/Load.antt =====
-- main.rs: how the loop of `load_jwks_and_watch` ends.
use kubernetes_identity_fede.Base.{
  String, ◌<>◌, ◌≡◌, refl, ap, sym, subst, inl, inr, true, false, some, List, [], ◌∷◌, ◌++◌, ok,
  err, Bool-cases, Result-cases, All,
}
use kubernetes_identity_fede.Issuer.Jwks.{
  Library, Store, Try, Loading, waiting, loaded, failed, set, parse_jwks, load,
}

module _ (library : Library) (path : String) (store : Store library.KeySet) where
  open library use {Bytes, KeySet, from_utf8, from_str, has_no_keys}

  -- A read that fails before the deadline.
  abbrev pub IsSkipped : Try Bytes → Type 0
  IsSkipped t = ((e : String) × (t.bytes ≡ err e)) × (t.late ≡ false)

  -- The ways in which the loop ends, or does not, behind the reads that are skipped.
  pub data Loads (ts : List (Try Bytes)) (r : Loading KeySet) : Type 0 where
    waits : All IsSkipped ts → r ≡ waiting store → Loads ts r
    loads :
        (before after : List (Try Bytes)) (t : Try Bytes) (bytes : Bytes) (jwks : KeySet)
        → ts ≡ before ++ (t ∷ after)
        → All IsSkipped before
        → t.bytes ≡ ok bytes
        → parse_jwks library bytes ≡ ok jwks
        → r ≡ loaded (some jwks)
        → Loads ts r
    rejects :
        (before after : List (Try Bytes)) (t : Try Bytes) (bytes : Bytes) (e : String)
        → ts ≡ before ++ (t ∷ after)
        → All IsSkipped before
        → t.bytes ≡ ok bytes
        → parse_jwks library bytes ≡ err e
        → r ≡ failed ("failed to parse JWKS from " <> (path <> (": " <> e)))
        → Loads ts r
    expires :
        (before after : List (Try Bytes)) (t : Try Bytes) (e : String)
        → ts ≡ before ++ (t ∷ after)
        → All IsSkipped before
        → t.bytes ≡ err e
        → t.late ≡ true
        → r ≡ failed ("failed to read JWKS_FILE_PATH=" <> (path <> (": " <> e)))
        → Loads ts r

  Loads-skip :
      (t : Try Bytes) (ts : List (Try Bytes)) (r : Loading KeySet)
      → IsSkipped t
      → Loads ts r
      → Loads (t ∷ ts) r
  Loads-skip t ts r skipped (waits all e) = waits (skipped, all) e
  Loads-skip t ts r skipped (loads before after u bytes jwks at all read parsed e) =
      loads (t ∷ before) after u bytes jwks (ap (◌∷◌ t) at) (skipped, all) read parsed e
  Loads-skip t ts r skipped (rejects before after u bytes e at all read parsed e') =
      rejects (t ∷ before) after u bytes e (ap (◌∷◌ t) at) (skipped, all) read parsed e'
  Loads-skip t ts r skipped (expires before after u e at all read late e') =
      expires (t ∷ before) after u e (ap (◌∷◌ t) at) (skipped, all) read late e'

  load-skip :
      (t : Try Bytes) (ts : List (Try Bytes)) (e : String)
      → t.bytes ≡ err e
      → t.late ≡ false
      → load library path (t ∷ ts) store ≡ load library path ts store
  unfolding load
  load-skip t ts e unread early = rw (unread, load) (rw early refl)

  -- The loop waits as long as every read fails before the deadline; the first other read ends it:
  -- it stores the key set of a file that parses, and bails out for one that does not or for a
  -- failure behind the deadline.
  pub load-Loads : (ts : List (Try Bytes)) → Loads ts (load library path ts store)
  unfolding load set
  load-Loads [] = waits tt refl
  load-Loads (t ∷ ts) = elim (Result-cases t.bytes) [
    | inl (bytes, read) ↦ elim (Result-cases (parse_jwks library bytes)) [
      | inl (jwks, parsed) ↦
          loads [] ts t bytes jwks refl tt read parsed (rw (read, load) (rw parsed refl))
      | inr (e, parsed) ↦
          rejects [] ts t bytes e refl tt read parsed (rw (read, load) (rw parsed refl))
    ]
    | inr (e, unread) ↦ elim (Bool-cases t.late) [
      | inl late ↦ expires [] ts t e refl tt unread late (rw (unread, load) (rw late refl))
      | inr early ↦
          subst (Loads (t ∷ ts)) (sym (load-skip t ts e unread early))
            (Loads-skip t ts (load library path ts store) ((e, unread), early) (load-Loads ts))
    ]
  ]
