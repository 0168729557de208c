-- ===== src/Issuer/Jwks/LastGood.antt =====
-- jwks.rs and kube_watch.rs: the store has the last good key set.
use kubernetes_identity_fede.Base.{
  String, ◌≡◌, refl, ◌∙◌, ap, subst, false, not, Option, none, some, List, [], ◌∷◌, Result, ok, err,
  and_then, option_or, to_option, ensure, >>=-eq-ok, ensure-eq-ok, ok-injective, arith,
  Result-cases, Option-cases, inl, inr,
}
use kubernetes_identity_fede.Base.BTreeMap.{lookup}
use kubernetes_identity_fede.Federation.Keys.Secrets.{Secret}
use kubernetes_identity_fede.Issuer.Jwks.{
  Library, Store, set, parse_jwks, on_event, for_each, run_secret_watcher, store_parsed,
  store_bytes,
}

option_or_assoc :
    {A : Type 0} (a b c : Option A) → option_or a (option_or b c) ≡ option_or (option_or a b) c
option_or_assoc none b c = refl
option_or_assoc (some x) b c = refl

module _ (library : Library) where
  open library use {Bytes, KeySet, from_utf8, from_str, has_no_keys}

  -- The key set of an event, if it brings a good one.
  abbrev pub good : Result (Secret Bytes) String → Option KeySet
  good ev = and_then (to_option ev) (λ secret. and_then secret.entries (λ entries.
      and_then (lookup "jwks.json" entries) (λ bytes. to_option (parse_jwks library bytes))))

  -- The key set of the last event that brings a good one.
  abbrev pub last_good : List (Result (Secret Bytes) String) → Option KeySet
  last_good [] = none
  last_good (ev ∷ evs) = option_or (last_good evs) (good ev)

  store_parsed-good :
      (r : Result KeySet String) (store : Store KeySet)
      → store_parsed library r store ≡ option_or (to_option r) store
  unfolding set
  store_parsed-good (ok jwks) store = refl
  store_parsed-good (err e) store = refl

  store_bytes-good :
      (o : Option Bytes) (store : Store KeySet)
      → store_bytes library o store
        ≡ option_or (and_then o (λ bytes. to_option (parse_jwks library bytes))) store
  store_bytes-good none store = refl
  store_bytes-good (some bytes) store = store_parsed-good (parse_jwks library bytes) store

  on_event-good :
      (ev : Result (Secret Bytes) String) (store : Store KeySet)
      → on_event library ev store ≡ option_or (good ev) store
  unfolding on_event
  on_event-good (err e) store = refl
  on_event-good (ok secret) store = elim (Option-cases secret.entries) [
    | inl missing ↦ rw missing refl
    | inr (entries, present) ↦ rw present (store_bytes-good (lookup "jwks.json" entries) store)
  ]

  for_each-last_good :
      (evs : List (Result (Secret Bytes) String)) (store : Store KeySet)
      → for_each library evs store ≡ option_or (last_good evs) store
  unfolding for_each
  for_each-last_good [] store = refl
  for_each-last_good (ev ∷ evs) store =
      for_each-last_good evs (on_event library ev store)
      ∙ ap (option_or (last_good evs)) (on_event-good ev store)
      ∙ option_or_assoc (last_good evs) (good ev) store

  -- If the watcher's client can be made, the watcher goes on and leaves the key set of the last
  -- event that brings a good one, or what was there before if none does; and otherwise it returns
  -- the client's error and leaves what was there before.
  pub run_secret_watcher-last_good :
      (client : Result (Unit {0}) String) (evs : List (Result (Secret Bytes) String))
      (store : Store KeySet)
      → run_secret_watcher library client evs store ≡ elim client [
        | ok _ ↦ (none, option_or (last_good evs) store)
        | err e ↦ (some (err e), store)
      ]
  unfolding run_secret_watcher
  run_secret_watcher-last_good (ok client) evs store =
      ap (λ s. (none, s)) (for_each-last_good evs store)
  run_secret_watcher-last_good (err e) evs store = refl

  -- A good key set has a key.
  parse_jwks-ok :
      (bytes : Bytes) (jwks : KeySet)
      → parse_jwks library bytes ≡ ok jwks
      → has_no_keys jwks ≡ false
  unfolding parse_jwks
  parse_jwks-ok bytes jwks h =
      let (text, decoded, h₁) = >>=-eq-ok (from_utf8 bytes) _ h in
      let (set, parsed, h₂) = >>=-eq-ok (from_str text) _ h₁ in
      let (u, kept, h₃) = >>=-eq-ok (ensure (not (has_no_keys set)) _) _ h₂ in
      let keys = ensure-eq-ok (not (has_no_keys set)) _ kept in
      subst (λ j. has_no_keys j ≡ false) (ok-injective h₃) (ground arith)

  -- The key set of the store, if there is one, has a key.
  abbrev pub HasKeys : Store KeySet → Type 0
  HasKeys none = Unit
  HasKeys (some jwks) = has_no_keys jwks ≡ false

  store_bytes-HasKeys :
      (bytes : Bytes) (store : Store KeySet)
      → HasKeys store
      → HasKeys (store_bytes library (some bytes) store)
  unfolding set
  store_bytes-HasKeys bytes store has = elim (Result-cases (parse_jwks library bytes)) [
    | inl (jwks, parsed) ↦ rw parsed (parse_jwks-ok bytes jwks parsed)
    | inr (e, bad) ↦ rw bad has
  ]

  on_event-HasKeys :
      (ev : Result (Secret Bytes) String) (store : Store KeySet)
      → HasKeys store
      → HasKeys (on_event library ev store)
  unfolding on_event
  on_event-HasKeys (err e) store has = has
  on_event-HasKeys (ok secret) store has = elim (Option-cases secret.entries) [
    | inl missing ↦ rw missing has
    | inr (entries, present) ↦ elim (Option-cases (lookup "jwks.json" entries)) [
      | inl absent ↦ rw present (rw absent has)
      | inr (bytes, there_) ↦ rw present (rw there_ (store_bytes-HasKeys bytes store has))
    ]
  ]

  for_each-HasKeys :
      (evs : List (Result (Secret Bytes) String)) (store : Store KeySet)
      → HasKeys store
      → HasKeys (for_each library evs store)
  unfolding for_each
  for_each-HasKeys [] store has = has
  for_each-HasKeys (ev ∷ evs) store has =
      for_each-HasKeys evs (on_event library ev store) (on_event-HasKeys ev store has)

  -- If the store has no key set without keys, neither has it after the watcher's events.
  pub run_secret_watcher-HasKeys :
      (client : Result (Unit {0}) String) (evs : List (Result (Secret Bytes) String))
      (store : Store KeySet)
      → HasKeys store
      → HasKeys (run_secret_watcher library client evs store).1
  unfolding run_secret_watcher
  run_secret_watcher-HasKeys (ok client) evs store has = for_each-HasKeys evs store has
  run_secret_watcher-HasKeys (err e) evs store has = has
