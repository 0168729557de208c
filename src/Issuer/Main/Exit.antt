-- ===== src/Issuer/Main/Exit.antt =====
-- main.rs: when the process of the issuer ends.
use kubernetes_identity_fede.Base.{
  String, ◌≡◌, refl, sym, ap, ◌∙◌, ◌↔◌, ◌⊎◌, inl, inr, true, false, Option, none, some, List,
  Result, ok, err, Bool-cases, Result-cases,
}
use kubernetes_identity_fede.Base.Parse.{Env}
use kubernetes_identity_fede.Base.Select.{Select, pending, second, Join}
use kubernetes_identity_fede.Api.Shared.{pod_namespace}
use kubernetes_identity_fede.Federation.Keys.Secrets.{Secret}
use kubernetes_identity_fede.Issuer.Config.{IssuerConfig}
use kubernetes_identity_fede.Issuer.Jwks.{
  Library, Store, Try, Loading, waiting, loaded, failed, new, load, load_jwks_and_watch,
  watch_secret, run_secret_watcher,
}
use kubernetes_identity_fede.Issuer.Main.{start, exit, main}

-- The loader's task beside a server that runs: the `select!` waits for it.
abbrev pub beside_server : Option (Result (Unit {0}) String) → Select Join Join × Option Join
beside_server none = (pending, none)
beside_server (some result) = (second (ok result), none)

-- The end of the process, by what the loader has returned.
abbrev ended : Option (Result (Unit {0}) String) → Option (Result (Unit {0}) String)
ended none = none
ended (some (err e)) = some (err e)
ended (some (ok _)) = none

exit-beside_server :
    (o : Option (Result (Unit {0}) String)) → exit (beside_server o).0 (beside_server o).1 ≡ ended o
unfolding exit
exit-beside_server none = refl
exit-beside_server (some (err e)) = refl
exit-beside_server (some (ok _)) = refl

data LoadingCase {KeySet : Type 0} (l : Loading KeySet) : Type 0 where
  is_waiting : (store : Store KeySet) → l ≡ waiting store → LoadingCase l
  is_loaded : (store : Store KeySet) → l ≡ loaded store → LoadingCase l
  is_failed : (e : String) → l ≡ failed e → LoadingCase l

Loading-cases : {KeySet : Type 0} (l : Loading KeySet) → LoadingCase l
Loading-cases (waiting store) = is_waiting store refl
Loading-cases (loaded store) = is_loaded store refl
Loading-cases (failed e) = is_failed e refl

module _ (library : Library) (read_to_string : String → Result String String)
    (tries : List (Try library.Bytes)) (client : Result (Unit {0}) String)
    (evs : List (Result (Secret library.Bytes) String)) {IssuerUrl : Type 0} where
  open library use {KeySet}

  -- The file is not there in time or does not parse, or it is loaded in a cluster that does not tell
  -- the pod its namespace, or gives it no client.
  abbrev pub Fails : IssuerConfig IssuerUrl → String → Type 0
  Fails cfg e =
      (load library cfg.jwks_file_path tries new ≡ failed e)
      ⊎ ((cfg.running_in_cluster ≡ true)
          × ((store : Store KeySet) × (load library cfg.jwks_file_path tries new ≡ loaded store))
          × ((pod_namespace read_to_string ≡ err e)
              ⊎ (((ns : String) × (pod_namespace read_to_string ≡ ok ns)) × (client ≡ err e))))

  -- What the loader has returned for a configuration.
  abbrev pub returned : IssuerConfig IssuerUrl → Option (Result (Unit {0}) String)
  returned cfg =
      (load_jwks_and_watch library read_to_string cfg.jwks_file_path cfg.running_in_cluster tries
        client evs new).0

  -- The loader's task, by the result of its loop.
  data Task (cfg : IssuerConfig IssuerUrl) : Type 0 where
    waits :
        (store : Store KeySet)
        → load library cfg.jwks_file_path tries new ≡ waiting store
        → returned cfg ≡ none
        → Task cfg
    fails :
        (e : String)
        → load library cfg.jwks_file_path tries new ≡ failed e
        → returned cfg ≡ some (err e)
        → Task cfg
    serves :
        (store : Store KeySet)
        → load library cfg.jwks_file_path tries new ≡ loaded store
        → cfg.running_in_cluster ≡ false
        → returned cfg ≡ some (ok tt)
        → Task cfg
    watches :
        (store : Store KeySet) (ns : String)
        → load library cfg.jwks_file_path tries new ≡ loaded store
        → pod_namespace read_to_string ≡ ok ns
        → client ≡ ok tt
        → returned cfg ≡ none
        → Task cfg
    unplaced :
        (store : Store KeySet) (e : String)
        → load library cfg.jwks_file_path tries new ≡ loaded store
        → cfg.running_in_cluster ≡ true
        → pod_namespace read_to_string ≡ err e
        → returned cfg ≡ some (err e)
        → Task cfg
    clientless :
        (store : Store KeySet) (ns e : String)
        → load library cfg.jwks_file_path tries new ≡ loaded store
        → cfg.running_in_cluster ≡ true
        → pod_namespace read_to_string ≡ ok ns
        → client ≡ err e
        → returned cfg ≡ some (err e)
        → Task cfg

  task_cases : (cfg : IssuerConfig IssuerUrl) → Task cfg
  unfolding load_jwks_and_watch watch_secret run_secret_watcher
  task_cases cfg = elim (Loading-cases (load library cfg.jwks_file_path tries new)) [
    | is_waiting store e ↦ waits store e (rw (e, returned) refl)
    | is_failed m e ↦ fails m e (rw (e, returned) refl)
    | is_loaded store e ↦ elim (Bool-cases cfg.running_in_cluster) [
      | inr outside ↦ serves store e outside (rw (e, returned) (rw outside refl))
      | inl inside ↦ elim (Result-cases (pod_namespace read_to_string)) [
        | inl (ns, found) ↦ elim (Result-cases client) [
          | inl (_, made) ↦
              watches store ns e found made
                (rw (e, returned) (rw (inside, load_jwks_and_watch) (rw found (rw made refl))))
          | inr (m, refused) ↦
              clientless store ns m e inside found refused
                (rw (e, returned) (rw (inside, load_jwks_and_watch) (rw found (rw refused refl))))
        ]
        | inr (m, missing) ↦
            unplaced store m e inside missing
              (rw (e, returned) (rw (inside, load_jwks_and_watch) (rw missing refl)))
      ]
    ]
  ]

  returned-Fails :
      (cfg : IssuerConfig IssuerUrl) (r : Result (Unit {0}) String)
      → ended (returned cfg) ≡ some r
      → (e : String) × (r ≡ err e) × Fails cfg e
  returned-Fails cfg r h = elim (task_cases cfg) [
    | waits store l t ↦ absurd (cc (ap ended t, h))
    | fails e l t ↦ (e, cc (ap ended t, h), inl l)
    | serves store l outside t ↦ absurd (cc (ap ended t, h))
    | watches store ns l found made t ↦ absurd (cc (ap ended t, h))
    | unplaced store e l inside missing t ↦
        (e, cc (ap ended t, h), inr (inside, (store, l), inl missing))
    | clientless store ns e l inside found refused t ↦
        (e, cc (ap ended t, h), inr (inside, (store, l), inr ((ns, found), refused)))
  ]

  Fails-returned :
      (cfg : IssuerConfig IssuerUrl) (e : String)
      → Fails cfg e
      → ended (returned cfg) ≡ some (err e)
  Fails-returned cfg e (inl f) = elim (task_cases cfg) [
    | waits store l t ↦ absurd (cc (l, f))
    | fails m l t ↦ ap ended t ∙ cc (l, f)
    | serves store l outside t ↦ absurd (cc (l, f))
    | watches store ns l found made t ↦ absurd (cc (l, f))
    | unplaced store m l inside missing t ↦ absurd (cc (l, f))
    | clientless store ns m l inside found refused t ↦ absurd (cc (l, f))
  ]
  Fails-returned cfg e (inr (inside, (store, f), inl missing)) = elim (task_cases cfg) [
    | waits store' l t ↦ absurd (cc (l, f))
    | fails m l t ↦ absurd (cc (l, f))
    | serves store' l outside t ↦ absurd (cc (inside, outside))
    | watches store' ns l found made t ↦ absurd (cc (found, missing))
    | unplaced store' m l inside' missing' t ↦ ap ended t ∙ cc (missing, missing')
    | clientless store' ns m l inside' found refused t ↦ absurd (cc (found, missing))
  ]
  Fails-returned cfg e (inr (inside, (store, f), inr ((ns, found), refused))) =
      elim (task_cases cfg) [
        | waits store' l t ↦ absurd (cc (l, f))
        | fails m l t ↦ absurd (cc (l, f))
        | serves store' l outside t ↦ absurd (cc (inside, outside))
        | watches store' ns' l found' made t ↦ absurd (cc (made, refused))
        | unplaced store' m l inside' missing t ↦ absurd (cc (found, missing))
        | clientless store' ns' m l inside' found' refused' t ↦ ap ended t ∙ cc (refused, refused')
      ]

  -- While its server runs, an issuer whose configuration and port are in order ends exactly if its
  -- loader fails, and with the loader's error: its key file was not there in time or does not
  -- parse, or was loaded in a cluster that does not tell the pod its namespace or gives it no
  -- client.
  pub main-Fails_iff :
      (issuer_url : String → Result IssuerUrl String) (env : Env)
      (bind : String → Result (Unit {0}) String) (cfg : IssuerConfig IssuerUrl)
      → start issuer_url env bind ≡ ok cfg
      → (r : Result (Unit {0}) String)
      → (main issuer_url env bind (λ c. beside_server (returned c)) ≡ some r)
        ↔ ((e : String) × (r ≡ err e) × Fails cfg e)
  unfolding main
  main-Fails_iff issuer_url env bind cfg started r =
      let whole : main issuer_url env bind (λ c. beside_server (returned c))
          ≡ ended (returned cfg) =
        rw (started, main) (exit-beside_server (returned cfg)) in
      (
        λ h. returned-Fails cfg r (sym whole ∙ h),
        λ (e, same, f). whole ∙ Fails-returned cfg e f ∙ ap some (sym same),
      )
