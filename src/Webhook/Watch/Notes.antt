-- ===== src/Webhook/Watch/Notes.antt =====
-- reconcile.rs: the events of the watcher by ServiceAccount, and what has become of them.
use kubernetes_identity_fede.Base.{
  String, Bool, true, false, ◌&&◌, ◌||◌, not, Option, none, some, List, [], ◌∷◌, Result, ok, err,
  contains, opt_list, option_map, ◌==◌,
}
use kubernetes_identity_fede.Api.Status.{CloudRoleBinding}
use kubernetes_identity_fede.Webhook.Queue.{Key, key_has_eq}
use kubernetes_identity_fede.Webhook.Watch.{
  Event, init, init_done, apply, deleted, init_apply, Note, got, finished, lost,
}

-- The ServiceAccount of a binding that has a namespace.
abbrev key_of : CloudRoleBinding → Option Key
key_of crb =
    option_map
      (λ ns. record {
        namespace = ns;
        service_account_name = crb.spec.subject.service_account_name;
      })
      crb.metadata.namespace

abbrev pub touched : Event → Option Key
touched init = none
touched init_done = none
touched (apply crb) = key_of crb
touched (deleted crb) = key_of crb
touched (init_apply crb) = key_of crb

-- The event is of a binding of this ServiceAccount.
abbrev pub concerns : Key → Note → Bool
concerns k (got (some (ok ev))) = contains (opt_list (touched ev)) k
concerns k (got none) = false
concerns k (got (some (err e))) = false
concerns k (finished j) = false
concerns k (lost j) = false

-- A worker is done with the ServiceAccount, or its receiver is lost.
abbrev pub settles : Key → Note → Bool
settles k (got outcome) = false
settles k (finished j) = j == k
settles k (lost j) = j == k

-- There was an event of the ServiceAccount since it was settled last.
abbrev pub pending : Key → List Note → Bool
pending k [] = false
pending k (note ∷ notes) = concerns k note || not (settles k note) && pending k notes

abbrev pub lists_done : Note → Bool
lists_done (got (some (ok init_done))) = true
lists_done note = false

-- The end that the stream has brought.
abbrev pub ended : List Note → Option (Result (Unit {0}) String)
ended [] = none
ended (got none ∷ notes) = some (ok tt)
ended (got (some (err e)) ∷ notes) = some (err e)
ended (got (some (ok ev)) ∷ notes) = ended notes
ended (finished k ∷ notes) = ended notes
ended (lost k ∷ notes) = ended notes
