-- ===== src/Webhook/Watch.antt =====
-- `watch_cloud_role_bindings` of app/crates/kif-webhook/src/reconcile.rs, with `Queue::enqueue` of
-- queue.rs, which it waits for. `Run` is any interleaving of the watcher's task with the workers.
pub mod Notes
pub mod Moves
pub mod Pending
mod Tests
use kubernetes_identity_fede.Base.{
  ℕ, ◌<◌, ◌≡◌, String, Bool, true, false, Option, none, some, List, [], ◌∷◌, Result, ok, err,
  length, contains, if◌then◌else◌,
}
use kubernetes_identity_fede.Api.Status.{CloudRoleBinding}
use kubernetes_identity_fede.Webhook.Queue.{
  Key, key_has_eq, System, new, mark, send, recv, done, count,
}

pub data Event : Type 0 where
  init init_done : Event
  apply deleted init_apply : CloudRoleBinding → Event

-- The watcher's task: the flag of the probe, the key that it waits to send, what it has returned, and
-- the queue that it shares with the workers.
pub record Watcher : Type 0 where
  pub is_ready : Bool
  pub awaiting : Option Key
  pub returned : Option (Result (Unit {0}) String)
  pub queue : System

unfoldable pub start : ℕ → Watcher
unfolding new
start buffer = record { is_ready = false; awaiting = none; returned = none; queue = new buffer }

-- `enqueue` up to its `tx.send`: a key of the set is dropped, and another one is to be sent.
unfoldable pub enqueue : Key → Watcher → Watcher
unfolding mark
enqueue k w =
    if contains w.queue.in_flight k
    then w
    else record w { awaiting = some k; queue = mark k w.queue }

-- A binding with no namespace is passed over.
abbrev pub touch : Option String → String → Watcher → Watcher
touch none sa w = w
touch (some namespace) sa w =
    enqueue (record { namespace = namespace; service_account_name = sa }) w

unfoldable pub watch : Event → Watcher → Watcher
unfolding enqueue
watch init w = w
watch init_done w = record w { is_ready = true }
watch (apply crb) w = touch crb.metadata.namespace crb.spec.subject.service_account_name w
watch (deleted crb) w = touch crb.metadata.namespace crb.spec.subject.service_account_name w
watch (init_apply crb) w = touch crb.metadata.namespace crb.spec.subject.service_account_name w

-- What the loop does with the outcome of `w.next()`.
unfoldable pub receive : Option (Result Event String) → Watcher → Watcher
unfolding watch
receive none w = record w { returned = some (ok tt) }
receive (some (err e)) w = record w { returned = some (err e) }
receive (some (ok ev)) w = watch ev w

-- The rest of `enqueue`, once the channel has a place or has lost its receiver.
unfoldable pub resume : Key → Watcher → Watcher
unfolding send
resume k w = record w { awaiting = none; queue = send k w.queue }

-- What happens to the keys, the last first: an outcome of `w.next()`, a worker's `done`, and a key whose
-- receiver is lost.
pub data Note : Type 0 where
  got : Option (Result Event String) → Note
  finished lost : Key → Note

-- The watcher asks for the next event only when it waits for no send, and has not returned.
pub data Run (buffer : ℕ) : List Note → Watcher → Type 0 where
  starts : Run buffer [] (start buffer)
  hears :
      {notes : List Note} {w : Watcher} (next : Option (Result Event String))
      → Run buffer notes w
      → w.awaiting ≡ none
      → w.returned ≡ none
      → Run buffer (got next ∷ notes) (receive next w)
  delivers :
      {notes : List Note} {w : Watcher} (k : Key)
      → Run buffer notes w
      → w.awaiting ≡ some k
      → w.queue.closed ≡ false
      → length w.queue.channel < w.queue.buffer
      → Run buffer notes (resume k w)
  loses :
      {notes : List Note} {w : Watcher} (k : Key)
      → Run buffer notes w
      → w.awaiting ≡ some k
      → w.queue.closed ≡ true
      → Run buffer (lost k ∷ notes) (resume k w)
  takes :
      {notes : List Note} {w : Watcher}
      → Run buffer notes w
      → Run buffer notes (record w { queue = recv w.queue })
  completes :
      {notes : List Note} {w : Watcher} (k : Key)
      → Run buffer notes w
      → 0 < count k w.queue.working
      → Run buffer (finished k ∷ notes) (record w { queue = done k w.queue })
  shuts :
      {notes : List Note} {w : Watcher}
      → Run buffer notes w
      → Run buffer notes (record w { queue = record w.queue { closed = true } })
