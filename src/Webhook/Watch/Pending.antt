-- ===== src/Webhook/Watch/Pending.antt =====
-- reconcile.rs and queue.rs: what the watcher and the queue hold, by the events and what has become of
-- them.
use kubernetes_identity_fede.Base.{
  ℕ, ◌+◌, ◌≡◌, refl, ap, ◌∙◌, ◌&&◌, not, List, [], ◌∷◌, any, contains, opt_list, arith, ◌==◌,
  if◌then◌else◌, inl, inr,
}
use kubernetes_identity_fede.Webhook.Queue.{
  Key, key_has_eq, done, count, next, sends, receives, finishes, closes,
}
use kubernetes_identity_fede.Webhook.Queue.Invariant.{Reach-IsOwned, contains-count}
use kubernetes_identity_fede.Webhook.Watch.{
  Watcher, resume, Note, Run, starts, hears, delivers, loses, takes, completes, shuts,
}
use kubernetes_identity_fede.Webhook.Watch.Notes.{pending, lists_done, ended}
use kubernetes_identity_fede.Webhook.Watch.Moves.{
  Holds, start-Holds, hears-Holds, send-sending, send-in_flight, waits-count, recv-same,
  done-in_flight, once,
}

-- What holds in every run.
Run-Holds :
    (buffer : ℕ) {notes : List Note} {w : Watcher} → Run buffer notes w → Holds buffer notes w
unfolding resume done
Run-Holds buffer starts = start-Holds buffer
Run-Holds buffer (hears outcome r waits runs) =
    hears-Holds buffer _ _ outcome waits runs (Run-Holds buffer r)
Run-Holds buffer {notes = notes} (delivers {w = w} k r waits is_open room) =
    let h = Run-Holds buffer r in
    let one : w.queue.sending ≡ k ∷ [] = h.sending ∙ ap opt_list waits in
    record {
      reach = next h.reach (sends k (waits-count k w.queue one) (inl room) refl);
      sending = send-sending k w.queue one;
      held = λ j. ground (arith, send-in_flight k j w.queue (once buffer k h.reach), h.held j);
      is_ready = h.is_ready;
      returned = h.returned;
    }
Run-Holds buffer (loses {w = w} k r waits shut) =
    let h = Run-Holds buffer r in
    let one : w.queue.sending ≡ k ∷ [] = h.sending ∙ ap opt_list waits in
    record {
      reach = next h.reach (sends k (waits-count k w.queue one) (inr shut) refl);
      sending = send-sending k w.queue one;
      held = λ j. ground (arith, send-in_flight k j w.queue (once buffer k h.reach), h.held j);
      is_ready = h.is_ready;
      returned = h.returned;
    }
Run-Holds buffer (takes {w = w} r) =
    let h = Run-Holds buffer r in
    let (in_flight, sending) = recv-same w.queue in
    record {
      reach = next h.reach (receives refl);
      sending = sending ∙ h.sending;
      held = λ k. ap (λ xs. contains xs k) in_flight ∙ h.held k;
      is_ready = h.is_ready;
      returned = h.returned;
    }
Run-Holds buffer (completes {w = w} k r works) =
    let h = Run-Holds buffer r in
    record {
      reach = next h.reach (finishes k works refl);
      sending = h.sending;
      held = λ j.
          done-in_flight k j w.queue (once buffer k h.reach)
          ∙ ap (λ b. not (k == j) && b) (h.held j);
      is_ready = h.is_ready;
      returned = h.returned;
    }
Run-Holds buffer (shuts r) =
    let h = Run-Holds buffer r in
    record {
      reach = next h.reach (closes refl);
      sending = h.sending;
      held = h.held;
      is_ready = h.is_ready;
      returned = h.returned;
    }

-- However the watcher, which waits with each key until the channel has a place for it or has lost
-- its receiver, is interleaved with the workers: it is ready exactly if the first listing is done;
-- it has returned exactly what an error or the end of its stream brings; the set of the queue
-- holds a ServiceAccount, and then once, exactly if there was an event of one of its bindings
-- since a worker was last done with it or its receiver was lost; and each key of the set is the
-- one that the watcher waits with, in the channel or being reconciled.
pub Run-pending :
    (buffer : ℕ) {notes : List Note} {w : Watcher} (k : Key)
    → Run buffer notes w
    → (w.is_ready ≡ any lists_done notes)
      × (w.returned ≡ ended notes)
      × (count k w.queue.in_flight ≡ (if pending k notes then 1 else 0))
      × (count k w.queue.in_flight
          ≡ count k (opt_list w.awaiting) + count k w.queue.channel + count k w.queue.working)
Run-pending buffer {w = w} k r =
    let h = Run-Holds buffer r in
    let owned = Reach-IsOwned buffer h.reach k in
    (
      h.is_ready,
      h.returned,
      ground (arith, owned, h.held k, contains-count k w.queue.in_flight),
      owned.0 ∙ ap (λ xs. count k xs + count k w.queue.channel + count k w.queue.working) h.sending,
    )
