-- ===== src/Webhook/Watch/Moves.antt =====
-- reconcile.rs and queue.rs: the moves of the watcher and of the workers, one at a time.
use kubernetes_identity_fede.Base.{
  ℕ, ◌≤◌, ◌<◌, ◌≡◌, refl, sym, ap, ◌∙◌, String, Bool, true, false, ◌&&◌, ◌||◌, not, Option, none,
  some, List, [], ◌∷◌, Result, ok, err, any, contains, opt_list, option_map, arith, subst, ◌==◌,
  if◌then◌else◌, Bool-cases, inl, inr,
}
use kubernetes_identity_fede.Webhook.Queue.{
  Key, key_eq_iff, key_has_eq, erase, System, new, mark, send, recv, done, count, Reach, at_start,
  next, marks,
}
use kubernetes_identity_fede.Webhook.Queue.Invariant.{Reach-IsOwned, contains-count, count-erase}
use kubernetes_identity_fede.Webhook.Watch.{
  Event, init, init_done, apply, deleted, init_apply, Watcher, start, enqueue, touch, watch,
  receive, Note, got,
}
use kubernetes_identity_fede.Webhook.Watch.Notes.{touched, pending, lists_done, ended}

-- A watcher with a key that it may have to send.
abbrev enqueue_opt : Option Key → Watcher → Watcher
enqueue_opt none w = w
enqueue_opt (some k) w = enqueue k w

touch-opt :
    (ns : Option String) (sa : String) (w : Watcher)
    → touch ns sa w
      ≡ enqueue_opt (option_map (λ n. record { namespace = n; service_account_name = sa }) ns) w
touch-opt none sa w = refl
touch-opt (some n) sa w = refl

is_init_done : Event → Bool
is_init_done init_done = true
is_init_done ev = false

watch-parts :
    (ev : Event) (w : Watcher)
    → watch ev w
      ≡ enqueue_opt
          (touched ev)
          (record w { is_ready = lists_done (got (some (ok ev))) || w.is_ready })
unfolding watch
watch-parts init w = refl
watch-parts init_done w = refl
watch-parts (apply crb) w = touch-opt crb.metadata.namespace crb.spec.subject.service_account_name w
watch-parts (deleted crb) w =
    touch-opt crb.metadata.namespace crb.spec.subject.service_account_name w
watch-parts (init_apply crb) w =
    touch-opt crb.metadata.namespace crb.spec.subject.service_account_name w

-- What holds of the watcher in every run.
pub record Holds (buffer : ℕ) (notes : List Note) (w : Watcher) : Type 0 where
  pub reach : Reach (new buffer) w.queue
  pub sending : w.queue.sending ≡ opt_list w.awaiting
  pub held : (k : Key) → contains w.queue.in_flight k ≡ pending k notes
  pub is_ready : w.is_ready ≡ any lists_done notes
  pub returned : w.returned ≡ ended notes

contains-erase :
    (k j : Key) (xs : List Key)
    → count k xs ≤ 1
    → contains (erase k xs) j ≡ (not (k == j) && contains xs j)
contains-erase k j xs once = ground (
  arith,
  contains-count j (erase k xs),
  contains-count j xs,
  count-erase k j xs,
  key_eq_iff k j,
  key_eq_iff j k,
)

pub start-Holds : (buffer : ℕ) → Holds buffer [] (start buffer)
unfolding start new
start-Holds buffer = record {
  reach = at_start;
  sending = refl;
  held = λ k. refl;
  is_ready = refl;
  returned = refl;
}

pub once : (buffer : ℕ) (k : Key) {s : System} → Reach (new buffer) s → count k s.in_flight ≤ 1
once buffer k r = (Reach-IsOwned buffer r k).1

-- `enqueue`, for a watcher that waits for nothing.
enqueue-queue : (k : Key) (w : Watcher) → (enqueue k w).queue ≡ mark k w.queue
unfolding enqueue mark
enqueue-queue k w = ground arith

enqueue-sending :
    (k : Key) (w : Watcher)
    → w.awaiting ≡ none
    → w.queue.sending ≡ []
    → (enqueue k w).queue.sending ≡ opt_list (enqueue k w).awaiting
unfolding enqueue mark
enqueue-sending k w waits empty = elim (Bool-cases (contains w.queue.in_flight k)) [
  | inl in_set ↦ rw (in_set, enqueue) (rw (waits, empty) refl)
  | inr fresh ↦ rw (fresh, enqueue) (rw empty refl)
]

enqueue-contains :
    (k j : Key) (w : Watcher)
    → contains (enqueue k w).queue.in_flight j ≡ (k == j || contains w.queue.in_flight j)
unfolding enqueue mark
enqueue-contains k j w = ground (arith, key_eq_iff k j)

enqueue-same :
    (k : Key) (w : Watcher)
    → ((enqueue k w).is_ready ≡ w.is_ready) × ((enqueue k w).returned ≡ w.returned)
unfolding enqueue
enqueue-same k w = ground arith

enqueue_opt-Holds :
    (buffer : ℕ) (o : Option Key) (notes : List Note) (w : Watcher) (note : Note)
    → w.awaiting ≡ none
    → Reach (new buffer) w.queue
    → w.queue.sending ≡ []
    → ((k : Key) → contains w.queue.in_flight k ≡ pending k notes)
    → ((k : Key) → pending k (note ∷ notes) ≡ (contains (opt_list o) k || pending k notes))
    → w.is_ready ≡ any lists_done (note ∷ notes)
    → w.returned ≡ ended (note ∷ notes)
    → Holds buffer (note ∷ notes) (enqueue_opt o w)
enqueue_opt-Holds buffer none notes w note waits r empty held adds is_ready returned = record {
  reach = r;
  sending = rw (waits, empty) refl;
  held = λ k. held k ∙ sym (adds k);
  is_ready = is_ready;
  returned = returned;
}
enqueue_opt-Holds buffer (some j) notes w note waits r empty held adds is_ready returned = record {
  reach = next r (marks j (enqueue-queue j w));
  sending = enqueue-sending j w waits empty;
  held = λ k. ground (arith, enqueue-contains j k w, held k, adds k);
  is_ready = (enqueue-same j w).0 ∙ is_ready;
  returned = (enqueue-same j w).1 ∙ returned;
}

pub hears-Holds :
    (buffer : ℕ) (notes : List Note) (w : Watcher) (outcome : Option (Result Event String))
    → w.awaiting ≡ none
    → w.returned ≡ none
    → Holds buffer notes w
    → Holds buffer (got outcome ∷ notes) (receive outcome w)
unfolding receive
hears-Holds buffer notes w none waits runs h = record {
  reach = h.reach;
  sending = h.sending;
  held = h.held;
  is_ready = h.is_ready;
  returned = refl;
}
hears-Holds buffer notes w (some (err e)) waits runs h = record {
  reach = h.reach;
  sending = h.sending;
  held = h.held;
  is_ready = h.is_ready;
  returned = refl;
}
hears-Holds buffer notes w (some (ok ev)) waits runs h =
    subst (Holds buffer (got (some (ok ev)) ∷ notes)) (sym (watch-parts ev w)) (
      enqueue_opt-Holds buffer (touched ev) notes
        (record w { is_ready = lists_done (got (some (ok ev))) || w.is_ready }) (got (some (ok ev)))
        waits h.reach (h.sending ∙ ap opt_list waits) h.held (λ k. refl)
        (ap (λ b. lists_done (got (some (ok ev))) || b) h.is_ready) h.returned)

erase-one : (k : Key) → erase k (k ∷ []) ≡ []
unfolding erase
erase-one k = ground (arith, key_eq_iff k k)

pub send-sending : (k : Key) (s : System) → s.sending ≡ k ∷ [] → (send k s).sending ≡ []
unfolding send
send-sending k s one = elim (Bool-cases s.closed) [
  | inl shut ↦ rw shut (rw one (erase-one k))
  | inr is_open ↦ rw is_open (rw one (erase-one k))
]

pub send-in_flight :
    (k j : Key) (s : System)
    → count k s.in_flight ≤ 1
    → contains (send k s).in_flight j
      ≡ (if s.closed then not (k == j) && contains s.in_flight j else contains s.in_flight j)
unfolding send
send-in_flight k j s one = ground (arith, contains-erase k j s.in_flight one)

pub waits-count : (k : Key) (s : System) → s.sending ≡ k ∷ [] → 0 < count k s.sending
unfolding count
waits-count k s one = rw one (ground (arith, key_eq_iff k k))

pub done-in_flight :
    (k j : Key) (s : System)
    → count k s.in_flight ≤ 1
    → contains (done k s).in_flight j ≡ (not (k == j) && contains s.in_flight j)
unfolding done
done-in_flight k j s one = contains-erase k j s.in_flight one

pub recv-same : (s : System) → ((recv s).in_flight ≡ s.in_flight) × ((recv s).sending ≡ s.sending)
unfolding recv
recv-same s = ground arith
