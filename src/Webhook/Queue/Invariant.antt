-- ===== src/Webhook/Queue/Invariant.antt =====
-- queue.rs: no key is queued or reconciled twice at a time, and what a dropped event leaves behind.
use kubernetes_identity_fede.Base.{
  ℕ, ◌+◌, ◌-◌, ◌<◌, ◌≤◌, ◌≡◌, refl, ◌↔◌, true, List, [], ◌∷◌, ◌++◌, contains, arith, if◌then◌else◌,
  ◌==◌,
}
use kubernetes_identity_fede.Webhook.Queue.{
  Key, key_eq_iff, key_has_eq, erase, System, new, mark, send, recv, done, count, Step, marks,
  sends, receives, finishes, closes, Reach, at_start, next,
}

-- Every key of the set belongs to one task, which sends it, has it in the channel, or reconciles it.
abbrev pub IsOwned : System → Type 0
IsOwned s =
    (k : Key)
    → (count k s.in_flight ≡ count k s.sending + count k s.channel + count k s.working)
      × (count k s.in_flight ≤ 1)

count-append : (k : Key) (xs ys : List Key) → count k (xs ++ ys) ≡ count k xs + count k ys
unfolding count
count-append k [] ys = omega arith
count-append k (x ∷ xs) ys = omega (arith, count-append k xs ys)

pub count-erase :
    (k j : Key) (xs : List Key) → count j (erase k xs) ≡ count j xs - (if k == j then 1 else 0)
unfolding count erase
count-erase k j [] = omega arith
count-erase k j (x ∷ xs) =
    ground (arith, count-erase k j xs, key_eq_iff k j, key_eq_iff k x, key_eq_iff j x)

count-one : (j k : Key) → count j (k ∷ []) ≡ (if j == k then 1 else 0)
unfolding count
count-one j k = omega arith

pub contains-count : (k : Key) (xs : List Key) → (contains xs k ≡ true) ↔ (0 < count k xs)
unfolding count
contains-count k [] = (λ h. cc, λ h. absurd (omega arith))
contains-count k (x ∷ xs) = ground (arith, contains-count k xs, key_eq_iff k x, key_eq_iff x k)

new-IsOwned : (buffer : ℕ) → IsOwned (new buffer)
unfolding new count
new-IsOwned buffer k = omega arith

mark-IsOwned : (k : Key) (s : System) → IsOwned s → IsOwned (mark k s)
unfolding mark count
mark-IsOwned k s h j =
    ground (arith, h j, contains-count k s.in_flight, key_eq_iff j k, key_eq_iff k j)

send-IsOwned : (k : Key) (s : System) → 0 < count k s.sending → IsOwned s → IsOwned (send k s)
unfolding send
send-IsOwned k s waits h j = ground (
  arith,
  h j,
  h k,
  count-erase k j s.sending,
  count-erase k j s.in_flight,
  key_eq_iff k j,
  key_eq_iff j k,
  count-append j s.channel (k ∷ []),
  count-one j k,
)

recv-IsOwned : (s : System) → IsOwned s → IsOwned (recv s)
unfolding recv count
recv-IsOwned s h j = ground (arith, h j)

done-IsOwned : (k : Key) (s : System) → 0 < count k s.working → IsOwned s → IsOwned (done k s)
unfolding done
done-IsOwned k s works h j =
    ground (arith, h j, h k, count-erase k j s.working, count-erase k j s.in_flight, key_eq_iff k j)

Step-IsOwned : {s t : System} → Step s t → IsOwned s → IsOwned t
Step-IsOwned (marks k e) h = rw e (mark-IsOwned k _ h)
Step-IsOwned (sends k waits room e) h = rw e (send-IsOwned k _ waits h)
Step-IsOwned (receives e) h = rw e (recv-IsOwned _ h)
Step-IsOwned (finishes k works e) h = rw e (done-IsOwned k _ works h)
Step-IsOwned (closes e) h = rw e h

-- However the tasks interleave, every key of the set has one owner.
pub Reach-IsOwned : (buffer : ℕ) {s : System} → Reach (new buffer) s → IsOwned s
Reach-IsOwned buffer at_start = new-IsOwned buffer
Reach-IsOwned buffer (next r st) = Step-IsOwned st (Reach-IsOwned buffer r)

-- However the tasks interleave, a ServiceAccount that a worker reconciles is reconciled by that
-- worker alone, and is neither in the channel nor waiting to be sent.
pub working_alone :
    (buffer : ℕ) {s : System} (k : Key)
    → Reach (new buffer) s
    → 0 < count k s.working
    → (count k s.working ≡ 1) × (count k s.channel ≡ 0) × (count k s.sending ≡ 0)
working_alone buffer {s} k r works = ground (arith, Reach-IsOwned buffer r k)

-- However the tasks interleave, the channel holds no key twice.
pub channel_nodup :
    (buffer : ℕ) {s : System} (k : Key) → Reach (new buffer) s → count k s.channel ≤ 1
channel_nodup buffer k r = ground (arith, Reach-IsOwned buffer r k)

-- In every state that the tasks reach, the set has a key, so that its events are dropped, exactly
-- if the key waits to be sent, is in the channel or is being reconciled.
pub mark-dropped_iff :
    (buffer : ℕ) {s : System} (k : Key)
    → Reach (new buffer) s
    → (contains s.in_flight k ≡ true)
      ↔ (0 < count k s.sending + count k s.channel + count k s.working)
mark-dropped_iff buffer {s} k r =
    ground (arith, Reach-IsOwned buffer r k, contains-count k s.in_flight)

-- An event that arrives while its ServiceAccount is reconciled changes nothing, and when that
-- worker is done the key is neither queued, waiting to be sent nor being reconciled.
pub event_lost :
    (buffer : ℕ) {s : System} (k : Key)
    → Reach (new buffer) s
    → 0 < count k s.working
    → let t = done k (mark k s) in
      (mark k s ≡ s)
      × (count k t.in_flight ≡ 0)
      × (count k t.sending + count k t.channel + count k t.working ≡ 0)
unfolding mark done
event_lost buffer {s} k r works =
    let owned = Reach-IsOwned buffer r k in
    let seen : contains s.in_flight k ≡ true =
      (contains-count k s.in_flight).1 (ground (arith, owned)) in
    let same : mark k s ≡ s = rw (seen, mark) refl in
    (
      same,
      rw same (ground (arith, count-erase k k s.in_flight, key_eq_iff k k)),
      rw same (ground (arith, count-erase k k s.working, key_eq_iff k k)),
    )
