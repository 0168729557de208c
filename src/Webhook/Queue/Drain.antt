-- ===== src/Webhook/Queue/Drain.antt =====
-- queue.rs: what becomes of the keys in the set while no further event arrives.
use kubernetes_identity_fede.Base.{
  ℕ, suc, ◌+◌, ◌*◌, ◌<◌, ◌≤◌, ◌≡◌, refl, ◌∙◌, ◌⊎◌, inl, inr, false, List, [], ◌∷◌, length,
  length-append, arith,
}
use kubernetes_identity_fede.Webhook.Queue.{
  Key, key_eq_iff, key_has_eq, erase, System, new, mark, send, recv, done, count, Step, marks,
  sends, receives, finishes, closes, Reach, at_start, next,
}
use kubernetes_identity_fede.Webhook.Queue.Invariant.{Reach-IsOwned}

-- A move of a task that has a key already, while the receiver is there: a key is sent, received, or
-- a worker is done with it.
pub data Move (s : System) (t : System) : Type 0 where
  sent : (k : Key) → 0 < count k s.sending → length s.channel < s.buffer → t ≡ send k s → Move s t
  received : 0 < length s.channel → t ≡ recv s → Move s t
  finished : (k : Key) → 0 < count k s.working → t ≡ done k s → Move s t

pub data Moves : ℕ → System → System → Type 0 where
  none_yet : {s : System} → Moves 0 s s
  then_one : {n : ℕ} {s t u : System} → Moves n s t → Move t u → Moves (suc n) s u

-- The moves that the keys of the tasks have left.
abbrev pub moves_left : System → ℕ
moves_left s = 3 * length s.sending + 2 * length s.channel + length s.working

length-erase : (k : Key) (xs : List Key) → 0 < count k xs → suc (length (erase k xs)) ≡ length xs
unfolding count erase
length-erase k [] h = absurd (omega arith)
length-erase k (x ∷ xs) h = ground (arith, length-erase k xs)

Move-moves_left :
    {s t : System}
    → Move s t
    → s.closed ≡ false
    → (moves_left t < moves_left s) × (t.closed ≡ false) × (t.buffer ≡ s.buffer)
unfolding send recv done
Move-moves_left {s} (sent k waits room e) open_ =
    rw e (ground (arith, length-erase k s.sending waits, length-append s.channel (k ∷ [])))
Move-moves_left (received some_ e) open_ = rw e (ground arith)
Move-moves_left {s} (finished k works e) open_ =
    rw e (ground (arith, length-erase k s.working works))

Move-Step : {s t : System} → Move s t → Step s t
Move-Step (sent k waits room e) = sends k waits (inl room) e
Move-Step (received some_ e) = receives e
Move-Step (finished k works e) = finishes k works e

Step-buffer : {s t : System} → Step s t → t.buffer ≡ s.buffer
unfolding mark send recv done
Step-buffer (marks k e) = rw e (ground arith)
Step-buffer (sends k waits room e) = rw e (ground arith)
Step-buffer (receives e) = rw e (ground arith)
Step-buffer (finishes k works e) = rw e refl
Step-buffer (closes e) = rw e refl

Reach-buffer : (buffer : ℕ) {s : System} → Reach (new buffer) s → s.buffer ≡ buffer
unfolding new
Reach-buffer buffer at_start = refl
Reach-buffer buffer (next r step) = Step-buffer step ∙ Reach-buffer buffer r

fewer_left :
    {n : ℕ} {s t : System}
    → Moves n s t
    → s.closed ≡ false
    → (n + moves_left t ≤ moves_left s) × (t.closed ≡ false)
fewer_left none_yet open_ = (omega arith, open_)
fewer_left (then_one moves move) open_ =
    let (fewer, still) = fewer_left moves open_ in
    let (less, closed, buffer) = Move-moves_left move still in (omega (arith, fewer, less), closed)

Moves-Reach :
    (buffer : ℕ) {n : ℕ} {s t : System} → Reach (new buffer) s → Moves n s t → Reach (new buffer) t
Moves-Reach buffer r none_yet = r
Moves-Reach buffer r (then_one moves move) = next (Moves-Reach buffer r moves) (Move-Step move)

count-head : (k : Key) (ks : List Key) → 0 < count k (k ∷ ks)
unfolding count
count-head k ks = ground (arith, key_eq_iff k k)

empty-count : (ks : List Key) → ((k : Key) → count k ks ≡ 0) → ks ≡ []
empty-count [] none_ = refl
empty-count (k ∷ ks) none_ = absurd (ground (arith, none_ k, count-head k ks))

empty-or_not : (ks : List Key) → (ks ≡ []) ⊎ ((k : Key) × (0 < count k ks))
empty-or_not [] = inl refl
empty-or_not (k ∷ ks) = inr (k, count-head k ks)

length-channel : (k : Key) (ks : List Key) → 0 < count k ks → 0 < length ks
unfolding count
length-channel k [] h = absurd (omega arith)
length-channel k (x ∷ ks) h = omega arith

-- A worker is done, or else one receives, or else a task sends.
moves_on :
    (buffer : ℕ) (s : System)
    → 0 < buffer
    → Reach (new buffer) s
    → (s.in_flight ≡ []) ⊎ ((t : System) × Move s t)
unfolding count
moves_on buffer s room r = elim (empty-or_not s.working) [
  | inr (k, works) ↦ inr (done k s, finished k works refl)
  | inl no_work ↦ elim (empty-or_not s.channel) [
    | inr (k, queued) ↦ inr (recv s, received (length-channel k s.channel queued) refl)
    | inl no_channel ↦ elim (empty-or_not s.sending) [
      | inr (k, waits) ↦
          let free : length s.channel < s.buffer = rw (no_channel, Reach-buffer buffer r) room in
          inr (send k s, sent k waits free refl)
      | inl no_sending ↦ inl (
          empty-count s.in_flight
            (λ k. (Reach-IsOwned buffer r k).0 ∙ rw (no_work, no_channel, no_sending, count) refl))
    ]
  ]
]

-- From any state that the tasks reach with the receiver there and a channel with room for one key,
-- sending, receiving and finishing go on while the set has a key and end after as many moves at
-- most as the keys have left, in whatever order the tasks make them, if no further event arrives.
pub keys_drain :
    (buffer n : ℕ) {s t : System}
    → 0 < buffer
    → Reach (new buffer) s
    → s.closed ≡ false
    → Moves n s t
    → (n ≤ moves_left s) × ((t.in_flight ≡ []) ⊎ ((u : System) × Move t u))
keys_drain buffer n {s} {t} room r open_ moves =
    (omega (arith, (fewer_left moves open_).0), moves_on buffer t room (Moves-Reach buffer r moves))
