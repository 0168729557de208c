-- ===== src/Webhook/Queue.antt =====
-- app/crates/kif-webhook/src/queue.rs, with the tasks that use it in
-- app/crates/kif-webhook/src/reconcile.rs. The set and the channel are shared by all tasks, so the
-- state also holds the keys of the tasks that wait to send and of the workers that reconcile; each
-- function is what one task does between two waits.
pub mod Drain
pub mod Invariant
mod Tests
use kubernetes_identity_fede.Base.{
  ℕ, suc, ◌+◌, ◌<◌, ◌≡◌, ◌↔◌, ◌⊎◌, String, Bool, true, false, ◌&&◌, Option, none, some, List, [],
  ◌∷◌, ◌++◌, length, contains, arith, eq_iff, if◌then◌else◌, ltb, Eq, ◌==◌, string_has_eq,
}

pub record Key : Type 0 where
  pub namespace : String
  pub service_account_name : String

abbrev pub key_eq : Key → Key → Bool
key_eq a b = a.namespace == b.namespace && a.service_account_name == b.service_account_name

pub key_eq_iff : (a b : Key) → (key_eq a b ≡ true) ↔ (a ≡ b)
key_eq_iff a b =
    ground
      (arith, eq_iff a.namespace b.namespace, eq_iff a.service_account_name b.service_account_name)

instance abbrev pub key_has_eq : Eq Key
key_has_eq = record { beq = key_eq; beq_iff = key_eq_iff }

-- Remove the first occurrence; `HashSet::remove` on a list without repetitions.
unfoldable pub erase : Key → List Key → List Key
erase k [] = []
erase k (j ∷ js) = let rest = erase k js in if k == j then js else j ∷ rest

pub record System : Type 0 where
  pub in_flight : List Key
  -- marked in the set, and waiting for a place in the channel
  pub sending : List Key
  pub channel : List Key
  -- received, and being reconciled
  pub working : List Key
  pub buffer : ℕ
  pub closed : Bool

-- `Queue::new`
unfoldable pub new : ℕ → System
new buffer = record {
  in_flight = [];
  sending = [];
  channel = [];
  working = [];
  buffer = buffer;
  closed = false;
}

-- `enqueue` under its lock: a key of the set is not taken again.
unfoldable pub mark : Key → System → System
mark k s =
    if contains s.in_flight k
    then s
    else record s { in_flight = k ∷ s.in_flight; sending = k ∷ s.sending }

-- `tx.send`, once the channel has a place, or has lost its receiver.
unfoldable pub send : Key → System → System
unfolding erase
send k s =
    if s.closed
    then record s { sending = erase k s.sending; in_flight = erase k s.in_flight }
    else record s { sending = erase k s.sending; channel = s.channel ++ (k ∷ []) }

-- A worker's `recv`.
unfoldable pub recv : System → System
recv s = elim s.channel [ [] ↦ s | k ∷ rest ↦ record s { channel = rest; working = k ∷ s.working } ]

-- `done`, at the end of a worker's round.
unfoldable pub done : Key → System → System
unfolding erase
done k s = record s { working = erase k s.working; in_flight = erase k s.in_flight }

unfoldable pub count : Key → List Key → ℕ
count k [] = 0
count k (j ∷ js) = (if k == j then 1 else 0) + count k js

-- One move of any task. A task sends only what it has marked, and only if there is room; a worker is
-- done only with what it has received; the receiver can go away at any time.
pub data Step (s : System) (t : System) : Type 0 where
  marks : (k : Key) → t ≡ mark k s → Step s t
  sends :
      (k : Key)
      → 0 < count k s.sending
      → (length s.channel < s.buffer) ⊎ (s.closed ≡ true)
      → t ≡ send k s
      → Step s t
  receives : t ≡ recv s → Step s t
  finishes : (k : Key) → 0 < count k s.working → t ≡ done k s → Step s t
  closes : t ≡ record s { closed = true } → Step s t

pub data Reach (s : System) : System → Type 0 where
  at_start : Reach s s
  next : {t u : System} → Reach s t → Step t u → Reach s u
