-- ===== src/Webhook/Queue/Tests.antt =====
-- queue.rs: a key that is marked, sent and received, and an event for it meanwhile.
use kubernetes_identity_fede.Base.{◌+◌, ◌<◌, ◌≡◌, ◌≤◌, ◌⊎◌, [], false, refl, inl, arith}
use kubernetes_identity_fede.Webhook.Queue.{
  Key, key_has_eq, System, new, mark, send, recv, done, count, marks, sends, receives, Reach,
  at_start, next,
}
use kubernetes_identity_fede.Webhook.Queue.Invariant.{working_alone, event_lost}
use kubernetes_identity_fede.Webhook.Queue.Drain.{
  Move, received, finished, Moves, none_yet, then_one, moves_left, keys_drain,
}

abbrev key : Key
key = record { namespace = "default"; service_account_name = "test-sa" }

abbrev queued : System
queued = send key (mark key (new 8))

abbrev taken : System
taken = recv queued

queued-Reach : Reach (new 8) queued
unfolding new mark count
queued-Reach =
    next (next at_start (marks key refl)) (sends key (omega arith) (inl (omega arith)) refl)

taken-Reach : Reach (new 8) taken
taken-Reach = next queued-Reach (receives refl)

works : 0 < count key taken.working
unfolding new mark send recv count
works = omega arith

working_alone_example :
    (count key taken.working ≡ 1) × (count key taken.channel ≡ 0) × (count key taken.sending ≡ 0)
working_alone_example = working_alone 8 key taken-Reach works

event_lost_example :
    (mark key taken ≡ taken)
    × (count key (done key (mark key taken)).in_flight ≡ 0)
    × (count key (done key (mark key taken)).sending
          + count key (done key (mark key taken)).channel
          + count key (done key (mark key taken)).working
        ≡ 0)
event_lost_example = event_lost 8 key taken-Reach works

reconciled : Moves 2 queued (done key taken)
unfolding new mark send recv count
reconciled =
    then_one (then_one none_yet (received (omega arith) refl)) (finished key (omega arith) refl)

queued_open : queued.closed ≡ false
unfolding new mark send
queued_open = ground arith

keys_drain_example :
    (2 ≤ moves_left queued)
    × (((done key taken).in_flight ≡ []) ⊎ ((u : System) × Move (done key taken) u))
keys_drain_example = keys_drain 8 2 (omega arith) queued-Reach queued_open reconciled
