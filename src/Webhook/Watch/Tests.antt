-- ===== src/Webhook/Watch/Tests.antt =====
-- reconcile.rs: a watcher that lists two bindings of one ServiceAccount, with a queue for one key.
use kubernetes_identity_fede.Base.{
  ◌+◌, ◌≡◌, refl, none, some, List, [], ◌∷◌, ok, any, opt_list, if◌then◌else◌, arith,
}
use kubernetes_identity_fede.Webhook.Merge.Tests.{crb, aws_only, gcp_only}
use kubernetes_identity_fede.Webhook.Queue.{Key, recv, count}
use kubernetes_identity_fede.Webhook.Watch.{
  init, init_done, init_apply, Watcher, start, receive, resume, Note, got, Run, starts, hears,
  delivers, takes,
}
use kubernetes_identity_fede.Webhook.Watch.Notes.{pending, lists_done, ended}
use kubernetes_identity_fede.Webhook.Watch.Pending.{Run-pending}

abbrev key : Key
key = record { namespace = "default"; service_account_name = "test-sa" }

abbrev first : Note
first = got (some (ok (init_apply (crb "crb1" aws_only none none))))

abbrev second : Note
second = got (some (ok (init_apply (crb "crb2" gcp_only none none))))

-- The first binding is in the channel.
abbrev queued : Watcher
queued = resume key (
    receive (some (ok (init_apply (crb "crb1" aws_only none none))))
      (receive (some (ok init)) (start 1)))

abbrev working : Watcher
working = record queued { queue = recv queued.queue }

-- The second one is dropped, and the listing is done.
abbrev listed : Watcher
listed =
    receive (some (ok init_done))
      (receive (some (ok (init_apply (crb "crb2" gcp_only none none)))) working)

abbrev notes : List Note
notes = got (some (ok init_done)) ∷ second ∷ first ∷ got (some (ok init)) ∷ []

run : Run 1 notes listed
unfolding receive resume start recv
run =
    hears (some (ok init_done))
      (hears (some (ok (init_apply (crb "crb2" gcp_only none none))))
        (takes (
          delivers key
            (hears (some (ok (init_apply (crb "crb1" aws_only none none))))
              (hears (some (ok init)) starts refl refl) refl refl)
            refl refl (omega arith)))
        refl refl)
      refl refl

Run-pending_example :
    (listed.is_ready ≡ any lists_done notes)
    × (listed.returned ≡ ended notes)
    × (count key listed.queue.in_flight ≡ (if pending key notes then 1 else 0))
    × (count key listed.queue.in_flight
        ≡ count key (opt_list listed.awaiting)
          + count key listed.queue.channel
          + count key listed.queue.working)
Run-pending_example = Run-pending 1 key run
