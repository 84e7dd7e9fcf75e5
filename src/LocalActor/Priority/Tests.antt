-- ===== src/LocalActor/Priority/Tests.antt =====
-- Runs of the priority aware reader of local_actor.cpp.
use boost_actor.Common.{ℕ, ◌≡◌, ◌∙◌, refl, Bool, true, [], ◌∷◌, some, ◌%◌, ◌==◌, nat_eq, inl}
use boost_actor.Mailbox.{SingleReaderQueue, nodes}
use boost_actor.Mailbox.Fifo.{IsOpen, queue}
use boost_actor.LocalActor.Priority.{push_to_cache}
use boost_actor.LocalActor.Priority.Queue.{
  filter, sorted, pop, push, IsPartitioned, low_only, high_first, one_more, none_left,
}
use boost_actor.LocalActor.Priority.Order.{pending}
use boost_actor.LocalActor.Priority.Run.{
  run, promised_run, run_by_priority, arrives, takes, done, took,
}
use boost_actor.LocalActor.Priority.Skipped.{push_to_cache-push}

-- Even addresses hold high priority elements.
abbrev even : ℕ → Bool
even a = a % 2 == 0

-- 5 was read before; 7, 2 and 9 wait in the mailbox, the oldest first; 4 and 3 were skipped.
abbrev waiting_mail : SingleReaderQueue
waiting_mail = queue (nodes 9 (2 ∷ [])) (7 ∷ []) (record { first = 5 ∷ []; second = 4 ∷ 3 ∷ [] })

waiting_mail-IsOpen : IsOpen waiting_mail
waiting_mail-IsOpen = (inl refl, λ e. cc)

first-IsPartitioned : IsPartitioned even (5 ∷ [])
first-IsPartitioned = low_only (one_more refl none_left)

second-IsPartitioned : IsPartitioned even (4 ∷ 3 ∷ [])
second-IsPartitioned = high_first refl (low_only (one_more refl none_left))

run_by_priority_example :
    run even waiting_mail (takes ∷ arrives 6 ∷ takes ∷ takes ∷ [])
    ≡ promised_run even
        (sorted even (pending waiting_mail))
        (takes ∷ arrives 6 ∷ takes ∷ takes ∷ [])
run_by_priority_example =
    run_by_priority even (takes ∷ arrives 6 ∷ takes ∷ takes ∷ []) waiting_mail waiting_mail-IsOpen
      first-IsPartitioned

-- The one high priority element is first, then the one that arrives, then the oldest other.
run_of_mail :
    run even waiting_mail (takes ∷ arrives 6 ∷ takes ∷ takes ∷ [])
    ≡ took (some 2) ∷ done ∷ took (some 6) ∷ took (some 5) ∷ []
unfolding promised_run pop push filter
run_of_mail =
    run_by_priority even (takes ∷ arrives 6 ∷ takes ∷ takes ∷ []) waiting_mail waiting_mail-IsOpen
      first-IsPartitioned
    ∙ refl

push_to_cache-push_example :
    let q' = push_to_cache even true waiting_mail 8 in
    IsPartitioned even q'.cache.second
    × (sorted even q'.cache.second ≡ push even (sorted even (4 ∷ 3 ∷ [])) 8)
    × (pending q' ≡ pending waiting_mail)
push_to_cache-push_example = push_to_cache-push even waiting_mail 8 second-IsPartitioned
