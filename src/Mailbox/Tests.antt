-- ===== src/Mailbox/Tests.antt =====
-- A mailbox with two elements taken over by the owner and two on the stack, 4 above 3.
use boost_actor.Common.{
  ℕ, ◌+◌, ◌≡◌, refl, true, List, [], ◌∷◌, ◌++◌, if◌then◌else◌, inl, nat_beq, ◌%◌,
}
use boost_actor.Mailbox.Cache
use boost_actor.Mailbox.Cache.{
  IntrusivePartitionedList, InvokeMessageResult, im_success, im_dropped, im_skipped, invoke,
}
use boost_actor.Mailbox.Cache.Invoke.{Outcome, invoke-Outcome}
use boost_actor.Mailbox.{
  empty_dummy, blocked_dummy, nodes, SingleReaderQueue, enqueue_loop, Pointer, null_pointer,
  stack_empty_dummy, reader_blocked_dummy, node, SharedStack, close, closed,
}
use boost_actor.Mailbox.Fifo.{
  Op, enqueues as enq, pops, awaits, unblocks, contents, view, run, promised_run, run_refines,
}
use boost_actor.Mailbox.Linearise.{IsPushOn, last_of, enqueue_loop_linearises}
use boost_actor.Mailbox.Closing.{enqueues, all_refused, close_lem}

abbrev cached : IntrusivePartitionedList
cached = record { first = 8 ∷ []; second = 9 ∷ [] }

abbrev mailbox : SingleReaderQueue
mailbox = record { stack = nodes 4 (3 ∷ []); head = 1 ∷ 2 ∷ []; cache = cached }

abbrev waiting_mailbox : SingleReaderQueue
waiting_mailbox = record { stack = blocked_dummy; head = []; cache = Cache.init }

abbrev script : List Op
script = enq 5 ∷ pops ∷ pops ∷ pops ∷ awaits ∷ pops ∷ pops ∷ awaits ∷ enq 6 ∷ unblocks ∷ pops ∷ []

run_refines_example : run mailbox script ≡ promised_run (view mailbox) script
run_refines_example = run_refines script mailbox (inl refl, λ e. cc)

-- The stack is empty; another sender puts 7, then the owner takes it and blocks the queue.
abbrev no_next : ℕ → Pointer
no_next _ = null_pointer

abbrev empty_stack : SharedStack
empty_stack = record { stack = stack_empty_dummy; next = no_next }

abbrev interference : List SharedStack
interference =
    record { stack = node 7; next = no_next }
    ∷ record { stack = reader_blocked_dummy; next = no_next }
    ∷ []

enqueue_loop_linearises_example :
    let (r, s', rest) = enqueue_loop interference stack_empty_dummy empty_stack 5 in
    (before : List SharedStack) × (interference ≡ before ++ rest)
    × IsPushOn 5 (last_of empty_stack before) r s'
enqueue_loop_linearises_example = enqueue_loop_linearises 5 interference empty_stack (
  (empty_dummy, refl, refl),
  ((nodes 7 [], (refl, refl), refl), ((blocked_dummy, refl, refl), tt)),
)

close_lem_example :
    ((close mailbox).0 ≡ contents mailbox ++ (8 ∷ [] ++ 9 ∷ []))
    × (closed (close mailbox).1 ≡ true)
    × (contents (close mailbox).1 ≡ [])
    × ((close mailbox).1.cache ≡ Cache.init)
    × (enqueues (close mailbox).1 (5 ∷ 6 ∷ []) ≡ all_refused (5 ∷ 6 ∷ []))
close_lem_example = close_lem mailbox (5 ∷ 6 ∷ [])

-- An owner that drops 8, skips odd numbers, and takes the first other one.
abbrev picky : ℕ → ℕ → InvokeMessageResult × ℕ
picky s x = (
  if nat_beq x 8 then im_dropped else (if nat_beq (x % 2) 1 then im_skipped true else im_success),
  s + 1,
)

picks_two : invoke picky 0 (8 ∷ 1 ∷ 2 ∷ 3 ∷ []) ≡ (true, 1 ∷ 3 ∷ [], 3)
unfolding invoke
picks_two = refl

invoke-Outcome_example : Outcome picky 0 (8 ∷ 1 ∷ 2 ∷ 3 ∷ []) (invoke picky 0 (8 ∷ 1 ∷ 2 ∷ 3 ∷ []))
invoke-Outcome_example = invoke-Outcome picky 0 (8 ∷ 1 ∷ 2 ∷ 3 ∷ [])
