-- ===== src/Mailbox/Closing.antt =====
-- `close`: the elements left in a mailbox, and those that come later.
use boost_actor.Common.{
  ℕ, ◌≡◌, refl, true, List, [], ◌∷◌, ◌++◌, append-nil, append_assoc, reverse, ap,
}
use boost_actor.Mailbox.Cache
use boost_actor.Mailbox.Cache.{IntrusivePartitionedList, clear, count-min}
use boost_actor.Mailbox.{
  EnqueueResult, queue_closed, Stack, nullptr, empty_dummy, blocked_dummy, nodes, SingleReaderQueue,
  enqueue, push, close, closed, fetch_and_close, nodes_of,
}
use boost_actor.Mailbox.Fifo.{contents, move_to_head-reverse}

pub enqueues : SingleReaderQueue → List ℕ → List EnqueueResult
enqueues q [] = []
enqueues q (a ∷ l) = let (r, q') = enqueue q a in r ∷ enqueues q' l

abbrev pub all_refused : List ℕ → List EnqueueResult
all_refused [] = []
all_refused (a ∷ l) = queue_closed ∷ all_refused l

-- A queue whose `stack_` is null refuses every element and stays as it is.
refused :
    (head : List ℕ) (c : IntrusivePartitionedList) (l : List ℕ)
    → enqueues (record { stack = nullptr; head = head; cache = c }) l ≡ all_refused l
unfolding enqueues enqueue push
refused head c [] = refl
refused head c (a ∷ l) = ap (◌∷◌ queue_closed) (refused head c l)

close_parts :
    (s : Stack) (head : List ℕ) (c : IntrusivePartitionedList)
    → close (record { stack = s; head = head; cache = c }) ≡ (
      (head ++ reverse (nodes_of s)) ++ (c.first ++ c.second),
      record { stack = nullptr; head = []; cache = Cache.init },
    )
unfolding close fetch_and_close clear
close_parts nullptr head c = rw append-nil
close_parts empty_dummy head c = rw append-nil
close_parts blocked_dummy head c = rw append-nil
close_parts (nodes a l) head c = rw (move_to_head-reverse (a ∷ l) [], append-nil, append_assoc)

-- `close` calls its function once for each element of the mailbox, in the order of arrival, then
-- for each one of the cache, first partition first. It leaves the queue closed and empty, and
-- every later element is refused.
pub close_lem :
    (q : SingleReaderQueue) (later : List ℕ)
    → ((close q).0 ≡ contents q ++ (q.cache.first ++ q.cache.second))
      × (closed (close q).1 ≡ true)
      × (contents (close q).1 ≡ [])
      × ((close q).1.cache ≡ Cache.init)
      × (enqueues (close q).1 later ≡ all_refused later)
unfolding closed
close_lem q later =
    let e = close_parts q.stack q.head q.cache in
    (ap (λ r. r.0) e, rw e, rw e, rw e, rw e (refused [] Cache.init later))
