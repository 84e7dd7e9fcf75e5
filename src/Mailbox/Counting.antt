-- ===== src/Mailbox/Counting.antt =====
-- `count`: counting the elements of a mailbox.
use mathlib.Core.List.{reverse-cons}
use boost_actor.Common.{
  ℕ, ◌+◌, ◌≡◌, ◌≢◌, refl, ap, List, [], ◌∷◌, ◌++◌, arith, append-nil, reverse, length,
  length-append, min, if◌then◌else◌, leb, inl, inr, Bool-cases, leb→le,
}
use boost_actor.Mailbox.Cache
use boost_actor.Mailbox.Cache.{IntrusivePartitionedList, count-min}
use boost_actor.Mailbox.{
  Stack, nullptr, empty_dummy, blocked_dummy, nodes, SingleReaderQueue, count, fetch_new_data,
  nodes_of,
}
use boost_actor.Mailbox.Fifo.{contents, move_to_head-reverse, mode_of}
use boost_actor.Mailbox.Fifo.{closed as closed_mode}

pub length-reverse : (l : List ℕ) → length (reverse l) ≡ length l
length-reverse [] = refl
length-reverse (x ∷ l) =
    omega
      (arith, ap length (reverse-cons x l), length-append (reverse l) (x ∷ []), length-reverse l)

-- A fetch puts what comes from the stack before the owner's list, whether that is empty or not.
fetched :
    (s : Stack) (head : List ℕ) (c : IntrusivePartitionedList)
    → mode_of s ≢ closed_mode
    → let q' = (fetch_new_data (record { stack = s; head = head; cache = c })).1 in
      (q'.head ≡ reverse (nodes_of s) ++ head) × (nodes_of q'.stack ≡ [])
unfolding fetch_new_data
fetched nullptr head c o = absurd (o refl)
fetched empty_dummy head c o = (refl, refl)
fetched blocked_dummy head c o = (refl, refl)
fetched (nodes a l) head c o = (move_to_head-reverse (a ∷ l) head, refl)

module _ (q : SingleReaderQueue) (m : ℕ) (o : mode_of q.stack ≢ closed_mode) where
  abbrev total : ℕ
  total = length q.cache.first + length q.cache.second + length (contents q)

  total-length : length (reverse (nodes_of q.stack) ++ q.head) ≡ length (contents q)
  total-length = omega (
    arith,
    length-append (reverse (nodes_of q.stack)) q.head,
    length-append q.head (reverse (nodes_of q.stack)),
  )

  -- On a queue that is not closed, `count` gives the number of elements in cache, list and stack, cut off at the limit. Unless
  -- the cache alone reaches the limit it also moves the stack's elements, which came last, before
  -- those that the owner had taken over, which came first.
  pub count_lem :
      ((count q m).0 ≡ min m total)
      × (contents (count q m).1 ≡ (
          if leb m (Cache.count q.cache m)
          then contents q
          else reverse (nodes_of q.stack) ++ q.head))
  unfolding count
  count_lem = elim (Bool-cases (leb m (Cache.count q.cache m))) [
    | inl full ↦ rw full (omega (arith, count-min q.cache m, leb→le _ _ full), refl)
    | inr room ↦
        rw
          (
            room,
            (fetched q.stack q.head q.cache o).0,
            (fetched q.stack q.head q.cache o).1,
            append-nil,
          )
          (ground (arith, count-min q.cache m, total-length), refl)
  ]
