-- ===== src/LocalActor/Priority.antt =====
-- libboost_actor_core/src/local_actor.cpp: how an actor takes the next message out of its mailbox
-- and puts a skipped one into the cache, with and without priorities. An iterator of the cache is
-- its distance from the partition's begin.
pub mod Queue
pub mod Fetch
pub mod Order
pub mod Run
pub mod Skipped
pub mod Ready
mod Tests
use boost_actor.Common.{
  ℕ, zero, suc, ◌+◌, ◌-◌, Bool, true, false, ◌&&◌, ◌||◌, not, List, [], ◌∷◌, ◌++◌, Option, none,
  some, if◌then◌else◌, ◌==◌, nat_eq, null, length, leb, inl, inr,
}
use boost_actor.Mailbox.Cache.{IntrusivePartitionedList}
use boost_actor.Mailbox.{SingleReaderQueue, nodes_of, try_pop, can_fetch_more}
use boost_actor.Mailbox.Cache

-- `cache.insert(pos, val)`
unfoldable pub insert : ℕ → ℕ → List ℕ → List ℕ
insert zero val xs = val ∷ xs
insert (suc pos) val [] = val ∷ []
insert (suc pos) val (x ∷ xs) = x ∷ insert pos val xs

-- `std::partition_point`, which searches for where the predicate, true of a prefix, becomes false.
unfoldable pub partition_point : (ℕ → Bool) → List ℕ → ℕ
partition_point p [] = 0
partition_point p (x ∷ xs) = let rest = partition_point p xs in if p x then suc rest else 0

abbrev pub with_first : SingleReaderQueue → List ℕ → SingleReaderQueue
with_first q l = record q { cache = record q.cache { first = l } }

abbrev pub with_second : SingleReaderQueue → List ℕ → SingleReaderQueue
with_second q l = record q { cache = record q.cache { second = l } }

-- Enough fuel: every element is read once, and the last read gets nothing.
abbrev pub reads : SingleReaderQueue → ℕ
reads q = suc (length q.head + length (nodes_of q.stack))

-- `cache.take_first_front()` if there is one.
abbrev pub take_first_front : SingleReaderQueue → List ℕ → Option ℕ × SingleReaderQueue
take_first_front q [] = (none, q)
take_first_front q (x ∷ xs) = (some x, with_first q xs)

abbrev pub after_read : Option SingleReaderQueue → Option (Option ℕ × SingleReaderQueue)
after_read none = none
after_read (some q) = some (take_first_front q q.cache.first)

unfoldable pub has_next_message : Bool → SingleReaderQueue → Bool
has_next_message is_priority_aware q =
    if is_priority_aware then not (null q.cache.first) || can_fetch_more q else can_fetch_more q

-- `is_high_priority()` of the element at an address.
module _ (is_high_priority : ℕ → Bool) where
  -- One round of the loop that reads the mailbox: the high priority insert point and the first
  -- partition. An iterator behind the place of the insertion keeps its element.
  unfoldable pub place : ℕ → List ℕ → ℕ → ℕ × List ℕ
  unfolding insert
  place hp_pos first tmp =
      let pos = (if is_high_priority tmp then hp_pos else length first) in
      let first' = insert pos tmp first in
      let hp_pos' = (if leb pos hp_pos then suc hp_pos else hp_pos) in
      (
        if hp_pos' == length first' && not (is_high_priority tmp) then hp_pos' - 1 else hp_pos',
        first',
      )

  -- The loop itself, on fuel. `none` is a fault in the mailbox or no fuel.
  unfoldable pub read_mailbox : ℕ → ℕ → SingleReaderQueue → Option SingleReaderQueue
  unfolding place
  read_mailbox zero hp_pos q = none
  read_mailbox (suc n) hp_pos q = elim (try_pop q) [
    | none ↦ none
    | some (none, q') ↦ some q'
    | some (some tmp, q') ↦
        let (hp_pos', first') = place hp_pos q'.cache.first tmp in
        read_mailbox n hp_pos' (with_first q' first')
  ]

  abbrev pub high_in_front : List ℕ → Bool
  high_in_front [] = false
  high_in_front (x ∷ xs) = is_high_priority x

  -- `next_message` with `is_priority_aware()`
  unfoldable pub next_by_priority : SingleReaderQueue → Option (Option ℕ × SingleReaderQueue)
  unfolding read_mailbox
  next_by_priority q =
      let read = read_mailbox (reads q) 0 q in
      after_read (if high_in_front q.cache.first then some q else read)

  unfoldable pub next_message : Bool → SingleReaderQueue → Option (Option ℕ × SingleReaderQueue)
  unfolding next_by_priority
  next_message is_priority_aware q = if is_priority_aware then next_by_priority q else try_pop q

  unfoldable pub push_to_cache : Bool → SingleReaderQueue → ℕ → SingleReaderQueue
  unfolding insert partition_point
  push_to_cache is_priority_aware q ptr =
      let second = q.cache.second in
      let pos =
        (if is_high_priority ptr then partition_point is_high_priority second else length second) in
      if is_priority_aware
      then with_second q (insert pos ptr second)
      else record q { cache = Cache.push_second_back q.cache ptr }
