-- ===== src/Mailbox.antt =====
-- libboost_actor_core/boost/actor/detail/single_reader_queue.hpp: the mailbox of an actor, a stack
-- that any thread pushes on and a list that the owner alone reads. Every access of `stack_` is one
-- atomic step; elements stand for their addresses.
pub mod Cache
pub mod Fifo
pub mod Linearise
pub mod Closing
pub mod Counting
pub mod Popping
mod Tests
use boost_actor.Common.{
  ℕ, zero, suc, ◌+◌, ◌-◌, Bool, true, false, ◌&&◌, ◌||◌, not, List, [], ◌∷◌, ◌++◌, Option, none,
  some, if◌then◌else◌, ◌==◌, nat_eq, null, length, leb, min,
}
use Cache.{IntrusivePartitionedList}
use Cache

pub data EnqueueResult : Type 0 where
  success unblocked_reader queue_closed : EnqueueResult

-- What `stack_` points to: nothing, one of the two dummies, or a node and those behind it.
pub data Stack : Type 0 where
  nullptr empty_dummy blocked_dummy : Stack
  nodes : ℕ → List ℕ → Stack

-- The pointer itself, which `compare_exchange` compares.
pub data Pointer : Type 0 where
  null_pointer stack_empty_dummy reader_blocked_dummy : Pointer
  node : ℕ → Pointer

abbrev pub same_pointer : Pointer → Pointer → Bool
same_pointer null_pointer null_pointer = true
same_pointer stack_empty_dummy stack_empty_dummy = true
same_pointer reader_blocked_dummy reader_blocked_dummy = true
same_pointer (node a) (node b) = a == b
same_pointer _ _ = false

pub record SingleReaderQueue : Type 0 where
  pub stack : Stack
  pub head : List ℕ
  pub cache : IntrusivePartitionedList

pub init : SingleReaderQueue
init = record { stack = empty_dummy; head = []; cache = Cache.init }

-- The nodes from the stack's top on; a dummy is never part of a list.
abbrev pub nodes_of : Stack → List ℕ
nodes_of (nodes a l) = a ∷ l
nodes_of _ = []

-- One round of the loop in `enqueue` that ends it: `e` is the value that `stack_` still has.
pub push : Stack → ℕ → EnqueueResult × Stack
push nullptr a = (queue_closed, nullptr)
push empty_dummy a = (success, nodes a [])
push blocked_dummy a = (unblocked_reader, nodes a [])
push (nodes b l) a = (success, nodes a (b ∷ l))

-- The memory that the loop in `enqueue` works on: `stack_` and the `next` of each element.
pub record SharedStack : Type 0 where
  pub stack : Pointer
  pub next : ℕ → Pointer

-- `is_dummy(e) ? nullptr : e`
abbrev pub next_of_new : Pointer → Pointer
next_of_new (node b) = node b
next_of_new _ = null_pointer

abbrev pub result_of : Pointer → EnqueueResult
result_of reader_blocked_dummy = unblocked_reader
result_of _ = success

-- The exchange of `e` by the new element, whose `next` was set before it.
pub exchanged : Pointer → SharedStack → ℕ → EnqueueResult × SharedStack
exchanged e s a =
    (result_of e, record { stack = node a; next = λ k. if k == a then next_of_new e else s.next k })

-- A round that no other thread disturbs.
pub quiet_attempt : Pointer → SharedStack → ℕ → EnqueueResult × SharedStack
unfolding exchanged
quiet_attempt null_pointer s a = (queue_closed, s)
quiet_attempt e s a = exchanged e s a

-- The loop in `enqueue`: `e` was loaded from `s`, and `others` are the states of the memory that
-- other threads have brought about at each of the next attempts; when they are used up, the others
-- are quiet. The last component is what was not used up.
pub enqueue_loop :
    List SharedStack → Pointer → SharedStack → ℕ → EnqueueResult × SharedStack × List SharedStack
unfolding exchanged quiet_attempt
enqueue_loop others null_pointer s a = (queue_closed, s, others)
enqueue_loop [] e s a =
    let (r, s') = (if same_pointer s.stack e then exchanged e s a else quiet_attempt s.stack s a) in
    (r, s', [])
enqueue_loop (t ∷ others) e s a =
    let retry = enqueue_loop others t.stack t a in
    let (r, t') = exchanged e t a in if same_pointer t.stack e then (r, t', others) else retry

pub enqueue : SingleReaderQueue → ℕ → EnqueueResult × SingleReaderQueue
unfolding push
enqueue q a = let (r, s) = push q.stack a in (r, record q { stack = s })

abbrev pub is_dummy : Stack → Bool
is_dummy empty_dummy = true
is_dummy blocked_dummy = true
is_dummy _ = false

pub can_fetch_more : SingleReaderQueue → Bool
can_fetch_more q = not (null q.head) || not (is_dummy q.stack)

pub empty : SingleReaderQueue → Bool
empty q = Cache.empty q.cache && null q.head && is_dummy q.stack

abbrev pub closed_stack : Stack → Bool
closed_stack nullptr = true
closed_stack _ = false

unfoldable pub closed : SingleReaderQueue → Bool
closed q = closed_stack q.stack

abbrev pub blocked_stack : Stack → Bool
blocked_stack blocked_dummy = true
blocked_stack _ = false

unfoldable pub blocked : SingleReaderQueue → Bool
blocked q = blocked_stack q.stack

-- `compare_exchange(empty -> blocked)`; true also if it was blocked already.
pub try_block : SingleReaderQueue → Bool × SingleReaderQueue
try_block q = elim q.stack [
  | nullptr ↦ (false, q)
  | empty_dummy ↦ (true, record q { stack = blocked_dummy })
  | blocked_dummy ↦ (true, q)
  | nodes a l ↦ (false, q)
]

-- `compare_exchange(blocked -> empty)`
pub try_unblock : SingleReaderQueue → Bool × SingleReaderQueue
try_unblock q = elim q.stack [
  | nullptr ↦ (false, q)
  | empty_dummy ↦ (false, q)
  | blocked_dummy ↦ (true, record q { stack = empty_dummy })
  | nodes a l ↦ (false, q)
]

-- The inner loop of `fetch_new_data`: each node goes before `head_`.
pub move_to_head : List ℕ → List ℕ → List ℕ
move_to_head [] head = head
move_to_head (e ∷ next) head = move_to_head next (e ∷ head)

-- `fetch_new_data(nullptr)`, the use in `close`.
pub fetch_and_close : SingleReaderQueue → Bool × SingleReaderQueue
unfolding move_to_head
fetch_and_close q = elim q.stack [
  | nullptr ↦ (false, q)
  | empty_dummy ↦ (false, record q { stack = nullptr })
  | blocked_dummy ↦ (false, record q { stack = nullptr })
  | nodes a l ↦ (true, record q { stack = nullptr; head = move_to_head (a ∷ l) q.head })
]

-- `fetch_new_data(stack_empty_dummy())`. The assertions forbid a closed and a blocked queue; what
-- the code does without them is here: it opens the one and unblocks the other.
pub fetch_new_data : SingleReaderQueue → Bool × SingleReaderQueue
unfolding move_to_head
fetch_new_data q = elim q.stack [
  | nullptr ↦ (true, record q { stack = empty_dummy })
  | empty_dummy ↦ (false, q)
  | blocked_dummy ↦ (false, record q { stack = empty_dummy })
  | nodes a l ↦ (true, record q { stack = empty_dummy; head = move_to_head (a ∷ l) q.head })
]

-- `result = head_; head_ = head_->next;`, where a null `head_` is a fault: `none`.
abbrev pub pop_head : SingleReaderQueue → List ℕ → Option (Option ℕ × SingleReaderQueue)
pop_head q [] = none
pop_head q (a ∷ l) = some (some a, record q { head = l })

-- `try_pop`, that is `take_head`. The inner option is the pointer returned.
pub try_pop : SingleReaderQueue → Option (Option ℕ × SingleReaderQueue)
unfolding fetch_new_data
try_pop q = elim q.head [
  | a ∷ l ↦ some (some a, record q { head = l })
  | [] ↦
      let (fetched, q') = fetch_new_data q in
      if fetched then pop_head q' q'.head else some (none, q')
]

-- `count(max_count)`; a number of elements never reaches the default of `max_count`.
pub count : SingleReaderQueue → ℕ → ℕ × SingleReaderQueue
unfolding fetch_new_data
count q max_count =
    let res = Cache.count q.cache max_count in
    if leb max_count res
    then (res, q)
    else (let q' = (fetch_new_data q).1 in (res + min (max_count - res) (length q'.head), q'))

-- `close(f)`: the elements that `f` is called with, in that order, and the queue left behind.
pub close : SingleReaderQueue → List ℕ × SingleReaderQueue
unfolding fetch_and_close
close q =
    let first = q.head in
    let (fetched, q') = fetch_and_close (record q { head = [] }) in
    let second = (if fetched then q'.head else []) in
    let (cached, c) = Cache.clear q'.cache in
    (first ++ second ++ cached, record q' { head = []; cache = c })
