-- ===== src/Mailbox/Popping.antt =====
-- `try_pop` and `enqueue` of single_reader_queue.hpp, told by what the mailbox holds.
use mathlib.Core.List.{reverse-cons}
use boost_actor.Common.{
  append_assoc, ℕ, ◌≡◌, refl, ◌∙◌, arith, List, [], ◌∷◌, ◌++◌, Option, none, some, true, false, not,
  null, ◌||◌, reverse, append-nil, inl, inr, ◌⊎◌, ◌≢◌,
}
use boost_actor.Mailbox.Cache.{IntrusivePartitionedList}
use boost_actor.Mailbox.{
  nodes_of, enqueue, push, success, unblocked_reader, blocked_stack, is_dummy, try_block, blocked,
  can_fetch_more, queue_closed, closed_stack, closed as is_closed, SingleReaderQueue, Stack,
  nullptr, empty_dummy, blocked_dummy, nodes, try_pop, pop_head, move_to_head,
}
use boost_actor.Mailbox.Fifo.{
  ready, mode_of, contents, IsOpen, queue, move_to_head-reverse, reverse_ne_nil,
}

-- A queue that its owner neither waits for nor has closed.
abbrev pub IsReady : SingleReaderQueue → Type 0
IsReady q = mode_of q.stack ≡ ready

pub ready-IsOpen : (q : SingleReaderQueue) → IsReady q → IsOpen q
ready-IsOpen q r = (inl r, λ e. cc)

-- What a pop of an open mailbox keeps: it is ready, and the cache is not touched.
abbrev pub IsPopped : SingleReaderQueue → Option ℕ → List ℕ → Type 0
IsPopped q o l =
    (q' : SingleReaderQueue) × (try_pop q ≡ some (o, q'))
    × IsReady q'
    × (contents q' ≡ l)
    × (q'.cache ≡ q.cache)

module _ (c : IntrusivePartitionedList) where
  taken :
      (a : ℕ) (l items : List ℕ)
      → items ≡ a ∷ l
      → (q' : SingleReaderQueue) × (pop_head (queue empty_dummy items c) items ≡ some (some a, q'))
        × IsReady q'
        × (contents q' ≡ l)
        × (q'.cache ≡ c)
  taken a l [] e = absurd (ground arith)
  taken a l (x ∷ xs) e =
      (queue empty_dummy xs c, ground arith, refl, rw append-nil (ground arith), refl)

  IsPopped-nil :
      (s : Stack) (head : List ℕ)
      → IsOpen (queue s head c)
      → contents (queue s head c) ≡ []
      → IsPopped (queue s head c) none []
  unfolding try_pop
  IsPopped-nil nullptr head o e = absurd (o.1 refl)
  IsPopped-nil s (a ∷ l) o e = absurd (ground arith)
  IsPopped-nil empty_dummy [] o e = (queue empty_dummy [] c, refl, refl, refl, refl)
  IsPopped-nil blocked_dummy [] o e = (queue empty_dummy [] c, refl, refl, refl, refl)
  IsPopped-nil (nodes a l) [] o e = absurd (reverse_ne_nil a l e)

  IsPopped-cons :
      (s : Stack) (head : List ℕ) (a : ℕ) (l : List ℕ)
      → IsOpen (queue s head c)
      → contents (queue s head c) ≡ a ∷ l
      → IsPopped (queue s head c) (some a) l
  unfolding try_pop
  IsPopped-cons nullptr head a l o e = absurd (o.1 refl)
  IsPopped-cons empty_dummy [] a l o e = absurd (ground arith)
  IsPopped-cons empty_dummy (x ∷ xs) a l o e =
      (queue empty_dummy xs c, ground arith, refl, ground arith, refl)
  IsPopped-cons blocked_dummy [] a l o e = absurd (ground arith)
  IsPopped-cons blocked_dummy (x ∷ xs) a l o e = absurd (ground (arith, o.0))
  IsPopped-cons (nodes b m) [] a l o e =
      taken a l (move_to_head (b ∷ m) []) (move_to_head-reverse (b ∷ m) [] ∙ rw append-nil e)
  IsPopped-cons (nodes b m) (x ∷ xs) a l o e =
      (queue (nodes b m) xs c, ground arith, refl, ground arith, refl)

-- An open mailbox that holds nothing answers with a null pointer.
pub try_pop_nil : (q : SingleReaderQueue) → IsOpen q → contents q ≡ [] → IsPopped q none []
try_pop_nil q = IsPopped-nil q.cache q.stack q.head

-- An open mailbox that holds something answers with the oldest element.
pub try_pop_cons :
    (q : SingleReaderQueue) (a : ℕ) (l : List ℕ)
    → IsOpen q
    → contents q ≡ a ∷ l
    → IsPopped q (some a) l
try_pop_cons q a l = IsPopped-cons q.cache q.stack q.head a l

module _ (c : IntrusivePartitionedList) (a : ℕ) where
  abbrev IsEnqueued : SingleReaderQueue → Type 0
  IsEnqueued q =
      let q' = (enqueue q a).1 in
      IsReady q' × (contents q' ≡ contents q ++ a ∷ []) × (q'.cache ≡ q.cache)

  enqueue_by_stack :
      (s : Stack) (head : List ℕ) → IsOpen (queue s head c) → IsEnqueued (queue s head c)
  unfolding enqueue push
  enqueue_by_stack nullptr head o = absurd (o.1 refl)
  enqueue_by_stack empty_dummy head o = (refl, rw append-nil refl, refl)
  enqueue_by_stack blocked_dummy head o = (refl, rw append-nil refl, refl)
  enqueue_by_stack (nodes b l) head o = (refl, rw (reverse-cons a (b ∷ l), append_assoc) refl, refl)

-- An open mailbox takes a new element behind all it holds.
pub enqueue_snoc :
    (q : SingleReaderQueue) (a : ℕ)
    → IsOpen q
    → let q' = (enqueue q a).1 in
      IsReady q' × (contents q' ≡ contents q ++ a ∷ []) × (q'.cache ≡ q.cache)
enqueue_snoc q a = enqueue_by_stack q.cache a q.stack q.head

-- A new element is on the stack, and nowhere else.
pub enqueue_keeps :
    (q : SingleReaderQueue) (a : ℕ)
    → ((enqueue q a).1.cache ≡ q.cache) × ((enqueue q a).1.head ≡ q.head)
unfolding enqueue
enqueue_keeps q a = (refl, refl)

refused_stack :
    (s : Stack) (head : List ℕ) (c : IntrusivePartitionedList) (a : ℕ)
    → closed_stack s ≡ true
    → enqueue (queue s head c) a ≡ (queue_closed, queue s head c)
unfolding enqueue push
refused_stack nullptr head c a h = refl
refused_stack empty_dummy head c a h = absurd (ground arith)
refused_stack blocked_dummy head c a h = absurd (ground arith)
refused_stack (nodes b l) head c a h = absurd (ground arith)

-- A closed mailbox refuses an element and stays as it is.
pub enqueue-closed :
    (q : SingleReaderQueue) (a : ℕ) → is_closed q ≡ true → enqueue q a ≡ (queue_closed, q)
unfolding is_closed
enqueue-closed q a h = refused_stack q.stack q.head q.cache a h

tried :
    (s : Stack) (head : List ℕ) (c : IntrusivePartitionedList)
    → mode_of s ≡ ready
    → let (b, q') = try_block (queue s head c) in
      b ≡ true → (blocked q' ≡ true) × (can_fetch_more q' ≡ not (null head)) × (q'.cache ≡ c)
unfolding try_block blocked can_fetch_more
tried nullptr head c r h = absurd (ground arith)
tried empty_dummy head c r h = (refl, ground arith, refl)
tried blocked_dummy head c r h = absurd (ground arith)
tried (nodes a l) head c r h = absurd (ground arith)

-- A ready queue that is blocked has nothing on its stack.
pub try_block_ready :
    (q : SingleReaderQueue)
    → IsReady q
    → let (b, q') = try_block q in
      b ≡ true
      → (blocked q' ≡ true) × (can_fetch_more q' ≡ not (null q.head)) × (q'.cache ≡ q.cache)
try_block_ready q = tried q.stack q.head q.cache

-- Nothing more to fetch means that the owner has read all it took over.
pub can_fetch_more-head : (q : SingleReaderQueue) → can_fetch_more q ≡ false → null q.head ≡ true
unfolding can_fetch_more
can_fetch_more-head q h = ground arith

told :
    (s : Stack) (head : List ℕ) (c : IntrusivePartitionedList) (a : ℕ)
    → let (r, q') = enqueue (queue s head c) a in
      (mode_of s ≡ ready → (r ≡ success) × IsReady q')
      × (blocked_stack s ≡ true → (r ≡ unblocked_reader) × IsReady q')
unfolding enqueue push
told nullptr head c a = (λ h. absurd (ground arith), λ h. absurd (ground arith))
told empty_dummy head c a = (λ h. (refl, refl), λ h. absurd (ground arith))
told blocked_dummy head c a = (λ h. absurd (ground arith), λ h. (refl, refl))
told (nodes b l) head c a = (λ h. (refl, refl), λ h. absurd (ground arith))

-- Who enqueues is told to wake the owner if, and only if, the owner waits; after it the owner does
-- not wait.
pub enqueue_told :
    (q : SingleReaderQueue) (a : ℕ)
    → let (r, q') = enqueue q a in
      (IsReady q → (r ≡ success) × IsReady q')
      × (blocked q ≡ true → (r ≡ unblocked_reader) × IsReady q')
unfolding blocked
enqueue_told q a = told q.stack q.head q.cache a

emptied :
    (s : Stack) (head : List ℕ)
    → not (null head) || not (is_dummy s) ≡ false
    → head ++ reverse (nodes_of s) ≡ []
emptied empty_dummy [] h = refl
emptied blocked_dummy [] h = refl
emptied nullptr [] h = absurd (ground arith)
emptied (nodes a l) [] h = absurd (ground arith)
emptied s (x ∷ xs) h = absurd (ground arith)

pub can_fetch_more-contents : (q : SingleReaderQueue) → can_fetch_more q ≡ false → contents q ≡ []
unfolding can_fetch_more
can_fetch_more-contents q h = emptied q.stack q.head h

-- What `try_block` and the next sender do to a queue of which the owner has read all it took over.
abbrev pub BlocksOrNot : SingleReaderQueue → Type 0
BlocksOrNot q =
    (contents q ≡ [])
      × ((try_block q).0 ≡ true)
      × ((a : ℕ)
          → let (r, q') = enqueue (try_block q).1 a in
            (r ≡ unblocked_reader) × (contents q' ≡ a ∷ []))
    ⊎ (contents q ≢ []) × ((try_block q).0 ≡ false)

blocks_stack :
    (s : Stack) (head : List ℕ) (c : IntrusivePartitionedList)
    → mode_of s ≡ ready
    → null head ≡ true
    → BlocksOrNot (queue s head c)
unfolding try_block enqueue push
blocks_stack s (x ∷ xs) c r h = absurd (ground arith)
blocks_stack nullptr [] c r h = absurd (ground arith)
blocks_stack empty_dummy [] c r h = inl (refl, refl, λ a. (refl, refl))
blocks_stack blocked_dummy [] c r h = absurd (ground arith)
blocks_stack (nodes b l) [] c r h = inr (reverse_ne_nil b l, refl)

-- A queue that holds nothing is blocked, and then the next sender is told to wake its owner; a queue
-- that holds something is not.
pub try_block-cases : (q : SingleReaderQueue) → IsReady q → null q.head ≡ true → BlocksOrNot q
try_block-cases q r h = blocks_stack q.stack q.head q.cache r h
