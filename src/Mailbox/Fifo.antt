-- ===== src/Mailbox/Fifo.antt =====
-- The mailbox as the owner and the senders see it: a first-in-first-out queue that is open,
-- waited for, or closed.
use mathlib.Core.List.{reverse-cons}
use boost_actor.Common.{
  ℕ, ◌≡◌, refl, sym, ◌∙◌, ◌⊎◌, inl, inr, Bool, true, false, List, [], ◌∷◌, ◌++◌, Option, none, some,
  arith, ◌≢◌, reverse, append-nil, append_assoc, if◌then◌else◌,
}
use boost_actor.Mailbox.Cache.{IntrusivePartitionedList}
use boost_actor.Mailbox.{
  EnqueueResult, success, unblocked_reader, queue_closed, Stack, nullptr, empty_dummy,
  blocked_dummy, nodes, SingleReaderQueue, nodes_of, push, enqueue, try_pop, try_block, try_unblock,
  can_fetch_more, pop_head, move_to_head,
}

pub data Mode : Type 0 where
  ready waiting closed : Mode

-- What the queue promises.
pub record Fifo : Type 0 where
  pub items : List ℕ
  pub mode : Mode

abbrev pub mode_of : Stack → Mode
mode_of nullptr = closed
mode_of empty_dummy = ready
mode_of blocked_dummy = waiting
mode_of (nodes a l) = ready

-- Oldest first: what the owner took over, then the stack from its bottom.
abbrev pub contents : SingleReaderQueue → List ℕ
contents q = q.head ++ reverse (nodes_of q.stack)

abbrev pub view : SingleReaderQueue → Fifo
view q = record { items = contents q; mode = mode_of q.stack }

-- The owner waits, or has closed the queue, only with nothing left to read.
abbrev pub IsValid : SingleReaderQueue → Type 0
IsValid q = (mode_of q.stack ≡ ready) ⊎ (q.head ≡ [])

pub move_to_head-reverse : (l head : List ℕ) → move_to_head l head ≡ reverse l ++ head
unfolding move_to_head
move_to_head-reverse [] head = refl
move_to_head-reverse (e ∷ next) head =
    rw (move_to_head-reverse next (e ∷ head), reverse-cons e next, append_assoc)

pub data Op : Type 0 where
  enqueues : ℕ → Op
  pops awaits unblocks : Op

pub data Reply : Type 0 where
  enqueued : EnqueueResult → Reply
  popped : Option ℕ → Reply
  did : Bool → Reply
  fault : Reply

-- What the operations do to the queue as it is promised. The owner calls nothing after closing it.
pub promised : Fifo → Op → Reply × Fifo
promised q (enqueues a) = elim q.mode [
  | ready ↦ (enqueued success, record q { items = q.items ++ a ∷ [] })
  | waiting ↦ (enqueued unblocked_reader, record { items = q.items ++ a ∷ []; mode = ready })
  | closed ↦ (enqueued queue_closed, q)
]
promised q pops = elim q.items [
  | [] ↦ (popped none, record { items = []; mode = ready })
  | a ∷ l ↦ (popped (some a), record { items = l; mode = ready })
]
promised q awaits = elim q.items [
  | [] ↦ (did true, record q { mode = waiting })
  | a ∷ l ↦ (did false, q)
]
promised q unblocks = elim q.mode [
  | waiting ↦ (did true, record q { mode = ready })
  | ready ↦ (did false, q)
  | closed ↦ (did false, q)
]

abbrev after_pop :
    SingleReaderQueue → Option (Option ℕ × SingleReaderQueue) → Reply × SingleReaderQueue
after_pop q none = (fault, q)
after_pop q (some (o, q')) = (popped o, q')

-- The operations of the queue itself; `awaits` is the test at the head of `synchronized_await`.
pub step : SingleReaderQueue → Op → Reply × SingleReaderQueue
step q (enqueues a) = let (r, q') = enqueue q a in (enqueued r, q')
step q pops = after_pop q (try_pop q)
step q awaits =
    if can_fetch_more q then (did false, q) else (let (b, q') = try_block q in (did b, q'))
step q unblocks = let (b, q') = try_unblock q in (did b, q')

abbrev pub IsOpen : SingleReaderQueue → Type 0
IsOpen q = IsValid q × (mode_of q.stack ≢ closed)

-- The owner's list, the stack and the cache are split where the cases differ.
abbrev pub queue : Stack → List ℕ → IntrusivePartitionedList → SingleReaderQueue
queue s head c = record { stack = s; head = head; cache = c }

enqueue_refines :
    (s : Stack) (head : List ℕ) (c : IntrusivePartitionedList) (a : ℕ)
    → let (r, q') = enqueue (queue s head c) a in
      (enqueued r, view q') ≡ promised (view (queue s head c)) (enqueues a)
unfolding enqueue promised push
enqueue_refines nullptr head c a = refl
enqueue_refines empty_dummy head c a = rw append-nil
enqueue_refines blocked_dummy head c a = rw append-nil
enqueue_refines (nodes b l) head c a = rw (reverse-cons a (b ∷ l), append_assoc)

snoc_ne_nil : (xs : List ℕ) (a : ℕ) → xs ++ a ∷ [] ≢ []
snoc_ne_nil [] a e = cc
snoc_ne_nil (x ∷ xs) a e = cc

pub reverse_ne_nil : (a : ℕ) (l : List ℕ) → reverse (a ∷ l) ≢ []
reverse_ne_nil a l = rw (reverse-cons a l) (snoc_ne_nil (reverse l) a)

module _ (c : IntrusivePartitionedList) where
  abbrev popped_reply : Option (Option ℕ × SingleReaderQueue) → SingleReaderQueue → Reply × Fifo
  popped_reply none q = (fault, view q)
  popped_reply (some (o, q')) q = (popped o, view q')

  popped_reply-after_pop :
      (o : Option (Option ℕ × SingleReaderQueue)) (q : SingleReaderQueue)
      → ((after_pop q o).0, view (after_pop q o).1) ≡ popped_reply o q
  popped_reply-after_pop none q = refl
  popped_reply-after_pop (some (o, q')) q = refl

  -- What was just taken over from the stack is served from its front.
  serve_taken :
      (l : List ℕ) (q : SingleReaderQueue)
      → l ≢ []
      → popped_reply (pop_head (queue empty_dummy l c) l) q
        ≡ promised (record { items = l; mode = ready }) pops
  unfolding promised
  serve_taken [] q h = absurd (h refl)
  serve_taken (a ∷ l) q h = rw append-nil

  try_pop_refines :
      (s : Stack) (head : List ℕ)
      → IsOpen (queue s head c)
      → popped_reply (try_pop (queue s head c)) (queue s head c)
        ≡ promised (view (queue s head c)) pops
  unfolding try_pop promised
  try_pop_refines nullptr head v = absurd (v.1 refl)
  try_pop_refines empty_dummy [] v = refl
  try_pop_refines empty_dummy (a ∷ l) v = refl
  try_pop_refines blocked_dummy [] v = refl
  try_pop_refines blocked_dummy (a ∷ l) v = absurd (ground (arith, v.0))
  try_pop_refines (nodes a l) [] v =
      rw (move_to_head-reverse (a ∷ l) [], append-nil)
        (serve_taken (reverse (a ∷ l)) (queue (nodes a l) [] c) (reverse_ne_nil a l))
  try_pop_refines (nodes a l) (b ∷ m) v = refl

  nothing_to_await :
      (l : List ℕ) (m : Mode)
      → l ≢ []
      → promised (record { items = l; mode = m }) awaits
        ≡ (did false, record { items = l; mode = m })
  unfolding promised
  nothing_to_await [] m h = absurd (h refl)
  nothing_to_await (a ∷ l) m h = refl

  await_refines :
      (s : Stack) (head : List ℕ)
      → IsOpen (queue s head c)
      → let (r, q') = step (queue s head c) awaits in
        (r, view q') ≡ promised (view (queue s head c)) awaits
  unfolding step can_fetch_more try_block promised
  await_refines nullptr head v = absurd (v.1 refl)
  await_refines empty_dummy [] v = refl
  await_refines empty_dummy (a ∷ l) v = refl
  await_refines blocked_dummy [] v = refl
  await_refines blocked_dummy (a ∷ l) v = absurd (ground (arith, v.0))
  await_refines (nodes a l) [] v =
      sym (nothing_to_await (reverse (a ∷ l)) ready (reverse_ne_nil a l))
  await_refines (nodes a l) (b ∷ m) v = refl

  unblock_refines :
      (s : Stack) (head : List ℕ)
      → let (r, q') = step (queue s head c) unblocks in
        (r, view q') ≡ promised (view (queue s head c)) unblocks
  unfolding step try_unblock promised
  unblock_refines nullptr head = refl
  unblock_refines empty_dummy head = refl
  unblock_refines blocked_dummy head = refl
  unblock_refines (nodes a l) head = refl

-- Each operation on an open mailbox answers as the promised queue does, and leaves it holding
-- what the promised queue holds.
pub step_refines :
    (q : SingleReaderQueue) (op : Op)
    → IsOpen q
    → let (r, q') = step q op in (r, view q') ≡ promised (view q) op
unfolding step
step_refines q (enqueues a) v = enqueue_refines q.stack q.head q.cache a
step_refines q pops v =
    popped_reply-after_pop q.cache (try_pop q) q ∙ try_pop_refines q.cache q.stack q.head v
step_refines q awaits v = await_refines q.cache q.stack q.head v
step_refines q unblocks v = unblock_refines q.cache q.stack q.head

module _ (c : IntrusivePartitionedList) where
  taken-IsOpen :
      (s : Stack) (head l : List ℕ)
      → mode_of s ≢ closed
      → mode_of s ≡ ready
      → IsOpen (after_pop (queue s head c) (pop_head (queue empty_dummy l c) l)).1
  taken-IsOpen s head [] o r = (inl r, o)
  taken-IsOpen s head (b ∷ m) o r = (inl refl, λ e. cc)

  step-IsOpen :
      (s : Stack) (head : List ℕ) (op : Op)
      → IsOpen (queue s head c)
      → IsOpen (step (queue s head c) op).1
  unfolding step enqueue push try_pop try_unblock try_block can_fetch_more
  step-IsOpen nullptr head op v = absurd (v.1 refl)
  step-IsOpen empty_dummy head (enqueues a) v = (inl refl, λ e. cc)
  step-IsOpen blocked_dummy head (enqueues a) v = (inl refl, λ e. cc)
  step-IsOpen (nodes b l) head (enqueues a) v = (inl refl, λ e. cc)
  step-IsOpen empty_dummy [] pops v = v
  step-IsOpen empty_dummy (b ∷ m) pops v = (inl refl, λ e. cc)
  step-IsOpen blocked_dummy [] pops v = (inl refl, λ e. cc)
  step-IsOpen blocked_dummy (b ∷ m) pops v = absurd (ground (arith, v.0))
  step-IsOpen (nodes a l) [] pops v = taken-IsOpen (nodes a l) [] (move_to_head (a ∷ l) []) v.1 refl
  step-IsOpen (nodes a l) (b ∷ m) pops v = (inl refl, λ e. cc)
  step-IsOpen empty_dummy [] awaits v = (inr refl, λ e. cc)
  step-IsOpen empty_dummy (b ∷ m) awaits v = v
  step-IsOpen blocked_dummy [] awaits v = v
  step-IsOpen blocked_dummy (b ∷ m) awaits v = v
  step-IsOpen (nodes a l) [] awaits v = v
  step-IsOpen (nodes a l) (b ∷ m) awaits v = v
  step-IsOpen empty_dummy head unblocks v = v
  step-IsOpen blocked_dummy head unblocks v = (inl refl, λ e. cc)
  step-IsOpen (nodes a l) head unblocks v = v

pub run : SingleReaderQueue → List Op → List Reply
run q [] = []
run q (op ∷ ops) = let (r, q') = step q op in r ∷ run q' ops

pub promised_run : Fifo → List Op → List Reply
promised_run f [] = []
promised_run f (op ∷ ops) = let (r, f') = promised f op in r ∷ promised_run f' ops

-- From a mailbox that is not closed, and whose owner waits only with nothing left to read: any
-- sequence of enqueuing, popping, waiting and ceasing to wait, by whatever threads, gets the
-- replies of one first-in-first-out queue that starts with the mailbox's contents. No element is
-- lost, doubled or overtaken, and the sender that must wake the owner is told so.
pub run_refines :
    (ops : List Op) (q : SingleReaderQueue) → IsOpen q → run q ops ≡ promised_run (view q) ops
unfolding run promised_run
run_refines [] q v = refl
run_refines (op ∷ ops) q v =
    rw (
      run_refines ops (step q op).1 (step-IsOpen q.cache q.stack q.head op v),
      ← step_refines q op v,
    )
