-- ===== src/LocalActor/Priority/Order.antt =====
-- `next_message` of a priority aware actor (local_actor.cpp) against two queues, one for each
-- priority.
use boost_actor.Common.{
  ℕ, ◌<◌, ◌≡◌, refl, ap, subst, sym, ◌∙◌, arith, Bool, true, false, not, List, [], ◌∷◌, ◌++◌,
  Option, some, length, length-append, Bool-cases, inl, inr, append-nil, append_assoc, reverse,
}
use boost_actor.Mailbox.{SingleReaderQueue, Stack, nodes_of}
use boost_actor.Mailbox.Counting.{length-reverse}
use boost_actor.Mailbox.Popping.{ready-IsOpen}
use boost_actor.Mailbox.Fifo.{contents, IsOpen, queue}
use boost_actor.LocalActor.Priority.{
  next_message, next_by_priority, read_mailbox, reads, after_read, with_first, take_first_front,
}
use boost_actor.LocalActor.Priority.Queue.{
  PriorityQueue, pop, filter, sorted, AllAre, none_left, one_more, IsPartitioned, low_only,
  high_first, sorted-append, sorted-low_append, AllAre-filter, AllAre-filter-not,
  IsPartitioned-append, AllAre-append,
}
use boost_actor.LocalActor.Priority.Fetch.{read_mailbox-IsRead, IsRead}

-- The fuel of `next_message` exceeds what the mailbox holds.
pub enough_reads : (q : SingleReaderQueue) → length (contents q) < reads q
enough_reads q =
    omega
      (arith, length-append q.head (reverse (nodes_of q.stack)), length-reverse (nodes_of q.stack))

-- What waits to be taken: the cache's first partition, then the mailbox.
abbrev pub pending : SingleReaderQueue → List ℕ
pending q = q.cache.first ++ contents q

module _ (p : ℕ → Bool) where
  -- The taken element and the queue left, against what two queues promise.
  abbrev pub IsTaken :
      Option (Option ℕ × SingleReaderQueue) → Option ℕ × PriorityQueue → List ℕ → Type 0
  IsTaken r (o, rest) second =
      (q' : SingleReaderQueue) × (r ≡ some (o, q'))
      × IsOpen q'
      × IsPartitioned p q'.cache.first
      × (sorted p (pending q') ≡ rest)
      × (q'.cache.second ≡ second)

  pending_ends :
      (q : SingleReaderQueue) (l : List ℕ) → contents q ≡ [] → pending (with_first q l) ≡ l
  pending_ends q l c = ap (λ m. l ++ m) c ∙ append-nil l

  take_front :
      (h l : List ℕ) (q : SingleReaderQueue)
      → IsOpen q
      → contents q ≡ []
      → q.cache.first ≡ h ++ l
      → AllAre p true h
      → AllAre p false l
      → IsTaken
          (some (take_first_front q (h ++ l)))
          (pop (record { high = h; low = l }))
          q.cache.second
  unfolding pop
  take_front [] [] q o c f a b = (
    q,
    refl,
    o,
    subst (IsPartitioned p) (sym f) (low_only none_left),
    ap (sorted p) (ap (λ m. m ++ contents q) f ∙ c) ∙ sorted-append p [] [] a b,
    refl,
  )
  take_front [] (x ∷ l) q o c f a (one_more e b) = (
    with_first q l,
    refl,
    o,
    low_only b,
    ap (sorted p) (pending_ends q l c) ∙ sorted-append p [] l a b,
    refl,
  )
  take_front (x ∷ h) l q o c f (one_more e a) b = (
    with_first q (h ++ l),
    refl,
    o,
    IsPartitioned-append p h l a b,
    ap (sorted p) (pending_ends q (h ++ l) c) ∙ sorted-append p h l a b,
    refl,
  )

  -- The loop has read everything: the front of what it left is taken.
  take_read :
      (o : Option SingleReaderQueue) (h l second : List ℕ)
      → AllAre p true h
      → AllAre p false l
      → IsRead p o (h ++ l) second
      → IsTaken (after_read o) (pop (record { high = h; low = l })) second
  take_read o h l second a b (q, got, opened, rest, f, g) =
      let (q', r, o', part, s, keep) = take_front h l q (ready-IsOpen q opened) rest f a b in
      (q', ap after_read got ∙ ap (λ m. some (take_first_front q m)) f ∙ r, o', part, s, keep ∙ g)

  fetch_and_take :
      (q : SingleReaderQueue)
      → IsOpen q
      → AllAre p false q.cache.first
      → IsTaken
          (after_read (read_mailbox p (reads q) 0 q))
          (pop (sorted p (pending q)))
          q.cache.second
  fetch_and_take q o b =
      let low = filter (λ x. not (p x)) (contents q) in
      rw (sorted-low_append p q.cache.first (contents q) b) (
        take_read (read_mailbox p (reads q) 0 q) (filter p (contents q)) (q.cache.first ++ low)
          q.cache.second (AllAre-filter p (contents q))
          (AllAre-append p q.cache.first low b (AllAre-filter-not p (contents q)))
          (subst (λ f. IsRead p (read_mailbox p (reads q) 0 q) f q.cache.second)
            (append_assoc (filter p (contents q)) q.cache.first low)
            (read_mailbox-IsRead p (reads q) 0 (contents q) [] q.cache.first q o refl
              (enough_reads q) refl refl)))

  next_of_high :
      (x : ℕ) (xs : List ℕ) (q : SingleReaderQueue)
      → IsOpen q
      → p x ≡ true
      → IsPartitioned p xs
      → IsTaken
          (some (take_first_front q (x ∷ xs)))
          (pop (sorted p (x ∷ xs ++ contents q)))
          q.cache.second
  unfolding pop filter
  next_of_high x xs q o e part = rw e (with_first q xs, refl, o, part, refl, refl)

  high_first_inv :
      (x : ℕ) (xs : List ℕ) → p x ≡ true → IsPartitioned p (x ∷ xs) → IsPartitioned p xs
  high_first_inv x xs e (low_only (one_more f a)) = absurd (ground arith)
  high_first_inv x xs e (high_first f part) = part

  low_only_inv :
      (x : ℕ) (xs : List ℕ) → p x ≡ false → IsPartitioned p (x ∷ xs) → AllAre p false (x ∷ xs)
  low_only_inv x xs e (low_only a) = a
  low_only_inv x xs e (high_first f part) = absurd (ground arith)

  module _ (s : Stack) (head second : List ℕ) where
    abbrev with_cache : List ℕ → SingleReaderQueue
    with_cache first = queue s head (record { first = first; second = second })

    next_by_cache :
        (first : List ℕ)
        → IsOpen (with_cache first)
        → IsPartitioned p first
        → IsTaken
            (next_by_priority p (with_cache first))
            (pop (sorted p (pending (with_cache first))))
            second
    unfolding next_by_priority
    next_by_cache [] o part = fetch_and_take (with_cache []) o none_left
    next_by_cache (x ∷ xs) o part = elim (Bool-cases (p x)) [
      | inl e ↦ rw e (next_of_high x xs (with_cache (x ∷ xs)) o e (high_first_inv x xs e part))
      | inr e ↦ rw e (fetch_and_take (with_cache (x ∷ xs)) o (low_only_inv x xs e part))
    ]

-- On an open mailbox whose cache keeps high priority in front, a priority aware actor takes the
-- oldest high priority element that waits, in the cache or in the mailbox, and the oldest other one
-- if there is none. All else that waits stays in its order, the skipped elements are not touched,
-- and high priority is in front again.
pub next_message-pop :
    (is_high_priority : ℕ → Bool) (q : SingleReaderQueue)
    → IsOpen q
    → IsPartitioned is_high_priority q.cache.first
    → IsTaken is_high_priority
        (next_message is_high_priority true q)
        (pop (sorted is_high_priority (pending q)))
        q.cache.second
unfolding next_message
next_message-pop p q o part = next_by_cache p q.stack q.head q.cache.second q.cache.first o part
