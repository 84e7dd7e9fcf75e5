-- ===== src/LocalActor/Priority/Ready.antt =====
-- `next_message` of local_actor.cpp never faults on a mailbox that its owner neither waits for nor has
-- closed.
use boost_actor.Common.{
  ℕ, ◌≡◌, refl, subst, sym, Bool, true, false, List, [], ◌∷◌, Option, none, some, if◌then◌else◌,
  if_elim, arith,
}
use boost_actor.Mailbox.{SingleReaderQueue, try_pop}
use boost_actor.Mailbox.Fifo.{contents}
use boost_actor.Mailbox.Popping.{IsReady, ready-IsOpen, try_pop_nil, try_pop_cons}
use boost_actor.LocalActor.Priority.{
  next_message, next_by_priority, read_mailbox, reads, after_read, take_first_front, with_first,
  high_in_front,
}
use boost_actor.LocalActor.Priority.Fetch.{read_mailbox-IsRead, IsRead}
use boost_actor.LocalActor.Priority.Order.{enough_reads}

-- An answer without a message leaves nothing to take.
abbrev pub IsServed : Bool → Option (Option ℕ × SingleReaderQueue) → Type 0
IsServed is_priority_aware r =
    (o : Option ℕ) × (q' : SingleReaderQueue) × (r ≡ some (o, q'))
    × IsReady q'
    × (o ≡ none → contents q' ≡ [])
    × (o ≡ none → is_priority_aware ≡ true → q'.cache.first ≡ [])

try_pop-IsServed :
    (q : SingleReaderQueue) (l : List ℕ) → IsReady q → contents q ≡ l → IsServed false (try_pop q)
try_pop-IsServed q [] r e =
    let (q', got, r', rest, kept) = try_pop_nil q (ready-IsOpen q r) e in
    (none, q', got, r', λ h. rest, λ h k. absurd (ground arith))
try_pop-IsServed q (a ∷ l) r e =
    let (q', got, r', rest, kept) = try_pop_cons q a l (ready-IsOpen q r) e in
    (some a, q', got, r', λ h. absurd (ground arith), λ h k. absurd (ground arith))

take_first_front-IsServed :
    (q : SingleReaderQueue) (l : List ℕ)
    → IsReady q
    → q.cache.first ≡ l
    → (l ≡ [] → contents q ≡ [])
    → IsServed true (some (take_first_front q l))
take_first_front-IsServed q [] r e f = (none, q, refl, r, λ h. f refl, λ h k. e)
take_first_front-IsServed q (x ∷ xs) r e f =
    (some x, with_first q xs, refl, r, λ h. absurd (ground arith), λ h k. absurd (ground arith))

after_read-IsServed :
    (p : ℕ → Bool) (o : Option SingleReaderQueue) (first second : List ℕ)
    → IsRead p o first second
    → IsServed true (after_read o)
after_read-IsServed p o first second (q', got, r, rest, f, g) =
    subst (λ x. IsServed true (after_read x)) (sym got)
      (take_first_front-IsServed q' q'.cache.first r refl (λ h. rest))

fetch-IsServed :
    (p : ℕ → Bool) (q : SingleReaderQueue) (l : List ℕ)
    → IsReady q
    → q.cache.first ≡ l
    → let read = read_mailbox p (reads q) 0 q in
      IsServed true (after_read (if high_in_front p l then some q else read))
fetch-IsServed p q [] r e = after_read-IsServed p (read_mailbox p (reads q) 0 q) _ _ (
    read_mailbox-IsRead p (reads q) 0 (contents q) [] q.cache.first q (ready-IsOpen q r) refl
      (enough_reads q) refl refl)
fetch-IsServed p q (x ∷ xs) r e =
    if_elim (λ o. IsServed true (after_read o)) (p x)
      (subst (λ l. IsServed true (some (take_first_front q l))) (sym e)
        (take_first_front-IsServed q (x ∷ xs) r e (λ h. absurd (ground arith))))
      (after_read-IsServed p (read_mailbox p (reads q) 0 q) _ _ (
        read_mailbox-IsRead p (reads q) 0 (contents q) [] q.cache.first q (ready-IsOpen q r) refl
          (enough_reads q) refl refl))

-- The next message of an actor that runs: there is no fault, the mailbox stays ready, and without a
-- message there is none left in it nor, for a priority aware actor, in the first partition.
pub next_message-IsServed :
    (p : ℕ → Bool) (is_priority_aware : Bool) (q : SingleReaderQueue)
    → IsReady q
    → IsServed is_priority_aware (next_message p is_priority_aware q)
unfolding next_message next_by_priority
next_message-IsServed p true q r = fetch-IsServed p q q.cache.first r refl
next_message-IsServed p false q r = try_pop-IsServed q (contents q) r refl
