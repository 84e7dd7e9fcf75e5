-- ===== src/LocalActor/Loop/Blocks.antt =====
-- local_actor.cpp: what `resume` promises to the scheduler, and when it blocks the mailbox.
use boost_actor.Common.{
  ℕ, ◌≡◌, refl, ap, sym, ◌∙◌, arith, Bool, true, false, not, ◌&&◌, List, [], ◌∷◌, ◌++◌, Option,
  some, if_elim, if_cases, Bool-cases, inl, inr, null, ltb,
}
use boost_actor.MessageId.{is_request}
use boost_actor.Mailbox
use boost_actor.Mailbox.{
  EnqueueResult, success, unblocked_reader, queue_closed, SingleReaderQueue, blocked, try_block,
  can_fetch_more,
}
use boost_actor.Mailbox.Fifo.{contents}
use boost_actor.Mailbox.Popping.{
  IsReady, try_block_ready, can_fetch_more-head, enqueue_told, enqueue_keeps,
}
use boost_actor.LocalActor.{LocalActor, MailboxElement, timeout, with_timeout_elim, has_behavior}
use boost_actor.LocalActor.Priority.{has_next_message}
use boost_actor.LocalActor.Resume.{
  ResumeResult, resume_later, awaiting_message, done, shutdown_execution_unit, arrive, enqueue,
  after_enqueue, stored, reset_timeout_if_needed, time_is_up, get_behavior,
}
use boost_actor.LocalActor.Resume.Ends.{IsEnded}
use boost_actor.LocalActor.Kept.{
  Keeps, Keeps-trans, unchanged, undefined-Keeps, request_timeout-Keeps,
}
use boost_actor.LocalActor.Timeouts.{request_timeout}
use boost_actor.LocalActor.Loop.{Round, returns, goes_on, no_message}

-- Done: the actor has ended. Awaiting a message: its mailbox is blocked, so that the next sender
-- wakes it, and there is no message that it could take. To be resumed later: it is not blocked.
abbrev pub Promised : ResumeResult → LocalActor → Type 0
Promised done s = IsEnded s
Promised awaiting_message s =
    (blocked s.mailbox ≡ true) × (has_next_message s.is_priority_aware s.mailbox ≡ false)
Promised resume_later s = IsReady s.mailbox
Promised shutdown_execution_unit s = ⊥

abbrev pub KeptPromise : ResumeResult × LocalActor → Type 0
KeptPromise (r, s) = Promised r s

abbrev pub GoesWell : Round → Type 0
GoesWell (returns r s) = Promised r s
GoesWell (goes_on h s) = IsReady s.mailbox

-- A round without a fault.
abbrev pub IsRound : Option Round → Type 0
IsRound o = (r : Round) × (o ≡ some r) × GoesWell r

pub reset_timeout-Keeps : (h : ℕ) (s : LocalActor) → Keeps s (reset_timeout_if_needed h s)
unfolding reset_timeout_if_needed
reset_timeout-Keeps h s =
    if_elim (Keeps s) (ltb 0 h && has_behavior s)
      (with_timeout_elim (Keeps s) (timeout (get_behavior s)) s (λ d. (request_timeout s d).1)
        (undefined-Keeps s) (request_timeout-Keeps s))
      (unchanged s)

null_append : (xs ys : List ℕ) → xs ++ ys ≡ [] → null xs ≡ true
null_append [] ys e = refl
null_append (x ∷ xs) ys e = absurd (ground arith)

pub head_empty : (q : SingleReaderQueue) → contents q ≡ [] → null q.head ≡ true
head_empty q e = null_append q.head _ e

-- A state whose mailbox is ready and holds nothing to take.
abbrev pub IsIdle : LocalActor → Type 0
IsIdle s =
    IsReady s.mailbox
    × (null s.mailbox.head ≡ true)
    × (s.is_priority_aware ≡ true → s.mailbox.cache.first ≡ [])

pub blocks :
    (s : LocalActor) (q : SingleReaderQueue)
    → (s.is_priority_aware ≡ true → q.cache.first ≡ [])
    → can_fetch_more q ≡ false
    → has_next_message s.is_priority_aware q ≡ false
unfolding has_next_message
blocks s q f c = elim (Bool-cases s.is_priority_aware) [
  | inl e ↦ rw (e, c, f e) refl
  | inr e ↦ rw (e, c) refl
]

arrived-Keeps :
    (s : LocalActor) (e : MailboxElement) (r : EnqueueResult) (q : SingleReaderQueue)
    → (IsReady s.mailbox → IsReady q)
    → q.cache ≡ s.mailbox.cache
    → q.head ≡ s.mailbox.head
    → Keeps s (after_enqueue s e (r, q)).1
unfolding after_enqueue
arrived-Keeps s e success q r c h = record { ready = r; cache = c; head = h; aware = refl }
arrived-Keeps s e unblocked_reader q r c h = record { ready = r; cache = c; head = h; aware = refl }
arrived-Keeps s e queue_closed q r c h =
    let s' = stored s e q in
    if_elim (Keeps s) (is_request e.mid) (record { ready = r; cache = c; head = h; aware = refl })
      (record { ready = r; cache = c; head = h; aware = refl })

enqueue-Keeps : (s : LocalActor) (e : MailboxElement) → Keeps s (enqueue s e).1
unfolding enqueue
enqueue-Keeps s e =
    let (r, q) = Mailbox.enqueue s.mailbox s.next_free in
    arrived-Keeps s e r q (λ w. ((enqueue_told s.mailbox s.next_free).0 w).1)
      (enqueue_keeps s.mailbox s.next_free).0 (enqueue_keeps s.mailbox s.next_free).1

-- What arrives goes on the stack of the mailbox, and nowhere else.
pub arrive-Keeps : (s : LocalActor) (es : List MailboxElement) → Keeps s (arrive s es)
unfolding arrive
arrive-Keeps s [] = unchanged s
arrive-Keeps s (e ∷ es) = Keeps-trans (enqueue-Keeps s e) (arrive-Keeps (enqueue s e).1 es)

pub reset_arrive-Keeps :
    (h : ℕ) (s : LocalActor) (es : List MailboxElement)
    → Keeps s (arrive (reset_timeout_if_needed h s) es)
reset_arrive-Keeps h s es =
    Keeps-trans (reset_timeout-Keeps h s) (arrive-Keeps (reset_timeout_if_needed h s) es)

pub no_message-GoesWell :
    (h : ℕ) (es : List MailboxElement) (s : LocalActor) → IsIdle s → GoesWell (no_message h es s)
unfolding no_message
no_message-GoesWell h es s (r, e, f) =
    let s' = arrive (reset_timeout_if_needed h s) es in
    let k = reset_arrive-Keeps h s es in
    let (b, q) = try_block s'.mailbox in
    if_cases GoesWell b
      (λ blocked.
        let (is_blocked, more, cache) = try_block_ready s'.mailbox (k.ready r) blocked in
        (
          is_blocked,
          blocks (record s' { mailbox = q }) q
              (λ a. ap (λ c. c.first) (cache ∙ k.cache) ∙ f (sym k.aware ∙ a))
              (more ∙ ap (λ l. not (null l)) k.head ∙ ap not e),
        ))
      (λ busy. k.ready r)

null_nil : (l : List ℕ) → null l ≡ true → l ≡ []
null_nil [] h = refl
null_nil (x ∷ xs) h = absurd (ground arith)

nothing_left :
    (aware : Bool) (q : SingleReaderQueue)
    → has_next_message aware q ≡ false
    → (null q.head ≡ true) × (aware ≡ true → q.cache.first ≡ [])
unfolding has_next_message
nothing_left true q h =
    (can_fetch_more-head q (ground arith), λ a. null_nil q.cache.first (ground arith))
nothing_left false q h = (can_fetch_more-head q h, λ a. absurd (ground arith))

-- The mailbox of an actor whose time is up.
pub time_is_up-KeptPromise :
    (h : ℕ) (es : List MailboxElement) (s : LocalActor)
    → IsReady s.mailbox
    → KeptPromise (time_is_up h es s)
unfolding time_is_up
time_is_up-KeptPromise h es s r =
    let s' = reset_timeout_if_needed h s in
    let k = reset_timeout-Keeps h s in
    let t = arrive s' es in
    let m = arrive-Keeps s' es in
    let ready = m.ready (k.ready r) in
    let (b, q) = try_block t.mailbox in
    if_cases KeptPromise (has_next_message s'.is_priority_aware s'.mailbox) (λ more. k.ready r)
      (λ idle.
        if_cases KeptPromise b
          (λ blocked.
            let (is_blocked, more, cache) = try_block_ready t.mailbox ready blocked in
            let (none_read, none_cached) = nothing_left s'.is_priority_aware s'.mailbox idle in
            (
              is_blocked,
              blocks (record t { mailbox = q }) q
                  (λ a. ap (λ c. c.first) (cache ∙ m.cache) ∙ none_cached (sym m.aware ∙ a))
                  (more ∙ ap (λ l. not (null l)) m.head ∙ ap not none_read),
            ))
          (λ busy. ready))
