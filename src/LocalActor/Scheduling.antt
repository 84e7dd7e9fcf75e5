-- ===== src/LocalActor/Scheduling.antt =====
-- libboost_actor_core/src/local_actor.cpp: a cooperatively scheduled actor, its senders and the
-- scheduler, which holds a job for each time that the actor was handed to it.
use mathlib.Core.Option.{some-injective}
use boost_actor.Common.{
  ℕ, suc, ◌≢◌, ◌≤◌, ◌≡◌, refl, ap, subst, sym, ◌∙◌, arith, Bool, true, false, not, ◌&&◌, ◌⊎◌, inl,
  inr, [], some, if◌then◌else◌, if_cases, null,
}
use boost_actor.Mailbox.{
  SingleReaderQueue, EnqueueResult, success, unblocked_reader, queue_closed, blocked, try_block,
  can_fetch_more,
}
use boost_actor.Mailbox
use boost_actor.Mailbox.Fifo.{contents}
use boost_actor.Mailbox.Popping.{IsReady, enqueue_told, try_block_ready, can_fetch_more-contents}
use boost_actor.LocalActor.{LocalActor, MailboxElement}
use boost_actor.LocalActor.Priority.{has_next_message}
use boost_actor.LocalActor.Handlers.{Program}
use boost_actor.LocalActor.Resume.{
  ResumeResult, resume_later, awaiting_message, done, shutdown_execution_unit, enqueue,
  after_enqueue,
}
use boost_actor.LocalActor.Resume.Ends.{IsEnded, enqueue-IsEnded}
use boost_actor.LocalActor.Kept.Skips.{Declines}
use boost_actor.LocalActor.Loop.{Arrivals, resume}
use boost_actor.LocalActor.Loop.Blocks.{Promised, blocks}
use boost_actor.LocalActor.Loop.Contract.{resume-IsResumed}

-- `launch` of an actor that is not detached: whether it is handed to the scheduler.
unfoldable pub launch : LocalActor → Bool → Bool → Bool × LocalActor
launch s lazy hide =
    let s' = record s { is_registered = not hide } in
    let (blocked, q) = try_block s.mailbox in
    if lazy && blocked then (false, record s' { mailbox = q }) else (true, s')

-- The number of jobs after one more, and after a run with its result.
abbrev pub more_jobs : Bool → ℕ → ℕ
more_jobs true n = suc n
more_jobs false n = n

abbrev pub jobs_after : ResumeResult → ℕ → ℕ
jobs_after resume_later n = suc n
jobs_after awaiting_message n = n
jobs_after done n = n
jobs_after shutdown_execution_unit n = n

-- The states of an actor that is launched from `s`, with the jobs for it that the scheduler holds:
-- messages arrive, also during a run, and a worker takes a job and resumes the actor.
pub data Reached (p : Program) (s : LocalActor) : ℕ → LocalActor → Type 0 where
  launched :
      {handed : Bool} {s' : LocalActor} (lazy hide : Bool)
      → launch s lazy hide ≡ (handed, s')
      → Reached p s (more_jobs handed 0) s'
  received :
      {n : ℕ} {t t' : LocalActor} {handed : Bool} (e : MailboxElement)
      → enqueue t e ≡ (handed, t')
      → Reached p s n t
      → Reached p s (more_jobs handed n) t'
  resumed :
      {n : ℕ} {t t' : LocalActor} {r : ResumeResult} (others : Arrivals) (max_throughput : ℕ)
      → resume p others t max_throughput ≡ some (r, t')
      → Reached p s (suc n) t
      → Reached p s (jobs_after r n) t'

-- One job and a mailbox that is not blocked; or no job, and the actor waits or has ended.
pub data IsScheduled : ℕ → LocalActor → Type 0 where
  to_run : {s : LocalActor} → IsReady s.mailbox → IsScheduled 1 s
  waits : {s : LocalActor} → Promised awaiting_message s → IsScheduled 0 s
  ended : {s : LocalActor} → IsEnded s → IsScheduled 0 s

abbrev IsHandled : ℕ → Bool × LocalActor → Type 0
IsHandled n (handed, s) = IsScheduled (more_jobs handed n) s

-- A new actor has nothing to read.
pub record IsNew (s : LocalActor) : Type 0 where
  pub ready : IsReady s.mailbox
  pub head : null s.mailbox.head ≡ true
  pub first : s.mailbox.cache.first ≡ []

launch-IsScheduled :
    (s : LocalActor) (lazy hide : Bool) → IsNew s → IsHandled 0 (launch s lazy hide)
unfolding launch
launch-IsScheduled s lazy hide new =
    let s' = record s { is_registered = not hide } in
    let (b, q) = try_block s.mailbox in
    if_cases (IsHandled 0) (lazy && b)
      (λ e.
        let (is_blocked, more, cache) = try_block_ready s.mailbox new.ready (ground arith) in
        let w : Promised awaiting_message (record s' { mailbox = q }) = (
          is_blocked,
          blocks (record s' { mailbox = q }) q (λ a. ap (λ c. c.first) cache ∙ new.first)
              (more ∙ ap not new.head),
        ) in
        waits w)
      (λ e. to_run new.ready)

handed_ready :
    (s : LocalActor) (e : MailboxElement) (r : EnqueueResult) (q : SingleReaderQueue)
    → r ≡ success
    → IsReady q
    → IsHandled 1 (after_enqueue s e (r, q))
unfolding after_enqueue
handed_ready s e success q h r = to_run r
handed_ready s e unblocked_reader q h r = absurd (ground arith)
handed_ready s e queue_closed q h r = absurd (ground arith)

handed_blocked :
    (s : LocalActor) (e : MailboxElement) (r : EnqueueResult) (q : SingleReaderQueue)
    → r ≡ unblocked_reader
    → IsReady q
    → IsHandled 0 (after_enqueue s e (r, q))
unfolding after_enqueue
handed_blocked s e success q h r = absurd (ground arith)
handed_blocked s e unblocked_reader q h r = to_run r
handed_blocked s e queue_closed q h r = absurd (ground arith)

ended_stays : (s : LocalActor) (e : MailboxElement) → IsEnded s → IsHandled 0 (enqueue s e)
ended_stays s e w =
    let (not_handed, still, answered, silent, nobody) = enqueue-IsEnded s e w in
    subst (λ b. IsScheduled (more_jobs b 0) (enqueue s e).1) (sym not_handed) (ended still)

enqueue-IsScheduled :
    (n : ℕ) (s : LocalActor) (e : MailboxElement) → IsScheduled n s → IsHandled n (enqueue s e)
unfolding enqueue
enqueue-IsScheduled n s e (to_run r) =
    let (got, r') = (enqueue_told s.mailbox s.next_free).0 r in
    handed_ready s e (Mailbox.enqueue s.mailbox s.next_free).0
      (Mailbox.enqueue s.mailbox s.next_free).1 got r'
enqueue-IsScheduled n s e (waits (w, h)) =
    let (got, r') = (enqueue_told s.mailbox s.next_free).1 w in
    handed_blocked s e (Mailbox.enqueue s.mailbox s.next_free).0
      (Mailbox.enqueue s.mailbox s.next_free).1 got r'
enqueue-IsScheduled n s e (ended w) = ended_stays s e w

resumed-IsScheduled :
    (r : ResumeResult) (s : LocalActor) → Promised r s → IsScheduled (jobs_after r 0) s
resumed-IsScheduled resume_later s p = to_run p
resumed-IsScheduled awaiting_message s p = waits p
resumed-IsScheduled done s p = ended p
resumed-IsScheduled shutdown_execution_unit s p = absurd p

run-IsScheduled :
    (p : Program) (others : Arrivals) (n k : ℕ) (t t' : LocalActor) (r : ResumeResult)
    → Declines p
    → resume p others t k ≡ some (r, t')
    → IsScheduled (suc n) t
    → IsScheduled (jobs_after r n) t'
run-IsScheduled p others n k t t' r d e (to_run ready) =
    let (r1, t1, got, kept) = resume-IsResumed p others t k d ready in
    subst (λ x. IsScheduled (jobs_after x.0 0) x.1) (some-injective _ _ (sym got ∙ e))
      (resumed-IsScheduled r1 t1 kept)

pub Reached-IsScheduled :
    (p : Program) (s : LocalActor) (n : ℕ) (t : LocalActor)
    → Declines p
    → IsNew s
    → Reached p s n t
    → IsScheduled n t
Reached-IsScheduled p s _ _ d new (launched {handed} {s'} lazy hide e) =
    subst (IsHandled 0) e (launch-IsScheduled s lazy hide new)
Reached-IsScheduled p s _ _ d new (received {n} {t} {t'} {handed} el e q) =
    subst (IsHandled n) e (enqueue-IsScheduled n t el (Reached-IsScheduled p s n t d new q))
Reached-IsScheduled p s _ _ d new (resumed {n} {t} {t'} {r} others k e q) =
    run-IsScheduled p others n k t t' r d e (Reached-IsScheduled p s (suc n) t d new q)

drained : (a : Bool) (q : SingleReaderQueue) → has_next_message a q ≡ false → contents q ≡ []
unfolding has_next_message
drained true q h = can_fetch_more-contents q (ground arith)
drained false q h = can_fetch_more-contents q h

abbrev AreJobs : ℕ → LocalActor → Type 0
AreJobs n t =
    (n ≤ 1)
    × (contents t.mailbox ≢ [] → n ≡ 1)
    × (n ≡ 1 → IsReady t.mailbox)
    × (n ≡ 0 → (blocked t.mailbox ≡ true) ⊎ IsEnded t)

jobs_of : (n : ℕ) (t : LocalActor) → IsScheduled n t → AreJobs n t
jobs_of _ t (to_run r) = (omega arith, λ h. refl, λ h. r, λ h. absurd (omega arith))
jobs_of _ t (waits (w, h)) = (
  omega arith,
  λ c. absurd (c (drained t.is_priority_aware t.mailbox h)),
  λ c. absurd (omega arith),
  λ c. inl w,
)
jobs_of _ t (ended w) =
    (omega arith, λ c. absurd (c w.drained), λ c. absurd (omega arith), λ c. inr w)

-- For user code of which a handler that does not match has done nothing, and an actor that starts
-- with nothing to read, as long as no run goes through a null pointer: between two runs the
-- scheduler holds at most one job for the actor. While the mailbox holds a message it holds one;
-- without a job the actor is blocked or has ended.
pub Reached-jobs :
    (p : Program) (s : LocalActor) (n : ℕ) (t : LocalActor)
    → Declines p
    → IsNew s
    → Reached p s n t
    → (n ≤ 1)
      × (contents t.mailbox ≢ [] → n ≡ 1)
      × (n ≡ 1 → IsReady t.mailbox)
      × (n ≡ 0 → (blocked t.mailbox ≡ true) ⊎ IsEnded t)
Reached-jobs p s n t d new q = jobs_of n t (Reached-IsScheduled p s n t d new q)
