-- ===== src/LocalActor/Loop.antt =====
-- libboost_actor_core/src/local_actor.cpp: the loop of `resume` over the messages of a cooperatively
-- scheduled actor. `none` is a fault: the mailbox or the cache used against their preconditions.
pub mod Running
pub mod Blocks
pub mod Contract
pub mod Exits
pub mod Wakeup
use boost_actor.Common.{
  List, [], ◌∷◌, ℕ, zero, suc, Bool, true, false, ◌++◌, Option, none, some, if◌then◌else◌,
}
use boost_actor.Mailbox.{SingleReaderQueue, try_block}
use boost_actor.Mailbox.Cache.{InvokeMessageResult, im_success, im_dropped, im_skipped}
use boost_actor.LocalActor.{LocalActor, MailboxElement, Behavior, BehaviorStack}
use boost_actor.LocalActor.Priority.{next_message, push_to_cache}
use boost_actor.LocalActor.Requests.{awaits_response, awaited_response_handler, awaited_response_id}
use boost_actor.LocalActor.Timeouts.{do_become}
use boost_actor.LocalActor.Handlers.{Program, run_actions, run_code}
use boost_actor.LocalActor.Invoke.{invoke_message}
use boost_actor.LocalActor.Resume.{
  ResumeResult, resume_later, awaiting_message, done, actor_done, serve_cache, cache_rounds, back,
  high_at, reset_timeout_if_needed, time_is_up, arrive,
}

-- The behavior that the next message is offered to.
abbrev pub bhvr_for_next : LocalActor → Behavior
bhvr_for_next s =
    if awaits_response s then awaited_response_handler s else back s.bhvr_stack.elements

-- What one round of the loop ends with: the result of `resume`, or the state and the number of
-- handled messages to go on with.
pub data Round : Type 0 where
  returns : ResumeResult → LocalActor → Round
  goes_on : ℕ → LocalActor → Round

abbrev pub after_cache : ℕ → Option (Bool × LocalActor) → Option Round
after_cache handled_msgs none = none
after_cache handled_msgs (some (true, s)) = some (returns done s)
after_cache handled_msgs (some (false, s)) = some (goes_on handled_msgs s)

-- A message was handled: the cache follows, unless the actor is done.
unfoldable pub after_success : Program → ℕ → LocalActor → Option Round
unfolding actor_done serve_cache
after_success p handled_msgs s =
    let s1 = record s { bhvr_stack = record s.bhvr_stack { erased_elements = [] } } in
    let (is_done, s2) = actor_done p s1 in
    let rest = after_cache (suc handled_msgs) (serve_cache (cache_rounds s2) p s2) in
    if is_done then some (returns done s2) else rest

unfoldable pub after_invoke : Program → ℕ → ℕ → InvokeMessageResult × LocalActor → Option Round
unfolding after_success push_to_cache
after_invoke p handled_msgs ptr (im_success, s) = after_success p handled_msgs s
after_invoke p handled_msgs ptr (im_skipped true, s) = some (
    goes_on handled_msgs
      (record s { mailbox = push_to_cache (high_at s) s.is_priority_aware s.mailbox ptr }))
after_invoke p handled_msgs ptr (im_skipped false, s) = none
after_invoke p handled_msgs ptr (im_dropped, s) = some (goes_on handled_msgs s)

-- No message: the actor blocks, unless one came in between, as the elements `meanwhile` do.
unfoldable pub no_message : ℕ → List MailboxElement → LocalActor → Round
unfolding reset_timeout_if_needed arrive
no_message handled_msgs meanwhile s =
    let s' = arrive (reset_timeout_if_needed handled_msgs s) meanwhile in
    let (blocked, q) = try_block s'.mailbox in
    if blocked
    then returns awaiting_message (record s' { mailbox = q })
    else goes_on handled_msgs s'

unfoldable pub with_message :
    Program
    → ℕ
    → List MailboxElement
    → LocalActor
    → Option (Option ℕ × SingleReaderQueue)
    → Option Round
unfolding after_invoke invoke_message awaits_response no_message
with_message p handled_msgs meanwhile s none = none
with_message p handled_msgs meanwhile s (some (none, q)) =
    some (no_message handled_msgs meanwhile (record s { mailbox = q }))
with_message p handled_msgs meanwhile s (some (some ptr, q)) =
    let s' = record s { mailbox = q } in
    after_invoke p handled_msgs ptr
      (invoke_message p s' ptr (bhvr_for_next s') (awaited_response_id s'))

-- One round of the loop
unfoldable pub round : Program → ℕ → List MailboxElement → LocalActor → Option Round
unfolding with_message next_message
round p handled_msgs meanwhile s =
    with_message p handled_msgs meanwhile s (next_message (high_at s) s.is_priority_aware s.mailbox)

-- What other actors enqueue while `resume` runs, by the number of rounds that are left: before a
-- round reads the mailbox, and between that read, or the last test of it, and `try_block`.
pub record Arrivals : Type 0 where
  pub before : ℕ → List MailboxElement
  pub meanwhile : ℕ → List MailboxElement

-- At most `max_throughput` rounds
unfoldable pub resume_loop :
    Program → Arrivals → ℕ → ℕ → LocalActor → Option (ResumeResult × LocalActor)
unfolding round time_is_up arrive
resume_loop p others zero handled_msgs s =
    some (time_is_up handled_msgs (others.meanwhile zero) (arrive s (others.before zero)))
resume_loop p others (suc n) handled_msgs s =
    elim (round p handled_msgs (others.meanwhile (suc n)) (arrive s (others.before (suc n)))) [
      | none ↦ none
      | some (returns r s') ↦ some (r, s')
      | some (goes_on handled s') ↦ resume_loop p others n handled s'
    ]

-- `event_based_actor::initialize`
abbrev pub with_initial : LocalActor → Option Behavior → LocalActor
with_initial s none = s
with_initial s (some bhvr) = do_become s bhvr true

unfoldable pub initialize : Program → LocalActor → LocalActor
unfolding run_actions do_become
initialize p s =
    let (bhvr, actions) = p.make_behavior in
    with_initial (run_code (record s { is_initialized = true }) actions) bhvr

unfoldable pub resume : Program → Arrivals → LocalActor → ℕ → Option (ResumeResult × LocalActor)
unfolding initialize actor_done resume_loop
resume p others s max_throughput =
    let (is_done, s') = actor_done p (initialize p s) in
    let first = resume_loop p others max_throughput 0 s' in
    let again = resume_loop p others max_throughput 0 s in
    if s.is_initialized then again else (if is_done then some (done, s') else first)
