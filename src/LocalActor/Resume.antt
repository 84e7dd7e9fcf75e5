-- ===== src/LocalActor/Resume.antt =====
-- libboost_actor_core/src/local_actor.cpp, sync_request_bouncer.cpp and event_based_actor.cpp: how a
-- cooperatively scheduled actor is woken, runs on its messages, and ends. An exception thrown by
-- user code is left out.
pub mod Answers
pub mod Ends
use boost_actor.Common.{
  ℕ, zero, suc, ◌≡◌, Bool, true, false, ◌&&◌, ◌||◌, not, List, [], ◌∷◌, ◌++◌, Option, none, some,
  if◌then◌else◌, ◌==◌, nat_eq, null, length, map, ltb,
}
use boost_actor.AbstractActor.{not_exited}
use boost_actor.AbstractActor
use boost_actor.MessageId.{MessageId, response_id, is_request, is_high_priority}
use boost_actor.Mailbox.{
  SingleReaderQueue, EnqueueResult, success, unblocked_reader, queue_closed, try_block,
}
use boost_actor.Mailbox
use boost_actor.Mailbox.Cache.{InvokeMessageResult, im_success, im_dropped, im_skipped}
use boost_actor.Mailbox.Cache
use boost_actor.LocalActor.{
  LocalActor, MailboxElement, Behavior, no_behavior, BehaviorStack, timeout, with_timeout, Event,
  sent, attached, sync_exited_msg, exit_reason, has_behavior, write,
}
use boost_actor.LocalActor.Priority.{with_second}
use boost_actor.LocalActor.Priority
use boost_actor.LocalActor.Requests.{
  awaits_response, awaited_response_handler, awaited_response_id, front_handler,
}
use boost_actor.LocalActor.Timeouts.{request_timeout, do_become}
use boost_actor.LocalActor.Handlers.{Program, run_actions, run_code}
use boost_actor.LocalActor.Invoke.{invoke_message, normal_exit_reason}

-- The constructor of `sync_request_bouncer`
abbrev pub bounce_reason : ℕ → ℕ
bounce_reason r = if r == not_exited then normal_exit_reason else r

abbrev pub bounce_to : ℕ → Option ℕ → MessageId → List Event
bounce_to rsn none mid = []
bounce_to rsn (some sender) mid =
    if is_request mid
    then sent sender
        (record { sender = none; mid = response_id mid; msg = sync_exited_msg sender rsn })
      ∷ []
    else []

-- `sync_request_bouncer{r}` called on an element
unfoldable pub bounce : ℕ → MailboxElement → List Event
bounce r e = bounce_to (bounce_reason r) e.sender e.mid

-- This actor with the element at a new place, and its mailbox.
abbrev pub stored : LocalActor → MailboxElement → SingleReaderQueue → LocalActor
stored s e q = record s {
  memory = write s.memory s.next_free e;
  next_free = suc s.next_free;
  mailbox = q;
}

-- The cases of `mailbox().enqueue(ptr)`. The Boolean says that this actor is handed to the
-- scheduler.
unfoldable pub after_enqueue :
    LocalActor → MailboxElement → EnqueueResult × SingleReaderQueue → Bool × LocalActor
unfolding bounce
after_enqueue s e (unblocked_reader, q) = (true, stored s e q)
after_enqueue s e (queue_closed, q) =
    let s' = stored s e q in
    (
      false,
      (if is_request e.mid
          then record s' { outbox = s.outbox ++ bounce (exit_reason s) e }
          else s'),
    )
after_enqueue s e (success, q) = (false, stored s e q)

-- `enqueue(ptr, eu)` by another actor
unfoldable pub enqueue : LocalActor → MailboxElement → Bool × LocalActor
unfolding after_enqueue
enqueue s e = after_enqueue s e (Mailbox.enqueue s.mailbox s.next_free)

-- The calls of the bouncer by `close`.
unfoldable pub bounce_all : ℕ → (ℕ → MailboxElement) → List ℕ → List Event
unfolding bounce
bounce_all reason memory [] = []
bounce_all reason memory (a ∷ l) = bounce reason (memory a) ++ bounce_all reason memory l

unfoldable pub cleanup : LocalActor → ℕ → LocalActor
unfolding bounce_all
cleanup s reason =
    let (closed, q) = Mailbox.close s.mailbox in
    let (actors', events) = AbstractActor.cleanup s.actors s.address reason in
    record s {
      current_element = none;
      mailbox = q;
      pending_responses = [];
      actors = actors';
      is_registered = false;
      outbox = (s.outbox ++ bounce_all reason s.memory closed) ++ map attached events;
    }

-- `bhvr_stack().clear()` and `cleanup()`
abbrev pub no_behaviors : BehaviorStack
no_behaviors = record { elements = []; erased_elements = [] }

-- The part of `actor_done` that ends the actor.
unfoldable pub end_actor : Program → LocalActor → LocalActor
unfolding run_actions cleanup
end_actor p s =
    let s1 = record (run_code s p.on_exit) { bhvr_stack = no_behaviors } in
    let rsn =
      (if s1.planned_exit_reason == not_exited
        then normal_exit_reason
        else s1.planned_exit_reason) in
    cleanup (record s1 { planned_exit_reason = rsn }) rsn

unfoldable pub actor_done : Program → LocalActor → Bool × LocalActor
unfolding end_actor
actor_done p s =
    if not (has_behavior s) || not (s.planned_exit_reason == not_exited)
    then (true, end_actor p s)
    else (false, s)

-- `bhvr_stack_.back()`; on an empty stack the code is undefined.
abbrev pub back : List Behavior → Behavior
back [] = no_behavior
back (b ∷ l) = b

abbrev pub get_behavior : LocalActor → Behavior
get_behavior s =
    if null s.pending_responses
    then back s.bhvr_stack.elements
    else front_handler s.pending_responses

-- `invoke_from_cache()`
unfoldable pub invoke_from_cache : Program → LocalActor → Bool × LocalActor
unfolding invoke_message
invoke_from_cache p s =
    let bhvr = get_behavior s in
    let mid = awaited_response_id s in
    let (handled, rest, s') =
      Cache.invoke (λ t x. invoke_message p t x bhvr mid) s s.mailbox.cache.second in
    (handled, record s' { mailbox = with_second s'.mailbox rest })

-- `while (invoke_from_cache()) { if (actor_done()) return done; }`, on fuel; the Boolean says
-- that the actor is done.
unfoldable pub serve_cache : ℕ → Program → LocalActor → Option (Bool × LocalActor)
unfolding invoke_from_cache actor_done
serve_cache zero p s = none
serve_cache (suc n) p s =
    let (handled, s1) = invoke_from_cache p s in
    let (done, s2) = actor_done p s1 in
    let rest = serve_cache n p s2 in
    if handled then (if done then some (true, s2) else rest) else some (false, s1)

-- Enough fuel: every round but the last takes an element out of the cache.
abbrev pub cache_rounds : LocalActor → ℕ
cache_rounds s = suc (length s.mailbox.cache.second)

-- `resumable::resume_result`
pub data ResumeResult : Type 0 where
  resume_later awaiting_message done shutdown_execution_unit : ResumeResult

-- `is_high_priority()` of the element at an address.
abbrev pub high_at : LocalActor → ℕ → Bool
high_at s a = is_high_priority (s.memory a).mid

unfoldable pub reset_timeout_if_needed : ℕ → LocalActor → LocalActor
unfolding request_timeout
reset_timeout_if_needed handled_msgs s =
    if ltb 0 handled_msgs && has_behavior s
    then with_timeout (timeout (get_behavior s)) s (λ d. (request_timeout s d).1)
    else s

-- Other actors enqueue elements, in this order, while this one runs.
unfoldable pub arrive : LocalActor → List MailboxElement → LocalActor
unfolding enqueue
arrive s [] = s
arrive s (e ∷ es) = arrive (enqueue s e).1 es

-- `mailbox().try_block()`, or to go on.
abbrev pub block_or : LocalActor → ResumeResult → ResumeResult × LocalActor
block_or s other =
    let (blocked, q) = try_block s.mailbox in
    if blocked then (awaiting_message, record s { mailbox = q }) else (other, s)

-- After the loop: the time is up. The elements `meanwhile` arrive between the test of
-- `has_next_message` and `try_block`.
unfoldable pub time_is_up : ℕ → List MailboxElement → LocalActor → ResumeResult × LocalActor
unfolding reset_timeout_if_needed arrive
time_is_up handled_msgs meanwhile s =
    let s' = reset_timeout_if_needed handled_msgs s in
    if Priority.has_next_message s'.is_priority_aware s'.mailbox
    then (resume_later, s')
    else block_or (arrive s' meanwhile) resume_later
