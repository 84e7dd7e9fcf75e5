-- ===== src/LocalActor/Timeouts.antt =====
-- libboost_actor_core/src/local_actor.cpp: the timeout of an actor's behavior, and the mailbox as
-- the actor itself writes to it.
pub mod Active
use boost_actor.Common.{
  ℕ, suc, ◌+◌, ◌%◌, ◌^◌, Bool, true, false, ◌&&◌, List, [], ◌∷◌, Option, none, some, if◌then◌else◌,
  ◌==◌, nat_eq,
}
use boost_actor.MessageId.{invalid_message_id}
use boost_actor.Mailbox.{enqueue}
use boost_actor.LocalActor.{
  LocalActor, BehaviorStack, Behavior, timeout, with_timeout, Duration, valid_duration, is_zero,
  MailboxElement, Message, timeout_msg, Event, delayed, emit, write, pop_back,
}

-- `enqueue(address(), mid, msg, host())` from the actor itself, which runs: its mailbox is neither
-- blocked nor closed, so that nothing more happens.
unfoldable pub enqueue_self : LocalActor → MailboxElement → LocalActor
enqueue_self s e = record s {
  memory = write s.memory s.next_free e;
  next_free = suc s.next_free;
  mailbox = (enqueue s.mailbox s.next_free).1;
}

-- `++timeout_id_` on 32 bits
abbrev pub next_timeout : ℕ → ℕ
next_timeout tid = (tid + 1) % 2 ^ 32

unfoldable pub is_active_timeout : LocalActor → ℕ → Bool
is_active_timeout s tid = s.has_timeout && s.timeout_id == tid

-- `request_timeout`: the message carries the ID after a second increment.
unfoldable pub request_timeout : LocalActor → Duration → ℕ × LocalActor
unfolding enqueue_self
request_timeout s d =
    let result = next_timeout s.timeout_id in
    let s' = record s { has_timeout = true; timeout_id = next_timeout result } in
    let msg : MailboxElement = record {
      sender = some s.address;
      mid = invalid_message_id;
      msg = timeout_msg (next_timeout result);
    } in
    if valid_duration d
    then (result, (if is_zero d then enqueue_self s' msg else emit s' (delayed d s.address msg)))
    else (0, record s { has_timeout = false })

unfoldable pub reset_timeout : LocalActor → ℕ → LocalActor
unfolding is_active_timeout
reset_timeout s timeout_id =
    if is_active_timeout s timeout_id then record s { has_timeout = false } else s

unfoldable pub do_become : LocalActor → Behavior → Bool → LocalActor
unfolding request_timeout
do_become s bhvr discard_old =
    let s1 = (if discard_old then record s { bhvr_stack = pop_back s.bhvr_stack } else s) in
    let s2 = with_timeout (timeout bhvr) s1 (λ d. (request_timeout s1 d).1) in
    record s2 { bhvr_stack = record s2.bhvr_stack { elements = bhvr ∷ s2.bhvr_stack.elements } }
