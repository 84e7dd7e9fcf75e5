-- ===== src/LocalActor/Handlers.antt =====
-- libboost_actor_core/src/local_actor.cpp and response_promise.cpp: what runs when a behavior is
-- called, and how the result of a handler becomes the response. User code is a `Program`: for each
-- call, the operations that it invokes on its actor, in order, and what it returns.
pub mod Promises
pub mod Plain
use boost_actor.Common.{
  ℕ, Bool, true, false, ◌&&◌, not, List, [], ◌∷◌, ◌++◌, Option, none, some, if◌then◌else◌, ◌==◌,
  nat_eq,
}
use boost_actor.MessageId.{
  MessageId, MessagePriority, normal, high, response_id, with_high_priority, with_normal_priority,
  is_request, is_answered, mark_as_answered, invalid_message_id, make,
}
use boost_actor.LocalActor.{
  LocalActor, MailboxElement, Message, ResponsePromise, Behavior, no_behavior, handlers,
  migration_reply, forwarder, continuation, Event, sent, emit, write, pop_back, empty_message,
  ok_moved, error_text, message_id_wrapper,
}
use boost_actor.LocalActor.Requests.{
  new_request_id, set_response_handler, find_pending_response, write_pending,
}
use boost_actor.LocalActor.Timeouts.{do_become}

-- The operations of an actor that its own code invokes.
pub data Action : Type 0 where
  become : Behavior → Bool → Action
  unbecome takes_promise : Action
  sends : MessagePriority → ℕ → Message → Action
  sync_sends : MessagePriority → ℕ → Message → Behavior → Action
  forwards : ℕ → Action
  forwards_with : MessagePriority → ℕ → Action
  delivers : ResponsePromise → Message → Action
  quits : ℕ → Action
  traps_exit : Bool → Action

-- What a message handler returns: nothing, because it does not match the message or skips it; a
-- message, empty for `void`; or the handle of the synchronous request that it made last.
pub data HandlerResult : Type 0 where
  no_match returned_request : HandlerResult
  returned : Message → HandlerResult

pub record Program : Type 0 where
  pub on_message : ℕ → MailboxElement → HandlerResult × List Action
  pub on_timeout : ℕ → List Action
  pub on_sync_failure : Option (List Action)
  pub on_exit : List Action
  pub make_behavior : Option Behavior × List Action
  pub save_state : ℕ → ℕ
  pub load_state : ℕ → ℕ → ℕ

-- `dest->enqueue(std::move(current_element_))`
abbrev pub move_current : LocalActor → Option ℕ → ℕ → (MessageId → MessageId) → LocalActor
move_current s none dest f = s
move_current s (some ptr) dest f =
    let e = s.memory ptr in
    emit (record s { current_element = none }) (sent dest (record e { mid = f e.mid }))

unfoldable pub forward_current_message : LocalActor → ℕ → LocalActor
forward_current_message s dest = move_current s s.current_element dest (λ mid. mid)

unfoldable pub forward_with_priority : LocalActor → ℕ → MessagePriority → LocalActor
forward_with_priority s dest prio =
    move_current s s.current_element dest
      (λ mid. elim prio [ high ↦ with_high_priority mid | normal ↦ with_normal_priority mid ])

abbrev pub promise_of : LocalActor → Option ℕ → ResponsePromise × LocalActor
promise_of s none = (record { source = s.address; to = none; id = invalid_message_id }, s)
promise_of s (some ptr) =
    let e = s.memory ptr in
    (
      record { source = s.address; to = e.sender; id = response_id e.mid },
      record s { memory = write s.memory ptr (record e { mid = mark_as_answered e.mid }) },
    )

unfoldable pub make_response_promise : LocalActor → ResponsePromise × LocalActor
make_response_promise s = promise_of s s.current_element

abbrev pub deliver_to : LocalActor → ResponsePromise → Option ℕ → Message → LocalActor
deliver_to s p none msg = s
deliver_to s p (some to) msg =
    emit s (sent to (record { sender = some p.source; mid = p.id; msg = msg }))

-- `response_promise::deliver_impl`
unfoldable pub deliver : LocalActor → ResponsePromise → Message → LocalActor
deliver s p msg = deliver_to s p p.to msg

-- `quit` of an actor that does not block
abbrev pub quit : LocalActor → ℕ → LocalActor
quit s reason = record s { planned_exit_reason = reason }

unfoldable pub send_impl : LocalActor → MessageId → ℕ → Message → LocalActor
send_impl s mid dest what =
    emit s (sent dest (record { sender = some s.address; mid = mid; msg = what }))

-- `sync_send_impl`; the receiver is valid, so that it does not throw.
unfoldable pub sync_send_impl : LocalActor → MessagePriority → ℕ → Message → MessageId × LocalActor
unfolding new_request_id send_impl
sync_send_impl s mp dest what =
    let (req_id, s') = new_request_id s mp in (response_id req_id, send_impl s' req_id dest what)

-- One operation; `rid` is the response ID of the last synchronous request.
unfoldable pub run_action : MessageId × LocalActor → Action → MessageId × LocalActor
unfolding do_become pop_back make_response_promise send_impl sync_send_impl forward_current_message
    forward_with_priority deliver set_response_handler
run_action (rid, s) (become bhvr discard_old) = (rid, do_become s bhvr discard_old)
run_action (rid, s) unbecome = (rid, record s { bhvr_stack = pop_back s.bhvr_stack })
run_action (rid, s) takes_promise = (rid, (make_response_promise s).1)
run_action (rid, s) (sends mp dest msg) = (rid, send_impl s (make mp) dest msg)
run_action (rid, s) (sync_sends mp dest msg bhvr) =
    let (res, s') = sync_send_impl s mp dest msg in (res, set_response_handler s' res bhvr)
run_action (rid, s) (forwards dest) = (rid, forward_current_message s dest)
run_action (rid, s) (forwards_with mp dest) = (rid, forward_with_priority s dest mp)
run_action (rid, s) (delivers p msg) = (rid, deliver s p msg)
run_action (rid, s) (quits reason) = (rid, quit s reason)
run_action (rid, s) (traps_exit value) = (rid, record s { trap_exit = value })

unfoldable pub run_actions : MessageId × LocalActor → List Action → MessageId × LocalActor
unfolding run_action
run_actions x [] = x
run_actions x (a ∷ l) = run_actions (run_action x a) l

-- Code that no message handler returned from.
abbrev pub run_code : LocalActor → List Action → LocalActor
run_code s l = (run_actions (invalid_message_id, s) l).1

-- The message that the result of a handler is turned into.
abbrev pub result_message : MessageId → HandlerResult → Option Message
result_message rid no_match = none
result_message rid returned_request = some (message_id_wrapper rid)
result_message rid (returned msg) = some msg
