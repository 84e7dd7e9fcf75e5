-- ===== src/LocalActor/Calls.antt =====
-- libboost_actor_core/src/local_actor.cpp: a call of a behavior on the current mailbox element, and
-- what `post_process_invoke_res` makes of its result.
use boost_actor.Common.{ℕ, Bool, true, false, ◌&&◌, not, Option, none, some, if◌then◌else◌}
use boost_actor.MessageId.{MessageId, response_id, is_request, is_answered, invalid_message_id}
use boost_actor.LocalActor.{
  LocalActor, MailboxElement, Message, ResponsePromise, Behavior, no_behavior, handlers,
  migration_reply, forwarder, continuation, empty_message, ok_moved, error_text, message_id_wrapper,
}
use boost_actor.LocalActor.Requests.{find_pending_response, write_pending}
use boost_actor.LocalActor.Timeouts.{do_become}
use boost_actor.LocalActor.Handlers.{
  Program, run_actions, result_message, make_response_promise, deliver, send_impl,
  forward_current_message,
}

-- `hdl ? *hdl : self->make_response_promise()`
abbrev pub promise_or : LocalActor → Option ResponsePromise → ResponsePromise × LocalActor
promise_or s none = make_response_promise s
promise_or s (some hdl) = (hdl, s)

abbrev pub wrap_handler :
    LocalActor → MessageId → Option Behavior → Option ResponsePromise → Bool × LocalActor
wrap_handler s msg_id none hdl = (false, s)
wrap_handler s msg_id (some inner) hdl =
    let (fhdl, s') = promise_or s hdl in
    (
      true,
      record s' {
        pending_responses = write_pending msg_id (continuation inner fhdl) s'.pending_responses;
      },
    )

-- `handle_message_id_res`: the result is the handle of a pending request, whose handler is wrapped.
unfoldable pub handle_message_id_res :
    LocalActor → Message → Option ResponsePromise → Bool × LocalActor
unfolding find_pending_response write_pending make_response_promise
handle_message_id_res s (message_id_wrapper id) hdl =
    wrap_handler s id (find_pending_response s id) hdl
handle_message_id_res s res hdl = (false, s)

-- The element that `current_element_` points to.
abbrev pub current_message : LocalActor → Option MailboxElement
current_message s = elim s.current_element [ none ↦ none | some ptr ↦ some (s.memory ptr) ]

abbrev pub call_handlers :
    Program → LocalActor → ℕ → Option MailboxElement → Option Message × LocalActor
call_handlers p s code none = (none, s)
call_handlers p s code (some e) =
    let (res, actions) = p.on_message code e in
    let (rid, s') = run_actions (invalid_message_id, s) actions in (result_message rid res, s')

-- The handlers of the reply to a migration, with the sender and the ID of the request to migrate.
abbrev pub call_migration_reply :
    LocalActor → ℕ → MessageId → Option Message → Option Message × LocalActor
call_migration_reply s sender mid (some (ok_moved dest)) =
    let s' =
      do_become (send_impl s (response_id mid) sender (ok_moved dest)) (forwarder dest) false in
    (some empty_message, record s' { is_migrated_from = true })
call_migration_reply s sender mid (some (error_text errmsg)) =
    (some empty_message, send_impl s (response_id mid) sender (error_text errmsg))
call_migration_reply s sender mid msg = (none, s)

abbrev pub message_of : Option MailboxElement → Option Message
message_of none = none
message_of (some e) = some e.msg

-- The body of the handler that `handle_message_id_res` installs, after its inner behavior.
abbrev pub after_inner : LocalActor → ResponsePromise → Option Message → LocalActor
after_inner s fhdl none = s
after_inner s fhdl (some inner_res) =
    let (handled, s') = handle_message_id_res s inner_res (some fhdl) in
    if handled then s' else deliver s' fhdl inner_res

-- `fun(self->current_message())`
unfoldable pub call : Program → LocalActor → Behavior → Option Message × LocalActor
unfolding run_actions do_become send_impl forward_current_message handle_message_id_res deliver
call p s no_behavior = (none, s)
call p s (handlers code d) = call_handlers p s code (current_message s)
call p s (migration_reply sender mid) =
    call_migration_reply s sender mid (message_of (current_message s))
call p s (forwarder dest) = (some empty_message, forward_current_message s dest)
call p s (continuation inner fhdl) =
    let (inner_res, s') = call p s inner in (some empty_message, after_inner s' fhdl inner_res)

-- A request gets an empty response if no promise for it was made and it was not forwarded.
abbrev pub answer_request : LocalActor → Option ℕ → LocalActor
answer_request s none = s
answer_request s (some ptr) =
    let mid = (s.memory ptr).mid in
    let (fhdl, s') = make_response_promise s in
    if is_request mid && not (is_answered mid) then deliver s' fhdl empty_message else s

-- A result with content is the response; a promise without a receiver delivers nothing.
abbrev pub respond : LocalActor → Message → LocalActor
respond s res = let (fhdl, s') = make_response_promise s in deliver s' fhdl res

-- Whether `post_process_invoke_res` returns a message.
unfoldable pub post_process_invoke_res : LocalActor → Option Message → Bool × LocalActor
unfolding handle_message_id_res make_response_promise deliver
post_process_invoke_res s none = (false, s)
post_process_invoke_res s (some empty_message) = (true, answer_request s s.current_element)
post_process_invoke_res s (some res) =
    let (handled, s') = handle_message_id_res s res none in
    (true, (if handled then s' else respond s' res))
