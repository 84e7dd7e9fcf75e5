-- ===== src/LocalActor/Kept/Calls.antt =====
-- local_actor.cpp: a call of a behavior, and the answer to it, leave the mailbox and its cache alone.
use boost_actor.Common.{ℕ, false, ◌&&◌, not, Option, none, some, if◌then◌else◌, if_elim}
use boost_actor.MessageId.{MessageId, is_request, is_answered, invalid_message_id, response_id}
use boost_actor.LocalActor.{
  LocalActor, Behavior, MailboxElement, Message, ResponsePromise, no_behavior, handlers,
  migration_reply, forwarder, continuation, ok_moved, error_text, empty_message, message_id_wrapper,
}
use boost_actor.LocalActor.Requests.{find_pending_response}
use boost_actor.LocalActor.Handlers.{
  Program, send_impl, make_response_promise, forward_current_message,
}
use boost_actor.LocalActor.Calls.{
  wrap_handler, promise_or, handle_message_id_res, call_handlers, call_migration_reply, after_inner,
  call, answer_request, respond, post_process_invoke_res, current_message, message_of,
}
use boost_actor.LocalActor.Kept.{
  Keeps, Keeps-trans, unchanged, run_actions-Keeps, do_become-Keeps, deliver-Keeps, send_impl-Keeps,
  make_response_promise-Keeps, move_current-Keeps,
}

promise_or-Keeps : (s : LocalActor) (o : Option ResponsePromise) → Keeps s (promise_or s o).1
promise_or-Keeps s none = make_response_promise-Keeps s
promise_or-Keeps s (some hdl) = unchanged s

wrap_handler-Keeps :
    (s : LocalActor) (id : MessageId) (o : Option Behavior) (hdl : Option ResponsePromise)
    → Keeps s (wrap_handler s id o hdl).1
wrap_handler-Keeps s id none hdl = unchanged s
wrap_handler-Keeps s id (some inner) hdl =
    let k = promise_or-Keeps s hdl in
    record { ready = k.ready; cache = k.cache; head = k.head; aware = k.aware }

handle_message_id_res-Keeps :
    (s : LocalActor) (res : Message) (hdl : Option ResponsePromise)
    → Keeps s (handle_message_id_res s res hdl).1
unfolding handle_message_id_res
handle_message_id_res-Keeps s (message_id_wrapper id) hdl =
    wrap_handler-Keeps s id (find_pending_response s id) hdl
handle_message_id_res-Keeps s _ hdl = unchanged s

call_handlers-Keeps :
    (p : Program) (s : LocalActor) (code : ℕ) (o : Option MailboxElement)
    → Keeps s (call_handlers p s code o).1
call_handlers-Keeps p s code none = unchanged s
call_handlers-Keeps p s code (some e) =
    run_actions-Keeps (p.on_message code e).1 invalid_message_id s

call_migration_reply-Keeps :
    (s : LocalActor) (sender : ℕ) (mid : MessageId) (o : Option Message)
    → Keeps s (call_migration_reply s sender mid o).1
call_migration_reply-Keeps s sender mid (some (ok_moved dest)) =
    let k = Keeps-trans (send_impl-Keeps s (response_id mid) sender (ok_moved dest)) (
      do_become-Keeps (send_impl s (response_id mid) sender (ok_moved dest)) (forwarder dest)
        false) in
    record { ready = k.ready; cache = k.cache; head = k.head; aware = k.aware }
call_migration_reply-Keeps s sender mid (some (error_text errmsg)) =
    send_impl-Keeps s (response_id mid) sender (error_text errmsg)
call_migration_reply-Keeps s sender mid _ = unchanged s

after_inner-Keeps :
    (s : LocalActor) (fhdl : ResponsePromise) (o : Option Message) → Keeps s (after_inner s fhdl o)
after_inner-Keeps s fhdl none = unchanged s
after_inner-Keeps s fhdl (some res) =
    let k = handle_message_id_res-Keeps s res (some fhdl) in
    if_elim (Keeps s) (handle_message_id_res s res (some fhdl)).0 k
      (Keeps-trans k (deliver-Keeps (handle_message_id_res s res (some fhdl)).1 fhdl res))

pub call-Keeps : (p : Program) (s : LocalActor) (bhvr : Behavior) → Keeps s (call p s bhvr).1
unfolding call forward_current_message
call-Keeps p s no_behavior = unchanged s
call-Keeps p s (handlers code d) = call_handlers-Keeps p s code (current_message s)
call-Keeps p s (migration_reply sender mid) =
    call_migration_reply-Keeps s sender mid (message_of (current_message s))
call-Keeps p s (forwarder dest) = move_current-Keeps s s.current_element dest _
call-Keeps p s (continuation inner fhdl) =
    Keeps-trans (call-Keeps p s inner)
      (after_inner-Keeps (call p s inner).1 fhdl (call p s inner).0)

answer_request-Keeps : (s : LocalActor) (o : Option ℕ) → Keeps s (answer_request s o)
answer_request-Keeps s none = unchanged s
answer_request-Keeps s (some ptr) =
    let mid = (s.memory ptr).mid in
    if_elim (Keeps s) (is_request mid && not (is_answered mid))
      (Keeps-trans (make_response_promise-Keeps s)
        (deliver-Keeps (make_response_promise s).1 (make_response_promise s).0 empty_message))
      (unchanged s)

respond-Keeps : (s : LocalActor) (res : Message) → Keeps s (respond s res)
respond-Keeps s res =
    Keeps-trans (make_response_promise-Keeps s)
      (deliver-Keeps (make_response_promise s).1 (make_response_promise s).0 res)

responded-Keeps :
    (s : LocalActor) (res : Message)
    → let (handled, s') = handle_message_id_res s res none in
      Keeps s (if handled then s' else respond s' res)
responded-Keeps s res =
    let k = handle_message_id_res-Keeps s res none in
    if_elim (Keeps s) (handle_message_id_res s res none).0 k
      (Keeps-trans k (respond-Keeps (handle_message_id_res s res none).1 res))

pub post_process_invoke_res-Keeps :
    (s : LocalActor) (o : Option Message) → Keeps s (post_process_invoke_res s o).1
unfolding post_process_invoke_res
post_process_invoke_res-Keeps s none = unchanged s
post_process_invoke_res-Keeps s (some empty_message) = answer_request-Keeps s s.current_element
post_process_invoke_res-Keeps s (some res) = responded-Keeps s res
