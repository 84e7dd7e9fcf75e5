-- ===== src/LocalActor/Invoke.antt =====
-- libboost_actor_core/src/local_actor.cpp: what an actor does with one element of its mailbox.
pub mod Sync
pub mod Ordinary
use boost_actor.Common.{
  ℕ, Bool, true, false, ◌&&◌, not, List, [], ◌∷◌, ◌++◌, Option, none, some, if◌then◌else◌, ◌==◌,
  nat_eq,
}
use boost_actor.AbstractActor
use boost_actor.MessageId.{MessageId, normal, response_id, is_response, valid, invalid_message_id}
use boost_actor.Mailbox.Cache.{InvokeMessageResult, im_success, im_dropped, im_skipped}
use boost_actor.LocalActor.{
  LocalActor, is_serializable, MailboxElement, Message, Behavior, handlers, migration_reply,
  timeout, with_timeout, valid_duration, pop_back, Key, info, other_key, empty_message,
  sync_timeout_msg, not_serializable, timeout_msg, exit_msg, sync_exited_msg, sys_get, sys_migrate,
  sys_load, migrate, ok_info, unknown_key, ok_moved,
}
use boost_actor.LocalActor.Requests.{awaits, mark_arrived, set_response_handler}
use boost_actor.LocalActor.Timeouts.{is_active_timeout}
use boost_actor.LocalActor.Handlers.{
  Program, Action, run_actions, run_code, quit, send_impl, sync_send_impl,
}
use boost_actor.LocalActor.Calls.{call, post_process_invoke_res}

-- exit_reason.hpp
abbrev pub normal_exit_reason : ℕ
normal_exit_reason = 1

abbrev pub unhandled_sync_failure : ℕ
unhandled_sync_failure = 4

abbrev pub kill : ℕ
kill = 17

-- `msg_type`
pub data MsgType : Type 0 where
  normal_exit non_normal_exit expired_timeout expired_sync_response timeout_type ordinary
        sync_response sys_message :
      MsgType

-- The reply to a system message, with the ID of the request.
abbrev reply : LocalActor → ℕ → MessageId → Message → LocalActor
reply s sender mid msg = send_impl s (response_id mid) sender msg

-- `{'SYS', 'MIGRATE', mm}`: this actor moves to another place.
unfoldable pub migrate_to : Program → LocalActor → ℕ → MessageId → ℕ → LocalActor
unfolding sync_send_impl set_response_handler send_impl
migrate_to p s sender mid mm =
    let (req, s') = sync_send_impl s normal mm (migrate (p.save_state s.state)) in
    if is_serializable s
    then set_response_handler s' req (migration_reply sender mid)
    else reply s sender mid not_serializable

-- `{'SYS', 'MIGRATE', buf}`: this actor takes over a saved state.
unfoldable pub migrate_from : Program → LocalActor → ℕ → MessageId → ℕ → LocalActor
unfolding send_impl pop_back
migrate_from p s sender mid buf =
    let s1 =
      (if s.is_migrated_from
        then record s { bhvr_stack = pop_back s.bhvr_stack; is_migrated_from = false }
        else s) in
    let s2 = record s1 { state = p.load_state s1.state buf } in
    if is_serializable s
    then reply s2 sender mid (ok_moved s2.address)
    else reply s sender mid not_serializable

unfoldable pub get_info : LocalActor → ℕ → MessageId → Key → LocalActor
unfolding send_impl
get_info s sender mid info = reply s sender mid (ok_info s.address)
get_info s sender mid what = reply s sender mid (unknown_key what)

-- `unlink_from`
abbrev pub unlink_from : LocalActor → Option ℕ → LocalActor
unlink_from s source = record s { actors = (AbstractActor.remove_link s.actors s.address source).1 }

unfoldable pub filter_exit : LocalActor → Option ℕ → ℕ → MsgType × LocalActor
filter_exit s source reason =
    let s' = unlink_from s source in
    if reason == kill
    then (non_normal_exit, quit s' reason)
    else (if s'.trap_exit
        then (ordinary, s')
        else (if reason == normal_exit_reason
            then (normal_exit, s')
            else (non_normal_exit, quit s' reason)))

-- `filter_msg` on a message that is no response. A system message without a sender is ordinary.
unfoldable pub filter_request :
    Program → LocalActor → Option ℕ → MessageId → Message → MsgType × LocalActor
unfolding migrate_to migrate_from get_info is_active_timeout filter_exit
filter_request p s (some sender) mid (sys_migrate mm) = (sys_message, migrate_to p s sender mid mm)
filter_request p s (some sender) mid (sys_load buf) = (sys_message, migrate_from p s sender mid buf)
filter_request p s (some sender) mid (sys_get what) = (sys_message, get_info s sender mid what)
filter_request p s sender mid (timeout_msg tid) =
    (if is_active_timeout s tid then timeout_type else expired_timeout, s)
filter_request p s sender mid (exit_msg source reason) = filter_exit s source reason
filter_request p s sender mid msg = (ordinary, s)

unfoldable pub filter_msg : Program → LocalActor → MailboxElement → MsgType × LocalActor
unfolding awaits is_response filter_request
filter_msg p s node =
    if is_response node.mid
    then (if awaits s node.mid then sync_response else expired_sync_response, s)
    else filter_request p s node.sender node.mid node.msg

-- The user code of `bhvr.handle_timeout()`
abbrev pub timeout_code : Program → Behavior → List Action
timeout_code p (handlers code d) = p.on_timeout code
timeout_code p bhvr = []

-- `handle_timeout` of an actor that does not block
unfoldable pub handle_timeout : Program → LocalActor → Behavior → ℕ → LocalActor
unfolding is_active_timeout run_actions
handle_timeout p s bhvr timeout_id =
    if is_active_timeout s timeout_id
    then with_timeout (timeout bhvr) s (λ d. run_code s (timeout_code p bhvr))
    else s

unfoldable pub handle_sync_failure : Program → LocalActor → LocalActor
unfolding run_actions
handle_sync_failure p s = elim p.on_sync_failure [
  | none ↦ quit s unhandled_sync_failure
  | some l ↦ run_code s l
]

abbrev pub is_sync_timeout : Message → Bool
is_sync_timeout sync_timeout_msg = true
is_sync_timeout msg = false

abbrev pub is_some : Option ℕ → Bool
is_some none = false
is_some (some a) = true

abbrev pub timeout_id_of : Message → ℕ
timeout_id_of (timeout_msg tid) = tid
timeout_id_of msg = 0

-- The handler of an awaited response, with the element as the current one.
unfoldable pub call_response_handler : Program → LocalActor → Behavior → Message → LocalActor
unfolding run_actions call post_process_invoke_res handle_sync_failure
call_response_handler p s fun msg =
    let (res, s1) = call p s fun in
    let (ok, s2) = post_process_invoke_res s1 res in
    if is_sync_timeout msg
    then with_timeout (timeout fun) s
        (λ d. if valid_duration d then run_code s (timeout_code p fun) else s)
    else (if ok then s2 else handle_sync_failure p s2)

unfoldable pub invoke_response :
    Program → LocalActor → ℕ → Behavior → MessageId → InvokeMessageResult × LocalActor
unfolding call_response_handler mark_arrived valid
invoke_response p s ptr fun awaited_id =
    let node = s.memory ptr in
    let s' = call_response_handler p (record s { current_element = some ptr }) fun node.msg in
    if valid awaited_id && node.mid == awaited_id
    then (im_success, mark_arrived (record s' { current_element = s.current_element }) awaited_id)
    else (im_skipped true, s)

unfoldable pub invoke_ordinary :
    Program → LocalActor → ℕ → Behavior → MessageId → InvokeMessageResult × LocalActor
unfolding call post_process_invoke_res valid
invoke_ordinary p s ptr fun awaited_id =
    let s1 = record s { has_timeout = false; current_element = some ptr } in
    let (res, s2) = call p s1 fun in
    let (ok, s3) = post_process_invoke_res s2 res in
    let s4 = record s3 { current_element = s.current_element } in
    if valid awaited_id
    then (im_skipped true, s)
    else (if ok then (im_success, s4) else (
      im_skipped (is_some s3.current_element),
      (if s.has_timeout then record s4 { has_timeout = true } else s4),
    ))

unfoldable pub invoke_by_type :
    Program → LocalActor → ℕ → Behavior → MessageId → MsgType → InvokeMessageResult × LocalActor
unfolding handle_timeout invoke_response invoke_ordinary
invoke_by_type p s ptr fun awaited_id normal_exit = (im_dropped, s)
invoke_by_type p s ptr fun awaited_id expired_sync_response = (im_dropped, s)
invoke_by_type p s ptr fun awaited_id expired_timeout = (im_dropped, s)
invoke_by_type p s ptr fun awaited_id sys_message = (im_dropped, s)
invoke_by_type p s ptr fun awaited_id non_normal_exit = (im_success, s)
invoke_by_type p s ptr fun awaited_id timeout_type =
    if awaited_id == invalid_message_id
    then (im_success, handle_timeout p s fun (timeout_id_of (s.memory ptr).msg))
    else (im_dropped, s)
invoke_by_type p s ptr fun awaited_id sync_response = invoke_response p s ptr fun awaited_id
invoke_by_type p s ptr fun awaited_id ordinary = invoke_ordinary p s ptr fun awaited_id

unfoldable pub invoke_message :
    Program → LocalActor → ℕ → Behavior → MessageId → InvokeMessageResult × LocalActor
unfolding filter_msg invoke_by_type
invoke_message p s ptr fun awaited_id =
    let (t, s') = filter_msg p s (s.memory ptr) in invoke_by_type p s' ptr fun awaited_id t
