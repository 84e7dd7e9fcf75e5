-- ===== src/LocalActor/Kept/Messages.antt =====
-- local_actor.cpp: `invoke_message` leaves the cache of the mailbox alone, and a mailbox that is not
-- blocked as it is, whatever the message and whatever user code does.
use boost_actor.Common.{
  ℕ, refl, false, ◌&&◌, List, Option, none, some, if◌then◌else◌, if_elim, ◌==◌, nat_eq,
}
use boost_actor.MessageId.{MessageId, response_id, is_response, valid, normal, invalid_message_id}
use boost_actor.Mailbox.Cache.{InvokeMessageResult}
use boost_actor.LocalActor.{
  LocalActor, is_serializable, Behavior, MailboxElement, Message, Key, info, other_key,
  not_serializable, exit_msg, sys_get, sys_migrate, sys_load, migrate, ok_info, unknown_key,
  ok_moved, timeout, with_timeout_elim, valid_duration, pop_back, migration_reply,
}
use boost_actor.LocalActor.Requests.{mark_arrived}
use boost_actor.LocalActor.Timeouts.{is_active_timeout}
use boost_actor.LocalActor.Handlers.{Program, Action, run_code, quit, sync_send_impl}
use boost_actor.LocalActor.Calls.{call, post_process_invoke_res}
use boost_actor.LocalActor.Invoke.{
  MsgType, unhandled_sync_failure, normal_exit, non_normal_exit, expired_timeout,
  expired_sync_response, timeout_type, ordinary, sync_response, sys_message, kill,
  normal_exit_reason, unlink_from, migrate_to, migrate_from, get_info, filter_exit, filter_request,
  filter_msg, timeout_code, handle_timeout, handle_sync_failure, is_sync_timeout, timeout_id_of,
  call_response_handler, invoke_response, invoke_ordinary, invoke_by_type, invoke_message,
}
use boost_actor.LocalActor.Kept.{
  Keeps, Keeps-trans, unchanged, undefined-Keeps, run_actions-Keeps, send_impl-Keeps,
  sync_send_impl-Keeps, set_response_handler-Keeps,
}
use boost_actor.LocalActor.Kept.Calls.{call-Keeps, post_process_invoke_res-Keeps}

abbrev KeepsType : LocalActor → MsgType × LocalActor → Type 0
KeepsType s r = Keeps s r.1

abbrev KeepsMessage : LocalActor → InvokeMessageResult × LocalActor → Type 0
KeepsMessage s r = Keeps s r.1

migrate_to-Keeps :
    (p : Program) (s : LocalActor) (sender : ℕ) (mid : MessageId) (mm : ℕ)
    → Keeps s (migrate_to p s sender mid mm)
unfolding migrate_to
migrate_to-Keeps p s sender mid mm =
    let sent_to = sync_send_impl s normal mm (migrate (p.save_state s.state)) in
    if_elim (Keeps s) (is_serializable s)
      (Keeps-trans (sync_send_impl-Keeps s normal mm (migrate (p.save_state s.state)))
        (set_response_handler-Keeps sent_to.1 sent_to.0 (migration_reply sender mid)))
      (send_impl-Keeps s (response_id mid) sender not_serializable)

migrate_from-Keeps :
    (p : Program) (s : LocalActor) (sender : ℕ) (mid : MessageId) (buf : ℕ)
    → Keeps s (migrate_from p s sender mid buf)
unfolding migrate_from
migrate_from-Keeps p s sender mid buf =
    let s1 =
      (if s.is_migrated_from
        then record s { bhvr_stack = pop_back s.bhvr_stack; is_migrated_from = false }
        else s) in
    let k : Keeps s s1 =
      if_elim (Keeps s) s.is_migrated_from
        (record { ready = λ r. r; cache = refl; head = refl; aware = refl }) (unchanged s) in
    let s2 = record s1 { state = p.load_state s1.state buf } in
    if_elim (Keeps s) (is_serializable s)
      (Keeps-trans (record { ready = k.ready; cache = k.cache; head = k.head; aware = k.aware })
        (send_impl-Keeps s2 (response_id mid) sender (ok_moved s2.address)))
      (send_impl-Keeps s (response_id mid) sender not_serializable)

get_info-Keeps :
    (s : LocalActor) (sender : ℕ) (mid : MessageId) (what : Key)
    → Keeps s (get_info s sender mid what)
unfolding get_info
get_info-Keeps s sender mid info = send_impl-Keeps s (response_id mid) sender (ok_info s.address)
get_info-Keeps s sender mid (other_key k) =
    send_impl-Keeps s (response_id mid) sender (unknown_key (other_key k))

filter_exit-Keeps :
    (s : LocalActor) (source : Option ℕ) (reason : ℕ) → Keeps s (filter_exit s source reason).1
unfolding filter_exit
filter_exit-Keeps s source reason =
    let k : Keeps s (unlink_from s source) = record {
      ready = λ r. r;
      cache = refl;
      head = refl;
      aware = refl;
    } in
    if_elim (KeepsType s) (reason == kill)
      (record { ready = λ r. r; cache = refl; head = refl; aware = refl })
      (if_elim (KeepsType s) s.trap_exit k (
        if_elim (KeepsType s) (reason == normal_exit_reason) k
          (record { ready = λ r. r; cache = refl; head = refl; aware = refl })))

filter_request-Keeps :
    (p : Program) (s : LocalActor) (sender : Option ℕ) (mid : MessageId) (msg : Message)
    → Keeps s (filter_request p s sender mid msg).1
unfolding filter_request
filter_request-Keeps p s (some sender) mid (sys_migrate mm) = migrate_to-Keeps p s sender mid mm
filter_request-Keeps p s (some sender) mid (sys_load buf) = migrate_from-Keeps p s sender mid buf
filter_request-Keeps p s (some sender) mid (sys_get what) = get_info-Keeps s sender mid what
filter_request-Keeps p s sender mid (exit_msg source reason) = filter_exit-Keeps s source reason
filter_request-Keeps p s sender mid msg = unchanged s

filter_msg-Keeps :
    (p : Program) (s : LocalActor) (node : MailboxElement) → Keeps s (filter_msg p s node).1
unfolding filter_msg
filter_msg-Keeps p s node =
    if_elim (KeepsType s) (is_response node.mid) (unchanged s)
      (filter_request-Keeps p s node.sender node.mid node.msg)

handle_timeout-Keeps :
    (p : Program) (s : LocalActor) (bhvr : Behavior) (tid : ℕ)
    → Keeps s (handle_timeout p s bhvr tid)
unfolding handle_timeout
handle_timeout-Keeps p s bhvr tid =
    if_elim (Keeps s) (is_active_timeout s tid)
      (with_timeout_elim (Keeps s) (timeout bhvr) s (λ d. run_code s (timeout_code p bhvr))
        (undefined-Keeps s) (λ d. run_actions-Keeps (timeout_code p bhvr) invalid_message_id s))
      (unchanged s)

on_failure-Keeps :
    (s : LocalActor) (o : Option (List Action))
    → Keeps s (elim o [ none ↦ quit s unhandled_sync_failure | some l ↦ run_code s l ])
on_failure-Keeps s none = record { ready = λ r. r; cache = refl; head = refl; aware = refl }
on_failure-Keeps s (some l) = run_actions-Keeps l invalid_message_id s

sync_failure-Keeps : (p : Program) (s : LocalActor) → Keeps s (handle_sync_failure p s)
unfolding handle_sync_failure
sync_failure-Keeps p s = on_failure-Keeps s p.on_sync_failure

call_response_handler-Keeps :
    (p : Program) (s : LocalActor) (fun : Behavior) (msg : Message)
    → Keeps s (call_response_handler p s fun msg)
unfolding call_response_handler
call_response_handler-Keeps p s fun msg =
    let s1 = (call p s fun).1 in
    let (ok, s2) = post_process_invoke_res s1 (call p s fun).0 in
    let k = Keeps-trans (call-Keeps p s fun) (post_process_invoke_res-Keeps s1 (call p s fun).0) in
    if_elim (Keeps s) (is_sync_timeout msg)
      (with_timeout_elim (Keeps s) (timeout fun) s
        (λ d. if valid_duration d then run_code s (timeout_code p fun) else s) (undefined-Keeps s)
        (λ d.
          if_elim (Keeps s) (valid_duration d)
            (run_actions-Keeps (timeout_code p fun) invalid_message_id s) (unchanged s)))
      (if_elim (Keeps s) ok k (Keeps-trans k (sync_failure-Keeps p s2)))

module _ (p : Program) (s : LocalActor) (ptr : ℕ) (fun : Behavior) (awaited_id : MessageId) where
  invoke_response-Keeps : Keeps s (invoke_response p s ptr fun awaited_id).1
  unfolding invoke_response mark_arrived
  invoke_response-Keeps =
      let node = s.memory ptr in
      let k =
        call_response_handler-Keeps p (record s { current_element = some ptr }) fun node.msg in
      if_elim (KeepsMessage s) (valid awaited_id && node.mid == awaited_id)
        (record { ready = k.ready; cache = k.cache; head = k.head; aware = k.aware }) (unchanged s)

  invoke_ordinary-Keeps : Keeps s (invoke_ordinary p s ptr fun awaited_id).1
  unfolding invoke_ordinary
  invoke_ordinary-Keeps =
      let s1 = record s { has_timeout = false; current_element = some ptr } in
      let s2 = (call p s1 fun).1 in
      let (ok, s3) = post_process_invoke_res s2 (call p s1 fun).0 in
      let k =
        Keeps-trans (call-Keeps p s1 fun) (post_process_invoke_res-Keeps s2 (call p s1 fun).0) in
      let s4 = record s3 { current_element = s.current_element } in
      let k4 : Keeps s s4 = record {
        ready = k.ready;
        cache = k.cache;
        head = k.head;
        aware = k.aware;
      } in
      if_elim (KeepsMessage s) (valid awaited_id) (unchanged s) (
        if_elim (KeepsMessage s) ok k4 (
          if_elim (Keeps s) s.has_timeout
            (record { ready = k.ready; cache = k.cache; head = k.head; aware = k.aware }) k4))

  invoke_by_type-Keeps : (t : MsgType) → Keeps s (invoke_by_type p s ptr fun awaited_id t).1
  unfolding invoke_by_type
  invoke_by_type-Keeps normal_exit = unchanged s
  invoke_by_type-Keeps non_normal_exit = unchanged s
  invoke_by_type-Keeps expired_timeout = unchanged s
  invoke_by_type-Keeps expired_sync_response = unchanged s
  invoke_by_type-Keeps sys_message = unchanged s
  invoke_by_type-Keeps timeout_type =
      if_elim (KeepsMessage s) (awaited_id == invalid_message_id)
        (handle_timeout-Keeps p s fun (timeout_id_of (s.memory ptr).msg)) (unchanged s)
  invoke_by_type-Keeps ordinary = invoke_ordinary-Keeps
  invoke_by_type-Keeps sync_response = invoke_response-Keeps

pub invoke_message-Keeps :
    (p : Program) (s : LocalActor) (ptr : ℕ) (fun : Behavior) (awaited_id : MessageId)
    → Keeps s (invoke_message p s ptr fun awaited_id).1
unfolding invoke_message
invoke_message-Keeps p s ptr fun awaited_id =
    let (t, s') = filter_msg p s (s.memory ptr) in
    Keeps-trans (filter_msg-Keeps p s (s.memory ptr))
      (invoke_by_type-Keeps p s' ptr fun awaited_id t)
