-- ===== src/LocalActor/Kept/Skips.antt =====
-- local_actor.cpp: a skipped message is still in the hands of `resume`, which puts it into the cache.
use boost_actor.Common.{
  ℕ, ◌≡◌, ◌≢◌, refl, ap, ◌∙◌, arith, Bool, true, false, ◌&&◌, List, [], ◌∷◌, Option, none, some,
  if◌then◌else◌, if_elim, ◌==◌, nat_eq,
}
use boost_actor.MessageId.{MessageId, valid, invalid_message_id}
use boost_actor.Mailbox.Cache.{InvokeMessageResult, im_success, im_dropped, im_skipped}
use boost_actor.LocalActor.{
  LocalActor, Behavior, MailboxElement, Message, no_behavior, handlers, migration_reply, forwarder,
  continuation, ok_moved, error_text, empty_message,
}
use boost_actor.LocalActor.Handlers.{
  Program, HandlerResult, no_match, returned_request, returned, Action, run_actions, result_message,
}
use boost_actor.LocalActor.Calls.{
  call, call_handlers, call_migration_reply, post_process_invoke_res, current_message, message_of,
}
use boost_actor.LocalActor.Invoke.{
  MsgType, normal_exit, non_normal_exit, expired_timeout, expired_sync_response, timeout_type,
  ordinary, sync_response, sys_message, filter_msg, invoke_response, invoke_ordinary,
  invoke_by_type, invoke_message, is_some,
}

-- A handler that does not match a message has done nothing.
abbrev pub Declines : Program → Type 0
Declines p =
    (code : ℕ) (e : MailboxElement)
    → (p.on_message code e).0 ≡ no_match
    → (p.on_message code e).1 ≡ []

result_none : (rid : MessageId) (r : HandlerResult) → result_message rid r ≡ none → r ≡ no_match
result_none rid no_match h = refl
result_none rid returned_request h = absurd (ground arith)
result_none rid (returned msg) h = absurd (ground arith)

no_actions : (x : MessageId × LocalActor) (l : List Action) → l ≡ [] → run_actions x l ≡ x
unfolding run_actions
no_actions x [] h = refl
no_actions x (a ∷ l) h = absurd (ground arith)

declined_handlers :
    (p : Program) (s : LocalActor) (code : ℕ) (o : Option MailboxElement)
    → Declines p
    → (call_handlers p s code o).0 ≡ none
    → (call_handlers p s code o).1 ≡ s
declined_handlers p s code none d h = refl
declined_handlers p s code (some e) d h =
    ap (λ x. x.1)
      (no_actions (invalid_message_id, s) (p.on_message code e).1
        (d code e (result_none _ (p.on_message code e).0 h)))

declined_reply :
    (s : LocalActor) (sender : ℕ) (mid : MessageId) (o : Option Message)
    → (call_migration_reply s sender mid o).0 ≡ none
    → (call_migration_reply s sender mid o).1 ≡ s
declined_reply s sender mid (some (ok_moved dest)) h = absurd (ground arith)
declined_reply s sender mid (some (error_text errmsg)) h = absurd (ground arith)
declined_reply s sender mid _ h = refl

-- A behavior without a result has done nothing.
pub call-none :
    (p : Program) (s : LocalActor) (bhvr : Behavior)
    → Declines p
    → (call p s bhvr).0 ≡ none
    → (call p s bhvr).1 ≡ s
unfolding call
call-none p s no_behavior d h = refl
call-none p s (handlers code u) d h = declined_handlers p s code (current_message s) d h
call-none p s (migration_reply sender mid) d h =
    declined_reply s sender mid (message_of (current_message s)) h
call-none p s (forwarder dest) d h = absurd (ground arith)
call-none p s (continuation inner fhdl) d h = absurd (ground arith)

not_processed :
    (s : LocalActor) (o : Option Message)
    → (post_process_invoke_res s o).0 ≡ false
    → (o ≡ none) × ((post_process_invoke_res s o).1 ≡ s)
unfolding post_process_invoke_res
not_processed s none h = (refl, refl)
not_processed s (some empty_message) h = absurd (ground arith)
not_processed s (some _) h = absurd (ground arith)

abbrev IsKept : InvokeMessageResult × LocalActor → Type 0
IsKept r = r.0 ≢ im_skipped false

success_kept : im_success ≢ im_skipped false
success_kept e = cc

dropped_kept : im_dropped ≢ im_skipped false
dropped_kept e = cc

skipped_kept : im_skipped true ≢ im_skipped false
skipped_kept e = absurd (ground arith)

IsKept-if :
    (ok : Bool) (o : Option ℕ) (ptr : ℕ) (x y : LocalActor)
    → (ok ≡ false → o ≡ some ptr)
    → IsKept (if ok then (im_success, x) else (im_skipped (is_some o), y))
IsKept-if true o ptr x y h = success_kept
IsKept-if false none ptr x y h = absurd (ground (arith, h refl))
IsKept-if false (some a) ptr x y h = skipped_kept

module _ (p : Program) (d : Declines p) (s : LocalActor) (ptr : ℕ) (fun : Behavior)
    (awaited_id : MessageId) where
  invoke_response-kept : (invoke_response p s ptr fun awaited_id).0 ≢ im_skipped false
  unfolding invoke_response
  invoke_response-kept =
      if_elim IsKept (valid awaited_id && (s.memory ptr).mid == awaited_id) success_kept
        skipped_kept

  element_kept :
      let s1 = record s { has_timeout = false; current_element = some ptr } in
      let (res, s2) = call p s1 fun in
      let (ok, s3) = post_process_invoke_res s2 res in ok ≡ false → s3.current_element ≡ some ptr
  element_kept h =
      let s1 = record s { has_timeout = false; current_element = some ptr } in
      let (no_result, same) = not_processed (call p s1 fun).1 (call p s1 fun).0 h in
      ap (λ t. t.current_element) (same ∙ call-none p s1 fun d no_result)

  invoke_ordinary-kept : (invoke_ordinary p s ptr fun awaited_id).0 ≢ im_skipped false
  unfolding invoke_ordinary
  invoke_ordinary-kept =
      let s1 = record s { has_timeout = false; current_element = some ptr } in
      let (ok, s3) = post_process_invoke_res (call p s1 fun).1 (call p s1 fun).0 in
      let s4 = record s3 { current_element = s.current_element } in
      if_elim IsKept (valid awaited_id) skipped_kept (
        IsKept-if ok s3.current_element ptr s4
          (if s.has_timeout then record s4 { has_timeout = true } else s4) element_kept)

  invoke_by_type-kept :
      (t : MsgType) → (invoke_by_type p s ptr fun awaited_id t).0 ≢ im_skipped false
  unfolding invoke_by_type
  invoke_by_type-kept ordinary = invoke_ordinary-kept
  invoke_by_type-kept sync_response = invoke_response-kept
  invoke_by_type-kept timeout_type =
      if_elim IsKept (awaited_id == invalid_message_id) success_kept dropped_kept
  invoke_by_type-kept normal_exit = dropped_kept
  invoke_by_type-kept non_normal_exit = success_kept
  invoke_by_type-kept expired_timeout = dropped_kept
  invoke_by_type-kept expired_sync_response = dropped_kept
  invoke_by_type-kept sys_message = dropped_kept

-- A message is never skipped without its element.
pub invoke_message-kept :
    (p : Program)
    → Declines p
    → (s : LocalActor) (ptr : ℕ) (fun : Behavior) (awaited_id : MessageId)
    → (invoke_message p s ptr fun awaited_id).0 ≢ im_skipped false
unfolding invoke_message
invoke_message-kept p d s ptr fun awaited_id =
    let (t, s') = filter_msg p s (s.memory ptr) in invoke_by_type-kept p d s' ptr fun awaited_id t
