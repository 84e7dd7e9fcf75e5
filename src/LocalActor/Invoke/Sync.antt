-- ===== src/LocalActor/Invoke/Sync.antt =====
-- local_actor.cpp: an actor that awaits the response to a synchronous request.
use boost_actor.Common.{
  ℕ, ◌≡◌, ◌≢◌, refl, ap, subst, sym, ◌∙◌, arith, true, false, ◌&&◌, if_cases, ◌==◌, nat_eq,
}
use boost_actor.MessageId.{MessageId, valid, invalid_message_id}
use boost_actor.Mailbox.Cache.{InvokeMessageResult, im_success, im_skipped}
use boost_actor.LocalActor.{LocalActor, Behavior}
use boost_actor.LocalActor.Requests.{awaits, mark_arrived}
use boost_actor.LocalActor.Requests.Arrived.{removed}
use boost_actor.LocalActor.Handlers.{Program}
use boost_actor.LocalActor.Invoke.{
  MsgType, normal_exit, non_normal_exit, expired_timeout, expired_sync_response, timeout_type,
  ordinary, sync_response, sys_message, filter_msg, invoke_response, invoke_ordinary,
  invoke_by_type, invoke_message,
}

valid_differs : (mid : MessageId) → valid mid ≡ true → (mid == invalid_message_id) ≡ false
unfolding valid
valid_differs mid h = ground arith

module _ (p : Program) (s : LocalActor) (ptr : ℕ) (fun : Behavior) (awaited_id : MessageId) where
  abbrev IsLeft : InvokeMessageResult × LocalActor → Type 0
  IsLeft (r, s') = (r ≢ im_success) × (s' ≡ s)

  IsLeft-by_type :
      (t : MsgType)
      → valid awaited_id ≡ true
      → t ≢ sync_response
      → t ≢ non_normal_exit
      → IsLeft (invoke_by_type p s ptr fun awaited_id t)
  unfolding invoke_by_type invoke_ordinary
  IsLeft-by_type normal_exit v a b = (λ e. cc, refl)
  IsLeft-by_type non_normal_exit v a b = absurd (b refl)
  IsLeft-by_type expired_timeout v a b = (λ e. cc, refl)
  IsLeft-by_type expired_sync_response v a b = (λ e. cc, refl)
  IsLeft-by_type sys_message v a b = (λ e. cc, refl)
  IsLeft-by_type sync_response v a b = absurd (a refl)
  IsLeft-by_type ordinary v a b = rw v (λ e. cc, refl)
  IsLeft-by_type timeout_type v a b = rw (valid_differs awaited_id v) (λ e. cc, refl)

  not_awaited :
      valid awaited_id ≡ true
      → (s.memory ptr).mid ≢ awaited_id
      → invoke_response p s ptr fun awaited_id ≡ (im_skipped true, s)
  unfolding invoke_response
  not_awaited v h =
      if_cases (λ x. x ≡ (im_skipped true, s))
        (valid awaited_id && (s.memory ptr).mid == awaited_id) (λ e. absurd (ground arith))
        (λ e. refl)

  abbrev IsArrived : InvokeMessageResult × LocalActor → Type 0
  IsArrived (r, s') = (r ≡ im_success) × (awaits s' awaited_id ≡ false)

  arrived :
      valid awaited_id ≡ true
      → (s.memory ptr).mid ≡ awaited_id
      → IsArrived (invoke_response p s ptr fun awaited_id)
  unfolding invoke_response mark_arrived awaits
  arrived v h =
      if_cases IsArrived (valid awaited_id && (s.memory ptr).mid == awaited_id)
        (λ e. (refl, removed awaited_id _)) (λ e. absurd (ground arith))

  response_by_type :
      (t : MsgType)
      → t ≡ sync_response
      → invoke_by_type p s ptr fun awaited_id t ≡ invoke_response p s ptr fun awaited_id
  unfolding invoke_by_type
  response_by_type t e = ap (invoke_by_type p s ptr fun awaited_id) e

-- While an actor awaits a response, no other message reaches a handler. What `filter_msg` finds to be
-- neither a response that is awaited nor an exit that ends the actor is skipped or dropped and
-- changes nothing more; a response to another request is skipped; and the response itself is
-- handled, after which it is awaited no more.
pub invoke_message-awaiting :
    (p : Program) (s : LocalActor) (ptr : ℕ) (fun : Behavior) (awaited_id : MessageId)
    → valid awaited_id ≡ true
    → let (t, s1) = filter_msg p s (s.memory ptr) in
      let (r, s') = invoke_message p s ptr fun awaited_id in
      (t ≢ sync_response → t ≢ non_normal_exit → (r ≢ im_success) × (s' ≡ s1))
      × (t ≡ sync_response → (s1.memory ptr).mid ≢ awaited_id → (r ≡ im_skipped true) × (s' ≡ s1))
      × (t ≡ sync_response
          → (s1.memory ptr).mid ≡ awaited_id
          → (r ≡ im_success) × (awaits s' awaited_id ≡ false))
unfolding invoke_message
invoke_message-awaiting p s ptr fun awaited_id v =
    let (t, s1) = filter_msg p s (s.memory ptr) in
    let by_type = response_by_type p s1 ptr fun awaited_id t in
    (
      λ a b. IsLeft-by_type p s1 ptr fun awaited_id t v a b,
      λ a b.
          let e = by_type a ∙ not_awaited p s1 ptr fun awaited_id v b in
          (ap (λ x. x.0) e, ap (λ x. x.1) e),
      λ a b.
          subst (IsArrived p s1 ptr fun awaited_id) (sym (by_type a))
            (arrived p s1 ptr fun awaited_id v b),
    )
