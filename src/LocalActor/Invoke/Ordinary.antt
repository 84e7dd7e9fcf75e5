-- ===== src/LocalActor/Invoke/Ordinary.antt =====
-- local_actor.cpp: an ordinary message, and the response to a request.
use mathlib.Core.Option.{some-injective}
use boost_actor.Common.{
  ℕ, suc, ◌+◌, ◌^◌, ◌<◌, ◌≤◌, ◌≡◌, ◌≢◌, refl, ap, subst, sym, ◌∙◌, arith, true, false, ◌&&◌, not,
  List, [], ◌∷◌, ◌++◌, Option, none, some, if◌then◌else◌, if_cases, nat_eq, length, All,
}
use boost_actor.MessageId.{
  MessageId, valid, is_request, is_answered, is_response, response_id, invalid_message_id,
}
use boost_actor.Mailbox.Cache.{InvokeMessageResult, im_success, im_skipped}
use boost_actor.LocalActor.{
  LocalActor, Duration, handlers, MailboxElement, Message, ResponsePromise, Event, sent,
  empty_message, message_id_wrapper,
}
use boost_actor.LocalActor.Handlers.{
  Program, Action, returned, run_actions, make_response_promise, promise_of, deliver, deliver_to,
}
use boost_actor.LocalActor.Handlers.Promises.{responses, responses-append}
use boost_actor.LocalActor.Handlers.Plain.{IsPlain, run_actions-Quiet}
use boost_actor.LocalActor.Calls.{
  call, post_process_invoke_res, handle_message_id_res, answer_request,
}
use boost_actor.LocalActor.Invoke.{
  is_some, ordinary, filter_msg, invoke_ordinary, invoke_by_type, invoke_message,
}

request_large : (mid : MessageId) → is_request mid ≡ true → 2 ^ 63 ≤ response_id mid
unfolding response_id is_request valid is_response
request_large mid h = ground arith

deliver_to-some :
    (s : LocalActor) (p : ResponsePromise) (o : Option ℕ) (c : ℕ) (msg : Message)
    → o ≡ some c
    → (deliver_to s p o msg).outbox
      ≡ s.outbox ++ sent c (record { sender = some p.source; mid = p.id; msg = msg }) ∷ []
deliver_to-some s p none c msg h = absurd (ground arith)
deliver_to-some s p (some to) c msg h =
    ap (λ x. s.outbox ++ sent x (record { sender = some p.source; mid = p.id; msg = msg }) ∷ [])
      (some-injective to c h)

one_response :
    (rid : MessageId) (l : List Event) (c : ℕ) (e : MailboxElement)
    → e.mid ≡ rid
    → responses rid (l ++ sent c e ∷ []) ≡ suc (responses rid l)
unfolding responses
one_response rid l c e h = ground (arith, responses-append rid l (sent c e ∷ []))

-- A promise for the current element delivers one response to its sender.
module _ (s : LocalActor) (ptr c : ℕ) (mid : MessageId) (msg : Message) where
  promised :
      (s.memory ptr).sender ≡ some c
      → (s.memory ptr).mid ≡ mid
      → let (fhdl, s') = promise_of s (some ptr) in
        responses (response_id mid) (deliver_to s' fhdl fhdl.to msg).outbox
        ≡ suc (responses (response_id mid) s.outbox)
  promised snd m =
      let (fhdl, s') = promise_of s (some ptr) in
      ap (responses (response_id mid)) (deliver_to-some s' fhdl fhdl.to c msg snd)
      ∙ one_response (response_id mid) s.outbox c _ (ap response_id m)

  delivered :
      s.current_element ≡ some ptr
      → (s.memory ptr).sender ≡ some c
      → (s.memory ptr).mid ≡ mid
      → let (fhdl, s') = make_response_promise s in
        responses (response_id mid) (deliver s' fhdl msg).outbox
        ≡ suc (responses (response_id mid) s.outbox)
  unfolding make_response_promise deliver
  delivered cur snd m =
      subst
        (λ o.
          responses (response_id mid)
            (deliver_to (promise_of s o).1 (promise_of s o).0 (promise_of s o).0.to msg).outbox
          ≡ suc (responses (response_id mid) s.outbox))
        (sym cur) (promised snd m)

module _ (s : LocalActor) (ptr c : ℕ) (mid : MessageId) where
  answered_at :
      is_request mid && not (is_answered mid) ≡ true
      → s.current_element ≡ some ptr
      → (s.memory ptr).sender ≡ some c
      → (s.memory ptr).mid ≡ mid
      → responses (response_id mid) (answer_request s (some ptr)).outbox
        ≡ suc (responses (response_id mid) s.outbox)
  answered_at open_request cur snd m =
      if_cases
        (λ (x : LocalActor).
          responses (response_id mid) x.outbox ≡ suc (responses (response_id mid) s.outbox))
        (is_request (s.memory ptr).mid && not (is_answered (s.memory ptr).mid))
        (λ e. delivered s ptr c mid empty_message cur snd m)
        (λ e. absurd (ground (arith, ap (λ x. is_request x && not (is_answered x)) m)))

  -- The result is the response.
  processed :
      (msg : Message)
      → ((id : MessageId) → msg ≢ message_id_wrapper id)
      → is_request mid && not (is_answered mid) ≡ true
      → s.current_element ≡ some ptr
      → (s.memory ptr).sender ≡ some c
      → (s.memory ptr).mid ≡ mid
      → let (ok, s') = post_process_invoke_res s (some msg) in
        (ok ≡ true)
        × (responses (response_id mid) s'.outbox ≡ suc (responses (response_id mid) s.outbox))
  unfolding post_process_invoke_res handle_message_id_res
  processed (message_id_wrapper id) plain open_request cur snd m = absurd (plain id refl)
  processed empty_message plain open_request cur snd m = (
    refl,
    subst
        (λ o.
          responses (response_id mid) (answer_request s o).outbox
          ≡ suc (responses (response_id mid) s.outbox))
        (sym cur) (answered_at open_request cur snd m),
  )
  processed msg plain open_request cur snd m = (refl, delivered s ptr c mid msg cur snd m)

module _ (p : Program) (s : LocalActor) (ptr code : ℕ) (d : Duration) (msg : Message)
    (l : List Action) where
  abbrev with_current : LocalActor
  with_current = record s { has_timeout = false; current_element = some ptr }

  called :
      p.on_message code (s.memory ptr) ≡ (returned msg, l)
      → call p with_current (handlers code d)
        ≡ (some msg, (run_actions (invalid_message_id, with_current) l).1)
  unfolding call
  called h = rw h refl

  abbrev IsAnswered : InvokeMessageResult × LocalActor → Type 0
  IsAnswered (r, s') =
      let rid = response_id (s.memory ptr).mid in
      (r ≡ im_success) × (responses rid s'.outbox ≡ suc (responses rid s.outbox))

  -- The end of `invoke_ordinary`, from the call's result on.
  abbrev after_call : Option Message × LocalActor → InvokeMessageResult × LocalActor
  after_call (res, s2) =
      let (ok, s3) = post_process_invoke_res s2 res in
      let s4 = record s3 { current_element = s.current_element } in
      if ok then (im_success, s4) else (
        im_skipped (is_some s3.current_element),
        (if s.has_timeout then record s4 { has_timeout = true } else s4),
      )

  answered :
      (c : ℕ)
      → (s.memory ptr).sender ≡ some c
      → is_request (s.memory ptr).mid && not (is_answered (s.memory ptr).mid) ≡ true
      → ptr < s.next_free
      → length l + s.last_request_id < 2 ^ 61
      → p.on_message code (s.memory ptr) ≡ (returned msg, l)
      → ((id : MessageId) → msg ≢ message_id_wrapper id)
      → All (IsPlain (response_id (s.memory ptr).mid)) l
      → IsAnswered (invoke_ordinary p s ptr (handlers code d) invalid_message_id)
  unfolding invoke_ordinary valid
  answered c snd open_request lt fits h plain acts =
      let mid = (s.memory ptr).mid in
      let s2 = (run_actions (invalid_message_id, with_current) l).1 in
      let q =
        run_actions-Quiet (response_id mid) ptr (request_large mid (ground arith)) l
          invalid_message_id with_current acts fits in
      let (ok, sent_once) =
        processed s2 ptr c mid msg plain open_request q.current
          (ap (λ e. e.sender) (q.element lt) ∙ snd) (ap (λ e. e.mid) (q.element lt)) in
      subst (λ r. IsAnswered (after_call r)) (sym (called h))
        (if_cases IsAnswered (post_process_invoke_res s2 (some msg)).0
          (λ e. (refl, sent_once ∙ ap suc q.silent)) (λ e. absurd (ground arith)))

-- For an actor that awaits no response, and a request from a sender that is not yet answered and is
-- filtered as ordinary: if a user's handler returns a message, empty or not, and its code makes no
-- promise for the request, does not forward it and uses no promise for it, then the message counts
-- as handled and exactly one more response to the request is sent.
pub invoke_message-responses :
    (p : Program) (s : LocalActor) (ptr code c : ℕ) (d : Duration) (msg : Message) (l : List Action)
    → filter_msg p s (s.memory ptr) ≡ (ordinary, s)
    → (s.memory ptr).sender ≡ some c
    → is_request (s.memory ptr).mid && not (is_answered (s.memory ptr).mid) ≡ true
    → ptr < s.next_free
    → length l + s.last_request_id < 2 ^ 61
    → p.on_message code (s.memory ptr) ≡ (returned msg, l)
    → ((id : MessageId) → msg ≢ message_id_wrapper id)
    → All (IsPlain (response_id (s.memory ptr).mid)) l
    → let (r, s') = invoke_message p s ptr (handlers code d) invalid_message_id in
      let rid = response_id (s.memory ptr).mid in
      (r ≡ im_success) × (responses rid s'.outbox ≡ suc (responses rid s.outbox))
unfolding invoke_message invoke_by_type
invoke_message-responses p s ptr code c d msg l o snd open_request lt fits h plain acts =
    subst
      (λ x.
        IsAnswered p s ptr code d msg l
          (invoke_by_type p x.1 ptr (handlers code d) invalid_message_id x.0))
      (sym o) (answered p s ptr code d msg l c snd open_request lt fits h plain acts)
