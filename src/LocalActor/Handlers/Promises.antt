-- ===== src/LocalActor/Handlers/Promises.antt =====
-- local_actor.cpp: the operations of user code that leave the current element, and the response to
-- it, alone.
use boost_actor.Common.{
  ℕ, suc, ◌+◌, ◌<◌, ◌≤◌, ◌≡◌, ◌≢◌, refl, ap, ◌∙◌, arith, Bool, true, false, List, [], ◌∷◌, ◌++◌,
  Option, none, some, if◌then◌else◌, if_elim, ◌==◌, nat_eq,
}
use boost_actor.MessageId.{MessageId, invalid_message_id}
use boost_actor.LocalActor.{
  LocalActor, Behavior, Duration, valid_duration, is_zero, timeout, with_timeout, with_timeout_elim,
  timeout_msg, MailboxElement, Message, Event, sent, delayed, attached, pop_back, emit,
}
use boost_actor.LocalActor.Requests.{
  request_sync_timeout_msg, set_response_handler, find_pending_response, write_pending,
}
use boost_actor.LocalActor.Timeouts.{enqueue_self, request_timeout, do_become, next_timeout}
use boost_actor.LocalActor.Handlers.{send_impl}

-- The number of messages sent with an ID.
unfoldable pub responses : MessageId → List Event → ℕ
responses rid [] = 0
responses rid (sent to e ∷ l) =
    let rest = responses rid l in if e.mid == rid then suc rest else rest
responses rid (delayed d to e ∷ l) = responses rid l
responses rid (attached e ∷ l) = responses rid l

pub responses-append :
    (rid : MessageId) (xs ys : List Event)
    → responses rid (xs ++ ys) ≡ responses rid xs + responses rid ys
unfolding responses
responses-append rid [] ys = omega arith
responses-append rid (sent to e ∷ l) ys = ground (arith, responses-append rid l ys)
responses-append rid (delayed d to e ∷ l) ys = responses-append rid l ys
responses-append rid (attached e ∷ l) ys = responses-append rid l ys

-- What does not touch the element at `ptr`, nor send a message with the ID `rid`; at most `n` more
-- requests are made.
pub record Quiet (n : ℕ) (rid : MessageId) (ptr : ℕ) (s s' : LocalActor) : Type 0 where
  pub current : s'.current_element ≡ s.current_element
  pub element : ptr < s.next_free → s'.memory ptr ≡ s.memory ptr
  pub next_free : s.next_free ≤ s'.next_free
  pub address : s'.address ≡ s.address
  pub last : s'.last_request_id ≤ s.last_request_id + n
  pub silent : responses rid s'.outbox ≡ responses rid s.outbox

module _ {rid : MessageId} {ptr : ℕ} where
  pub Quiet-trans :
      {m n : ℕ} {s t u : LocalActor}
      → Quiet m rid ptr s t
      → Quiet n rid ptr t u
      → Quiet (m + n) rid ptr s u
  Quiet-trans a b = record {
    current = b.current ∙ a.current;
    element = λ lt. b.element (omega (arith, a.next_free)) ∙ a.element lt;
    next_free = omega (arith, a.next_free, b.next_free);
    address = b.address ∙ a.address;
    last = omega (arith, a.last, b.last);
    silent = b.silent ∙ a.silent;
  }

module _ (rid : MessageId) (ptr : ℕ) where
  -- A state that differs in other fields.
  pub same :
      (s s' : LocalActor)
      → s'.current_element ≡ s.current_element
      → s'.memory ≡ s.memory
      → s'.next_free ≡ s.next_free
      → s'.address ≡ s.address
      → s'.last_request_id ≡ s.last_request_id
      → s'.outbox ≡ s.outbox
      → Quiet 0 rid ptr s s'
  same s s' c m n a l o = record {
    current = c;
    element = λ lt. ap (λ f. f ptr) m;
    next_free = omega (arith, n);
    address = a;
    last = omega (arith, l);
    silent = ap (responses rid) o;
  }

  pub still : (s : LocalActor) → Quiet 0 rid ptr s s
  still s = same s s refl refl refl refl refl refl

  undefined-Quiet : (s : LocalActor) → Quiet 0 rid ptr s (record s { undefined = true })
  undefined-Quiet s = same s (record s { undefined = true }) refl refl refl refl refl refl

  -- A new event that is no message with the ID.
  emits :
      (l : List Event) (e : Event)
      → responses rid (e ∷ []) ≡ 0
      → responses rid (l ++ e ∷ []) ≡ responses rid l
  emits l e h = omega (arith, responses-append rid l (e ∷ []))

  delayed_silent :
      (d : Duration) (to : ℕ) (e : MailboxElement) → responses rid (delayed d to e ∷ []) ≡ 0
  unfolding responses
  delayed_silent d to e = refl

  pub sent_silent : (to : ℕ) (e : MailboxElement) → e.mid ≢ rid → responses rid (sent to e ∷ []) ≡ 0
  unfolding responses
  sent_silent to e h = ground arith

  other_place :
      (s : LocalActor) (e : MailboxElement)
      → ptr < s.next_free
      → (if ptr == s.next_free then e else s.memory ptr) ≡ s.memory ptr
  other_place s e lt = ground arith

  enqueue_self-Quiet : (s : LocalActor) (e : MailboxElement) → Quiet 0 rid ptr s (enqueue_self s e)
  unfolding enqueue_self
  enqueue_self-Quiet s e = record {
    current = refl;
    element = other_place s e;
    next_free = omega arith;
    address = refl;
    last = omega arith;
    silent = refl;
  }

  pub emit-Quiet :
      (s : LocalActor) (e : Event) → responses rid (e ∷ []) ≡ 0 → Quiet 0 rid ptr s (emit s e)
  emit-Quiet s e h = record {
    current = refl;
    element = λ lt. refl;
    next_free = omega arith;
    address = refl;
    last = omega arith;
    silent = emits s.outbox e h;
  }

  abbrev QuietResult : LocalActor → ℕ × LocalActor → Type 0
  QuietResult s r = Quiet 0 rid ptr s r.1

  request_timeout-Quiet :
      (s : LocalActor) (d : Duration) → Quiet 0 rid ptr s (request_timeout s d).1
  unfolding request_timeout
  request_timeout-Quiet s d =
      let s' = record s {
        has_timeout = true;
        timeout_id = next_timeout (next_timeout s.timeout_id);
      } in
      let e : MailboxElement = record {
        sender = some s.address;
        mid = invalid_message_id;
        msg = timeout_msg (next_timeout (next_timeout s.timeout_id));
      } in
      let first = same s s' refl refl refl refl refl refl in
      if_elim (QuietResult s) (valid_duration d)
        (if_elim (Quiet 0 rid ptr s) (is_zero d) (Quiet-trans first (enqueue_self-Quiet s' e)) (
          Quiet-trans first (emit-Quiet s' (delayed d s.address e) (delayed_silent d s.address e))))
        (same s (record s { has_timeout = false }) refl refl refl refl refl refl)

  pub do_become-Quiet :
      (s : LocalActor) (bhvr : Behavior) (discard_old : Bool)
      → Quiet 0 rid ptr s (do_become s bhvr discard_old)
  unfolding do_become
  do_become-Quiet s bhvr discard_old =
      let s1 = (if discard_old then record s { bhvr_stack = pop_back s.bhvr_stack } else s) in
      let first : Quiet 0 rid ptr s s1 =
        if_elim (Quiet 0 rid ptr s) discard_old
          (same s (record s { bhvr_stack = pop_back s.bhvr_stack }) refl refl refl refl refl refl)
          (still s) in
      let s2 = with_timeout (timeout bhvr) s1 (λ d. (request_timeout s1 d).1) in
      let asked : Quiet 0 rid ptr s1 s2 =
        with_timeout_elim (Quiet 0 rid ptr s1) (timeout bhvr) s1 (λ d. (request_timeout s1 d).1)
          (undefined-Quiet s1) (request_timeout-Quiet s1) in
      Quiet-trans (Quiet-trans first asked) (
        same s2
          (record s2 {
            bhvr_stack = record s2.bhvr_stack { elements = bhvr ∷ s2.bhvr_stack.elements };
          })
          refl refl refl refl refl refl)

  request_sync_timeout_msg-Quiet :
      (s : LocalActor) (d : Duration) (mid : MessageId)
      → Quiet 0 rid ptr s (request_sync_timeout_msg s d mid)
  unfolding request_sync_timeout_msg
  request_sync_timeout_msg-Quiet s d mid =
      if_elim (Quiet 0 rid ptr s) (valid_duration d)
        (emit-Quiet s (delayed d s.address _) (delayed_silent d s.address _)) (still s)

  handler_found-Quiet :
      (s : LocalActor) (mid : MessageId) (bhvr : Behavior) (o : Option Behavior)
      → Quiet 0 rid ptr s (elim o [
        | none ↦ s
        | some old ↦
            let s' = with_timeout (timeout bhvr) s (λ d. request_sync_timeout_msg s d mid) in
            record s' { pending_responses = write_pending mid bhvr s'.pending_responses }
      ])
  handler_found-Quiet s mid bhvr none = still s
  handler_found-Quiet s mid bhvr (some old) =
      let s' = with_timeout (timeout bhvr) s (λ d. request_sync_timeout_msg s d mid) in
      let asked : Quiet 0 rid ptr s s' =
        with_timeout_elim (Quiet 0 rid ptr s) (timeout bhvr) s
          (λ d. request_sync_timeout_msg s d mid) (undefined-Quiet s)
          (λ d. request_sync_timeout_msg-Quiet s d mid) in
      Quiet-trans asked (
        same s' (record s' { pending_responses = write_pending mid bhvr s'.pending_responses }) refl
          refl refl refl refl refl)

  pub set_response_handler-Quiet :
      (s : LocalActor) (mid : MessageId) (bhvr : Behavior)
      → Quiet 0 rid ptr s (set_response_handler s mid bhvr)
  unfolding set_response_handler
  set_response_handler-Quiet s mid bhvr =
      handler_found-Quiet s mid bhvr (find_pending_response s mid)

  pub send_impl-Quiet :
      (s : LocalActor) (mid : MessageId) (dest : ℕ) (msg : Message)
      → mid ≢ rid
      → Quiet 0 rid ptr s (send_impl s mid dest msg)
  unfolding send_impl
  send_impl-Quiet s mid dest msg h = emit-Quiet s _ (sent_silent dest _ h)
