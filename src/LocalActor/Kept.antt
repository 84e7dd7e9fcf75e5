-- ===== src/LocalActor/Kept.antt =====
-- local_actor.cpp: what the operations of an actor leave of its mailbox. Only a timeout of zero
-- enqueues at the actor itself; nothing that user code does touches the cache or blocks the mailbox.
pub mod Calls
pub mod Messages
pub mod Skips
use boost_actor.Common.{
  ℕ, ◌≡◌, refl, ◌∙◌, Bool, true, List, [], ◌∷◌, Option, none, some, if◌then◌else◌, if_elim,
}
use boost_actor.MessageId.{MessageId, MessagePriority, invalid_message_id, normal, high}
use boost_actor.Mailbox.Popping.{IsReady, ready-IsOpen, enqueue_snoc, enqueue_keeps}
use boost_actor.LocalActor.{
  LocalActor, Behavior, Duration, valid_duration, is_zero, timeout, with_timeout, with_timeout_elim,
  MailboxElement, Message, ResponsePromise, pop_back, timeout_msg,
}
use boost_actor.LocalActor.Requests.{
  new_request_id, set_response_handler, request_sync_timeout_msg, find_pending_response,
  write_pending,
}
use boost_actor.LocalActor.Timeouts.{enqueue_self, request_timeout, do_become, next_timeout}
use boost_actor.LocalActor.Handlers.{
  Action, become, unbecome, takes_promise, sends, sync_sends, forwards, forwards_with, delivers,
  quits, traps_exit, run_action, run_actions, move_current, forward_current_message,
  forward_with_priority, promise_of, make_response_promise, deliver_to, deliver, send_impl,
  sync_send_impl,
}

pub record Keeps (s s' : LocalActor) : Type 0 where
  pub ready : IsReady s.mailbox → IsReady s'.mailbox
  pub cache : s'.mailbox.cache ≡ s.mailbox.cache
  pub head : s'.mailbox.head ≡ s.mailbox.head
  pub aware : s'.is_priority_aware ≡ s.is_priority_aware

pub Keeps-trans : {s t u : LocalActor} → Keeps s t → Keeps t u → Keeps s u
Keeps-trans a b = record {
  ready = λ r. b.ready (a.ready r);
  cache = b.cache ∙ a.cache;
  head = b.head ∙ a.head;
  aware = b.aware ∙ a.aware;
}

abbrev pub unchanged : (s : LocalActor) → Keeps s s
unchanged s = record { ready = λ r. r; cache = refl; head = refl; aware = refl }

-- The mark of undefined behavior is no part of the mailbox.
abbrev pub undefined-Keeps : (s : LocalActor) → Keeps s (record s { undefined = true })
undefined-Keeps s = record { ready = λ r. r; cache = refl; head = refl; aware = refl }

enqueue_self-Keeps : (s : LocalActor) (e : MailboxElement) → Keeps s (enqueue_self s e)
unfolding enqueue_self
enqueue_self-Keeps s e = record {
  ready = λ r. (enqueue_snoc s.mailbox s.next_free (ready-IsOpen s.mailbox r)).0;
  cache = (enqueue_keeps s.mailbox s.next_free).0;
  head = (enqueue_keeps s.mailbox s.next_free).1;
  aware = refl;
}

abbrev KeepsResult : LocalActor → ℕ × LocalActor → Type 0
KeepsResult s r = Keeps s r.1

pub request_timeout-Keeps : (s : LocalActor) (d : Duration) → Keeps s (request_timeout s d).1
unfolding request_timeout
request_timeout-Keeps s d =
    if_elim (KeepsResult s) (valid_duration d)
      (if_elim (Keeps s) (is_zero d)
        (let k =
            enqueue_self-Keeps
              (record s {
                timeout_id = next_timeout (next_timeout s.timeout_id);
                has_timeout = true;
              })
              (record {
                sender = some s.address;
                mid = invalid_message_id;
                msg = timeout_msg (next_timeout (next_timeout s.timeout_id));
              }) in
          record { ready = k.ready; cache = k.cache; head = k.head; aware = k.aware })
        (record { ready = λ r. r; cache = refl; head = refl; aware = refl }))
      (record { ready = λ r. r; cache = refl; head = refl; aware = refl })

pub do_become-Keeps :
    (s : LocalActor) (bhvr : Behavior) (discard_old : Bool) → Keeps s (do_become s bhvr discard_old)
unfolding do_become
do_become-Keeps s bhvr discard_old =
    let s1 = (if discard_old then record s { bhvr_stack = pop_back s.bhvr_stack } else s) in
    let first : Keeps s s1 =
      if_elim (Keeps s) discard_old
        (record { ready = λ r. r; cache = refl; head = refl; aware = refl }) (unchanged s) in
    let k = Keeps-trans first (
      with_timeout_elim (Keeps s1) (timeout bhvr) s1 (λ d. (request_timeout s1 d).1)
        (undefined-Keeps s1) (request_timeout-Keeps s1)) in
    record { ready = k.ready; cache = k.cache; head = k.head; aware = k.aware }

request_sync_timeout_msg-Keeps :
    (s : LocalActor) (d : Duration) (mid : MessageId) → Keeps s (request_sync_timeout_msg s d mid)
unfolding request_sync_timeout_msg
request_sync_timeout_msg-Keeps s d mid =
    if_elim (Keeps s) (valid_duration d)
      (record { ready = λ r. r; cache = refl; head = refl; aware = refl }) (unchanged s)

handler_found-Keeps :
    (s : LocalActor) (mid : MessageId) (bhvr : Behavior) (o : Option Behavior)
    → Keeps s (elim o [
      | none ↦ s
      | some old ↦
          let s' = with_timeout (timeout bhvr) s (λ d. request_sync_timeout_msg s d mid) in
          record s' { pending_responses = write_pending mid bhvr s'.pending_responses }
    ])
handler_found-Keeps s mid bhvr none = unchanged s
handler_found-Keeps s mid bhvr (some old) =
    let k =
      with_timeout_elim (Keeps s) (timeout bhvr) s (λ d. request_sync_timeout_msg s d mid)
        (undefined-Keeps s) (λ d. request_sync_timeout_msg-Keeps s d mid) in
    record { ready = k.ready; cache = k.cache; head = k.head; aware = k.aware }

pub set_response_handler-Keeps :
    (s : LocalActor) (mid : MessageId) (bhvr : Behavior) → Keeps s (set_response_handler s mid bhvr)
unfolding set_response_handler
set_response_handler-Keeps s mid bhvr = handler_found-Keeps s mid bhvr (find_pending_response s mid)

promise_of-Keeps : (s : LocalActor) (o : Option ℕ) → Keeps s (promise_of s o).1
promise_of-Keeps s none = unchanged s
promise_of-Keeps s (some ptr) = record { ready = λ r. r; cache = refl; head = refl; aware = refl }

pub move_current-Keeps :
    (s : LocalActor) (o : Option ℕ) (dest : ℕ) (f : MessageId → MessageId)
    → Keeps s (move_current s o dest f)
move_current-Keeps s none dest f = unchanged s
move_current-Keeps s (some ptr) dest f = record {
  ready = λ r. r;
  cache = refl;
  head = refl;
  aware = refl;
}

deliver_to-Keeps :
    (s : LocalActor) (p : ResponsePromise) (o : Option ℕ) (msg : Message)
    → Keeps s (deliver_to s p o msg)
deliver_to-Keeps s p none msg = unchanged s
deliver_to-Keeps s p (some to) msg = record {
  ready = λ r. r;
  cache = refl;
  head = refl;
  aware = refl;
}

new_request_id-Keeps : (s : LocalActor) (mp : MessagePriority) → Keeps s (new_request_id s mp).1
unfolding new_request_id
new_request_id-Keeps s normal = record { ready = λ r. r; cache = refl; head = refl; aware = refl }
new_request_id-Keeps s high = record { ready = λ r. r; cache = refl; head = refl; aware = refl }

pub make_response_promise-Keeps : (s : LocalActor) → Keeps s (make_response_promise s).1
unfolding make_response_promise
make_response_promise-Keeps s = promise_of-Keeps s s.current_element

pub deliver-Keeps :
    (s : LocalActor) (p : ResponsePromise) (msg : Message) → Keeps s (deliver s p msg)
unfolding deliver
deliver-Keeps s p msg = deliver_to-Keeps s p p.to msg

pub send_impl-Keeps :
    (s : LocalActor) (mid : MessageId) (dest : ℕ) (msg : Message)
    → Keeps s (send_impl s mid dest msg)
unfolding send_impl
send_impl-Keeps s mid dest msg = record { ready = λ r. r; cache = refl; head = refl; aware = refl }

pub sync_send_impl-Keeps :
    (s : LocalActor) (mp : MessagePriority) (dest : ℕ) (msg : Message)
    → Keeps s (sync_send_impl s mp dest msg).1
unfolding sync_send_impl
sync_send_impl-Keeps s mp dest msg =
    Keeps-trans (new_request_id-Keeps s mp)
      (send_impl-Keeps (new_request_id s mp).1 (new_request_id s mp).0 dest msg)

run_action-Keeps :
    (rid : MessageId) (s : LocalActor) (a : Action) → Keeps s (run_action (rid, s) a).1
unfolding run_action forward_current_message forward_with_priority
run_action-Keeps rid s (become bhvr discard_old) = do_become-Keeps s bhvr discard_old
run_action-Keeps rid s unbecome = record { ready = λ r. r; cache = refl; head = refl; aware = refl }
run_action-Keeps rid s takes_promise = make_response_promise-Keeps s
run_action-Keeps rid s (sends mp dest msg) = send_impl-Keeps s _ dest msg
run_action-Keeps rid s (sync_sends mp dest msg bhvr) =
    Keeps-trans (sync_send_impl-Keeps s mp dest msg) (
      set_response_handler-Keeps (sync_send_impl s mp dest msg).1 (sync_send_impl s mp dest msg).0
        bhvr)
run_action-Keeps rid s (forwards dest) = move_current-Keeps s s.current_element dest _
run_action-Keeps rid s (forwards_with mp dest) = move_current-Keeps s s.current_element dest _
run_action-Keeps rid s (delivers p msg) = deliver-Keeps s p msg
run_action-Keeps rid s (quits reason) = record {
  ready = λ r. r;
  cache = refl;
  head = refl;
  aware = refl;
}
run_action-Keeps rid s (traps_exit value) = record {
  ready = λ r. r;
  cache = refl;
  head = refl;
  aware = refl;
}

pub run_actions-Keeps :
    (l : List Action) (rid : MessageId) (s : LocalActor) → Keeps s (run_actions (rid, s) l).1
unfolding run_actions
run_actions-Keeps [] rid s = unchanged s
run_actions-Keeps (a ∷ l) rid s =
    Keeps-trans (run_action-Keeps rid s a)
      (run_actions-Keeps l (run_action (rid, s) a).0 (run_action (rid, s) a).1)
