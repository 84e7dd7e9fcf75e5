-- ===== src/LocalActor/Handlers/Plain.antt =====
-- local_actor.cpp: user code that answers its message by what it returns, and not otherwise.
use boost_actor.Common.{
  ℕ, suc, ◌+◌, ◌^◌, ◌<◌, ◌≤◌, ◌≢◌, refl, arith, List, [], ◌∷◌, Option, none, some, length, All,
}
use boost_actor.MessageId.{
  MessageId, MessagePriority, normal, high, increment, with_high_priority, make,
}
use boost_actor.LocalActor.{LocalActor, Message, ResponsePromise, pop_back}
use boost_actor.LocalActor.Requests.{new_request_id}
use boost_actor.LocalActor.Requests.Numbered.{increment_fits}
use boost_actor.LocalActor.Handlers.{
  Action, become, unbecome, takes_promise, sends, sync_sends, forwards, forwards_with, delivers,
  quits, traps_exit, run_action, run_actions, deliver, deliver_to, sync_send_impl, quit,
}
use boost_actor.LocalActor.Handlers.Promises.{
  Quiet, Quiet-trans, still, same, do_become-Quiet, set_response_handler-Quiet, send_impl-Quiet,
  emit-Quiet, sent_silent,
}

-- No promise is made for the message, it is not forwarded, and no promise for it is used.
abbrev pub IsPlain : MessageId → Action → Type 0
IsPlain rid (become bhvr discard_old) = Unit
IsPlain rid unbecome = Unit
IsPlain rid takes_promise = ⊥
IsPlain rid (sends mp dest msg) = Unit
IsPlain rid (sync_sends mp dest msg bhvr) = Unit
IsPlain rid (forwards dest) = ⊥
IsPlain rid (forwards_with mp dest) = ⊥
IsPlain rid (delivers p msg) = p.id ≢ rid
IsPlain rid (quits reason) = Unit
IsPlain rid (traps_exit value) = Unit

module _ {rid : MessageId} {ptr : ℕ} where
  Quiet-≤ : {m n : ℕ} {s t : LocalActor} → m ≤ n → Quiet m rid ptr s t → Quiet n rid ptr s t
  Quiet-≤ h q = record {
    current = q.current;
    element = q.element;
    next_free = q.next_free;
    address = q.address;
    last = omega (arith, q.last);
    silent = q.silent;
  }

make_small : (mp : MessagePriority) → make mp < 2 ^ 62
unfolding make with_high_priority
make_small normal = ground arith
make_small high = ground arith

high_small : (n : ℕ) → n < 2 ^ 61 → with_high_priority n < 2 ^ 62
unfolding with_high_priority
high_small n h = ground arith

request_small :
    (s : LocalActor) (mp : MessagePriority)
    → suc s.last_request_id < 2 ^ 61
    → (new_request_id s mp).0 < 2 ^ 62
unfolding new_request_id
request_small s normal h = omega (arith, increment_fits s.last_request_id h)
request_small s high h =
    high_small (increment s.last_request_id) (omega (arith, increment_fits s.last_request_id h))

module _ (rid : MessageId) (ptr : ℕ) (large : 2 ^ 63 ≤ rid) where
  new_request_id-Quiet :
      (s : LocalActor) (mp : MessagePriority)
      → suc s.last_request_id < 2 ^ 61
      → Quiet 1 rid ptr s (new_request_id s mp).1
  unfolding new_request_id
  new_request_id-Quiet s normal h = record {
    current = refl;
    element = λ lt. refl;
    next_free = omega arith;
    address = refl;
    last = omega (arith, increment_fits s.last_request_id h);
    silent = refl;
  }
  new_request_id-Quiet s high h = record {
    current = refl;
    element = λ lt. refl;
    next_free = omega arith;
    address = refl;
    last = omega (arith, increment_fits s.last_request_id h);
    silent = refl;
  }

  deliver_to-Quiet :
      (s : LocalActor) (p : ResponsePromise) (o : Option ℕ) (msg : Message)
      → p.id ≢ rid
      → Quiet 0 rid ptr s (deliver_to s p o msg)
  deliver_to-Quiet s p none msg h = still rid ptr s
  deliver_to-Quiet s p (some to) msg h = emit-Quiet rid ptr s _ (sent_silent rid ptr to _ h)

  sync_send_impl-Quiet :
      (s : LocalActor) (mp : MessagePriority) (dest : ℕ) (msg : Message)
      → suc s.last_request_id < 2 ^ 61
      → Quiet 1 rid ptr s (sync_send_impl s mp dest msg).1
  unfolding sync_send_impl
  sync_send_impl-Quiet s mp dest msg h =
      let (req_id, s') = new_request_id s mp in
      Quiet-trans (new_request_id-Quiet s mp h) (
        send_impl-Quiet rid ptr s' req_id dest msg
          (λ e. absurd (omega (arith, request_small s mp h))))

  run_action-Quiet :
      (last : MessageId) (s : LocalActor) (a : Action)
      → IsPlain rid a
      → suc s.last_request_id < 2 ^ 61
      → Quiet 1 rid ptr s (run_action (last, s) a).1
  unfolding run_action deliver
  run_action-Quiet last s (become bhvr d) i h =
      Quiet-≤ (omega arith) (do_become-Quiet rid ptr s bhvr d)
  run_action-Quiet last s unbecome i h = Quiet-≤ (omega arith) (
      same rid ptr s (record s { bhvr_stack = pop_back s.bhvr_stack }) refl refl refl refl refl
        refl)
  run_action-Quiet last s takes_promise i h = elim i [ ]
  run_action-Quiet last s (forwards dest) i h = elim i [ ]
  run_action-Quiet last s (forwards_with mp dest) i h = elim i [ ]
  run_action-Quiet last s (sends mp dest msg) i h =
      Quiet-≤ (omega arith)
        (send_impl-Quiet rid ptr s (make mp) dest msg (λ e. absurd (omega (arith, make_small mp))))
  run_action-Quiet last s (sync_sends mp dest msg bhvr) i h =
      let (res, s') = sync_send_impl s mp dest msg in
      Quiet-trans (sync_send_impl-Quiet s mp dest msg h)
        (set_response_handler-Quiet rid ptr s' res bhvr)
  run_action-Quiet last s (delivers p msg) i h =
      Quiet-≤ (omega arith) (deliver_to-Quiet s p p.to msg i)
  run_action-Quiet last s (quits reason) i h =
      Quiet-≤ (omega arith) (same rid ptr s (quit s reason) refl refl refl refl refl refl)
  run_action-Quiet last s (traps_exit v) i h =
      Quiet-≤ (omega arith)
        (same rid ptr s (record s { trap_exit = v }) refl refl refl refl refl refl)

  -- Plain user code leaves the message alone and sends no response to it.
  pub run_actions-Quiet :
      (l : List Action) (last : MessageId) (s : LocalActor)
      → All (IsPlain rid) l
      → length l + s.last_request_id < 2 ^ 61
      → Quiet (length l) rid ptr s (run_actions (last, s) l).1
  unfolding run_actions
  run_actions-Quiet [] last s i h = still rid ptr s
  run_actions-Quiet (a ∷ l) last s (i, is) h =
      let (last', s') = run_action (last, s) a in
      let q = run_action-Quiet last s a i (omega arith) in
      Quiet-≤ (omega arith)
        (Quiet-trans q (run_actions-Quiet l last' s' is (omega (arith, q.last))))
