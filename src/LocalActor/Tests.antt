-- ===== src/LocalActor/Tests.antt =====
-- Runs of the actor of local_actor.cpp.
use boost_actor.Common.{
  List, ℕ, suc, ◌≡◌, ◌≢◌, refl, arith, true, false, inl, [], ◌∷◌, ◌++◌, none, some, map,
}
use boost_actor.AbstractActor
use boost_actor.AbstractActor.{not_exited}
use boost_actor.MessageId.{
  normal, high, response_id, valid, is_request, is_answered, is_response, invalid_message_id,
}
use boost_actor.Mailbox.{nullptr, nodes, closed}
use boost_actor.Mailbox.Cache.{InvokeMessageResult, im_success, im_skipped}
use boost_actor.Mailbox.Cache
use boost_actor.Mailbox.Fifo.{contents, queue}
use boost_actor.LocalActor.{
  LocalActor, Event, no_behavior, handlers, Duration, seconds, sent, attached, user, exit_reason,
  sync_exited_msg,
}
use boost_actor.LocalActor.Requests.{
  new_request_id, mark_arrived, awaits, find_pending_response, set_response_handler,
}
use boost_actor.LocalActor.Requests.Numbered.{
  IsNumbered, new_request_id-IsNumbered, new_request_id-high_priority,
}
use boost_actor.LocalActor.Requests.Arrived.{mark_arrived-awaits}
use boost_actor.LocalActor.Handlers.{sends, sync_sends}
use boost_actor.LocalActor.Handlers.Promises.{responses}
use boost_actor.LocalActor.Invoke.{invoke_message, filter_msg, sync_response, non_normal_exit}
use boost_actor.LocalActor.Invoke.Ordinary.{invoke_message-responses}
use boost_actor.LocalActor.Invoke.Sync.{invoke_message-awaiting}
use boost_actor.LocalActor.Resume.{arrive, reset_timeout_if_needed, done, cleanup, enqueue}
use boost_actor.LocalActor.Resume.Answers.{Answered}
use boost_actor.LocalActor.Resume.Ends.{IsEnded, cleanup-IsEnded, enqueue-IsEnded}
use boost_actor.LocalActor.Loop.{Arrivals, with_message, no_message, returns}
use boost_actor.LocalActor.Loop.Wakeup.{places, WaitsOrGoesOn, no_message-wakes}
use boost_actor.LocalActor.Loop.Exits.{with_message-exit_msg}
use boost_actor.LocalActor.Example.{
  no_timeout, program, request, response, first_response, elements, no_mail, fresh, asking,
  asking-IsNumbered,
}

new_request_id-IsNumbered_example :
    let (mid, s') = new_request_id asking normal in
    (mid ≡ 2)
    × IsNumbered s'
    × (awaits asking (response_id mid) ≡ false)
    × (awaits s' (response_id mid) ≡ true)
new_request_id-IsNumbered_example = new_request_id-IsNumbered asking asking-IsNumbered (omega arith)

new_request_id-high_priority_example :
    let (mid, s') = new_request_id asking high in
    (awaits s' (response_id mid) ≡ false)
    × (find_pending_response s' (response_id mid) ≡ none)
    × (set_response_handler s' (response_id mid) (handlers 1 no_timeout) ≡ s')
new_request_id-high_priority_example =
    new_request_id-high_priority asking (handlers 1 no_timeout) asking-IsNumbered (omega arith)

mark_arrived-awaits_example :
    let s' = mark_arrived asking first_response in
    (awaits s' first_response ≡ false)
    × (first_response ≢ 2 → awaits s' 2 ≡ awaits asking 2)
    × (first_response ≢ 2 → find_pending_response s' 2 ≡ find_pending_response asking 2)
    × IsNumbered s'
mark_arrived-awaits_example = mark_arrived-awaits asking first_response 2 asking-IsNumbered

abbrev one_second : Duration
one_second = record { unit = seconds; count = 1 }

invoke_message-responses_example :
    let (r, s') = invoke_message program fresh 0 (handlers 1 no_timeout) invalid_message_id in
    (r ≡ im_success) × (responses (response_id 5) s'.outbox ≡ suc (responses (response_id 5) []))
unfolding filter_msg is_request is_answered
invoke_message-responses_example =
    invoke_message-responses program fresh 0 1 7 no_timeout (user 9)
      (sends normal 8 (user 1) ∷ sync_sends high 8 (user 2) no_behavior ∷ []) refl refl refl
      (omega arith) (omega arith) refl (λ id e. cc) (tt, (tt, tt))

invoke_message-awaiting_example :
    let (t, s1) = filter_msg program asking response in
    let (r, s') = invoke_message program asking 2 (handlers 1 no_timeout) first_response in
    (t ≢ sync_response → t ≢ non_normal_exit → (r ≢ im_success) × (s' ≡ s1))
    × (t ≡ sync_response → (s1.memory 2).mid ≢ first_response → (r ≡ im_skipped true) × (s' ≡ s1))
    × (t ≡ sync_response
        → (s1.memory 2).mid ≡ first_response
        → (r ≡ im_success) × (awaits s' first_response ≡ false))
unfolding valid
invoke_message-awaiting_example =
    invoke_message-awaiting program asking 2 (handlers 1 no_timeout) first_response refl

-- A request waits in the mailbox, another one in the cache.
abbrev leaving : LocalActor
leaving = record fresh { mailbox = queue (nodes 0 []) [] (record { first = []; second = 0 ∷ [] }) }

cleanup-IsEnded_example :
    let s' = cleanup leaving 16 in
    IsEnded s'
    × ((es : List Event) × Answered 16 elements (contents leaving.mailbox ++ ([] ++ 0 ∷ [])) es
        × (s'.outbox ≡ ([] ++ es) ++ map attached (AbstractActor.cleanup leaving.actors 1 16).1))
cleanup-IsEnded_example = cleanup-IsEnded leaving 16 (λ e. absurd (ground arith))

abbrev gone : LocalActor
gone = record fresh {
  actors = λ k. record { exit_reason = 16; attachables = [] };
  mailbox = queue nullptr [] Cache.init;
  is_registered = false;
}

gone-IsEnded : IsEnded gone
unfolding closed
gone-IsEnded = record {
  closed = refl;
  drained = refl;
  cache = refl;
  pending = refl;
  idle = refl;
  unregistered = refl;
  exited = λ e. absurd (ground arith);
}

enqueue-IsEnded_example :
    let (scheduled, s') = enqueue gone request in
    (scheduled ≡ false)
    × IsEnded s'
    × ((sender : ℕ)
        → some 7 ≡ some sender
        → is_request 5 ≡ true
        → s'.outbox
          ≡ []
            ++ sent sender
                (record { sender = none; mid = response_id 5; msg = sync_exited_msg sender 16 })
              ∷ [])
    × (is_request 5 ≡ false → s'.outbox ≡ [])
    × (request.sender ≡ none → s'.outbox ≡ [])
enqueue-IsEnded_example = enqueue-IsEnded gone request gone-IsEnded

-- A request arrives before each round, and another one before each attempt to block.
abbrev busy : Arrivals
busy = record { before = λ n. request ∷ []; meanwhile = λ n. request ∷ [] }

-- Two requests arrive before the actor can block.
no_message-wakes_example :
    let s1 = reset_timeout_if_needed 0 fresh in
    let t = arrive s1 (request ∷ request ∷ []) in
    (contents t.mailbox ≡ contents s1.mailbox ++ places s1.next_free (request ∷ request ∷ []))
    × WaitsOrGoesOn 0 t (no_message 0 (request ∷ request ∷ []) fresh)
unfolding reset_timeout_if_needed
no_message-wakes_example =
    no_message-wakes 0 (request ∷ request ∷ []) fresh (refl, refl, λ a. refl) refl

with_message-exit_msg_example :
    (s' : LocalActor) × (with_message program 0 (request ∷ []) fresh (some (some 1, no_mail))
      ≡ some (returns done s'))
    × IsEnded s'
    × (exit_reason s' ≡ 17)
unfolding is_response
with_message-exit_msg_example =
    with_message-exit_msg program fresh no_mail (request ∷ []) 0 1 17 (some 7) refl refl refl refl
      (λ e. absurd (ground arith)) (λ e. absurd (ground arith)) (inl refl)
