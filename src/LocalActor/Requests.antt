-- ===== src/LocalActor/Requests.antt =====
-- libboost_actor_core/src/local_actor.cpp: the synchronous requests of an actor whose responses
-- are pending, the youngest first.
pub mod Numbered
pub mod Arrived
use boost_actor.Common.{
  ℕ, Bool, true, false, not, List, [], ◌∷◌, Option, none, some, if◌then◌else◌, ◌==◌, nat_eq, null,
}
use boost_actor.MessageId.{
  MessageId, MessagePriority, normal, high, increment, response_id, with_high_priority,
  invalid_message_id,
}
use boost_actor.LocalActor.{
  LocalActor, Behavior, no_behavior, Duration, valid_duration, timeout, with_timeout, Event,
  delayed, emit, sent, MailboxElement, Message, sync_timeout_msg,
}

-- `pending_response`, a pair of an ID and a behavior
abbrev pub PendingResponse : Type 0
PendingResponse = MessageId × Behavior

-- `std::any_of` with `pending_response_predicate`
unfoldable pub any_pending : MessageId → List PendingResponse → Bool
any_pending mid [] = false
any_pending mid (pr ∷ l) = if pr.0 == mid then true else any_pending mid l

-- `std::find_if` with `pending_response_predicate`
unfoldable pub find_pending : MessageId → List PendingResponse → Option Behavior
find_pending mid [] = none
find_pending mid (pr ∷ l) = if pr.0 == mid then some pr.1 else find_pending mid l

-- `remove_if` with `pending_response_predicate`
unfoldable pub remove_pending : MessageId → List PendingResponse → List PendingResponse
remove_pending mid [] = []
remove_pending mid (pr ∷ l) =
    let rest = remove_pending mid l in if pr.0 == mid then rest else pr ∷ rest

-- A write through the reference that `find_pending_response` returns.
unfoldable pub write_pending : MessageId → Behavior → List PendingResponse → List PendingResponse
write_pending mid bhvr [] = []
write_pending mid bhvr (pr ∷ l) =
    let rest = write_pending mid bhvr l in if pr.0 == mid then (pr.0, bhvr) ∷ l else pr ∷ rest

unfoldable pub new_request_id : LocalActor → MessagePriority → MessageId × LocalActor
new_request_id s mp =
    let result = increment s.last_request_id in
    let s' = record s {
      last_request_id = result;
      pending_responses = (response_id result, no_behavior) ∷ s.pending_responses;
    } in
    elim mp [ normal ↦ (result, s') | high ↦ (with_high_priority result, s') ]

unfoldable pub mark_arrived : LocalActor → MessageId → LocalActor
unfolding remove_pending
mark_arrived s mid = record s { pending_responses = remove_pending mid s.pending_responses }

unfoldable pub awaits_response : LocalActor → Bool
awaits_response s = not (null s.pending_responses)

unfoldable pub awaits : LocalActor → MessageId → Bool
unfolding any_pending
awaits s mid = any_pending mid s.pending_responses

unfoldable pub find_pending_response : LocalActor → MessageId → Option Behavior
unfolding find_pending
find_pending_response s mid = find_pending mid s.pending_responses

-- `request_sync_timeout_msg`
unfoldable pub request_sync_timeout_msg : LocalActor → Duration → MessageId → LocalActor
request_sync_timeout_msg s d mid =
    let msg : MailboxElement = record {
      sender = some s.address;
      mid = mid;
      msg = sync_timeout_msg;
    } in
    if valid_duration d then emit s (delayed d s.address msg) else s

unfoldable pub set_response_handler : LocalActor → MessageId → Behavior → LocalActor
unfolding find_pending_response request_sync_timeout_msg write_pending
set_response_handler s response_id bhvr = elim (find_pending_response s response_id) [
  | none ↦ s
  | some old ↦
      let s' = with_timeout (timeout bhvr) s (λ d. request_sync_timeout_msg s d response_id) in
      record s' { pending_responses = write_pending response_id bhvr s'.pending_responses }
]

-- `pending_responses_.front().second`; on an empty list the code is undefined.
abbrev pub front_handler : List PendingResponse → Behavior
front_handler [] = no_behavior
front_handler (pr ∷ l) = pr.1

abbrev pub front_id : List PendingResponse → MessageId
front_id [] = invalid_message_id
front_id (pr ∷ l) = pr.0

abbrev pub awaited_response_handler : LocalActor → Behavior
awaited_response_handler s = front_handler s.pending_responses

-- `awaited_response_id`; `message_id::make()` is the invalid ID.
abbrev pub awaited_response_id : LocalActor → MessageId
awaited_response_id s = front_id s.pending_responses
