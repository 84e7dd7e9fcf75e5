-- ===== src/MessageId/Laws.antt =====
-- What the flag operations of message_id.hpp do to an ID, on all 64-bit values.
use boost_actor.Common.{◌+◌, ◌^◌, ◌<◌, ◌≡◌, true, false, ◌↔◌, arith}
use boost_actor.Common.Int.{pos, negsuc}
use boost_actor.MessageId.{
  MessageId, increment, is_response, is_answered, is_high_priority, valid, is_request, response_id,
  request_id, with_high_priority, with_normal_priority, mark_as_answered, compare,
}

-- The response ID of a request is a valid response, and its request ID, its priority and its
-- answered flag are those of the request.
pub response_id-request :
    (v : MessageId)
    → v < 2 ^ 64
    → is_request v ≡ true
    → (is_response (response_id v) ≡ true)
      × (is_request (response_id v) ≡ false)
      × (valid (response_id v) ≡ true)
      × (request_id (response_id v) ≡ request_id v)
      × (is_high_priority (response_id v) ≡ is_high_priority v)
      × (is_answered (response_id v) ≡ is_answered v)
      × (response_id v < 2 ^ 64)
unfolding response_id is_request request_id is_high_priority is_answered valid is_response
response_id-request v b h = (
  ground arith,
  ground arith,
  ground arith,
  ground arith,
  ground arith,
  ground arith,
  ground arith,
)

-- What is no request, an asynchronous message or a response, has the invalid ID for a response,
-- and that is no request either.
pub response_id_other :
    (v : MessageId) → is_request v ≡ false → (response_id v ≡ 0) × (valid (response_id v) ≡ false)
unfolding response_id is_request valid
response_id_other v h = ground arith

-- The priority operations set and clear the priority alone: the other flags and the request ID
-- stay, and each of the two undoes the other.
pub priority_ops :
    (v : MessageId)
    → v < 2 ^ 64
    → (is_high_priority (with_high_priority v) ≡ true)
      × (is_high_priority (with_normal_priority v) ≡ false)
      × (with_normal_priority (with_high_priority v) ≡ with_normal_priority v)
      × (with_high_priority (with_normal_priority v) ≡ with_high_priority v)
      × (request_id (with_high_priority v) ≡ request_id v)
      × (request_id (with_normal_priority v) ≡ request_id v)
      × (is_response (with_high_priority v) ≡ is_response v)
      × (is_response (with_normal_priority v) ≡ is_response v)
      × (is_answered (with_high_priority v) ≡ is_answered v)
      × (is_answered (with_normal_priority v) ≡ is_answered v)
      × (with_high_priority v < 2 ^ 64)
      × (with_normal_priority v < 2 ^ 64)
unfolding with_high_priority with_normal_priority is_high_priority request_id is_response
    is_answered
priority_ops v b = (
  ground arith,
  ground arith,
  ground arith,
  ground arith,
  ground arith,
  ground arith,
  ground arith,
  ground arith,
  ground arith,
  ground arith,
  ground arith,
  ground arith,
)

-- Marking an ID as answered changes that flag alone, and a second time changes nothing.
pub mark_as_answered_ops :
    (v : MessageId)
    → v < 2 ^ 64
    → (is_answered (mark_as_answered v) ≡ true)
      × (mark_as_answered (mark_as_answered v) ≡ mark_as_answered v)
      × (request_id (mark_as_answered v) ≡ request_id v)
      × (is_request (mark_as_answered v) ≡ is_request v)
      × (is_high_priority (mark_as_answered v) ≡ is_high_priority v)
      × (mark_as_answered v < 2 ^ 64)
unfolding mark_as_answered is_high_priority request_id is_request is_answered
mark_as_answered_ops v b =
    (ground arith, ground arith, ground arith, ground arith, ground arith, ground arith)

-- Counting up from a request ID gives the next request ID with the same flags, as long as the
-- 61 bits of the request ID do not overflow.
pub increment-request_id :
    (v : MessageId)
    → v < 2 ^ 64
    → request_id v + 1 < 2 ^ 61
    → (request_id (increment v) ≡ request_id v + 1)
      × (is_response (increment v) ≡ is_response v)
      × (is_answered (increment v) ≡ is_answered v)
      × (is_high_priority (increment v) ≡ is_high_priority v)
unfolding increment request_id is_response is_answered is_high_priority
increment-request_id v b h = (ground arith, ground arith, ground arith, ground arith)

-- `compare` is 0 on equal values only, and changes its sign when its arguments are swapped.
pub compare_sign :
    (a b : MessageId)
    → ((compare a b ≡ pos 0) ↔ (a ≡ b))
      × ((compare a b ≡ negsuc 0) ↔ (a < b))
      × ((compare a b ≡ pos 1) ↔ (compare b a ≡ negsuc 0))
unfolding compare
compare_sign a b = (ground arith, ground arith, ground arith)
