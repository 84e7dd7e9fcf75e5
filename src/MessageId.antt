-- ===== src/MessageId.antt =====
-- libboost_actor_core/boost/actor/message_id.hpp: the 64-bit message ID with its three flag bits.
-- An ID is its integer value. The masks select bits 63, 62, 61 and 0 to 60, so that `&` and `|`
-- by one of them are written as `/` and `%` by a power of two.
pub mod Laws
mod Tests
use boost_actor.Common.{
  ℕ, ◌+◌, ◌-◌, ◌*◌, ◌/◌, ◌%◌, ◌^◌, Bool, true, false, ◌&&◌, not, if◌then◌else◌, ◌==◌, ltb,
}
use boost_actor.Common.{nat_eq}
use boost_actor.Common.Int.{ℤ, pos, negsuc}

-- Bits of the masks: response_flag_mask, answered_flag_mask, high_prioity_flag_mask.
abbrev pub response_bit : ℕ
response_bit = 63

abbrev pub answered_bit : ℕ
answered_bit = 62

abbrev pub high_priority_bit : ℕ
high_priority_bit = 61

-- `(value & (1 << k)) != 0`
abbrev pub test_bit : ℕ → ℕ → Bool
test_bit k v = not ((v / 2 ^ k) % 2 == 0)

-- `value | (1 << k)`
abbrev pub set_bit : ℕ → ℕ → ℕ
set_bit k v = if test_bit k v then v else v + 2 ^ k

-- `value & ~(1 << k)`
abbrev pub clear_bit : ℕ → ℕ → ℕ
clear_bit k v = if test_bit k v then v - 2 ^ k else v

-- message_priority.hpp
pub data MessagePriority : Type 0 where
  normal high : MessagePriority

abbrev pub MessageId : Type 0
MessageId = ℕ

-- The constructors `message_id()` and `message_id(invalid_message_id_t)`.
abbrev pub invalid_message_id : MessageId
invalid_message_id = 0

-- `operator++`
unfoldable pub increment : MessageId → MessageId
increment v = (v + 1) % 2 ^ 64

unfoldable pub is_response : MessageId → Bool
is_response v = test_bit response_bit v

unfoldable pub is_answered : MessageId → Bool
is_answered v = test_bit answered_bit v

unfoldable pub is_high_priority : MessageId → Bool
is_high_priority v = test_bit high_priority_bit v

-- `(value_ & request_id_mask) != 0`
unfoldable pub valid : MessageId → Bool
valid v = not (v % 2 ^ 61 == 0)

unfoldable pub is_request : MessageId → Bool
unfolding valid is_response
is_request v = valid v && not (is_response v)

unfoldable pub response_id : MessageId → MessageId
unfolding is_request
response_id v = if is_request v then set_bit response_bit v else 0

pub request_id : MessageId → MessageId
request_id v = v % 2 ^ 61

unfoldable pub with_high_priority : MessageId → MessageId
with_high_priority v = set_bit high_priority_bit v

pub with_normal_priority : MessageId → MessageId
with_normal_priority v = clear_bit high_priority_bit v

pub mark_as_answered : MessageId → MessageId
mark_as_answered v = set_bit answered_bit v

unfoldable pub make : MessagePriority → MessageId
unfolding with_high_priority
make high = with_high_priority 0
make normal = 0

pub compare : MessageId → MessageId → ℤ
compare a b = if a == b then pos 0 else (if ltb a b then negsuc 0 else pos 1)
