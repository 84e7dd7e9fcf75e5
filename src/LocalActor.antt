-- ===== src/LocalActor.antt =====
-- libboost_actor_core/src/local_actor.cpp and boost/actor/local_actor.hpp: the state of a
-- cooperatively scheduled actor, its mailbox elements, and what it does to others. Actors and
-- elements are numbers: an actor's address, an element's place in memory.
pub mod Priority
pub mod Requests
pub mod Timeouts
pub mod Handlers
pub mod Kept
pub mod Calls
pub mod Invoke
pub mod Resume
pub mod Loop
pub mod Scheduling
mod Example
mod Tests
use boost_actor.Common.{
  ℕ, suc, Bool, true, false, ◌&&◌, ◌||◌, not, List, [], ◌∷◌, ◌++◌, Option, none, some,
  if◌then◌else◌, ◌==◌, nat_eq, null,
}
use boost_actor.MessageId.{MessageId, is_response, is_high_priority}
use boost_actor.Mailbox.{SingleReaderQueue}
use boost_actor.AbstractActor

-- duration.hpp
pub data TimeUnit : Type 0 where
  invalid seconds milliseconds microseconds : TimeUnit

pub record Duration : Type 0 where
  pub unit : TimeUnit
  pub count : ℕ

abbrev pub valid_unit : TimeUnit → Bool
valid_unit invalid = false
valid_unit _ = true

-- `duration::valid`
abbrev pub valid_duration : Duration → Bool
valid_duration d = valid_unit d.unit

-- `duration::is_zero`
abbrev pub is_zero : Duration → Bool
is_zero d = d.count == 0

-- The constructor `duration()`
abbrev pub no_duration : Duration
no_duration = record { unit = invalid; count = 0 }

-- The string of a `{'SYS', 'GET', what}` message.
pub data Key : Type 0 where
  info : Key
  other_key : ℕ → Key

-- The messages that the runtime tells apart; `user` is the content of any other one. An actor
-- that migrates sends its saved state.
pub data Message : Type 0 where
  empty_message sync_timeout_msg not_serializable : Message
  timeout_msg : ℕ → Message
  exit_msg : Option ℕ → ℕ → Message
  sync_exited_msg : ℕ → ℕ → Message
  sys_get : Key → Message
  sys_migrate : ℕ → Message
  sys_load : ℕ → Message
  migrate : ℕ → Message
  ok_info : ℕ → Message
  unknown_key : Key → Message
  ok_moved : ℕ → Message
  error_text : ℕ → Message
  message_id_wrapper : MessageId → Message
  user : ℕ → Message

-- mailbox_element.hpp, the links and the mark of the lists left out
pub record MailboxElement : Type 0 where
  pub sender : Option ℕ
  pub mid : MessageId
  pub msg : Message

-- response_promise.hpp
pub record ResponsePromise : Type 0 where
  pub source : ℕ
  pub to : Option ℕ
  pub id : MessageId

-- `behavior`: none, user code with its timeout, or one that local_actor.cpp makes itself: for the
-- reply to a migration, for the actor that has migrated, and around another behavior whose result
-- goes to a promise.
pub data Behavior : Type 0 where
  no_behavior : Behavior
  handlers : ℕ → Duration → Behavior
  migration_reply : ℕ → MessageId → Behavior
  forwarder : ℕ → Behavior
  continuation : Behavior → ResponsePromise → Behavior

-- `behavior::timeout`: an empty behavior has no implementation, and the code asks the null pointer.
abbrev pub timeout : Behavior → Option Duration
timeout no_behavior = none
timeout (handlers code d) = some d
timeout _ = some no_duration

-- What an actor does to others: an element enqueued at another, a delayed send handed to the
-- scheduler, and what `abstract_actor::cleanup` sends.
pub data Event : Type 0 where
  sent : ℕ → MailboxElement → Event
  delayed : Duration → ℕ → MailboxElement → Event
  attached : AbstractActor.Event → Event

-- `behavior_stack`, the last element first
pub record BehaviorStack : Type 0 where
  pub elements : List Behavior
  pub erased_elements : List Behavior

unfoldable pub pop_back : BehaviorStack → BehaviorStack
pop_back s = elim s.elements [
  | [] ↦ s
  | b ∷ l ↦ record { elements = l; erased_elements = s.erased_elements ++ b ∷ [] }
]

pub record LocalActor : Type 0 where
  pub address : ℕ
  pub actors : AbstractActor.Store
  pub memory : ℕ → MailboxElement
  pub next_free : ℕ
  pub mailbox : SingleReaderQueue
  pub current_element : Option ℕ
  pub bhvr_stack : BehaviorStack
  pub pending_responses : List (MessageId × Behavior)
  pub last_request_id : MessageId
  pub planned_exit_reason : ℕ
  pub timeout_id : ℕ
  pub has_timeout : Bool
  pub trap_exit : Bool
  pub is_priority_aware : Bool
  pub is_migrated_from : Bool
  pub is_initialized : Bool
  pub is_registered : Bool
  pub state : ℕ
  pub outbox : List Event
  -- Not a member: the code went through a null pointer. What follows is then undefined, and the
  -- rest of the state tells nothing of it.
  pub undefined : Bool

-- What is done with the timeout of a behavior.
abbrev pub with_timeout : Option Duration → LocalActor → (Duration → LocalActor) → LocalActor
with_timeout none s f = record s { undefined = true }
with_timeout (some d) s f = f d

pub with_timeout_elim {κ} :
    (P : LocalActor → Type κ) (o : Option Duration) (s : LocalActor) (f : Duration → LocalActor)
    → P (record s { undefined = true })
    → ((d : Duration) → P (f d))
    → P (with_timeout o s f)
with_timeout_elim P none s f u w = u
with_timeout_elim P (some d) s f u w = w d

-- `abstract_actor::exit_reason`
abbrev pub exit_reason : LocalActor → ℕ
exit_reason s = (s.actors s.address).exit_reason

-- `is_serializable()`: its flag is the bit of `is_priority_aware()`.
abbrev pub is_serializable : LocalActor → Bool
is_serializable s = s.is_priority_aware

abbrev pub emit : LocalActor → Event → LocalActor
emit s e = record s { outbox = s.outbox ++ e ∷ [] }

-- A write to the element at an address.
abbrev pub write : (ℕ → MailboxElement) → ℕ → MailboxElement → ℕ → MailboxElement
write m a e k = if k == a then e else m k

abbrev pub has_behavior : LocalActor → Bool
has_behavior s = not (null s.bhvr_stack.elements) || not (null s.pending_responses)
