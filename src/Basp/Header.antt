-- ===== src/Basp/Header.antt =====
-- The header of a BASP message and its validity.
pub mod Wire
mod Tests
use boost_actor.Common.{
  ℕ, zero, suc, Bool, true, false, ◌&&◌, ◌||◌, not, Option, none, some, ◌==◌, EqualityComparable,
  nat_eq,
}
use boost_actor.Common.Assoc.{option_eq, option_beq}

-- `enum class message_type : uint32_t`; any other number is `unknown`.
pub data MessageType : Type 0 where
  server_handshake client_handshake dispatch_message : MessageType
  announce_proxy_instance kill_proxy_instance unknown : MessageType

abbrev pub type_of : ℕ → MessageType
type_of zero = server_handshake
type_of (suc zero) = client_handshake
type_of (suc (suc zero)) = dispatch_message
type_of (suc (suc (suc zero))) = announce_proxy_instance
type_of (suc (suc (suc (suc zero)))) = kill_proxy_instance
type_of (suc (suc (suc (suc (suc n))))) = unknown

abbrev pub version : ℕ
version = 1

abbrev pub invalid_actor_id : ℕ
invalid_actor_id = 0

-- `operation` is the number of the message type.
pub record Header (N : Type 0) : Type 0 where
  pub operation : ℕ
  pub payload_len : ℕ
  pub operation_data : ℕ
  pub source_node : Option N
  pub dest_node : Option N
  pub source_actor : ℕ
  pub dest_actor : ℕ

abbrev pub zero? : ℕ → Bool
zero? val = val == 0

-- `valid(const node_id&)`: `val != invalid_node_id`
abbrev pub valid_node : {N : Type 0} → Option N → Bool
valid_node none = false
valid_node (some n) = true

module _ {N : Type 0} ⦃e : EqualityComparable N⦄ where
  pub header_eq : Header N → Header N → Bool
  header_eq lhs rhs =
      lhs.operation == rhs.operation
      && lhs.payload_len == rhs.payload_len
      && lhs.operation_data == rhs.operation_data
      && lhs.source_node == rhs.source_node
      && lhs.dest_node == rhs.dest_node
      && lhs.source_actor == rhs.source_actor
      && lhs.dest_actor == rhs.dest_actor

  unfoldable pub server_handshake_valid : Header N → Bool
  server_handshake_valid hdr =
      valid_node hdr.source_node
      && not (valid_node hdr.dest_node)
      && zero? hdr.dest_actor
      && not (zero? hdr.operation_data)
      && (not (zero? hdr.source_actor) && not (zero? hdr.payload_len)
          || zero? hdr.source_actor && zero? hdr.payload_len)

  unfoldable pub client_handshake_valid : Header N → Bool
  client_handshake_valid hdr =
      valid_node hdr.source_node
      && valid_node hdr.dest_node
      && not (hdr.source_node == hdr.dest_node)
      && zero? hdr.source_actor
      && zero? hdr.dest_actor
      && zero? hdr.payload_len
      && zero? hdr.operation_data

  unfoldable pub dispatch_message_valid : Header N → Bool
  dispatch_message_valid hdr =
      valid_node hdr.dest_node && not (zero? hdr.dest_actor) && not (zero? hdr.payload_len)

  unfoldable pub announce_proxy_instance_valid : Header N → Bool
  announce_proxy_instance_valid hdr =
      valid_node hdr.source_node
      && valid_node hdr.dest_node
      && not (hdr.source_node == hdr.dest_node)
      && zero? hdr.source_actor
      && not (zero? hdr.dest_actor)
      && zero? hdr.payload_len
      && zero? hdr.operation_data

  unfoldable pub kill_proxy_instance_valid : Header N → Bool
  kill_proxy_instance_valid hdr =
      valid_node hdr.source_node
      && valid_node hdr.dest_node
      && not (hdr.source_node == hdr.dest_node)
      && not (zero? hdr.source_actor)
      && zero? hdr.dest_actor
      && zero? hdr.payload_len
      && not (zero? hdr.operation_data)

  unfoldable pub valid : Header N → Bool
  unfolding server_handshake_valid client_handshake_valid dispatch_message_valid
      announce_proxy_instance_valid kill_proxy_instance_valid
  valid hdr = elim (type_of hdr.operation) [
    | server_handshake ↦ server_handshake_valid hdr
    | client_handshake ↦ client_handshake_valid hdr
    | dispatch_message ↦ dispatch_message_valid hdr
    | announce_proxy_instance ↦ announce_proxy_instance_valid hdr
    | kill_proxy_instance ↦ kill_proxy_instance_valid hdr
    | unknown ↦ false
  ]

unfoldable pub is_handshake : {N : Type 0} → Header N → Bool
is_handshake hdr = hdr.operation == 0 || hdr.operation == 1
