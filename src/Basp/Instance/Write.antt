-- ===== src/Basp/Instance/Write.antt =====
-- What `instance` writes: the header that goes before the payload, and the payload.
use boost_actor.Common.{ℕ, ◌%◌, ◌^◌, List, [], ◌++◌, Option, none, some, length, nat_eq}
use boost_actor.Common.Assoc.{find}
use boost_actor.Binary.{Bytes}
use boost_actor.Basp.Header.{Header, version, invalid_actor_id}

abbrev pub Written : Type 0 → Type 0
Written N = Header N × Bytes

-- `enum class error : uint64_t`
abbrev pub no_route_to_destination : ℕ
no_route_to_destination = 1

abbrev pub loop_detected : ℕ
loop_detected = 2

-- The published actor on a port: its ID and its interface.
abbrev pub Published : Type 0
Published = List (ℕ × (ℕ × List Bytes))

abbrev pub published_on : Published → Option ℕ → Option (ℕ × List Bytes)
published_on published_actors none = none
published_on published_actors (some port) = find port published_actors

module _ {N : Type 0} where
  -- `write(buffer_type&, message_type, …, payload_writer*)`: the size of what the writer wrote
  -- goes into the header, and 0 without a writer.
  unfoldable pub write : Header N → Option Bytes → Written N
  write hdr none = (record hdr { payload_len = 0 }, [])
  write hdr (some payload) = (record hdr { payload_len = length payload % 2 ^ 32 }, payload)

  -- The second half of `write_server_handshake`, on the actor found.
  unfoldable pub server_handshake_of :
      (ℕ × List Bytes → Bytes) → Option N → Option (ℕ × List Bytes) → Written N
  unfolding write
  server_handshake_of interface_bytes this_node none =
      write
        (record {
          operation = 0;
          payload_len = 0;
          operation_data = version;
          source_node = this_node;
          dest_node = none;
          source_actor = invalid_actor_id;
          dest_actor = invalid_actor_id;
        })
        (some [])
  server_handshake_of interface_bytes this_node (some pa) =
      write
        (record {
          operation = 0;
          payload_len = 0;
          operation_data = version;
          source_node = this_node;
          dest_node = none;
          source_actor = pa.0;
          dest_actor = invalid_actor_id;
        })
        (some (interface_bytes pa))

  unfoldable pub write_server_handshake :
      (ℕ × List Bytes → Bytes) → Option N → Published → Option ℕ → Written N
  unfolding server_handshake_of
  write_server_handshake interface_bytes this_node published_actors port =
      server_handshake_of interface_bytes this_node (published_on published_actors port)

  unfoldable pub write_client_handshake : Option N → Option N → Written N
  unfolding write
  write_client_handshake this_node remote_side =
      write
        (record {
          operation = 1;
          payload_len = 0;
          operation_data = 0;
          source_node = this_node;
          dest_node = remote_side;
          source_actor = invalid_actor_id;
          dest_actor = invalid_actor_id;
        })
        none

  unfoldable pub write_dispatch_error :
      (Header N → Bytes) → Option N → Option N → ℕ → Header N → Option Bytes → Written N
  unfolding write
  write_dispatch_error header_bytes source_node dest_node error_code original_hdr payload =
      write
        (record {
          operation = 4;
          payload_len = 0;
          operation_data = error_code;
          source_node = source_node;
          dest_node = dest_node;
          source_actor = invalid_actor_id;
          dest_actor = invalid_actor_id;
        })
        (some (header_bytes original_hdr ++ elim payload [ none ↦ [] | some bytes ↦ bytes ]))

  unfoldable pub write_kill_proxy_instance : Option N → Option N → ℕ → ℕ → Written N
  unfolding write
  write_kill_proxy_instance this_node dest_node aid rsn =
      write
        (record {
          operation = 4;
          payload_len = 0;
          operation_data = rsn;
          source_node = this_node;
          dest_node = dest_node;
          source_actor = aid;
          dest_actor = invalid_actor_id;
        })
        none

  -- The header and payload that `dispatch` writes.
  unfoldable pub write_dispatch :
      Option N → Option (Option N × ℕ) → Option N × ℕ → ℕ → Bytes → Written N
  unfolding write
  write_dispatch this_node sender receiver mid msg =
      write
        (record {
          operation = 2;
          payload_len = 0;
          operation_data = mid;
          source_node = elim sender [ none ↦ this_node | some addr ↦ addr.0 ];
          dest_node = receiver.0;
          source_actor = elim sender [ none ↦ invalid_actor_id | some addr ↦ addr.1 ];
          dest_actor = receiver.1;
        })
        (some msg)
