-- ===== src/Basp/Instance.antt =====
-- libboost_actor_io/src/basp.cpp: `instance`, the handling and writing of messages. The calls of
-- the broker (`callee_`), the hooks, and what is put into write buffers are events, in the order
-- made. The header is taken as `read_hdr` leaves it; the bytes of a header and the payload of a
-- handshake are given by the parameters.
pub mod Write
pub mod Connections
pub mod Exchange
pub mod Writes
pub mod Handshake
pub mod Publishing
mod Tests
use boost_actor.Common.{
  ℕ, ◌+◌, ◌%◌, ◌^◌, Bool, true, false, ◌&&◌, not, List, [], ◌∷◌, ◌++◌, Option, none, some,
  if◌then◌else◌, ◌==◌, EqualityComparable, nat_eq, length, map,
}
use boost_actor.Common.Assoc.{option_eq}
use boost_actor.Binary.{Bytes}
use boost_actor.Basp.Header.{
  Header, MessageType, server_handshake, client_handshake, dispatch_message,
  announce_proxy_instance, kill_proxy_instance, unknown, type_of, valid, valid_node, is_handshake,
}
use boost_actor.Basp.Routing.{
  Handle, RoutingTable, RoutingEvent, Route, lookup, lookup_direct, lookup_direct_hdl, add_direct,
  add_indirect, erase_direct, erase_indirect, erase_node,
}
use Write.{
  Written, write_dispatch, write_client_handshake, write_dispatch_error, no_route_to_destination,
}

pub data ConnectionState : Type 0 where
  await_header await_payload close_connection : ConnectionState

-- An actor's ID and its messaging interface, as a handshake has them.
abbrev pub Interface : Type 0
Interface = ℕ × List Bytes

-- `actor_addr`: a node and the ID of an actor there.
abbrev pub Address : Type 0 → Type 0
Address N = Option N × ℕ

-- `table` is a hook of the routing table; its `called` is `callee_.purge_state`.
pub data Event (N : Type 0) : Type 0 where
  table : RoutingEvent N → Event N
  wrote : Handle → Written N → Event N
  flushed : Handle → Event N
  message_forwarded message_forwarding_failed : Header N → Option Bytes → Event N
  finalize_handshake : Option N → Interface → Event N
  learned_new_node_directly : Option N → Bool → Event N
  learned_new_node_indirectly : Option N → Event N
  message_sent : Option (Address N) → Option N → Address N → ℕ → Bytes → Event N
  message_sending_failed : Option (Address N) → Address N → ℕ → Bytes → Event N
  deliver : Option N → ℕ → Option N → ℕ → Bytes → ℕ → Event N
  proxy_announced : Option N → ℕ → Event N
  kill_proxy : Option N → ℕ → ℕ → Event N

abbrev pub is_some : {A : Type 0} → Option A → Bool
is_some none = false
is_some (some a) = true

abbrev pub Result : Type 0 → Type 0
Result N = ConnectionState × RoutingTable N × List (Event N)

abbrev pub payload_bytes : Option Bytes → Bytes
payload_bytes none = []
payload_bytes (some payload) = payload

module _ {N : Type 0} ⦃e : EqualityComparable N⦄ where
  -- The function object `err`, called after the events given.
  unfoldable pub err : RoutingTable N → Handle → List (Event N) → Result N
  err t hdl before =
      let (t', events) = erase_direct t hdl in (close_connection, t', before ++ map table events)

  -- `payload != nullptr && payload->size() == hdr.payload_len`
  unfoldable pub payload_valid : Header N → Option Bytes → Bool
  payload_valid hdr none = false
  payload_valid hdr (some payload) = length payload == hdr.payload_len

  module _ (this_node : Option N) (header_bytes : Header N → Bytes)
      (read_interface : Bytes → Interface) where
    -- What is done without a route to the destination, given the way back to the source.
    unfoldable pub report_failure :
        RoutingTable N → Option (Route N) → Header N → Option Bytes → Result N
    report_failure t none hdr payload =
        (await_header, t, message_forwarding_failed hdr payload ∷ [])
    report_failure t (some back) hdr payload = (
      await_header,
      t,
      wrote back.hdl (
            write_dispatch_error header_bytes this_node hdr.source_node no_route_to_destination hdr
              payload)
          ∷ message_forwarding_failed hdr payload
          ∷ [],
    )

    -- A message for another node, given what `lookup` found.
    unfoldable pub forward_over :
        Option (Route N) × RoutingTable N → Header N → Option Bytes → Result N
    forward_over (some path, t) hdr payload = (
      await_header,
      t,
      wrote path.hdl (hdr, payload_bytes payload)
          ∷ flushed path.hdl
          ∷ message_forwarded hdr payload
          ∷ [],
    )
    forward_over (none, t) hdr payload =
        if hdr.source_node == this_node
        then report_failure t none hdr payload
        else (let (back, t') = lookup t hdr.source_node in report_failure t' back hdr payload)

    unfoldable pub forward : RoutingTable N → Header N → Option Bytes → Result N
    forward t hdr payload = forward_over (lookup t hdr.dest_node) hdr payload

    -- The end of a server handshake from a node that was not connected.
    unfoldable pub answer_handshake :
        Option (Route N) × RoutingTable N
        → Handle
        → Option N
        → Bool
        → Interface
        → List (Event N)
        → Result N
    answer_handshake (none, t) hdl source was_indirect actor before = err t hdl before
    answer_handshake (some path, t) hdl source was_indirect actor before = (
      await_header,
      t,
      before
          ++ wrote path.hdl (write_client_handshake this_node source)
            ∷ learned_new_node_directly source was_indirect
            ∷ finalize_handshake source actor
            ∷ flushed path.hdl
            ∷ [],
    )

    unfoldable pub handle_server_handshake :
        RoutingTable N → Handle → Header N → Option Bytes → Result N
    handle_server_handshake t hdl hdr payload =
        let actor =
          (if payload_valid hdr payload then read_interface (payload_bytes payload) else (0, [])) in
        if hdr.source_node == this_node
        then err t hdl (finalize_handshake hdr.source_node actor ∷ [])
        else (if is_some (lookup_direct t hdr.source_node)
            then err t hdl (finalize_handshake hdr.source_node actor ∷ [])
            else (let (t1, added) = add_direct t hdl hdr.source_node in
                let (was_indirect, t2, erased) = erase_indirect t1 hdr.source_node in
                answer_handshake (lookup t2 hdr.source_node) hdl hdr.source_node was_indirect actor
                  (map table (added ++ erased))))

    unfoldable pub handle_client_handshake : RoutingTable N → Handle → Header N → Result N
    handle_client_handshake t hdl hdr =
        if is_some (lookup_direct t hdr.source_node)
        then (await_header, t, [])
        else (let (t1, added) = add_direct t hdl hdr.source_node in
            let (was_indirect, t2, erased) = erase_indirect t1 hdr.source_node in
            (
              await_header,
              t2,
              map table (added ++ erased)
                  ++ learned_new_node_directly hdr.source_node was_indirect ∷ [],
            ))

    -- Whether a message that came over another node teaches a route to its source.
    unfoldable pub learns : RoutingTable N → Handle → Option N → Bool
    learns t hdl source =
        valid_node source
        && not (source == this_node)
        && not (lookup_direct_hdl t hdl == source)
        && not (is_some (lookup_direct t source))

    unfoldable pub learn : RoutingTable N → Handle → Option N → RoutingTable N × List (Event N)
    learn t hdl source =
        if learns t hdl source
        then (let (is_new, t', events) = add_indirect t (lookup_direct_hdl t hdl) source in
            (
              t',
              map table events ++ (if is_new then learned_new_node_indirectly source ∷ [] else []),
            ))
        else (t, [])

    unfoldable pub handle_dispatch : RoutingTable N → Handle → Header N → Option Bytes → Result N
    handle_dispatch t hdl hdr payload =
        if payload_valid hdr payload
        then (let (t', events) = learn t hdl hdr.source_node in
            (
              await_header,
              t',
              events
                  ++ deliver hdr.source_node hdr.source_actor hdr.dest_node hdr.dest_actor
                      (payload_bytes payload) hdr.operation_data
                    ∷ [],
            ))
        else err t hdl []

    -- The `switch` over the operation.
    unfoldable pub handle_operation :
        MessageType → RoutingTable N → Handle → Header N → Option Bytes → Result N
    handle_operation server_handshake t hdl hdr payload = handle_server_handshake t hdl hdr payload
    handle_operation client_handshake t hdl hdr payload = handle_client_handshake t hdl hdr
    handle_operation dispatch_message t hdl hdr payload = handle_dispatch t hdl hdr payload
    handle_operation announce_proxy_instance t hdl hdr payload =
        (await_header, t, proxy_announced hdr.source_node hdr.dest_actor ∷ [])
    handle_operation kill_proxy_instance t hdl hdr payload = (
      await_header,
      t,
      kill_proxy hdr.source_node hdr.source_actor (hdr.operation_data % 2 ^ 32) ∷ [],
    )
    handle_operation unknown t hdl hdr payload = err t hdl []

    -- What follows once header and payload are there.
    unfoldable pub handle_message : RoutingTable N → Handle → Header N → Option Bytes → Result N
    handle_message t hdl hdr payload =
        if valid hdr
        then (if not (is_handshake hdr) && not (hdr.dest_node == this_node)
            then forward t hdr payload
            else handle_operation (type_of hdr.operation) t hdl hdr payload)
        else err t hdl []

    -- `handle(const new_data_msg&, header&, bool)`; without a payload `hdr` was just read.
    unfoldable pub handle : RoutingTable N → Handle → Header N → Option Bytes → Result N
    handle t hdl hdr none =
        if hdr.payload_len == 0 then handle_message t hdl hdr none else (await_payload, t, [])
    handle t hdl hdr (some payload) =
        if length payload == hdr.payload_len
        then handle_message t hdl hdr (some payload)
        else err t hdl []

    -- `handle(const connection_closed_msg&)`
    unfoldable pub handle_connection_closed :
        RoutingTable N → Handle → RoutingTable N × List (Event N)
    handle_connection_closed t hdl = let (t', events) = erase_direct t hdl in (t', map table events)

    unfoldable pub handle_node_shutdown :
        RoutingTable N → Option N → RoutingTable N × List (Event N)
    handle_node_shutdown t affected_node =
        if valid_node affected_node
        then (let (n, t', events) = erase_node t affected_node in (t', map table events))
        else (t, [])

    -- The second half of `dispatch`, on what `lookup` found.
    unfoldable pub dispatch_over :
        Option (Route N) × RoutingTable N
        → Option (Address N)
        → Address N
        → ℕ
        → Bytes
        → Bool × RoutingTable N × List (Event N)
    dispatch_over (none, t) sender receiver mid msg =
        (false, t, message_sending_failed sender receiver mid msg ∷ [])
    dispatch_over (some path, t) sender receiver mid msg = (
      true,
      t,
      wrote path.hdl (write_dispatch this_node sender receiver mid msg)
          ∷ flushed path.hdl
          ∷ message_sent sender path.next_hop receiver mid msg
          ∷ [],
    )

    -- `dispatch`; `msg` is the message as the writer serializes it.
    unfoldable pub dispatch :
        RoutingTable N
        → Option (Address N)
        → Address N
        → ℕ
        → Bytes
        → Bool × RoutingTable N × List (Event N)
    dispatch t sender receiver mid msg = dispatch_over (lookup t receiver.0) sender receiver mid msg
