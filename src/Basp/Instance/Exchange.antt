-- ===== src/Basp/Instance/Exchange.antt =====
-- What one instance writes, as another one handles it.
use native.Mathlib.Nat.{mod-eq_of_lt}
use boost_actor.Common.{
  ℕ, ◌≡◌, ◌≢◌, ◌<◌, ◌^◌, refl, sym, true, false, [], ◌∷◌, ◌++◌, Option, none, some, inl, inr, ◌==◌,
  EqualityComparable, Bool-cases, arith, length, nat_eq, if◌then◌else◌,
}
use boost_actor.Common.Assoc.{option_eq, ==_self}
use boost_actor.Binary.{Bytes}
use boost_actor.Basp.Header.{Header, valid, is_handshake}
use boost_actor.Basp.Routing.{Handle, RoutingTable, Route, lookup}
use boost_actor.Basp.Instance.Write.{
  write_kill_proxy_instance, Written, write_dispatch_error, write_dispatch,
}
use boost_actor.Basp.Instance.{
  await_header, kill_proxy, wrote, flushed, deliver, message_forwarded, Interface, err, forward,
  forward_over, learn, handle_dispatch, handle_operation, handle_message, handle, payload_valid,
}

-- The node and the actor that a message comes from, as its receiver is to be told them.
abbrev pub sending_node : {N : Type 0} → Option N → Option (Option N × ℕ) → Option N
sending_node source none = source
sending_node source (some addr) = addr.0

abbrev pub sending_actor : {N : Type 0} → Option (Option N × ℕ) → ℕ
sending_actor none = 0
sending_actor (some addr) = addr.1

module _ {N : Type 0} ⦃e : EqualityComparable N⦄ where
  -- What the other side has after reading the header: no payload is awaited for size 0.
  abbrev pub received : Written N → Option Bytes
  received w = if w.0.payload_len == 0 then none else some w.1

  module _ (this_node : Option N) (header_bytes : Header N → Bytes)
      (read_interface : Bytes → Interface) (t : RoutingTable N) (hdl : Handle) where
    pub handle-received :
        (w : Written N)
        → length w.1 ≡ w.0.payload_len
        → handle this_node header_bytes read_interface t hdl w.0 (received w)
          ≡ handle_message this_node header_bytes read_interface t hdl w.0 (received w)
    unfolding handle
    handle-received w h = elim (Bool-cases (w.0.payload_len == 0)) [
      | inl z ↦ rw (z, handle, z)
      | inr nz ↦ rw (nz, handle, h, ==_self w.0.payload_len)
    ]

    -- A node that receives the error for a message that could not be forwarded closes the
    -- connection, whatever the error and the message.
    pub handle-write_dispatch_error :
        (source_node : Option N) (error_code : ℕ) (hdr : Header N) (payload : Option Bytes)
        → let w = write_dispatch_error header_bytes source_node this_node error_code hdr payload in
          handle this_node header_bytes read_interface t hdl w.0 (received w) ≡ err t hdl []
    unfolding handle handle_message write_dispatch_error valid
    handle-write_dispatch_error source_node error_code hdr payload = ground arith

  -- Facts on the written headers. A payload is smaller than 4 GiB.
  write_dispatch-valid :
      (this_node : Option N) (sender : Option (Option N × ℕ)) (dest : N) (aid mid : ℕ) (msg : Bytes)
      → aid ≢ 0
      → msg ≢ []
      → length msg < 2 ^ 32
      → let w = write_dispatch this_node sender (some dest, aid) mid msg in
        (valid w.0 ≡ true) × (w.0.payload_len ≡ length msg) × ((w.0.payload_len == 0) ≡ false)
  unfolding write_dispatch valid
  write_dispatch-valid this_node sender dest aid mid [] a m h = absurd (m refl)
  write_dispatch-valid this_node sender dest aid mid (b ∷ msg) a m h =
      (ground arith, ground arith, ground arith)

  module _ (header_bytes : Header N → Bytes) (read_interface : Bytes → Interface)
      (t : RoutingTable N) (hdl : Handle) (source : Option N) (sender : Option (Option N × ℕ))
      (dest : N) (aid mid : ℕ) (msg : Bytes) (a : aid ≢ 0) (m : msg ≢ [])
      (h : length msg < 2 ^ 32) where
    abbrev message : Written N
    message = write_dispatch source sender (some dest, aid) mid msg

    message-handled :
        (this_node : Option N)
        → handle this_node header_bytes read_interface t hdl message.0 (received message)
          ≡ handle_message this_node header_bytes read_interface t hdl message.0 (some msg)
    unfolding write_dispatch
    message-handled this_node =
        let facts = write_dispatch-valid source sender dest aid mid msg a m h in
        rw (
          handle-received this_node header_bytes read_interface t hdl message (sym facts.1),
          facts.2,
        )

    -- A dispatched message with a receiver and a payload that is neither empty nor 4 GiB or more,
    -- when it reaches a node that is not its destination and has a route there: it is written to the
    -- connection of that route, header and payload as they came, and nothing of it is delivered.
    pub handle_write_dispatch_foreign :
        (this_node : Option N) (path : Route N) (t' : RoutingTable N)
        → (some dest == this_node) ≡ false
        → lookup t (some dest) ≡ (some path, t')
        → handle this_node header_bytes read_interface t hdl message.0 (received message) ≡ (
          await_header,
          t',
          wrote path.hdl message ∷ flushed path.hdl ∷ message_forwarded message.0 (some msg) ∷ [],
        )
    unfolding handle_message forward forward_over is_handshake write_dispatch
    handle_write_dispatch_foreign this_node path t' o l = rw (
      message-handled this_node,
      handle_message,
      (write_dispatch-valid source sender dest aid mid msg a m h).0,
      o,
      forward,
      l,
    )

    -- At its destination, a dispatched message with a receiver and a payload that is neither empty
    -- nor 4 GiB or more is delivered once, to the receiver that the sender named, with its ID and
    -- payload. It names the node and the ID of its sender, or, if it has none, the node that
    -- dispatched it and no actor; a route to that node may be learned from it.
    pub handle_write_dispatch_local :
        handle (some dest) header_bytes read_interface t hdl message.0 (received message) ≡ (
          let (t', events) =
            learn (some dest) header_bytes read_interface t hdl (sending_node source sender) in
          (
            await_header,
            t',
            events
                ++ deliver
                    (sending_node source sender)
                    (sending_actor sender)
                    (some dest)
                    aid
                    msg
                    mid
                  ∷ [],
          ))
    unfolding handle_message handle_operation handle_dispatch payload_valid is_handshake
        write_dispatch
    handle_write_dispatch_local =
        let facts = write_dispatch-valid source sender dest aid mid msg a m h in
        rw (
          message-handled (some dest),
          handle_message,
          facts.0,
          ==_self (some dest),
          handle_operation,
          handle_dispatch,
          mod-eq_of_lt h,
          ==_self (length msg),
        )

  -- A message that takes back a proxy, from another node, for an actor and with a reason of 32 bits
  -- that is not 0, is valid and calls `kill_proxy` with that node, actor and reason, and the table stays.
  pub handle-write_kill_proxy_instance :
      (header_bytes : Header N → Bytes) (read_interface : Bytes → Interface) (t : RoutingTable N)
      (hdl : Handle) (source dest : N) (aid rsn : ℕ)
      → (some source == some dest) ≡ false
      → aid ≢ 0
      → rsn ≢ 0
      → rsn < 2 ^ 32
      → let w = write_kill_proxy_instance (some source) (some dest) aid rsn in
        handle (some dest) header_bytes read_interface t hdl w.0 (received w)
        ≡ (await_header, t, kill_proxy (some source) aid rsn ∷ [])
  unfolding handle handle_message handle_operation is_handshake write_kill_proxy_instance valid
  handle-write_kill_proxy_instance header_bytes read_interface t hdl source dest aid rsn d a r h =
      ground (arith, mod-eq_of_lt h, ==_self (some dest))
