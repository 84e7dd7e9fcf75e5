-- ===== src/Basp/Instance/Connections.antt =====
-- `handle` and the table of connections.
use boost_actor.Common.{
  ℕ, zero, suc, ◌≡◌, ◌≢◌, refl, Bool, true, false, not, ◌&&◌, List, [], Option, none, some, inl,
  inr, ◌==◌, EqualityComparable, Bool-cases, arith, length, nat_eq,
}
use boost_actor.Common.Assoc.{find, option_eq}
use boost_actor.Binary.{Bytes}
use boost_actor.Basp.Header.{Header, type_of, valid, is_handshake}
use boost_actor.Basp.Routing.{
  Handle, RoutingTable, Route, lookup, lookup_direct, lookup_direct_hdl, add_direct, erase_indirect,
  add_indirect,
}
use boost_actor.Basp.Routing.Direct.{IsInverse, add_direct-IsInverse, erase_direct-IsInverse}
use boost_actor.Basp.Routing.Keeps.{
  SameConnections-IsInverse, lookup-SameConnections, erase_indirect-SameConnections,
  add_indirect-SameConnections, find-erase_direct,
}
use boost_actor.Basp.Instance.{
  ConnectionState, close_connection, Event, Result, Interface, is_some, err, report_failure,
  forward_over, forward, answer_handshake, handle_server_handshake, handle_client_handshake, learns,
  learn, handle_dispatch, handle_operation, handle_message, handle, payload_valid,
}

pub is_some-none : {A : Type 0} (o : Option A) → is_some o ≡ false → o ≡ none
is_some-none none h = refl
is_some-none (some a) h = absurd (ground arith)

module _ {N : Type 0} ⦃e : EqualityComparable N⦄ where
  -- The maps of connections are inverse, and a connection to be closed is not in them.
  abbrev Sound : Handle → Result N → Type 0
  Sound hdl r = IsInverse r.1 × (r.0 ≡ close_connection → find hdl r.1.direct_by_hdl ≡ none)

  stays-Sound :
      (t : RoutingTable N) (hdl : Handle) (s : ConnectionState) (events : List (Event N))
      → s ≢ close_connection
      → IsInverse t
      → Sound hdl (s, t, events)
  stays-Sound t hdl s events o v = (v, λ c. absurd (o c))

  err-Sound :
      (t : RoutingTable N) (hdl : Handle) (before : List (Event N))
      → IsInverse t
      → Sound hdl (err t hdl before)
  unfolding err
  err-Sound t hdl before v = (erase_direct-IsInverse t hdl v, λ c. find-erase_direct t hdl)

  lookup-IsInverse :
      (t : RoutingTable N) (target : Option N) → IsInverse t → IsInverse (lookup t target).1
  lookup-IsInverse t target v =
      SameConnections-IsInverse t (lookup t target).1 (lookup-SameConnections t target) v

  pub not_connected :
      (t : RoutingTable N) (nid : Option N)
      → is_some (lookup_direct t nid) ≡ false
      → find nid t.direct_by_nid ≡ none
  unfolding lookup_direct
  not_connected t nid h = is_some-none (find nid t.direct_by_nid) h

  -- The table after a handshake: the node connected, and its indirect routes gone.
  handshake-IsInverse :
      (t : RoutingTable N) (hdl : Handle) (nid : Option N)
      → IsInverse t
      → find hdl t.direct_by_hdl ≡ none
      → is_some (lookup_direct t nid) ≡ false
      → IsInverse (erase_indirect (add_direct t hdl nid).0 nid).1
  handshake-IsInverse t hdl nid v h n =
      let t1 = (add_direct t hdl nid).0 in
      SameConnections-IsInverse t1 (erase_indirect t1 nid).1 (erase_indirect-SameConnections t1 nid)
        (add_direct-IsInverse t hdl nid v h (not_connected t nid n))

  module _ (this_node : Option N) (header_bytes : Header N → Bytes)
      (read_interface : Bytes → Interface) (hdl : Handle) (hdr : Header N) where
    report_failure-Sound :
        (t : RoutingTable N) (back : Option (Route N)) (payload : Option Bytes)
        → IsInverse t
        → Sound hdl (report_failure this_node header_bytes read_interface t back hdr payload)
    unfolding report_failure
    report_failure-Sound t none payload v = (v, λ c. cc)
    report_failure-Sound t (some back) payload v = (v, λ c. cc)

    forward_over-Sound :
        (found : Option (Route N)) (t : RoutingTable N) (payload : Option Bytes)
        → IsInverse t
        → Sound hdl (forward_over this_node header_bytes read_interface (found, t) hdr payload)
    unfolding forward_over
    forward_over-Sound (some path) t payload v = (v, λ c. cc)
    forward_over-Sound none t payload v = elim (Bool-cases (hdr.source_node == this_node)) [
      | inl own ↦ rw own (report_failure-Sound t none payload v)
      | inr other ↦ rw other (
          report_failure-Sound (lookup t hdr.source_node).1 (lookup t hdr.source_node).0 payload
            (lookup-IsInverse t hdr.source_node v))
    ]

    forward-Sound :
        (t : RoutingTable N) (payload : Option Bytes)
        → IsInverse t
        → Sound hdl (forward this_node header_bytes read_interface t hdr payload)
    unfolding forward
    forward-Sound t payload v =
        forward_over-Sound (lookup t hdr.dest_node).0 (lookup t hdr.dest_node).1 payload
          (lookup-IsInverse t hdr.dest_node v)

    answer_handshake-Sound :
        (path : Option (Route N)) (t : RoutingTable N) (source : Option N) (was_indirect : Bool)
        (actor : Interface) (before : List (Event N))
        → IsInverse t
        → Sound hdl (
            answer_handshake this_node header_bytes read_interface
              (path, t)
              hdl
              source
              was_indirect
              actor
              before)
    unfolding answer_handshake
    answer_handshake-Sound none t source was_indirect actor before v = err-Sound t hdl before v
    answer_handshake-Sound (some path) t source was_indirect actor before v = (v, λ c. cc)

    module _ (t : RoutingTable N) (payload : Option Bytes) (v : IsInverse t) where
      server_handshake-Sound :
          find hdl t.direct_by_hdl ≡ none
          → Sound hdl
              (handle_server_handshake this_node header_bytes read_interface t hdl hdr payload)
      unfolding handle_server_handshake
      server_handshake-Sound h = elim (Bool-cases (hdr.source_node == this_node)) [
        | inl own ↦ rw own (err-Sound t hdl _ v)
        | inr other ↦ rw other (elim (Bool-cases (is_some (lookup_direct t hdr.source_node))) [
          | inl known ↦ rw known (err-Sound t hdl _ v)
          | inr new ↦ rw new (
              let t2 = (erase_indirect (add_direct t hdl hdr.source_node).0 hdr.source_node).1 in
              answer_handshake-Sound (lookup t2 hdr.source_node).0 (lookup t2 hdr.source_node).1
                hdr.source_node _ _ _
                (lookup-IsInverse t2 hdr.source_node
                  (handshake-IsInverse t hdl hdr.source_node v h new)))
        ])
      ]

      client_handshake-Sound :
          find hdl t.direct_by_hdl ≡ none
          → Sound hdl (handle_client_handshake this_node header_bytes read_interface t hdl hdr)
      unfolding handle_client_handshake
      client_handshake-Sound h = elim (Bool-cases (is_some (lookup_direct t hdr.source_node))) [
        | inl known ↦ rw known (v, λ c. cc)
        | inr new ↦ rw new (handshake-IsInverse t hdl hdr.source_node v h new, λ c. cc)
      ]

      learn-IsInverse :
          (source : Option N)
          → IsInverse (learn this_node header_bytes read_interface t hdl source).0
      unfolding learn
      learn-IsInverse source =
          elim (Bool-cases (learns this_node header_bytes read_interface t hdl source)) [
            | inl good ↦ rw good (
                SameConnections-IsInverse t (add_indirect t (lookup_direct_hdl t hdl) source).1
                  (add_indirect-SameConnections t (lookup_direct_hdl t hdl) source) v)
            | inr bad ↦ rw bad v
          ]

      dispatch-Sound :
          Sound hdl (handle_dispatch this_node header_bytes read_interface t hdl hdr payload)
      unfolding handle_dispatch
      dispatch-Sound = elim (Bool-cases (payload_valid hdr payload)) [
        | inl good ↦ rw good (learn-IsInverse hdr.source_node, λ c. cc)
        | inr bad ↦ rw bad (err-Sound t hdl [] v)
      ]

      -- A handshake comes over a connection that has no node yet.
      abbrev Fresh : Type 0
      Fresh = is_handshake hdr ≡ true → find hdl t.direct_by_hdl ≡ none

      operation-Sound :
          (n : ℕ)
          → hdr.operation ≡ n
          → Fresh
          → Sound hdl
              (handle_operation this_node header_bytes read_interface (type_of n) t hdl hdr payload)
      unfolding handle_operation is_handshake
      operation-Sound zero o f = server_handshake-Sound (f (rw o))
      operation-Sound (suc zero) o f = client_handshake-Sound (f (rw o))
      operation-Sound (suc (suc zero)) o f = dispatch-Sound
      operation-Sound (suc (suc (suc zero))) o f = (v, λ c. cc)
      operation-Sound (suc (suc (suc (suc zero)))) o f = (v, λ c. cc)
      operation-Sound (suc (suc (suc (suc (suc n))))) o f = err-Sound t hdl [] v

      message-Sound :
          Fresh → Sound hdl (handle_message this_node header_bytes read_interface t hdl hdr payload)
      unfolding handle_message
      message-Sound f = elim (Bool-cases (valid hdr)) [
        | inr bad ↦ rw bad (err-Sound t hdl [] v)
        | inl good ↦
            rw good
              (elim (Bool-cases (not (is_handshake hdr) && not (hdr.dest_node == this_node))) [
                | inl foreign ↦ rw foreign (forward-Sound t payload v)
                | inr here ↦ rw here (operation-Sound hdr.operation refl f)
              ])
      ]

    -- Whatever header and payload arrive, handling them keeps the two maps of connections inverse,
    -- and if the connection is to be closed then its handle is not found any more, provided that a
    -- handshake comes over a connection that has no node yet, as `add_direct` asserts.
    pub handle-Sound :
        (t : RoutingTable N) (payload : Option Bytes)
        → IsInverse t
        → (is_handshake hdr ≡ true → find hdl t.direct_by_hdl ≡ none)
        → let r = handle this_node header_bytes read_interface t hdl hdr payload in
          IsInverse r.1 × (r.0 ≡ close_connection → find hdl r.1.direct_by_hdl ≡ none)
    unfolding handle
    handle-Sound t none v f = elim (Bool-cases (hdr.payload_len == 0)) [
      | inl z ↦ rw z (message-Sound t none v f)
      | inr nz ↦ rw nz (v, λ c. cc)
    ]
    handle-Sound t (some payload) v f = elim (Bool-cases (length payload == hdr.payload_len)) [
      | inl fits ↦ rw fits (message-Sound t (some payload) v f)
      | inr not_all ↦ rw not_all (err-Sound t hdl [] v)
    ]
