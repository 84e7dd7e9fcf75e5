-- ===== src/Basp/Instance/Handshake.antt =====
-- The handshake of two instances.
use native.Mathlib.Nat.{mod-eq_of_lt}
use boost_actor.Common.{
  ℕ, ◌≡◌, ◌≢◌, ◌<◌, ◌^◌, ◌%◌, ◌∙◌, refl, ap, sym, Bool, true, false, List, [], ◌∷◌, ◌++◌, Option,
  none, some, ◌==◌, EqualityComparable, arith, length, nat_eq, map,
}
use boost_actor.Common.Assoc.{find, option_eq, option_beq_iff, find-assign, ==_self}
use boost_actor.Binary.{Bytes}
use boost_actor.Basp.Header.{Header, valid, is_handshake}
use boost_actor.Basp.Routing.{
  Handle, RoutingTable, RoutingEvent, Route, lookup_direct, add_direct, erase_indirect,
}
use boost_actor.Basp.Routing.Direct.{add_direct_fresh}
use boost_actor.Basp.Routing.Lookup.{lookup_connected}
use boost_actor.Basp.Routing.Keeps.{erase_indirect-SameConnections}
use boost_actor.Basp.Instance.Write.{server_handshake_of, write_client_handshake}
use boost_actor.Basp.Instance.{
  await_header, table, wrote, flushed, learned_new_node_directly, finalize_handshake, Interface,
  is_some, answer_handshake, handle_server_handshake, handle_client_handshake, handle_operation,
  handle_message, handle,
}
use boost_actor.Basp.Instance.Connections.{not_connected}
use boost_actor.Basp.Instance.Writes.{writes, writes-hooks}
use boost_actor.Basp.Instance.Exchange.{received, handle-received}

-- A published actor has an ID, and its interface some bytes, fewer than 4 GiB.
abbrev pub IsPublished : (Interface → Bytes) → Option Interface → Type 0
IsPublished interface_bytes none = Unit {0}
IsPublished interface_bytes (some pa) =
    (pa.0 ≢ 0) × (interface_bytes pa ≢ []) × (length (interface_bytes pa) < 2 ^ 32)

module _ {N : Type 0} ⦃e : EqualityComparable N⦄ where
  -- After a node is added as connected, and its indirect routes are erased, it is connected.
  connected_after :
      (t : RoutingTable N) (hdl : Handle) (nid : Option N)
      → find hdl t.direct_by_hdl ≡ none
      → is_some (lookup_direct t nid) ≡ false
      → lookup_direct (erase_indirect (add_direct t hdl nid).0 nid).1 nid ≡ some hdl
  unfolding lookup_direct
  connected_after t hdl nid h n =
      let t1 = (add_direct t hdl nid).0 in
      rw (
        (erase_indirect-SameConnections t1 nid).1,
        add_direct_fresh t hdl nid h (not_connected t nid n),
        find-assign nid nid hdl t.direct_by_nid,
        ==_self nid,
      )

  -- The table after a new direct connection.
  abbrev connected_table : Handle → RoutingTable N → N → RoutingTable N
  connected_table hdl t a = (erase_indirect (add_direct t hdl (some a)).0 (some a)).1

  published-valid :
      (a : N) (aid : ℕ) (bs : Bytes)
      → aid ≢ 0
      → bs ≢ []
      → length bs < 2 ^ 32
      → (valid {N = N} (record {
        operation = 0;
        payload_len = length bs % 2 ^ 32;
        operation_data = 1;
        source_node = some a;
        dest_node = none;
        source_actor = aid;
        dest_actor = 0;
      })
          ≡ true)
        × (length bs % 2 ^ 32 ≡ length bs)
  unfolding valid
  published-valid a aid [] z n h = absurd (n refl)
  published-valid a aid (b ∷ bs) z n h = (ground arith, mod-eq_of_lt h)

  server_handshake-valid :
      (interface_bytes : Interface → Bytes) (a : N) (pa : Option Interface)
      → IsPublished interface_bytes pa
      → let w = server_handshake_of interface_bytes (some a) pa in
        (valid w.0 ≡ true) × (w.0.payload_len ≡ length w.1)
  unfolding server_handshake_of valid
  server_handshake-valid interface_bytes a none p = (refl, refl)
  server_handshake-valid interface_bytes a (some pa) p =
      published-valid a pa.0 (interface_bytes pa) p.0 p.1 p.2

  server_handshake_parts :
      (interface_bytes : Interface → Bytes) (a : N) (pa : Option Interface)
      → let w = server_handshake_of interface_bytes (some a) pa in
        (w.0.operation ≡ 0) × (w.0.source_node ≡ some a)
  unfolding server_handshake_of
  server_handshake_parts interface_bytes a none = (refl, refl)
  server_handshake_parts interface_bytes a (some pa) = (refl, refl)

  module _ (header_bytes : Header N → Bytes) (read_interface : Bytes → Interface)
      (hdl : Handle) where
    answer_writes :
        (t : RoutingTable N) (b : N) (source : Option N) (path : Route N) (was : Bool)
        (actor : Interface) (hooks : List (RoutingEvent N))
        → writes
            (answer_handshake
              (some b)
              header_bytes
              read_interface
              (some path, t)
              hdl
              source
              was
              actor
              (map table hooks)).2
          ≡ (path.hdl, write_client_handshake (some b) source) ∷ []
    unfolding answer_handshake writes
    answer_writes t b source path was actor hooks = writes-hooks hooks (
        wrote path.hdl (write_client_handshake (some b) source)
        ∷ learned_new_node_directly source was
        ∷ finalize_handshake source actor
        ∷ flushed path.hdl
        ∷ [])

    -- How a server handshake from a node that is not connected is answered.
    answered :
        (t : RoutingTable N) (a b : N) (hdr : Header N) (payload : Option Bytes)
        → hdr.source_node ≡ some a
        → (some a == some b) ≡ false
        → find hdl t.direct_by_hdl ≡ none
        → is_some (lookup_direct t (some a)) ≡ false
        → let r = handle_server_handshake (some b) header_bytes read_interface t hdl hdr payload in
          (r.0 ≡ await_header)
          × (r.1 ≡ connected_table hdl t a)
          × (writes r.2 ≡ (hdl, write_client_handshake (some b) (some a)) ∷ [])
    unfolding handle_server_handshake answer_handshake
    answered t a b hdr payload s d h n =
        let path =
          lookup_connected (connected_table hdl t a) (some a) hdl
            (connected_after t hdl (some a) h n) in
        rw (s, d, n, path)
          (
            refl,
            refl,
            answer_writes (connected_table hdl t a) b (some a)
                (record { next_hop = some a; hdl = hdl }) _ _
                ((add_direct t hdl (some a)).1
                  ++ (erase_indirect (add_direct t hdl (some a)).0 (some a)).2),
          )

    client_answered :
        (t : RoutingTable N) (a b : N)
        → is_some (lookup_direct t (some b)) ≡ false
        → let w = write_client_handshake (some b) (some a) in
          let r = handle_client_handshake (some a) header_bytes read_interface t hdl w.0 in
          (r.0 ≡ await_header) × (r.1 ≡ connected_table hdl t b)
    unfolding handle_client_handshake write_client_handshake
    client_answered t a b n = rw n (refl, refl)

  module _ (header_bytes : Header N → Bytes) (read_interface : Bytes → Interface) (a b : N) where
    server_handled :
        (interface_bytes : Interface → Bytes) (pa : Option Interface) (t : RoutingTable N)
        (hdl : Handle)
        → (some a == some b) ≡ false
        → IsPublished interface_bytes pa
        → find hdl t.direct_by_hdl ≡ none
        → is_some (lookup_direct t (some a)) ≡ false
        → let w = server_handshake_of interface_bytes (some a) pa in
          let r = handle (some b) header_bytes read_interface t hdl w.0 (received w) in
          (r.0 ≡ await_header)
          × (r.1 ≡ connected_table hdl t a)
          × (writes r.2 ≡ (hdl, write_client_handshake (some b) (some a)) ∷ [])
    unfolding handle_message handle_operation is_handshake
    server_handled interface_bytes pa t hdl d p f n =
        let w = server_handshake_of interface_bytes (some a) pa in
        let v = server_handshake-valid interface_bytes a pa p in
        let parts = server_handshake_parts interface_bytes a pa in
        rw
          (
            handle-received (some b) header_bytes read_interface t hdl w (sym v.1),
            handle_message,
            v.0,
            parts.0,
          )
          (answered header_bytes read_interface hdl t a b w.0 (received w) parts.1 d f n)

    client_handled :
        (t : RoutingTable N) (hdl : Handle)
        → (some a == some b) ≡ false
        → is_some (lookup_direct t (some b)) ≡ false
        → let w = write_client_handshake (some b) (some a) in
          let r = handle (some a) header_bytes read_interface t hdl w.0 (received w) in
          (r.0 ≡ await_header) × (r.1 ≡ connected_table hdl t b)
    unfolding handle handle_message handle_operation is_handshake write_client_handshake valid
    client_handled t hdl d n =
        let w = write_client_handshake (some b) (some a) in
        let differ : (some b == some a) ≡ false =
          ground (arith, option_beq_iff (some a) (some b), option_beq_iff (some b) (some a), d) in
        rw differ (client_answered header_bytes read_interface hdl t a b n)

    -- Two instances on different nodes that are not connected, and a new connection between them,
    -- `h_b` on the one side and `h_a` on the other: node `b` answers the server handshake of node
    -- `a`, whether an actor is published or not, with exactly one client handshake over that
    -- connection, and after this is handled each node has the other as connected over it. Both
    -- go on to await headers.
    pub handshake_connects :
        (interface_bytes : Interface → Bytes) (pa : Option Interface) (t_a t_b : RoutingTable N)
        (h_a h_b : Handle)
        → (some a == some b) ≡ false
        → IsPublished interface_bytes pa
        → find h_a t_a.direct_by_hdl ≡ none
        → find h_b t_b.direct_by_hdl ≡ none
        → is_some (lookup_direct t_a (some b)) ≡ false
        → is_some (lookup_direct t_b (some a)) ≡ false
        → let w = server_handshake_of interface_bytes (some a) pa in
          let reply = write_client_handshake (some b) (some a) in
          let at_b = handle (some b) header_bytes read_interface t_b h_b w.0 (received w) in
          let at_a = handle (some a) header_bytes read_interface t_a h_a reply.0 (received reply) in
          (at_b.0 ≡ await_header)
          × (lookup_direct at_b.1 (some a) ≡ some h_b)
          × (writes at_b.2 ≡ (h_b, reply) ∷ [])
          × (at_a.0 ≡ await_header)
          × (lookup_direct at_a.1 (some b) ≡ some h_a)
    handshake_connects interface_bytes pa t_a t_b h_a h_b d p f_a f_b n_a n_b =
        let (s_b, c_b, w_b) = server_handled interface_bytes pa t_b h_b d p f_b n_b in
        let (s_a, c_a) = client_handled t_a h_a d n_a in
        (
          s_b,
          ap (λ t. lookup_direct t (some a)) c_b ∙ connected_after t_b h_b (some a) f_b n_b,
          w_b,
          s_a,
          ap (λ t. lookup_direct t (some b)) c_a ∙ connected_after t_a h_a (some b) f_a n_a,
        )

    keeps_first :
        (t : RoutingTable N) (hdl : Handle) (nid : Option N)
        → find hdl t.direct_by_hdl ≡ some nid
        → is_some (lookup_direct t (some b)) ≡ false
        → let t' = connected_table hdl t b in
          (find (some b) t'.direct_by_nid ≡ some hdl) × (find hdl t'.direct_by_hdl ≡ some nid)
    unfolding add_direct
    keeps_first t hdl nid f n =
        let same = erase_indirect-SameConnections (add_direct t hdl (some b)).0 (some b) in
        rw
          (
            same.0,
            same.1,
            add_direct,
            f,
            not_connected t (some b) n,
            find-assign (some b) (some b) hdl t.direct_by_nid,
            ==_self b,
          )
          (refl, f)

    -- A second client handshake over a connection that has a node already, from another node that
    -- is not connected, is accepted: the new node is then found with that connection, while the
    -- connection is still found with the first node.
    pub second_handshake :
        (t : RoutingTable N) (hdl : Handle) (nid : Option N)
        → (some a == some b) ≡ false
        → find hdl t.direct_by_hdl ≡ some nid
        → is_some (lookup_direct t (some b)) ≡ false
        → let w = write_client_handshake (some b) (some a) in
          let r = handle (some a) header_bytes read_interface t hdl w.0 (received w) in
          (r.0 ≡ await_header)
          × (find (some b) r.1.direct_by_nid ≡ some hdl)
          × (find hdl r.1.direct_by_hdl ≡ some nid)
    second_handshake t hdl nid d f n =
        let (s, c) = client_handled t hdl d n in
        rw (s, c) (refl, (keeps_first t hdl nid f n).0, (keeps_first t hdl nid f n).1)
