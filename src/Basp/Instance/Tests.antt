-- ===== src/Basp/Instance/Tests.antt =====
-- Instances on nodes 1, 2 and 3: node 2 is connected to node 3 over handle 23, to node 1 over 21.
use boost_actor.Common.{ℕ, ◌≡◌, refl, arith, [], ◌∷◌, ◌++◌, Option, none, some, nat_eq, nat_beq_iff}
use boost_actor.Common.Assoc.{find, option_eq, option_beq_iff}
use boost_actor.Binary.{Bytes}
use boost_actor.Basp.Header.{Header}
use boost_actor.Basp.Routing.{RoutingTable, lookup, lookup_direct}
use boost_actor.Basp.Routing.Direct.{IsInverse}
use boost_actor.Basp.Instance.Write.{
  Written, write_dispatch, write_dispatch_error, write_client_handshake, write_kill_proxy_instance,
  server_handshake_of,
}
use boost_actor.Basp.Instance.{
  Interface, await_header, close_connection, wrote, flushed, message_forwarded, deliver, err, learn,
  handle,
}
use boost_actor.Basp.Instance.Connections.{handle-Sound}
use boost_actor.Basp.Instance.Exchange.{
  received, handle-write_dispatch_error, handle_write_dispatch_foreign, handle_write_dispatch_local,
}
use boost_actor.Basp.Instance.Writes.{writes}
use boost_actor.Basp.Instance.Handshake.{handshake_connects}
use boost_actor.Basp.Instance.Publishing.{PublishedActors}

abbrev node : ℕ → Option ℕ
node n = some n

abbrev header_bytes : Header ℕ → Bytes
header_bytes hdr = hdr.operation ∷ hdr.source_actor ∷ []

abbrev read_interface : Bytes → Interface
read_interface bs = (7, bs ∷ [])

abbrev interface_bytes : Interface → Bytes
interface_bytes i = 1 ∷ i.0 ∷ []

abbrev no_connections : RoutingTable ℕ
no_connections = record { direct_by_hdl = []; direct_by_nid = []; indirect = []; blacklist = [] }

abbrev table_of_2 : RoutingTable ℕ
table_of_2 = record no_connections {
  direct_by_hdl = (21, node 1) ∷ (23, node 3) ∷ [];
  direct_by_nid = (node 1, 21) ∷ (node 3, 23) ∷ [];
}

table_of_2-IsInverse : IsInverse table_of_2
unfolding find
table_of_2-IsInverse hdl nid = ground (
  arith,
  nat_beq_iff 21 hdl,
  nat_beq_iff 23 hdl,
  option_beq_iff (node 1) nid,
  option_beq_iff (node 3) nid,
)

abbrev to_3 : Written ℕ
to_3 = write_dispatch (node 1) (some (node 1, 5)) (node 3, 6) 17 (9 ∷ 8 ∷ [])

-- A client handshake of node 4 over a new connection.
abbrev from_4 : Header ℕ
from_4 = (write_client_handshake (node 4) (node 2)).0

handle-Sound_example :
    let r = handle (node 2) header_bytes read_interface table_of_2 24 from_4 none in
    IsInverse r.1 × (r.0 ≡ close_connection → find 24 r.1.direct_by_hdl ≡ none)
unfolding find
handle-Sound_example =
    handle-Sound (node 2) header_bytes read_interface 24 from_4 table_of_2 none table_of_2-IsInverse
      (λ h. refl)

handle_write_dispatch_foreign_example :
    handle (node 2) header_bytes read_interface table_of_2 21 to_3.0 (received to_3) ≡ (
      await_header,
      table_of_2,
      wrote 23 to_3 ∷ flushed 23 ∷ message_forwarded to_3.0 (some (9 ∷ 8 ∷ [])) ∷ [],
    )
unfolding lookup lookup_direct find
handle_write_dispatch_foreign_example =
    handle_write_dispatch_foreign header_bytes read_interface table_of_2 21 (node 1)
      (some (node 1, 5)) 3 6 17 (9 ∷ 8 ∷ []) (λ e. absurd (omega (arith, e))) (λ e. cc)
      (omega arith) (node 2) (record { next_hop = node 3; hdl = 23 }) table_of_2 refl refl

handle_write_dispatch_local_example :
    handle (node 3) header_bytes read_interface no_connections 32 to_3.0 (received to_3) ≡ (
      let (t', events) = learn (node 3) header_bytes read_interface no_connections 32 (node 1) in
      (await_header, t', events ++ deliver (node 1) 5 (node 3) 6 (9 ∷ 8 ∷ []) 17 ∷ []))
unfolding write_dispatch
handle_write_dispatch_local_example =
    handle_write_dispatch_local header_bytes read_interface no_connections 32 (node 1)
      (some (node 1, 5)) 3 6 17 (9 ∷ 8 ∷ []) (λ e. absurd (omega (arith, e))) (λ e. cc)
      (omega arith)

abbrev failure : Written ℕ
failure = write_dispatch_error header_bytes (node 2) (node 1) 1 to_3.0 (some (9 ∷ 8 ∷ []))

handle-write_dispatch_error_example :
    handle (node 1) header_bytes read_interface no_connections 12 failure.0 (received failure)
    ≡ err no_connections 12 []
handle-write_dispatch_error_example =
    handle-write_dispatch_error (node 1) header_bytes read_interface no_connections 12 (node 2) 1
      to_3.0 (some (9 ∷ 8 ∷ []))

abbrev kill : Written ℕ
kill = write_kill_proxy_instance (node 1) (node 2) 5 1

abbrev published : Option Interface
published = some (7, [])

handshake_connects_example :
    let w = server_handshake_of interface_bytes (node 1) published in
    let reply = write_client_handshake (node 2) (node 1) in
    let at_b = handle (node 2) header_bytes read_interface no_connections 20 w.0 (received w) in
    let at_a =
      handle (node 1) header_bytes read_interface no_connections 10 reply.0 (received reply) in
    (at_b.0 ≡ await_header)
    × (lookup_direct at_b.1 (node 1) ≡ some 20)
    × (writes at_b.2 ≡ (20, reply) ∷ [])
    × (at_a.0 ≡ await_header)
    × (lookup_direct at_a.1 (node 2) ≡ some 10)
unfolding find lookup_direct
handshake_connects_example =
    handshake_connects header_bytes read_interface 1 2 interface_bytes published no_connections
      no_connections 10 20 refl (λ e. absurd (omega (arith, e)), λ e. cc, omega arith) refl refl
      refl refl

abbrev ports : PublishedActors ℕ
ports = (80, 5) ∷ (81, 6) ∷ (82, 5) ∷ []
