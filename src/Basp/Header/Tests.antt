-- ===== src/Basp/Header/Tests.antt =====
-- A concrete message header between two nodes.
use boost_actor.Common.{ℕ, ◌≡◌, refl, arith, [], ◌∷◌, ◌++◌, some, replicate}
use boost_actor.NodeId.{NodeId, NodeData}
use boost_actor.Basp.Header.{Header}
use boost_actor.Basp.Header.Wire.{IsHeader, write_hdr, read_hdr, read_hdr-write_hdr}

abbrev node : ℕ → NodeId
node pid = some (record { pid = pid; host = replicate 20 1 })

abbrev message_header : Header NodeData
message_header = record {
  operation = 2;
  payload_len = 300;
  operation_data = 17;
  source_node = node 77;
  dest_node = node 78;
  source_actor = 5;
  dest_actor = 6;
}

message_header-IsHeader : IsHeader message_header
message_header-IsHeader = record {
  source_is = (refl, omega arith, refl);
  dest_is = (refl, omega arith, refl);
  source_actor_lt = omega arith;
  dest_actor_lt = omega arith;
  payload_len_lt = omega arith;
  operation_lt = omega arith;
  operation_data_lt = omega arith;
}

read_hdr-write_hdr_example :
    read_hdr (write_hdr message_header ++ 9 ∷ []) ≡ some (message_header, 9 ∷ [])
read_hdr-write_hdr_example = read_hdr-write_hdr message_header (9 ∷ []) message_header-IsHeader
