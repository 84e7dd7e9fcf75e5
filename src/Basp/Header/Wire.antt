-- ===== src/Basp/Header/Wire.antt =====
-- `read_hdr` and `write_hdr`: the header as 72 bytes.
use boost_actor.Common.{ℕ, ◌+◌, ◌*◌, ◌<◌, ◌^◌, ◌≡◌, ◌++◌, some, length, length-append, append_assoc}
use boost_actor.Binary.{Bytes, Read, ◌>>=◌, write_int, read_int}
use boost_actor.Binary.Ints.{length-write_int, read_int-write_int}
use boost_actor.NodeId.{NodeData, host_id_size, serialize, deserialize}
use boost_actor.NodeId.Wire.{IsNode, length-serialize, deserialize-serialize}
use boost_actor.Basp.Header.{Header}

pub write_hdr : Header NodeData → Bytes
write_hdr hdr =
    serialize hdr.source_node
    ++ (serialize hdr.dest_node
        ++ (write_int 4 hdr.source_actor
            ++ (write_int 4 hdr.dest_actor
                ++ (write_int 4 hdr.payload_len
                    ++ (write_int 4 hdr.operation ++ write_int 8 hdr.operation_data)))))

pub read_hdr : Bytes → Read (Header NodeData)
read_hdr source = do
  (source_node, s1) ← deserialize source
  (dest_node, s2) ← deserialize s1
  (source_actor, s3) ← read_int 4 s2
  (dest_actor, s4) ← read_int 4 s3
  (payload_len, s5) ← read_int 4 s4
  (operation, s6) ← read_int 4 s5
  (operation_data, s7) ← read_int 8 s6
  some (
    record {
      operation = operation;
      payload_len = payload_len;
      operation_data = operation_data;
      source_node = source_node;
      dest_node = dest_node;
      source_actor = source_actor;
      dest_actor = dest_actor;
    },
    s7,
  )

-- `basp::header_size`
abbrev pub header_size : ℕ
header_size = host_id_size * 2 + 4 * 2 + 4 * 2 + 4 * 2 + 8

-- Each field fits its type.
pub record IsHeader (hdr : Header NodeData) : Type 0 where
  pub source_is : IsNode hdr.source_node
  pub dest_is : IsNode hdr.dest_node
  pub source_actor_lt : hdr.source_actor < 2 ^ 32
  pub dest_actor_lt : hdr.dest_actor < 2 ^ 32
  pub payload_len_lt : hdr.payload_len < 2 ^ 32
  pub operation_lt : hdr.operation < 2 ^ 32
  pub operation_data_lt : hdr.operation_data < 2 ^ 64

-- A written header has the size that the protocol names.
pub length-write_hdr : (hdr : Header NodeData) → IsHeader hdr → length (write_hdr hdr) ≡ header_size
unfolding write_hdr
length-write_hdr hdr v = simp (
  length-append,
  length-write_int,
  length-serialize hdr.source_node v.source_is,
  length-serialize hdr.dest_node v.dest_is,
)

-- A header is read back as it was written, and the payload behind it is left.
pub read_hdr-write_hdr :
    (hdr : Header NodeData) (rest : Bytes)
    → IsHeader hdr
    → read_hdr (write_hdr hdr ++ rest) ≡ some (hdr, rest)
unfolding read_hdr write_hdr
read_hdr-write_hdr hdr rest v = simp append_assoc (
    rw (
      deserialize-serialize hdr.source_node _ v.source_is,
      deserialize-serialize hdr.dest_node _ v.dest_is,
      read_int-write_int 4 hdr.source_actor _ v.source_actor_lt,
      read_int-write_int 4 hdr.dest_actor _ v.dest_actor_lt,
      read_int-write_int 4 hdr.payload_len _ v.payload_len_lt,
      read_int-write_int 4 hdr.operation _ v.operation_lt,
      read_int-write_int 8 hdr.operation_data rest v.operation_data_lt,
    ))
