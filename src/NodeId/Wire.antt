-- ===== src/NodeId/Wire.antt =====
-- The serialized form of a node ID: 24 bytes.
use boost_actor.Common.{
  ℕ, zero, suc, ◌+◌, ◌<◌, ◌^◌, ◌≡◌, refl, ap, ◌∙◌, Bool, true, false, ◌&&◌, [], ◌∷◌, ◌++◌, none,
  some, arith, length, length-append, length-take, length-drop, ◌⊎◌, take-append-drop, append_assoc,
  all, replicate, take, drop, ◌==◌, nat_eq, Bool-cases, inl, inr,
}
use boost_actor.Binary.{Bytes, write_int, int_of}
use boost_actor.Binary.Ints.{
  IsBytes, length-write_int, read_int-write_int, read_raw-append, read_raw_lem, read_int_lem,
  write_int-take, IsBytes-drop,
}
use boost_actor.NodeId.{NodeId, host_id_size, host_id, process_id, serialize, deserialize, node_of}

abbrev pub all_zero : Bytes → Bool
all_zero = all (λ value. value == 0)

-- The data of a node ID: 20 host bytes and a 32-bit process ID, and not all of them zero.
abbrev pub IsNode : NodeId → Type 0
IsNode none = Unit {0}
IsNode (some d) =
    (length d.host ≡ host_id_size) × (d.pid < 2 ^ 32) × ((d.pid == 0 && all_zero d.host) ≡ false)

length-host_id : (n : NodeId) → IsNode n → length (host_id n) ≡ host_id_size
unfolding host_id
length-host_id none v = refl
length-host_id (some d) v = v.0

process_id-lt : (n : NodeId) → IsNode n → process_id n < 2 ^ 32
unfolding process_id
process_id-lt none v = omega arith
process_id-lt (some d) v = v.1

node_of_parts : (n : NodeId) → IsNode n → node_of (process_id n) (host_id n) ≡ n
unfolding node_of process_id host_id
node_of_parts none v = refl
node_of_parts (some d) v = rw v.2

-- The serialized form has as many bytes as `serialized_size` says.
pub length-serialize : (n : NodeId) → IsNode n → length (serialize n) ≡ host_id_size + 4
unfolding serialize
length-serialize n v = omega (
  arith,
  length-append (host_id n) (write_int 4 (process_id n)),
  length-host_id n v,
  length-write_int 4 (process_id n),
)

-- A node ID is read back from its serialized form, and the bytes behind it are left.
pub deserialize-serialize :
    (n : NodeId) (rest : Bytes) → IsNode n → deserialize (serialize n ++ rest) ≡ some (n, rest)
unfolding deserialize serialize
deserialize-serialize n rest v = rw (
  append_assoc,
  read_raw-append host_id_size (host_id n) (write_int 4 (process_id n) ++ rest)
      (length-host_id n v),
  read_int-write_int 4 (process_id n) rest (process_id-lt n v),
  node_of_parts n v,
)

all_zero-replicate : (bs : Bytes) (n : ℕ) → length bs ≡ n → all_zero bs ≡ true → bs ≡ replicate n 0
all_zero-replicate [] zero e h = refl
all_zero-replicate [] (suc n) e h = absurd (omega arith)
all_zero-replicate (b ∷ bs) zero e h = absurd (omega arith)
all_zero-replicate (b ∷ bs) (suc n) e h = ground (arith, all_zero-replicate bs n (omega arith))

serialize-node_of :
    (pid : ℕ) (host : Bytes)
    → length host ≡ host_id_size
    → serialize (node_of pid host) ≡ host ++ write_int 4 pid
unfolding serialize node_of host_id process_id
serialize-node_of pid host e = elim (Bool-cases (pid == 0 && all_zero host)) [
  | inl z ↦
      rw (z, all_zero-replicate host host_id_size e (ground arith))
        (ap (λ k. replicate host_id_size 0 ++ write_int 4 k) (ground arith))
  | inr nz ↦ rw nz
]

-- Reading succeeds if 24 bytes are there, and then what was read stands, written again, before
-- what is left; with fewer bytes it throws.
pub deserialize_lem :
    (bs : Bytes)
    → IsBytes bs
    → ((n : NodeId) × (rest : Bytes) × (deserialize bs ≡ some (n, rest))
        × (serialize n ++ rest ≡ bs)
        × IsBytes rest)
      ⊎ ((length bs < host_id_size + 4) × (deserialize bs ≡ none))
unfolding deserialize
deserialize_lem bs v = elim (read_raw_lem host_id_size bs) [
  | inr (short, e) ↦ inr (omega arith, rw e)
  | inl (enough, e) ↦
      let tail = drop host_id_size bs in
      elim (read_int_lem 4 tail) [
        | inr (short, e') ↦ inr (omega (arith, length-drop host_id_size bs), rw (e, e'))
        | inl (enough', e') ↦
            let host = take host_id_size bs in
            let pid = int_of (take 4 tail) in
            let split =
              ap (λ (t : Bytes). t ++ drop 4 tail)
                (serialize-node_of pid host (omega (arith, length-take host_id_size bs))) in
            inl (
              node_of pid host,
              drop 4 tail,
              rw (e, e'),
              split
                  ∙ rw
                      (
                        write_int-take 4 tail enough' (IsBytes-drop host_id_size bs v),
                        append_assoc,
                        take-append-drop 4 tail,
                      )
                      (take-append-drop host_id_size bs),
              IsBytes-drop 4 tail (IsBytes-drop host_id_size bs v),
            )
      ]
]
