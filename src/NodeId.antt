-- ===== src/NodeId.antt =====
-- libboost_actor_core/src/node_id.cpp: the identity of a process, a process ID and 20 bytes that
-- name the host, and its serialized form. A `node_id` is the pointer `data_`, `none` if it is null.
pub mod Order
pub mod Wire
mod Tests
use boost_actor.Common.{
  ℕ, zero, suc, ◌+◌, Bool, true, false, ◌&&◌, List, [], ◌∷◌, ◌++◌, Option, none, some,
  if◌then◌else◌, ◌==◌, nat_eq, ltb, replicate, all,
}
use boost_actor.Common.Int.{ℤ, pos, negsuc}
use boost_actor.Binary.{Bytes, Read, ◌>>=◌, write_int, read_int, read_raw}

abbrev pub host_id_size : ℕ
host_id_size = 20

-- `node_id::data`
pub record NodeData : Type 0 where
  pub pid : ℕ
  pub host : Bytes

abbrev pub NodeId : Type 0
NodeId = Option NodeData

abbrev pub invalid_node_id : NodeId
invalid_node_id = none

abbrev pub invalid_host_id : Bytes
invalid_host_id = replicate host_id_size 0

unfoldable pub process_id : NodeId → ℕ
process_id none = 0
process_id (some d) = d.pid

unfoldable pub host_id : NodeId → Bytes
host_id none = invalid_host_id
host_id (some d) = d.host

abbrev pub sign_of : ℕ → ℕ → ℤ
sign_of a b = if a == b then pos 0 else (if ltb a b then negsuc 0 else pos 1)

-- `strncmp` of the C library, which stops behind a NUL that both texts have; its sign alone.
pub strncmp : Bytes → Bytes → ℕ → ℤ
strncmp a b zero = pos 0
strncmp [] b (suc n) = pos 0
strncmp (x ∷ a) [] (suc n) = pos 0
strncmp (x ∷ a) (y ∷ b) (suc n) =
    let rest = strncmp a b n in if x == y then (if x == 0 then pos 0 else rest) else sign_of x y

abbrev pub is_zero : ℤ → Bool
is_zero (pos k) = k == 0
is_zero (negsuc k) = false

-- Identical pointers are equal ids, so the shortcut at the head changes no result.
pub compare : NodeId → NodeId → ℤ
compare none none = pos 0
compare (some d) none = pos 1
compare none (some e) = negsuc 0
compare (some d) (some e) =
    let tmp = strncmp d.host e.host host_id_size in if is_zero tmp then sign_of d.pid e.pid else tmp

-- `operator==` of comparable.hpp
pub node_eq : NodeId → NodeId → Bool
unfolding compare
node_eq a b = is_zero (compare a b)

pub serialize : NodeId → Bytes
serialize n = host_id n ++ write_int 4 (process_id n)

-- The data is dropped again if all of it is zero.
pub node_of : ℕ → Bytes → NodeId
node_of pid host =
    if pid == 0 && all (λ value. value == 0) host
    then none
    else some (record { pid = pid; host = host })

pub deserialize : Bytes → Read NodeId
deserialize bs = do
  (host, rest) ← read_raw host_id_size bs
  (pid, rest') ← read_int 4 rest
  some (node_of pid host, rest')
