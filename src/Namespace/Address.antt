-- ===== src/Namespace/Address.antt =====
-- `write` and `read` of libboost_actor_core/src/actor_namespace.cpp: actor addresses as 28 bytes,
-- ID, host and process. An address to be written is that of an actor, with the ID and the node
-- that it answers; what is read is an actor of this process or a proxy.
pub mod Roundtrip
use boost_actor.Common.{
  ℕ, ◌+◌, Bool, true, false, ◌&&◌, not, List, [], ◌∷◌, ◌++◌, Option, none, some, if◌then◌else◌,
  ◌==◌, EqualityComparable, nat_eq, replicate,
}
use boost_actor.Binary.{Bytes, Read, ◌>>=◌, write_int, read_int, read_raw}
use boost_actor.NodeId.{NodeData, NodeId, host_id_size, host_id, process_id, node_eq}
use boost_actor.Registry.{Registry, Attached, put, get as get_actor}
use boost_actor.Namespace.{Proxies, Backend, get_or_put}

pub record Addr : Type 0 where
  pub ptr : ℕ
  pub id : ℕ
  pub node : NodeId

-- `is_remote`, for the node of this process
pub is_remote : NodeId → Addr → Bool
is_remote this_node a = not (node_eq a.node this_node)

pub write_fields : ℕ → Bytes → ℕ → Bytes
write_fields aid hid pid = write_int 4 aid ++ hid ++ write_int 4 pid

-- The bytes, the registry, and what is attached to the actor that is put there.
pub write : NodeId → Registry → Option Addr → Bytes × Registry × Attached
unfolding write_fields is_remote
write this_node reg none = (write_fields 0 (replicate host_id_size 0) 0, reg, [])
write this_node reg (some a) =
    let (reg', attached) = if is_remote this_node a then (reg, []) else put reg a.id (some a.ptr) in
    (write_fields a.id (host_id a.node) (process_id a.node), reg', attached)

-- What an address that was read stands for; `null_proxy` is the address that is asked of the null
-- pointer that `get_or_put` may give.
pub data Resolved : Type 0 where
  invalid_actor_addr null_proxy : Resolved
  local_actor remote_proxy : ℕ → Resolved

pub local_or_invalid : Option ℕ → Resolved
local_or_invalid none = invalid_actor_addr
local_or_invalid (some a) = local_actor a

pub address_of : Option ℕ → Resolved
address_of none = null_proxy
address_of (some p) = remote_proxy p

-- `operator==` of two `std::array`
abbrev pub bytes_beq : Bytes → Bytes → Bool
bytes_beq [] [] = true
bytes_beq [] (y ∷ ys) = false
bytes_beq (x ∷ xs) [] = false
bytes_beq (x ∷ xs) (y ∷ ys) = x == y && bytes_beq xs ys

module _ {B : Type 0} ⦃e : EqualityComparable NodeId⦄ (alive : ℕ → Bool) (be : Backend NodeId B)
    (this_node : NodeId) where
  -- What `read` does with the three fields.
  pub resolve : B → Registry → Proxies NodeId → ℕ → Bytes → ℕ → Resolved × Proxies NodeId × B
  unfolding local_or_invalid address_of
  resolve b reg ns aid hid pid =
      let (result, ns', b') =
        get_or_put alive be b ns (some (record { pid = pid; host = hid })) aid in
      if aid == 0 && pid == 0
      then (invalid_actor_addr, ns, b)
      else (if pid == process_id this_node && bytes_beq hid (host_id this_node)
          then (local_or_invalid (get_actor reg aid), ns, b)
          else (address_of result, ns', b'))

  pub read : B → Registry → Proxies NodeId → Bytes → Read (Resolved × Proxies NodeId × B)
  unfolding resolve
  read b reg ns bs = do
    (aid, bs1) ← read_int 4 bs
    (hid, bs2) ← read_raw host_id_size bs1
    (pid, bs3) ← read_int 4 bs2
    some (resolve b reg ns aid hid pid, bs3)
