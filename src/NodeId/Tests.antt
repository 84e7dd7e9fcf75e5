-- ===== src/NodeId/Tests.antt =====
-- Concrete node IDs: one whose host has no zero byte, and two that differ behind one.
use boost_actor.Common.{
  ℕ, zero, suc, ◌+◌, ◌<◌, ◌≡◌, ◌⊎◌, refl, arith, ◌∷◌, ◌++◌, some, none, length, replicate, All, ◌≢◌,
}
use boost_actor.Binary.{Bytes}
use boost_actor.Binary.Ints.{IsBytes}
use boost_actor.NodeId.{NodeId, host_id_size, serialize, deserialize}
use boost_actor.NodeId.Wire.{IsNode, deserialize_lem}

abbrev ones : Bytes
ones = replicate 20 1

abbrev node : NodeId
node = some (record { pid = 77; host = ones })

abbrev other_process : NodeId
other_process = some (record { pid = 78; host = ones })

Text-replicate : (n : ℕ) → All (λ (x : ℕ). x ≢ 0) (replicate n 1)
Text-replicate zero = tt
Text-replicate (suc n) = (λ (e : 1 ≡ 0). absurd (omega arith), Text-replicate n)

IsBytes-replicate : (n : ℕ) → IsBytes (replicate n 1)
IsBytes-replicate zero = tt
IsBytes-replicate (suc n) = (omega arith, IsBytes-replicate n)

node-IsNode : IsNode node
node-IsNode = (refl, omega arith, refl)

-- Two hosts of 20 bytes whose second byte is zero.
abbrev behind_zero : ℕ → Bytes
behind_zero b = 5 ∷ 0 ∷ replicate 18 b

abbrev many : Bytes
many = replicate 25 1

deserialize_lem_example :
    ((n : NodeId) × (rest : Bytes) × (deserialize many ≡ some (n, rest))
      × (serialize n ++ rest ≡ many)
      × IsBytes rest)
    ⊎ ((length many < host_id_size + 4) × (deserialize many ≡ none))
deserialize_lem_example = deserialize_lem many (IsBytes-replicate 25)
