-- ===== src/Basp/Routing/Tests.antt =====
-- A table with node 1 connected over handle 11, node 2 over 12, and both as hops towards node 3;
-- node 5 is a hop towards 3 that is not connected.
use boost_actor.Common.{ℕ, arith, [], ◌∷◌, Option, some, nat_eq, nat_beq_iff}
use boost_actor.Common.Assoc.{find, option_eq, option_beq_iff}
use boost_actor.Basp.Routing.{RoutingTable, lookup, erase_node, add_indirect, blacklisted}
use boost_actor.Basp.Routing.Lookup.{Routes, lookup-Routes}
use boost_actor.Basp.Routing.Direct.{IsInverse}
use boost_actor.Basp.Routing.Erase.{Erased, erase_node-Erased}
use boost_actor.Basp.Routing.Blacklist.{IsRespected, add_indirect-IsRespected}

abbrev node : ℕ → Option ℕ
node n = some n

abbrev table : RoutingTable ℕ
table = record {
  direct_by_hdl = (11, node 1) ∷ (12, node 2) ∷ [];
  direct_by_nid = (node 1, 11) ∷ (node 2, 12) ∷ [];
  indirect = (node 3, node 5 ∷ node 1 ∷ node 2 ∷ []) ∷ [];
  blacklist = (node 3, node 4 ∷ []) ∷ [];
}

table-IsInverse : IsInverse table
unfolding find
table-IsInverse hdl nid = ground (
  arith,
  nat_beq_iff 11 hdl,
  nat_beq_iff 12 hdl,
  option_beq_iff (node 1) nid,
  option_beq_iff (node 2) nid,
)

lookup-Routes_example : Routes table (node 3) (lookup table (node 3)).0
lookup-Routes_example = lookup-Routes table (node 3)

erase_node-Erased_example :
    Erased table (node 3) (erase_node table (node 3)).0 (erase_node table (node 3)).1
erase_node-Erased_example = erase_node-Erased table (node 3) table-IsInverse

table-IsRespected : IsRespected table
unfolding find blacklisted
table-IsRespected hop dest b = ground (
  arith,
  option_beq_iff (node 3) dest,
  option_beq_iff (node 4) hop,
  option_beq_iff (node 5) hop,
  option_beq_iff (node 1) hop,
  option_beq_iff (node 2) hop,
)

add_indirect-IsRespected_example : IsRespected (add_indirect table (node 4) (node 3)).1
add_indirect-IsRespected_example =
    add_indirect-IsRespected table (node 4) (node 3) table-IsRespected
