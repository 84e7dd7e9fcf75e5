-- ===== src/Basp/Routing/Keeps.antt =====
-- The direct connections under the operations on indirect routes.
use boost_actor.Common.{
  ◌≡◌, refl, inl, inr, Option, none, EqualityComparable, Bool-cases, Option-cases, nat_eq,
}
use boost_actor.Common.Assoc.{find, option_eq, find-erase, ==_self}
use boost_actor.Basp.Routing.{
  Handle, RoutingTable, lookup, lookup_direct, erase_direct, erase_indirect, add_indirect,
  blacklisted,
}
use boost_actor.Basp.Routing.Direct.{IsInverse, erase_direct-some, erase_direct-none}
use boost_actor.Basp.Routing.Lookup.{lookup_connected, lookup_unknown, lookup_over_hops}

module _ {N : Type 0} ⦃e : EqualityComparable N⦄ where
  abbrev pub SameConnections : RoutingTable N → RoutingTable N → Type 0
  SameConnections t t' = (t'.direct_by_hdl ≡ t.direct_by_hdl) × (t'.direct_by_nid ≡ t.direct_by_nid)

  pub SameConnections-IsInverse :
      (t t' : RoutingTable N) → SameConnections t t' → IsInverse t → IsInverse t'
  SameConnections-IsInverse t t' s v hdl nid = rw (s.0, s.1) (v hdl nid)

  module _ (t : RoutingTable N) where
    pub lookup-SameConnections : (target : Option N) → SameConnections t (lookup t target).1
    lookup-SameConnections target = elim (Option-cases (lookup_direct t target)) [
      | inr (hdl, s) ↦ rw (lookup_connected t target hdl s) (refl, refl)
      | inl n ↦ elim (Option-cases (find target t.indirect)) [
        | inl m ↦ rw (lookup_unknown t target n m) (refl, refl)
        | inr (hops, m) ↦ rw (lookup_over_hops t target hops n m) (refl, refl)
      ]
    ]

    pub erase_indirect-SameConnections :
        (dest : Option N) → SameConnections t (erase_indirect t dest).1
    unfolding erase_indirect
    erase_indirect-SameConnections dest = elim (Option-cases (find dest t.indirect)) [
      | inl m ↦ rw (m, erase_indirect) (refl, refl)
      | inr (hops, m) ↦ rw (m, erase_indirect) (refl, refl)
    ]

    pub add_indirect-SameConnections :
        (hop dest : Option N) → SameConnections t (add_indirect t hop dest).1
    unfolding add_indirect
    add_indirect-SameConnections hop dest = elim (Bool-cases (blacklisted t hop dest)) [
      | inl b ↦ rw b (refl, refl)
      | inr b ↦ rw b (refl, refl)
    ]

    -- A handle is unknown once its connection is erased.
    pub find-erase_direct : (hdl : Handle) → find hdl (erase_direct t hdl).0.direct_by_hdl ≡ none
    find-erase_direct hdl = elim (Option-cases (find hdl t.direct_by_hdl)) [
      | inl n ↦ rw (erase_direct-none t hdl n) n
      | inr (nid, s) ↦
          rw (erase_direct-some t hdl nid s, find-erase hdl hdl t.direct_by_hdl, ==_self hdl)
    ]
