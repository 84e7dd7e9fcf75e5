-- ===== src/Basp/Routing/Direct.antt =====
-- `add_direct` and `erase_direct`: the two maps of direct connections.
use boost_actor.Common.{
  ◌≡◌, ◌↔◌, inl, inr, [], ◌∷◌, Option, none, some, arith, EqualityComparable, nat_eq, nat_beq_iff,
  Option-cases,
}
use boost_actor.Common.Assoc.{
  find, assign, erase as erase_key, option_eq, option_beq_iff, find-assign, find-erase,
}
use boost_actor.Basp.Routing.{
  Handle, RoutingTable, called, connection_lost, add_direct, erase_direct,
}

module _ {N : Type 0} ⦃e : EqualityComparable N⦄ where
  -- A connection is found under its handle exactly if it is found under its node.
  abbrev pub IsInverse : RoutingTable N → Type 0
  IsInverse t =
      (hdl : Handle) (nid : Option N)
      → (find hdl t.direct_by_hdl ≡ some nid) ↔ (find nid t.direct_by_nid ≡ some hdl)

  module _ (t : RoutingTable N) (hdl : Handle) where
    pub erase_direct-some :
        (nid : Option N)
        → find hdl t.direct_by_hdl ≡ some nid
        → erase_direct t hdl ≡ (
          record t {
            direct_by_nid = erase_key nid t.direct_by_nid;
            direct_by_hdl = erase_key hdl t.direct_by_hdl;
          },
          called nid ∷ connection_lost nid ∷ [],
        )
    unfolding erase_direct
    erase_direct-some nid s = rw (s, erase_direct)

    pub erase_direct-none : find hdl t.direct_by_hdl ≡ none → erase_direct t hdl ≡ (t, [])
    unfolding erase_direct
    erase_direct-none n = rw (n, erase_direct)

  pub erased :
      (t : RoutingTable N) (hdl : Handle) (nid : Option N)
      → IsInverse t
      → find hdl t.direct_by_hdl ≡ some nid
      → IsInverse (record t {
        direct_by_hdl = erase_key hdl t.direct_by_hdl;
        direct_by_nid = erase_key nid t.direct_by_nid;
      })
  erased t hdl nid v s j n =
      rw (find-erase j hdl t.direct_by_hdl, find-erase n nid t.direct_by_nid)
        (ground
          (arith, v j n, v hdl nid, v hdl n, v j nid, nat_beq_iff hdl j, option_beq_iff nid n))

  -- Removing a connection by its handle keeps the two maps inverse, whether the handle is known
  -- or not.
  pub erase_direct-IsInverse :
      (t : RoutingTable N) (hdl : Handle) → IsInverse t → IsInverse (erase_direct t hdl).0
  erase_direct-IsInverse t hdl v = elim (Option-cases (find hdl t.direct_by_hdl)) [
    | inl n ↦ rw (erase_direct-none t hdl n) v
    | inr (nid, s) ↦ rw (erase_direct-some t hdl nid s) (erased t hdl nid v s)
  ]

  pub add_direct_fresh :
      (t : RoutingTable N) (hdl : Handle) (nid : Option N)
      → find hdl t.direct_by_hdl ≡ none
      → find nid t.direct_by_nid ≡ none
      → (add_direct t hdl nid).0 ≡ record t {
        direct_by_hdl = assign hdl nid t.direct_by_hdl;
        direct_by_nid = assign nid hdl t.direct_by_nid;
      }
  unfolding add_direct
  add_direct_fresh t hdl nid h n = rw (h, n, add_direct)

  -- Adding a connection keeps the two maps inverse if neither its handle nor its node is in them,
  -- which the code asserts.
  pub add_direct-IsInverse :
      (t : RoutingTable N) (hdl : Handle) (nid : Option N)
      → IsInverse t
      → find hdl t.direct_by_hdl ≡ none
      → find nid t.direct_by_nid ≡ none
      → IsInverse (add_direct t hdl nid).0
  add_direct-IsInverse t hdl nid v h n j m =
      rw
        (
          add_direct_fresh t hdl nid h n,
          find-assign j hdl nid t.direct_by_hdl,
          find-assign m nid hdl t.direct_by_nid,
        )
        (ground (arith, v j m, v hdl m, v j nid, nat_beq_iff hdl j, option_beq_iff nid m))
