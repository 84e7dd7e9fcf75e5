-- ===== src/Basp/Proxies/Routed.antt =====
-- When the broker makes a proxy: the peer that it talks to offers a route, unless blacklisted.
use boost_actor.Common.{
  ℕ, ◌≡◌, refl, sym, ap, subst, ◌∙◌, Bool, true, false, Option, none, some, arith, ◌==◌,
  EqualityComparable, nat_eq, Bool-cases, Option-cases, inl, inr,
}
use boost_actor.Common.Assoc.{
  contains, find-assign, contains-emplace_set, emplace_set, option_eq, ==_self, ==→≡,
}
use boost_actor.Basp.Routing.{
  Handle, RoutingTable, Route, lookup, lookup_direct, add_indirect, blacklisted,
}
use boost_actor.Basp.Routing.Blacklist.{add_indirect_added}
use boost_actor.Basp.Routing.Keeps.{add_indirect-SameConnections}
use boost_actor.Basp.Routing.Lookup.{Routes, hops_to, lookup-Routes}
use boost_actor.Namespace.{Proxies, get_or_put}
use boost_actor.Namespace.Shared.{get_or_put-none}
use boost_actor.Basp.Proxies.{
  BrokerState, learn_from_add, learn_route, proxy_over, invalid_target, make_proxy, broker_backend,
}

module _ {N : Type 0} ⦃e : EqualityComparable N⦄ (s : BrokerState N) (nid : Option N) where
  -- What a route to the node can be found over: the node itself, or the peer as a hop.
  learn_route_peer : (nid == s.context_id) ≡ true → learn_route s nid ≡ s
  unfolding learn_route
  learn_route_peer same = rw same refl

  learn_route_connected :
      (hdl : Handle) → lookup_direct s.table nid ≡ some hdl → learn_route s nid ≡ s
  unfolding learn_route
  learn_route_connected hdl h = elim (Bool-cases (nid == s.context_id)) [
    | inl same ↦ rw same refl
    | inr other ↦ rw (other, h) refl
  ]

  learn_route_new :
      (nid == s.context_id) ≡ false
      → lookup_direct s.table nid ≡ none
      → (learn_route s nid).table ≡ (add_indirect s.table s.context_id nid).1
  unfolding learn_route learn_from_add
  learn_route_new other h = rw (other, h) refl

  lookup_direct-add :
      (hop : Option N)
      → lookup_direct (add_indirect s.table s.context_id nid).1 hop ≡ lookup_direct s.table hop
  unfolding lookup_direct
  lookup_direct-add hop = rw ((add_indirect-SameConnections s.table s.context_id nid).1) refl

  contains-added :
      blacklisted s.table s.context_id nid ≡ false
      → contains s.context_id (hops_to (add_indirect s.table s.context_id nid).1 nid) ≡ true
  contains-added b =
      rw
        (
          add_indirect_added s.table s.context_id nid b,
          find-assign nid nid (emplace_set s.context_id (hops_to s.table nid)) s.table.indirect,
          ==_self nid,
          contains-emplace_set s.context_id s.context_id (hops_to s.table nid),
          ==_self s.context_id,
        )
        refl

  -- A connected peer is no hop that is left out.
  added-reaches :
      lookup_direct s.table s.context_id ≡ some s.context_hdl
      → blacklisted s.table s.context_id nid ≡ false
      → (t : RoutingTable N) → t ≡ (add_indirect s.table s.context_id nid).1
      → Routes t nid none
      → blacklisted s.table s.context_id nid ≡ true
  added-reaches peer b t h no_route =
      let none_left =
        (subst (λ t. Routes t nid none) h no_route).1 s.context_id (contains-added b) in
      let clash = sym (lookup_direct-add s.context_id ∙ peer) ∙ none_left in absurd (ground arith)

  direct-reaches :
      (hdl : Handle)
      → lookup_direct s.table nid ≡ some hdl
      → learn_route s nid ≡ s
      → Routes (learn_route s nid).table nid none
      → blacklisted s.table s.context_id nid ≡ true
  direct-reaches hdl h same no_route =
      let clash = sym h ∙ (subst (λ s. Routes s.table nid none) same no_route).0 in
      absurd (ground arith)

  -- There is no way to the node although the peer is connected: the peer is blacklisted.
  no_route-blacklisted :
      lookup_direct s.table s.context_id ≡ some s.context_hdl
      → Routes (learn_route s nid).table nid none
      → blacklisted s.table s.context_id nid ≡ true
  no_route-blacklisted peer no_route = elim (Bool-cases (nid == s.context_id)) [
    | inl same ↦
        direct-reaches s.context_hdl
          (ap (lookup_direct s.table) (==→≡ nid s.context_id same) ∙ peer) (learn_route_peer same)
          no_route
    | inr other ↦ elim (Option-cases (lookup_direct s.table nid)) [
      | inr (hdl, h) ↦ direct-reaches hdl h (learn_route_connected hdl h) no_route
      | inl h ↦ elim (Bool-cases (blacklisted s.table s.context_id nid)) [
        | inl b ↦ b
        | inr b ↦ added-reaches peer b (learn_route s nid).table (learn_route_new other h) no_route
      ]
    ]
  ]

  proxy_over-none :
      (aid : ℕ) (r : Option (Route N)) (t : RoutingTable N)
      → (proxy_over (learn_route s nid) nid aid (r, t)).0 ≡ none
      → r ≡ none
  unfolding proxy_over
  proxy_over-none aid none t h = refl
  proxy_over-none aid (some path) t h = absurd (ground arith)

  -- The broker makes a proxy unless the peer is blacklisted.
  pub make_proxy-blacklisted :
      (aid : ℕ)
      → lookup_direct s.table s.context_id ≡ some s.context_hdl
      → invalid_target nid aid ≡ false
      → (make_proxy s nid aid).0 ≡ none
      → blacklisted s.table s.context_id nid ≡ true
  unfolding make_proxy
  make_proxy-blacklisted aid peer valid refused =
      let t = (learn_route s nid).table in
      let r = proxy_over-none aid (lookup t nid).0 (lookup t nid).1 (rw valid at refused) in
      no_route-blacklisted peer (subst (Routes t nid) r (lookup-Routes t nid))

  -- The peer from which the payload came is connected. For an actor of a valid node, with a valid
  -- ID, the namespace then has a proxy or gets one from the broker, unless the peer is blacklisted
  -- as a hop towards that node.
  pub get_or_put-blacklisted :
      (alive : ℕ → Bool) (ns : Proxies (Option N)) (aid : ℕ)
      → lookup_direct s.table s.context_id ≡ some s.context_hdl
      → invalid_target nid aid ≡ false
      → (get_or_put alive broker_backend s ns nid aid).0 ≡ none
      → blacklisted s.table s.context_id nid ≡ true
  get_or_put-blacklisted alive ns aid peer valid h =
      make_proxy-blacklisted aid peer valid (get_or_put-none alive broker_backend s ns nid aid h)
