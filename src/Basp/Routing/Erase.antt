-- ===== src/Basp/Routing/Erase.antt =====
-- `erase`: what becomes of the routes, and whom the callback hears of.
use native.Mathlib.Nat.{add-zero}
use boost_actor.Common.{
  append-nil, ℕ, ◌≡◌, ◌≢◌, refl, ap, ◌∙◌, List, [], ◌∷◌, ◌++◌, Option, none, some, arith,
  EqualityComparable, nat_eq, ◌+◌, length,
}
use boost_actor.Common.Assoc.{
  find, erase as erase_key, option_eq, option_beq_iff, find-erase, ==_self,
}
use boost_actor.Basp.Routing.{
  Handle, RoutingTable, RoutingEvent, called, connection_lost, route_lost,
  new_connection_established, new_route_added, hop_events, hops_of, lookup_direct, erase_node,
  erase_connection, lookup,
}
use boost_actor.Basp.Routing.Lookup.{lookup_unknown, hops_to}
use boost_actor.Basp.Routing.Direct.{IsInverse, erased}

abbrev pub count_of : Option Handle → ℕ
count_of none = 0
count_of (some _) = 1

module _ {N : Type 0} ⦃e : EqualityComparable N⦄ where
  -- The table without the indirect routes to a node, for what was found as its hops.
  abbrev pruned : RoutingTable N → Option N → Option (List (Option N)) → RoutingTable N
  pruned t dest none = t
  pruned t dest (some _) = record t { indirect = erase_key dest t.indirect }

  module _ (t : RoutingTable N) (dest : Option N) where
    erase_node_hops :
        (o : Option (List (Option N)))
        → find dest t.indirect ≡ o
        → erase_node t dest
          ≡ erase_connection
              (pruned t dest o)
              dest
              (length (hops_of o))
              (called dest ∷ hop_events dest (hops_of o))
    unfolding erase_node hop_events
    erase_node_hops none s = rw (s, erase_node)
    erase_node_hops (some hops) s = rw (s, erase_node)

    no_hops_left :
        (o : Option (List (Option N)))
        → find dest t.indirect ≡ o
        → find dest (pruned t dest o).indirect ≡ none
    no_hops_left none s = s
    no_hops_left (some hops) s = rw (find-erase dest dest t.indirect, ==_self dest)

    other_hops :
        (o : Option (List (Option N))) (m : Option N)
        → m ≢ dest
        → find m (pruned t dest o).indirect ≡ find m t.indirect
    other_hops none m d = refl
    other_hops (some hops) m d =
        rw (find-erase m dest t.indirect) (ground (arith, option_beq_iff dest m))

    pruned_connections :
        (o : Option (List (Option N)))
        → ((pruned t dest o).direct_by_hdl ≡ t.direct_by_hdl)
          × ((pruned t dest o).direct_by_nid ≡ t.direct_by_nid)
    pruned_connections none = (refl, refl)
    pruned_connections (some hops) = (refl, refl)

    -- What `erase_connection` returns, for what was found as the handle.
    abbrev disconnected_table : Option Handle → RoutingTable N
    disconnected_table none = t
    disconnected_table (some hdl) = record t {
      direct_by_hdl = erase_key hdl t.direct_by_hdl;
      direct_by_nid = erase_key dest t.direct_by_nid;
    }

    abbrev lost : Option Handle → List (RoutingEvent N)
    lost none = []
    lost (some hdl) = connection_lost dest ∷ []

    erase_connection_parts :
        (o : Option Handle) (res : ℕ) (events : List (RoutingEvent N))
        → lookup_direct t dest ≡ o
        → erase_connection t dest res events
          ≡ (res + count_of o, disconnected_table o, events ++ lost o)
    unfolding erase_connection
    erase_connection_parts none res events s =
        rw (s, erase_connection, append-nil) (ground (arith, add-zero res))
    erase_connection_parts (some hdl) res events s = rw (s, erase_connection)

  -- What `erase` is to leave behind, with the number that it returns.
  pub record Erased (t : RoutingTable N) (dest : Option N) (n : ℕ) (t' : RoutingTable N)
      : Type 0 where
    pub number : n ≡ length (hops_to t dest) + count_of (lookup_direct t dest)
    pub disconnected : lookup_direct t' dest ≡ none
    pub unrouted : (lookup t' dest).0 ≡ none
    pub inverse : IsInverse t'
    pub others :
        (m : Option N)
        → m ≢ dest
        → (lookup_direct t' m ≡ lookup_direct t m) × (find m t'.indirect ≡ find m t.indirect)

  -- Erasing the connection of a table that has no hops to the node.
  disconnect :
      (t : RoutingTable N) (dest : Option N) (o : Option Handle)
      → find dest t.direct_by_nid ≡ o
      → find dest t.indirect ≡ none
      → IsInverse t
      → let t' = disconnected_table t dest o in
        (find dest t'.direct_by_nid ≡ none)
        × IsInverse t'
        × (find dest t'.indirect ≡ none)
        × ((m : Option N) → m ≢ dest → find m t'.direct_by_nid ≡ find m t.direct_by_nid)
        × ((m : Option N) → find m t'.indirect ≡ find m t.indirect)
  disconnect t dest none s n v = (s, v, n, λ m d. refl, λ m. refl)
  disconnect t dest (some hdl) s n v = (
    rw (find-erase dest dest t.direct_by_nid, ==_self dest),
    erased t hdl dest v ((v hdl dest).1 s),
    n,
    λ m d. rw (find-erase m dest t.direct_by_nid) (ground (arith, option_beq_iff dest m)),
    λ m. refl,
  )

  module _ (t : RoutingTable N) (dest : Option N) (v : IsInverse t) where
    pruned-IsInverse : (o : Option (List (Option N))) → IsInverse (pruned t dest o)
    pruned-IsInverse none = v
    pruned-IsInverse (some hops) = v

    Erased-parts :
        (o : Option (List (Option N))) (h : Option Handle)
        → find dest t.indirect ≡ o
        → find dest t.direct_by_nid ≡ h
        → Erased t dest
            (length (hops_of o) + count_of h)
            (disconnected_table (pruned t dest o) dest h)
    unfolding lookup_direct
    Erased-parts o h s c =
        let u = pruned t dest o in
        let same : find dest u.direct_by_nid ≡ h = rw (pruned_connections t dest o).1 c in
        let d = disconnect u dest h same (no_hops_left t dest o s) (pruned-IsInverse o) in
        record {
          number = rw (s, c);
          disconnected = d.0;
          unrouted = ap (λ r. r.0) (lookup_unknown (disconnected_table u dest h) dest d.0 d.2);
          inverse = d.1;
          others = λ m ne. (
            d.3 m ne ∙ ap (find m) (pruned_connections t dest o).1,
            d.4 m ∙ other_hops t dest o m ne,
          );
        }

    -- On a table whose two maps of connections are inverse, `erase` returns the number of hops towards the node, plus one if it was connected.
    -- Afterwards there is no route to it, the two maps of connections are inverse as before, and
    -- for every other node connection and hops are as they were.
    pub erase_node-Erased : Erased t dest (erase_node t dest).0 (erase_node t dest).1
    unfolding lookup_direct
    erase_node-Erased =
        let o = find dest t.indirect in
        let h = find dest t.direct_by_nid in
        rw
          (
            erase_node_hops t dest o refl,
            erase_connection_parts (pruned t dest o) dest h (length (hops_of o))
                (called dest ∷ hop_events dest (hops_of o))
                (ap (find dest) (pruned_connections t dest o).1),
          )
          (Erased-parts o h refl refl)

-- The nodes that a callback was called with, in order.
pub calls : {N : Type 0} → List (RoutingEvent N) → List (Option N)
calls [] = []
calls (called nid ∷ events) = nid ∷ calls events
calls (connection_lost nid ∷ events) = calls events
calls (new_connection_established nid ∷ events) = calls events
calls (new_route_added hop dest ∷ events) = calls events
calls (route_lost hop dest ∷ events) = calls events

module _ {N : Type 0} ⦃e : EqualityComparable N⦄ where
  calls-hop_events :
      (t : RoutingTable N) (dest : Option N) (hops : List (Option N)) (o : Option Handle)
      → calls (hop_events dest hops ++ lost t dest o) ≡ hops
  unfolding calls hop_events
  calls-hop_events t dest [] none = refl
  calls-hop_events t dest [] (some hdl) = refl
  calls-hop_events t dest (hop ∷ hops) o = ap (◌∷◌ hop) (calls-hop_events t dest hops o)

  -- On a table whose two maps of connections are inverse, `erase` calls back for the node and for
  -- every hop towards it, though every node but the erased one keeps the connection it had.
  pub erase_node-calls :
      (t : RoutingTable N) (dest hop : Option N)
      → IsInverse t
      → (calls (erase_node t dest).2 ≡ dest ∷ hops_to t dest)
        × (hop ≢ dest → lookup_direct (erase_node t dest).1 hop ≡ lookup_direct t hop)
  unfolding calls
  erase_node-calls t dest hop v = (
    rw
        (
          erase_node_hops t dest (find dest t.indirect) refl,
          erase_connection_parts (pruned t dest (find dest t.indirect)) dest
              (lookup_direct (pruned t dest (find dest t.indirect)) dest) (length (hops_to t dest))
              (called dest ∷ hop_events dest (hops_to t dest)) refl,
        )
        (ap (◌∷◌ dest)
          (calls-hop_events (pruned t dest (find dest t.indirect)) dest (hops_to t dest) _)),
    λ ne. ((erase_node-Erased t dest v).others hop ne).0,
  )
