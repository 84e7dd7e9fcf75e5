-- ===== src/Basp/Routing/Lookup.antt =====
-- Which routes `lookup` finds.
use boost_actor.Common.{
  ◌≡◌, refl, ◌⊎◌, inl, inr, true, List, [], ◌∷◌, Option, none, some, arith, ◌==◌,
  EqualityComparable, Bool-cases, Option-cases,
}
use boost_actor.Common.Assoc.{find, assign, contains, option_eq, ==_self, ==→≡}
use boost_actor.Basp.Routing.{
  Handle, RoutingTable, Route, hops_of, lookup_direct, first_hop, lookup,
}

module _ {N : Type 0} ⦃e : EqualityComparable N⦄ (t : RoutingTable N) where
  abbrev pub hops_to : Option N → List (Option N)
  hops_to dest = hops_of (find dest t.indirect)

  -- No hop in the list is connected.
  abbrev pub Unconnected : List (Option N) → Type 0
  Unconnected hops = (hop : Option N) → contains hop hops ≡ true → lookup_direct t hop ≡ none

  -- Either a route over a hop of the list that is connected, or none, and then no hop is.
  abbrev pub HopFound : List (Option N) → Option (Route N) → Type 0
  HopFound hops none = Unconnected hops
  HopFound hops (some r) =
      (lookup_direct t r.next_hop ≡ some r.hdl) × (contains r.next_hop hops ≡ true)

  HopFound-cons :
      (hop : Option N) (hops : List (Option N)) (r : Option (Route N))
      → lookup_direct t hop ≡ none
      → HopFound hops r
      → HopFound (hop ∷ hops) r
  HopFound-cons hop hops none n f = λ h c. elim (Bool-cases (hop == h)) [
    | inl same ↦ rw (← ==→≡ hop h same) n
    | inr other ↦ f h (rw other at c)
  ]
  HopFound-cons hop hops (some r) n f = (f.0, ground arith)

  first_hop-none :
      (hop : Option N) (hops : List (Option N))
      → lookup_direct t hop ≡ none
      → first_hop t (hop ∷ hops) ≡ first_hop t hops
  unfolding first_hop
  first_hop-none hop hops n = rw (n, first_hop)

  first_hop-some :
      (hop : Option N) (hops : List (Option N)) (hdl : Handle)
      → lookup_direct t hop ≡ some hdl
      → first_hop t (hop ∷ hops) ≡ (some (record { next_hop = hop; hdl = hdl }), hop ∷ hops)
  unfolding first_hop
  first_hop-some hop hops hdl n = rw (n, first_hop)

  first_hop-nil : first_hop t [] ≡ (none, [])
  unfolding first_hop
  first_hop-nil = refl

  first_hop-HopFound : (hops : List (Option N)) → HopFound hops (first_hop t hops).0
  first_hop-HopFound [] = rw first_hop-nil (λ h c. absurd (ground arith))
  first_hop-HopFound (hop ∷ hops) = elim (Option-cases (lookup_direct t hop)) [
    | inl n ↦
        rw (first_hop-none hop hops n)
          (HopFound-cons hop hops (first_hop t hops).0 n (first_hop-HopFound hops))
    | inr (hdl, s) ↦ rw (first_hop-some hop hops hdl s) (s, ground (arith, ==_self hop))
  ]

  module _ (target : Option N) where
    pub lookup_connected :
        (hdl : Handle)
        → lookup_direct t target ≡ some hdl
        → lookup t target ≡ (some (record { next_hop = target; hdl = hdl }), t)
    unfolding lookup
    lookup_connected hdl s = rw (s, lookup)

    pub lookup_unknown :
        lookup_direct t target ≡ none → find target t.indirect ≡ none → lookup t target ≡ (none, t)
    unfolding lookup
    lookup_unknown n m = rw (n, m, lookup)

    pub lookup_over_hops :
        (hops : List (Option N))
        → lookup_direct t target ≡ none
        → find target t.indirect ≡ some hops
        → lookup t target ≡ (
          (first_hop t hops).0,
          record t { indirect = assign target (first_hop t hops).1 t.indirect },
        )
    unfolding lookup
    lookup_over_hops hops n m = rw (n, m, lookup)

    -- A route that `lookup` may give for the target.
    abbrev pub Routes : Option (Route N) → Type 0
    Routes none = (lookup_direct t target ≡ none) × Unconnected (hops_to target)
    Routes (some r) =
        (lookup_direct t r.next_hop ≡ some r.hdl)
        × ((r.next_hop ≡ target)
            ⊎ ((lookup_direct t target ≡ none) × (contains r.next_hop (hops_to target) ≡ true)))

    HopFound-Routes :
        (hops : List (Option N)) (r : Option (Route N))
        → lookup_direct t target ≡ none
        → find target t.indirect ≡ some hops
        → HopFound hops r
        → Routes r
    HopFound-Routes hops none n m f = rw m (n, f)
    HopFound-Routes hops (some r) n m f = rw m (f.0, inr (n, f.1))

    -- `lookup` gives a route over a direct connection: to the target itself if there is one, or
    -- else to a node that was learned as a hop towards it. It gives none only if neither the
    -- target nor any of its hops is connected.
    pub lookup-Routes : Routes (lookup t target).0
    lookup-Routes = elim (Option-cases (lookup_direct t target)) [
      | inr (hdl, s) ↦ rw (lookup_connected hdl s) (s, inl refl)
      | inl n ↦ elim (Option-cases (find target t.indirect)) [
        | inl m ↦ rw (lookup_unknown n m) (rw m (n, λ h c. absurd (ground arith)))
        | inr (hops, m) ↦
            rw (lookup_over_hops hops n m)
              (HopFound-Routes hops (first_hop t hops).0 n m (first_hop-HopFound hops))
      ]
    ]
