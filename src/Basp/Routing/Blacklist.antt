-- ===== src/Basp/Routing/Blacklist.antt =====
-- `blacklist` and `add_indirect`: blacklisted hops and indirect routes.
use mathlib.Core.Bool.{and-true, and-false}
use boost_actor.Common.{
  ◌≡◌, refl, inl, inr, Bool, true, false, not, List, [], ◌∷◌, Option, none, some, arith,
  if◌then◌else◌, ◌==◌, EqualityComparable, nat_eq, Bool-cases, ◌||◌, ◌&&◌, null,
}
use boost_actor.Common.Assoc.{
  find, assign, erase as erase_key, option_eq, find-assign, find-erase, contains, ==→≡, emplace_set,
  erase_set, contains-emplace_set, contains-erase_set, erase_set-nil,
}
use boost_actor.Basp.Routing.{
  RoutingTable, hops_of, blacklisted, blacklist_hop, drop_hop, add_indirect,
}
use boost_actor.Basp.Routing.Lookup.{hops_to}

-- A law of Boolean tests: what is excluded whenever `b` holds is so after `a` is taken out.
excluded : (c a b : Bool) → (b ≡ true → c ≡ false) → (a || b) ≡ true → (c && not a) ≡ false
excluded c true b h e = simp and-false
excluded c false b h e = rw (h e)

module _ {N : Type 0} ⦃e : EqualityComparable N⦄ where
  abbrev pub IsRespected : RoutingTable N → Type 0
  IsRespected t =
      (hop dest : Option N) → blacklisted t hop dest ≡ true → contains hop (hops_to t dest) ≡ false

  -- What a map says of another key after an insertion, as a set.
  hops_of-assign :
      (j k : Option N) (hops : List (Option N)) (m : List (Option N × List (Option N)))
      → hops_of (find j (assign k hops m)) ≡ (if k == j then hops else hops_of (find j m))
  hops_of-assign j k hops m =
      rw (find-assign j k hops m)
        (elim (Bool-cases (k == j)) [ inl same ↦ rw same | inr other ↦ rw other ])

  hops_of-erase :
      (j k : Option N) (m : List (Option N × List (Option N)))
      → hops_of (find j (erase_key k m)) ≡ (if k == j then [] else hops_of (find j m))
  hops_of-erase j k m =
      rw (find-erase j k m)
        (elim (Bool-cases (k == j)) [ inl same ↦ rw same | inr other ↦ rw other ])

  null-nil : (hops : List (Option N)) → null hops ≡ true → [] ≡ hops
  null-nil [] h = refl
  null-nil (hop ∷ hops) h = absurd (ground arith)

  -- The hops after `blacklist`, whether an emptied entry is erased or not.
  hops-drop_hop :
      (t : RoutingTable N) (hop dest j : Option N) (o : Option (List (Option N)))
      → find dest t.indirect ≡ o
      → hops_to (drop_hop t hop dest o) j
        ≡ (if dest == j then erase_set hop (hops_of o) else hops_to t j)
  unfolding drop_hop
  hops-drop_hop t hop dest j none s = elim (Bool-cases (dest == j)) [
    | inl same ↦ rw (same, erase_set-nil hop, ← ==→≡ dest j same, s)
    | inr other ↦ rw other
  ]
  hops-drop_hop t hop dest j (some hops) s = elim (Bool-cases (null (erase_set hop hops))) [
    | inl z ↦ rw (z, drop_hop, hops_of-erase j dest t.indirect, null-nil (erase_set hop hops) z)
    | inr nz ↦ rw (nz, drop_hop, hops_of-assign j dest (erase_set hop hops) t.indirect)
  ]

  drop_hop-blacklist :
      (t : RoutingTable N) (hop dest : Option N) (o : Option (List (Option N)))
      → (drop_hop t hop dest o).blacklist ≡ t.blacklist
  unfolding drop_hop
  drop_hop-blacklist t hop dest none = refl
  drop_hop-blacklist t hop dest (some hops) = elim (Bool-cases (null (erase_set hop hops))) [
    | inl z ↦ rw (z, drop_hop)
    | inr nz ↦ rw (nz, drop_hop)
  ]

  -- After `blacklist` the hop is on no route to that node; the other hops and routes stay.
  pub blacklist_hop-hops :
      (t : RoutingTable N) (hop dest h j : Option N)
      → contains h (hops_to (blacklist_hop t hop dest) j)
        ≡ (contains h (hops_to t j) && not (hop == h && dest == j))
  unfolding blacklist_hop
  blacklist_hop-hops t hop dest h j =
      rw
        (hops-drop_hop
          (record t {
            blacklist = assign dest (emplace_set hop (hops_of (find dest t.blacklist))) t.blacklist;
          })
          hop dest j (find dest t.indirect) refl)
        (elim (Bool-cases (dest == j)) [
          | inl same ↦ rw same (
              rw (contains-erase_set h hop (hops_to t dest))
                (rw (← ==→≡ dest j same) (simp and-true)))
          | inr other ↦ rw other (simp (and-false, and-true))
        ])

  blacklist_hop-blacklisted :
      (t : RoutingTable N) (hop dest h j : Option N)
      → blacklisted (blacklist_hop t hop dest) h j ≡ (hop == h && dest == j || blacklisted t h j)
  unfolding blacklisted blacklist_hop
  blacklist_hop-blacklisted t hop dest h j =
      let old = hops_of (find dest t.blacklist) in
      rw
        (
          drop_hop-blacklist
              (record t { blacklist = assign dest (emplace_set hop old) t.blacklist }) hop dest
              (find dest t.indirect),
          hops_of-assign j dest (emplace_set hop old) t.blacklist,
        )
        (elim (Bool-cases (dest == j)) [
          | inl same ↦ rw (same, contains-emplace_set h hop old, ← ==→≡ dest j same) (simp and-true)
          | inr other ↦ rw other (simp and-false)
        ])

  -- Blacklisting a hop keeps every blacklisted hop off the indirect routes, the new one included.
  pub blacklist_hop-IsRespected :
      (t : RoutingTable N) (hop dest : Option N)
      → IsRespected t
      → IsRespected (blacklist_hop t hop dest)
  blacklist_hop-IsRespected t hop dest v h j b = rw (blacklist_hop-hops t hop dest h j) (
      excluded _ (hop == h && dest == j) (blacklisted t h j) (v h j)
        (rw (blacklist_hop-blacklisted t hop dest h j) at b))

  add_indirect_refused :
      (t : RoutingTable N) (hop dest : Option N)
      → blacklisted t hop dest ≡ true
      → add_indirect t hop dest ≡ (false, t, [])
  unfolding add_indirect
  add_indirect_refused t hop dest b = rw b

  pub add_indirect_added :
      (t : RoutingTable N) (hop dest : Option N)
      → blacklisted t hop dest ≡ false
      → (add_indirect t hop dest).1
        ≡ record t { indirect = assign dest (emplace_set hop (hops_to t dest)) t.indirect }
  unfolding add_indirect
  add_indirect_added t hop dest b = rw b

  blacklisted_same :
      (t : RoutingTable N) (hop dest h j : Option N)
      → (hop == h) ≡ true
      → (dest == j) ≡ true
      → blacklisted t h j ≡ true
      → blacklisted t hop dest ≡ true
  blacklisted_same t hop dest h j p q b = rw (==→≡ hop h p, ==→≡ dest j q) b

  added-IsRespected :
      (t : RoutingTable N) (hop dest : Option N)
      → IsRespected t
      → blacklisted t hop dest ≡ false
      → IsRespected
          (record t { indirect = assign dest (emplace_set hop (hops_to t dest)) t.indirect })
  unfolding blacklisted
  added-IsRespected t hop dest v nb h j b =
      rw (hops_of-assign j dest (emplace_set hop (hops_to t dest)) t.indirect)
        (elim (Bool-cases (dest == j)) [
          | inl same ↦
              rw (same, contains-emplace_set h hop (hops_to t dest))
                (elim (Bool-cases (hop == h)) [
                  | inl this ↦ absurd (cc (blacklisted_same t hop dest h j this same b, nb))
                  | inr different ↦ rw different (rw (==→≡ dest j same) (v h j b))
                ])
          | inr other ↦ rw other (v h j b)
        ])

  -- Learning a hop keeps the blacklisted hops off the indirect routes: one that is blacklisted for
  -- the node is refused.
  pub add_indirect-IsRespected :
      (t : RoutingTable N) (hop dest : Option N)
      → IsRespected t
      → IsRespected (add_indirect t hop dest).1
  add_indirect-IsRespected t hop dest v = elim (Bool-cases (blacklisted t hop dest)) [
    | inl b ↦ rw (add_indirect_refused t hop dest b) v
    | inr b ↦ rw (add_indirect_added t hop dest b) (added-IsRespected t hop dest v b)
  ]
