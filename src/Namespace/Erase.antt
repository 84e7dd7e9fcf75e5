-- ===== src/Namespace/Erase.antt =====
-- `actor_namespace::erase` and `get_all`: proxies that leave the namespace are killed.
use boost_actor.Common.{
  ℕ, ◌≡◌, refl, sym, ◌∙◌, Bool, true, ◌&&◌, List, [], ◌∷◌, ◌++◌, Option, none, some, arith,
  if◌then◌else◌, ◌==◌, nat_eq, nat_beq_iff, EqualityComparable, Bool-cases, inl, inr, if_cases,
  null, map,
}
use boost_actor.Common.Assoc.{find, assign, find-erase, erase as erase_key, ==→≡}
use boost_actor.Namespace.{
  Proxies, ProxyMap, ProxyEntry, submap_of, or_null, or_empty, proxy_of, reset, killed, Event,
  kill_proxy, erase_node, erase_in, erase_found, erase_proxy, destroyed, proxies_in, push_back_if,
  get_all_of, remote_link_unreachable,
}
use boost_actor.Namespace.Entries.{entry, entry-assign, entry-if, entry-erase}

-- A kill for each of some proxies, for one reason.
abbrev kills : ℕ → List ℕ → List Event
kills rsn = map (λ p. kill_proxy p rsn)

killed-push_back :
    (o : Option ℕ) (ps : List ℕ)
    → killed remote_link_unreachable o ++ kills remote_link_unreachable ps
      ≡ kills remote_link_unreachable (push_back_if o ps)
killed-push_back none ps = refl
killed-push_back (some p) ps = refl

destroyed-kills :
    (alive : ℕ → Bool) (m : ProxyMap)
    → destroyed alive m ≡ kills remote_link_unreachable (proxies_in alive m)
unfolding destroyed reset proxies_in
destroyed-kills alive [] = refl
destroyed-kills alive ((aid, x) ∷ m) =
    rw (destroyed-kills alive m) (killed-push_back (proxy_of alive x) (proxies_in alive m))

null_nil : {A : Type 0} (xs : List A) → null xs ≡ true → xs ≡ []
null_nil [] h = refl
null_nil (x ∷ xs) h = absurd (ground arith)

find-null :
    (i aid : ℕ) (m : ProxyMap)
    → null (erase_key aid m) ≡ true
    → (if aid == i then none else find i m) ≡ none
unfolding find
find-null i aid m h = sym (find-erase i aid m) ∙ rw (null_nil (erase_key aid m) h) refl

module _ {N : Type 0} ⦃e : EqualityComparable N⦄ where
  -- No entry is left for one actor, and every other entry is as before.
  abbrev pub Erased : Proxies N → Proxies N → N → ℕ → Type 0
  Erased ns ns' inf aid =
      (n : N) (i : ℕ) → entry ns' n i ≡ (if inf == n && aid == i then none else entry ns n i)

  rest-Erased :
      (ns : Proxies N) (inf : N) (aid : ℕ)
      → Erased ns
          (if null (erase_key aid (submap_of ns inf))
            then erase_key inf ns
            else assign inf (erase_key aid (submap_of ns inf)) ns)
          inf
          aid
  rest-Erased ns inf aid n i =
      let wanted = if inf == n && aid == i then none else entry ns n i in
      if_cases (λ ns'. entry ns' n i ≡ wanted) (null (erase_key aid (submap_of ns inf)))
        (λ last.
          entry-erase ns inf n i
          ∙ entry-if ns inf n aid i none none (sym (find-null i aid (submap_of ns inf) last)))
        (λ more.
          entry-assign ns inf n (erase_key aid (submap_of ns inf)) i
          ∙ entry-if ns inf n aid i (find i (erase_key aid (submap_of ns inf))) none
              (find-erase i aid (submap_of ns inf)))

  -- Where nothing is erased, nothing was there.
  missing-Erased :
      (ns : Proxies N) (inf : N) (aid : ℕ) → entry ns inf aid ≡ none → Erased ns ns inf aid
  missing-Erased ns inf aid h n i = elim (Bool-cases (inf == n)) [
    | inl same ↦ rw (same, ← ==→≡ inf n same) (ground (arith, nat_beq_iff aid i, h))
    | inr other ↦ rw other refl
  ]

  erase_in-Erased :
      (alive : ℕ → Bool) (ns : Proxies N) (inf : N) (aid rsn : ℕ) (x : Option ProxyEntry)
      → entry ns inf aid ≡ x
      → Erased ns (erase_in alive ns inf aid rsn (submap_of ns inf) x).0 inf aid
        × ((erase_in alive ns inf aid rsn (submap_of ns inf) x).1
            ≡ killed rsn (proxy_of alive (or_null x)))
  unfolding erase_in reset proxy_of
  erase_in-Erased alive ns inf aid rsn none h = (missing-Erased ns inf aid h, refl)
  erase_in-Erased alive ns inf aid rsn (some x) h = (rest-Erased ns inf aid, refl)

  erase_found_lem :
      (alive : ℕ → Bool) (ns : Proxies N) (inf : N) (aid rsn : ℕ) (found : Option ProxyMap)
      → erase_found alive ns inf aid rsn found
        ≡ erase_in alive ns inf aid rsn (or_empty found) (find aid (or_empty found))
  unfolding erase_found erase_in find
  erase_found_lem alive ns inf aid rsn none = refl
  erase_found_lem alive ns inf aid rsn (some submap) = refl

  -- `erase` of an actor of a node: its proxy, if there is one that has not expired, is killed with
  -- the given reason, and no other; no entry of the actor is left, and the entry of any other
  -- actor is as before.
  pub erase_proxy-Erased :
      (alive : ℕ → Bool) (ns : Proxies N) (inf : N) (aid rsn : ℕ)
      → Erased ns (erase_proxy alive ns inf aid rsn).0 inf aid
        × ((erase_proxy alive ns inf aid rsn).1
            ≡ killed rsn (proxy_of alive (or_null (entry ns inf aid))))
  unfolding erase_proxy
  erase_proxy-Erased alive ns inf aid rsn =
      rw (erase_found_lem alive ns inf aid rsn (find inf ns))
        (erase_in-Erased alive ns inf aid rsn (entry ns inf aid) refl)

  -- `erase` of a node: each of its proxies that `get_all` tells of is killed, once for each entry
  -- and as unreachable; no entry of the node is left, and those of other nodes are as before.
  pub erase_node-kills :
      (alive : ℕ → Bool) (ns : Proxies N) (inf : N)
      → ((erase_node alive ns inf).1 ≡ kills remote_link_unreachable (get_all_of alive ns inf))
        × ((n : N) (i : ℕ)
            → entry (erase_node alive ns inf).0 n i ≡ (if inf == n then none else entry ns n i))
  unfolding erase_node get_all_of
  erase_node-kills alive ns inf = (destroyed-kills alive (submap_of ns inf), entry-erase ns inf)
