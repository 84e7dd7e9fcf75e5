-- ===== src/Namespace/Shared.antt =====
-- `actor_namespace::get_or_put` hands out one proxy for an actor until that proxy has expired.
use boost_actor.Common.{
  ℕ, ◌≡◌, refl, ◌∙◌, subst, Bool, true, ◌&&◌, Option, none, some, arith, if◌then◌else◌, ◌==◌,
  nat_eq, nat_beq_iff, EqualityComparable,
}
use boost_actor.Common.Assoc.{find, assign, ==_self}
use boost_actor.Namespace.{
  Proxies, ProxyEntry, Backend, submap_of, or_null, replaced, assign_ordered, anchor_get, proxy_of,
  put_missing, get_or_put, get, get_in, after_get, null_anchor, got,
}
use boost_actor.Namespace.Entries.{entry, entry-assign, entry-if, find-assign_ordered}

module _ {N : Type 0} ⦃e : EqualityComparable N⦄ where
  -- What is stored for one actor, and every other entry as before.
  Stored : Proxies N → Proxies N → N → ℕ → ProxyEntry → Type 0
  Stored ns ns' node aid v =
      (n : N) (i : ℕ) → entry ns' n i ≡ (if node == n && aid == i then some v else entry ns n i)

  assign-Stored :
      (ns : Proxies N) (node : N) (aid : ℕ) (v : ProxyEntry)
      → Stored ns (assign node (assign_ordered aid v (submap_of ns node)) ns) node aid v
  unfolding Stored
  assign-Stored ns node aid v n i =
      entry-assign ns node n (assign_ordered aid v (submap_of ns node)) i
      ∙ entry-if ns node n aid i (find i (assign_ordered aid v (submap_of ns node))) (some v)
          (find-assign_ordered i aid v (submap_of ns node))

  -- What `get` answers from the entry that it finds.
  pub get_at :
      (alive : ℕ → Bool) (ns : Proxies N) (node : N) (aid p : ℕ)
      → entry ns node aid ≡ some (some p)
      → alive p ≡ true
      → (get alive ns node aid).0 ≡ got (some p)
  unfolding get get_in anchor_get after_get
  get_at alive ns node aid p h live = rw (h, live) refl

  pub get_null :
      (alive : ℕ → Bool) (ns : Proxies N) (node : N) (aid : ℕ)
      → entry ns node aid ≡ some none
      → (get alive ns node aid).0 ≡ null_anchor
  unfolding get get_in
  get_null alive ns node aid h = rw h refl

  module _ {B : Type 0} (alive : ℕ → Bool) (be : Backend N B) (b : B) (ns : Proxies N) where
    get_or_put_at :
        (node : N) (aid p : ℕ)
        → entry ns node aid ≡ some (some p)
        → alive p ≡ true
        → ((get_or_put alive be b ns node aid).0 ≡ some p)
          × ((get_or_put alive be b ns node aid).2 ≡ b)
    unfolding get_or_put put_missing proxy_of anchor_get
    get_or_put_at node aid p h live = rw (h, live) (refl, refl)

    module _ (node : N) (aid : ℕ) where
      anchor : ProxyEntry
      anchor = or_null (entry ns node aid)

      proxy_of-some : (x : ProxyEntry) (p : ℕ) → proxy_of alive x ≡ some p → x ≡ some p
      unfolding proxy_of anchor_get
      proxy_of-some none p h = absurd (ground arith)
      proxy_of-some (some q) p h = ground arith

      -- The entry after the second half of `get_or_put`, when it gives a proxy.
      put_missing-Stored :
          (found : Option ℕ) (p : ℕ)
          → proxy_of alive anchor ≡ found
          → (put_missing be b ns node aid anchor found).0 ≡ some p
          → Stored ns (put_missing be b ns node aid anchor found).1 node aid (some p)
      unfolding put_missing
      put_missing-Stored (some q) p h r =
          subst (λ v. Stored ns (put_missing be b ns node aid anchor (some q)).1 node aid v)
            (proxy_of-some anchor p (h ∙ r)) (assign-Stored ns node aid anchor)
      put_missing-Stored none p h r =
          subst
            (λ v.
              Stored ns (put_missing be b ns node aid anchor none).1 node aid (replaced anchor v))
            r (assign-Stored ns node aid (replaced anchor (be.make_proxy b node aid).0))

      get_or_put-Stored :
          (p : ℕ)
          → (get_or_put alive be b ns node aid).0 ≡ some p
          → Stored ns (get_or_put alive be b ns node aid).1 node aid (some p)
      unfolding get_or_put anchor
      get_or_put-Stored p r = put_missing-Stored (proxy_of alive anchor) p refl r

      put_missing-null :
          (found : Option ℕ)
          → anchor ≡ none
          → found ≡ none
          → (be.make_proxy b node aid).0 ≡ none
          → Stored ns (put_missing be b ns node aid anchor found).1 node aid none
      unfolding put_missing
      put_missing-null (some q) a f m = absurd (ground arith)
      put_missing-null none a f m =
          subst (λ v. Stored ns (put_missing be b ns node aid anchor none).1 node aid v) (rw m a)
            (assign-Stored ns node aid (replaced anchor (be.make_proxy b node aid).0))

  Stored-entry :
      (ns ns' : Proxies N) (node : N) (aid : ℕ) (v : ProxyEntry)
      → Stored ns ns' node aid v
      → entry ns' node aid ≡ some v
  unfolding Stored
  Stored-entry ns ns' node aid v st =
      st node aid ∙ rw (==_self node, (nat_beq_iff aid aid).1 refl) refl

  -- What a later call finds: `get` and `get_or_put` answer the proxy, the latter without a call of
  -- the backend.
  abbrev pub Answers : {B : Type 0} → (ℕ → Bool) → Backend N B → B → Proxies N → N → ℕ → ℕ → Type 0
  Answers alive be b ns node aid p =
      ((get alive ns node aid).0 ≡ got (some p))
      × ((get_or_put alive be b ns node aid).0 ≡ some p)
      × ((get_or_put alive be b ns node aid).2 ≡ b)

  -- Once `get_or_put` has given a proxy for an actor of a node, `get` and `get_or_put` for the
  -- same actor give that proxy, as long as it has not expired, and the backend makes no second
  -- one. The entry of the actor holds that proxy, and the entry of any other actor is as before.
  pub get_or_put-shared :
      {B : Type 0} (alive alive' : ℕ → Bool) (be : Backend N B) (b b' : B) (ns : Proxies N)
      (node : N) (aid p : ℕ)
      → (get_or_put alive be b ns node aid).0 ≡ some p
      → alive' p ≡ true
      → Answers alive' be b' (get_or_put alive be b ns node aid).1 node aid p
        × ((n : N) (i : ℕ)
            → entry (get_or_put alive be b ns node aid).1 n i
              ≡ (if node == n && aid == i then some (some p) else entry ns n i))
  unfolding Stored
  get_or_put-shared alive alive' be b b' ns node aid p r live =
      let ns' = (get_or_put alive be b ns node aid).1 in
      let st = get_or_put-Stored alive be b ns node aid p r in
      let there = Stored-entry ns ns' node aid (some p) st in
      let again = get_or_put_at alive' be b' ns' node aid p there live in
      ((get_at alive' ns' node aid p there live, again.0, again.1), st)

  -- If the backend makes no proxy for an actor that is not known, the entry that `get_or_put`
  -- leaves for it has no anchor, and the next `get` for that actor calls through the null pointer.
  pub get_or_put-null :
      {B : Type 0} (alive alive' : ℕ → Bool) (be : Backend N B) (b : B) (ns : Proxies N) (node : N)
      (aid : ℕ)
      → entry ns node aid ≡ none
      → (be.make_proxy b node aid).0 ≡ none
      → (get alive' (get_or_put alive be b ns node aid).1 node aid).0 ≡ null_anchor
  unfolding get_or_put anchor proxy_of
  get_or_put-null alive alive' be b ns node aid unknown refused =
      get_null alive' (get_or_put alive be b ns node aid).1 node aid (
        Stored-entry ns (get_or_put alive be b ns node aid).1 node aid none (
          put_missing-null alive be b ns node aid (proxy_of alive (anchor alive be b ns node aid))
            (rw unknown refl) (rw unknown refl) refused))

  put_missing-none :
      {B : Type 0} (be : Backend N B) (b : B) (ns : Proxies N) (node : N) (aid : ℕ) (x : ProxyEntry)
      (found : Option ℕ)
      → (put_missing be b ns node aid x found).0 ≡ none
      → (be.make_proxy b node aid).0 ≡ none
  unfolding put_missing
  put_missing-none be b ns node aid x none h = h
  put_missing-none be b ns node aid x (some p) h = absurd (ground arith)

  -- No proxy is given only if the backend makes none.
  pub get_or_put-none :
      {B : Type 0} (alive : ℕ → Bool) (be : Backend N B) (b : B) (ns : Proxies N) (node : N)
      (aid : ℕ)
      → (get_or_put alive be b ns node aid).0 ≡ none
      → (be.make_proxy b node aid).0 ≡ none
  unfolding get_or_put
  get_or_put-none alive be b ns node aid h =
      let x = or_null (entry ns node aid) in
      put_missing-none be b ns node aid x (proxy_of alive x) h
