-- ===== src/Namespace/Entries.antt =====
-- The entries of the namespace after each of its operations.
use boost_actor.Common.{
  ℕ, ◌≡◌, refl, [], ◌∷◌, Option, none, some, arith, if◌then◌else◌, ◌==◌, nat_eq, nat_beq_iff,
  EqualityComparable, Bool-cases, ◌&&◌, inl, inr,
}
use boost_actor.Common.Assoc.{find, assign, find-assign, find-erase, erase as erase_key, ==→≡}
use boost_actor.Namespace.{ProxyMap, ProxyEntry, Proxies, submap_of, assign_ordered}

pub find-assign_ordered :
    (j k : ℕ) (v : ProxyEntry) (m : ProxyMap)
    → find j (assign_ordered k v m) ≡ (if k == j then some v else find j m)
unfolding find assign_ordered
find-assign_ordered j k v [] = refl
find-assign_ordered j k v ((i, w) ∷ m) =
    ground (arith, nat_beq_iff k j, nat_beq_iff i k, nat_beq_iff i j, find-assign_ordered j k v m)

module _ {N : Type 0} ⦃e : EqualityComparable N⦄ where
  -- The entry for an actor of a node.
  abbrev pub entry : Proxies N → N → ℕ → Option ProxyEntry
  entry ns node aid = find aid (submap_of ns node)

  pub entry-assign :
      (ns : Proxies N) (node n : N) (m : ProxyMap) (i : ℕ)
      → entry (assign node m ns) n i ≡ (if node == n then find i m else entry ns n i)
  entry-assign ns node n m i = rw (find-assign n node m ns) (ground arith)

  pub entry-erase :
      (ns : Proxies N) (node n : N) (i : ℕ)
      → entry (erase_key node ns) n i ≡ (if node == n then none else entry ns n i)
  unfolding find
  entry-erase ns node n i = rw (find-erase n node ns) (ground arith)

  -- What is said of one entry of a node, and of its other entries that they are as before.
  pub entry-if :
      (ns : Proxies N) (node n : N) (aid i : ℕ) (u v : Option ProxyEntry)
      → u ≡ (if aid == i then v else entry ns node i)
      → (if node == n then u else entry ns n i)
        ≡ (if node == n && aid == i then v else entry ns n i)
  entry-if ns node n aid i u v h = elim (Bool-cases (node == n)) [
    | inl same ↦ rw (same, ← ==→≡ node n same) h
    | inr other ↦ rw other refl
  ]
