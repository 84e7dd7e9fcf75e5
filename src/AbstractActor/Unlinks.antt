-- ===== src/AbstractActor/Unlinks.antt =====
-- `remove_link_impl` and `remove_backlink_impl`.
use boost_actor.Common.{
  ℕ, ◌≡◌, ◌≢◌, ◌⊎◌, inl, inr, refl, sym, ◌∙◌, true, false, ◌&&◌, Option, none, some, ◌==◌, nat_eq,
  nat_beq_iff, arith, Bool-cases,
}
use boost_actor.AbstractActor.{
  link, Store, update, matches, has_match, remove_first, remove_backlink, remove_link,
}
use boost_actor.AbstractActor.Links.{
  links, IsSymmetric, no_match, links-removed, SameExits, update-SameExits,
}

-- The store without the first link of an actor to another.
abbrev unlinked : Store → ℕ → ℕ → Store
unlinked st self other =
    update st self
      (record (st self) { attachables = remove_first (matches other link) (st self).attachables })

remove_backlink_lem :
    (st : Store) (self other : ℕ)
    → (other == self) ≡ false
    → (remove_backlink st self (some other)).1 ≡ unlinked st self other
unfolding remove_backlink
remove_backlink_lem st self other d = rw d refl

unlinked-SameExits : (st : Store) (self other : ℕ) → SameExits st (unlinked st self other)
unlinked-SameExits st self other = update-SameExits st self _ refl

module _ (st : Store) (self other : ℕ) where
  abbrev both_unlinked : Store
  both_unlinked = unlinked (unlinked st self other) other self

  remove_link_found :
      (other == self) ≡ false
      → has_match (matches other link) (st self).attachables ≡ true
      → (remove_link st self (some other)).1
        ≡ (remove_backlink (unlinked st self other) other (some self)).1
  unfolding remove_link
  remove_link_found differ y = rw (differ, y)

  remove_link_missed :
      (other == self) ≡ false
      → has_match (matches other link) (st self).attachables ≡ false
      → (remove_link st self (some other)).1 ≡ unlinked st self other
  unfolding remove_link
  remove_link_missed differ n = rw (differ, n)

  remove_link_self : (other == self) ≡ true → (remove_link st self (some other)).1 ≡ st
  unfolding remove_link
  remove_link_self same = rw same

  -- What unlinking does: nothing that counts if there was no link, or one link less on both sides.
  remove_link_cases :
      let r = remove_link st self (some other) in
      (r.1 ≡ st)
      ⊎ (((links st self other ≡ 0) × (r.1 ≡ unlinked st self other))
          ⊎ ((self ≢ other) × (r.1 ≡ both_unlinked)))
  remove_link_cases = elim (Bool-cases (other == self)) [
    | inl same ↦ inl (remove_link_self same)
    | inr differ ↦ elim (Bool-cases (has_match (matches other link) (st self).attachables)) [
      | inr n ↦
          inr (
            inl
              (no_match (matches other link) (st self).attachables n, remove_link_missed differ n))
      | inl y ↦ inr (
          inr (
            ground (arith, nat_beq_iff other self),
            remove_link_found differ y
                ∙ remove_backlink_lem (unlinked st self other) other self
                    (ground (arith, nat_beq_iff self other, nat_beq_iff other self)),
          ))
    ]
  ]

  unlinked-IsSymmetric :
      links st self other ≡ 0 → IsSymmetric st → IsSymmetric (unlinked st self other)
  unlinked-IsSymmetric z v a b n la lb =
      let ea = unlinked-SameExits st self other a in
      let eb = unlinked-SameExits st self other b in
      let old = v a b n (rw ea at la) (rw eb at lb) in
      (less a b ∙ (old.0 ∙ sym (less b a)), omega (arith, less a b, old.1))
    where
      less : (a b : ℕ) → links (unlinked st self other) a b ≡ links st a b
      less a b = elim (Bool-cases (a == self && other == b)) [
        | inl hit ↦
            let here : a ≡ self = ground (arith, nat_beq_iff a self) in
            let there : other ≡ b = ground (arith, nat_beq_iff other b) in
            rw (links-removed st self other a b, hit, here, ← there) (omega (arith, z))
        | inr miss ↦ rw (links-removed st self other a b, miss)
      ]

  both-IsSymmetric : self ≢ other → IsSymmetric st → IsSymmetric both_unlinked
  both-IsSymmetric d v a b n la lb =
      let one = unlinked st self other in
      let ea = unlinked-SameExits one other self a ∙ unlinked-SameExits st self other a in
      let eb = unlinked-SameExits one other self b ∙ unlinked-SameExits st self other b in
      let old = v a b n (rw ea at la) (rw eb at lb) in
      ground (
        arith,
        links-removed one other self a b,
        links-removed one other self b a,
        links-removed st self other a b,
        links-removed st self other b a,
        old.0,
        old.1,
      )

pub remove_link-IsSymmetric :
    (st : Store) (self : ℕ) (other : Option ℕ)
    → IsSymmetric st
    → IsSymmetric (remove_link st self other).1
unfolding remove_link
remove_link-IsSymmetric st self none v = v
remove_link-IsSymmetric st self (some other) v = elim (remove_link_cases st self other) [
  | inl same ↦ rw same v
  | inr (inl (z, e)) ↦ rw e (unlinked-IsSymmetric st self other z v)
  | inr (inr (d, e)) ↦ rw e (both-IsSymmetric st self other d v)
]
