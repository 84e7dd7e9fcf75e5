-- ===== src/AbstractActor/Links.antt =====
-- `establish_link_impl` and `establish_backlink_impl`: links in both directions.
use boost_actor.Common.{
  ℕ, ◌+◌, ◌-◌, ◌≤◌, ◌≡◌, ◌≢◌, ◌⊎◌, inl, inr, refl, ◌∙◌, Bool, true, false, ◌&&◌, List, [], ◌∷◌,
  Option, none, some, if◌then◌else◌, ◌==◌, nat_eq, nat_beq_iff, arith, Bool-cases,
}
use boost_actor.Common.Assoc.{==→≡}
use boost_actor.AbstractActor.{
  Attachable, observer, functor, link, monitor, Actor, Store, exit_msg, update, exited, attach_impl,
  matches, has_match, remove_first, establish_backlink, establish_link,
}
use boost_actor.AbstractActor.Detach.{matching}

-- How often the second actor is linked to the first.
abbrev pub links : Store → ℕ → ℕ → ℕ
links st a b = matching (matches b link) (st a).attachables

-- Two actors that have not exited are linked to each other or not at all, and at most once.
abbrev pub IsSymmetric : Store → Type 0
IsSymmetric st =
    (a b : ℕ)
    → a ≢ b
    → exited (st a) ≡ false
    → exited (st b) ≡ false
    → (links st a b ≡ links st b a) × (links st a b ≤ 1)

pub no_match :
    (hit : Attachable → Bool) (l : List Attachable) → has_match hit l ≡ false → matching hit l ≡ 0
unfolding has_match matching
no_match hit [] h = refl
no_match hit (ptr ∷ next) h = ground (arith, no_match hit next)

matching-remove_first_self :
    (hit : Attachable → Bool) (l : List Attachable)
    → matching hit (remove_first hit l) ≡ matching hit l - 1
unfolding matching remove_first
matching-remove_first_self hit [] = refl
matching-remove_first_self hit (ptr ∷ next) = elim (Bool-cases (hit ptr)) [
  | inl h ↦ rw h (omega arith)
  | inr n ↦ rw (n, n) (matching-remove_first_self hit next)
]

matching-remove_first_other :
    (hit keep : Attachable → Bool) (l : List Attachable)
    → ((ptr : Attachable) → hit ptr ≡ true → keep ptr ≡ false)
    → matching keep (remove_first hit l) ≡ matching keep l
unfolding matching remove_first
matching-remove_first_other hit keep [] d = refl
matching-remove_first_other hit keep (ptr ∷ next) d = elim (Bool-cases (hit ptr)) [
  | inl h ↦ rw (h, d ptr h)
  | inr n ↦ rw (n, matching-remove_first_other hit keep next d)
]

matches_one :
    (other b : ℕ) (ptr : Attachable)
    → (other == b) ≡ false
    → matches other link ptr ≡ true
    → matches b link ptr ≡ false
unfolding matches
matches_one other b (observer o monitor) d h = absurd (ground arith)
matches_one other b (observer o link) d h = ground arith
matches_one other b (functor f) d h = refl

pub matching-remove_first :
    (b other : ℕ) (l : List Attachable)
    → matching (matches b link) (remove_first (matches other link) l)
      ≡ (if other == b then matching (matches b link) l - 1 else matching (matches b link) l)
matching-remove_first b other l = elim (Bool-cases (other == b)) [
  | inl same ↦ rw (same, ==→≡ other b same) (matching-remove_first_self (matches b link) l)
  | inr differ ↦ rw differ (
      matching-remove_first_other (matches other link) (matches b link) l
        (λ ptr. matches_one other b ptr differ))
]

module _ (st : Store) (self other a b : ℕ) where
  links-attached :
      links (update st self (attach_impl (st self) (observer other link))) a b
      ≡ (if a == self && other == b then 1 + links st a b else links st a b)
  unfolding matching matches
  links-attached = elim (Bool-cases (a == self)) [
    | inl same ↦ rw (same, ← ==→≡ a self same) (ground arith)
    | inr differ ↦ rw differ
  ]

  pub links-removed :
      links
        (update st self (record (st self) {
          attachables = remove_first (matches other link) (st self).attachables;
        }))
        a
        b
      ≡ (if a == self && other == b then links st a b - 1 else links st a b)
  links-removed = elim (Bool-cases (a == self)) [
    | inl same ↦ rw (same, ← ==→≡ a self same) (matching-remove_first b other (st a).attachables)
    | inr differ ↦ rw differ
  ]

-- The same exit reason for every actor.
abbrev pub SameExits : Store → Store → Type 0
SameExits st st' = (a : ℕ) → (st' a).exit_reason ≡ (st a).exit_reason

pub update-SameExits :
    (st : Store) (self : ℕ) (s : Actor)
    → s.exit_reason ≡ (st self).exit_reason
    → SameExits st (update st self s)
update-SameExits st self s e a = elim (Bool-cases (a == self)) [
  | inl same ↦ rw same (rw (==→≡ a self same) e)
  | inr differ ↦ rw differ
]

module _ (st : Store) (self other : ℕ) where
  abbrev backlinked : Store
  backlinked = update st other (attach_impl (st other) (observer self link))

  -- The store after a link was established.
  abbrev linked : Store
  linked = update backlinked self (attach_impl (backlinked self) (observer other link))

  establish_backlink_cases :
      (self == other) ≡ false
      → let r = establish_backlink st other (some self) in
        ((r.0 ≡ false) × (r.1 ≡ st))
        ⊎ ((links st other self ≡ 0) × (r.0 ≡ true) × (r.1 ≡ backlinked))
  unfolding establish_backlink
  establish_backlink_cases differ = elim (Bool-cases (exited (st other))) [
    | inl gone ↦ inl (rw (differ, gone) (refl, refl))
    | inr lives ↦ elim (Bool-cases (has_match (matches self link) (st other).attachables)) [
      | inl old ↦ inl (rw (differ, lives, old) (refl, refl))
      | inr new ↦ inr (
        no_match (matches self link) (st other).attachables new,
        rw (differ, lives, new) refl,
        rw (differ, lives, new) refl,
      )
    ]
  ]

  -- A link is established if both actors live and the other one has no link yet, and otherwise
  -- nothing is attached.
  establish_link_cases :
      let r = establish_link st self (some other) in
      ((r.0 ≡ false) × (r.1 ≡ st)) ⊎ ((self ≢ other) × (links st other self ≡ 0) × (r.1 ≡ linked))
  unfolding establish_link
  establish_link_cases = elim (Bool-cases (other == self)) [
    | inl same ↦ inl (rw same (refl, refl))
    | inr differ ↦ elim (Bool-cases (exited (st self))) [
      | inl gone ↦ inl (rw (differ, gone) (refl, refl))
      | inr lives ↦
          elim (establish_backlink_cases
            (ground (arith, nat_beq_iff self other, nat_beq_iff other self))) [
              | inl (f, same) ↦ inl (rw (differ, lives, f) (refl, same))
              | inr (z, t, e) ↦
                  inr (ground (arith, nat_beq_iff other self), z, rw (differ, lives, t) (rw e refl))
            ]
    ]
  ]

  linked-SameExits : SameExits st linked
  linked-SameExits a =
      update-SameExits backlinked self (attach_impl (backlinked self) (observer other link)) refl a
      ∙ update-SameExits st other (attach_impl (st other) (observer self link)) refl a

  linked-links :
      (a b : ℕ)
      → links linked a b
        ≡ (if a == self && other == b then 1 else 0)
          + ((if a == other && self == b then 1 else 0) + links st a b)
  linked-links a b =
      ground (arith, links-attached backlinked self other a b, links-attached st other self a b)

  linked-IsSymmetric : self ≢ other → links st other self ≡ 0 → IsSymmetric st → IsSymmetric linked
  linked-IsSymmetric d z v a b n la lb =
      let ea = linked-SameExits a in
      let eb = linked-SameExits b in
      let old = v a b n (rw ea at la) (rw eb at lb) in
      ground (arith, linked-links a b, linked-links b a, old.0, old.1)

pub establish_link-IsSymmetric :
    (st : Store) (self : ℕ) (other : Option ℕ)
    → IsSymmetric st
    → IsSymmetric (establish_link st self other).1
unfolding establish_link
establish_link-IsSymmetric st self none v = v
establish_link-IsSymmetric st self (some other) v = elim (establish_link_cases st self other) [
  | inl (f, same) ↦ rw same v
  | inr (d, z, e) ↦ rw e (linked-IsSymmetric st self other d z v)
]

-- Linking answers `true` only with a link in both directions: where the store is symmetric, each
-- of the two has exactly one link to the other afterwards.
pub establish_link_lem :
    (st : Store) (self other : ℕ)
    → IsSymmetric st
    → exited (st self) ≡ false
    → exited (st other) ≡ false
    → (establish_link st self (some other)).0 ≡ true
    → let st' = (establish_link st self (some other)).1 in
      (links st' self other ≡ 1) × (links st' other self ≡ 1)
establish_link_lem st self other v la lb h = elim (establish_link_cases st self other) [
  | inl (f, same) ↦ absurd (ground (arith, f, h))
  | inr (d, z, e) ↦
      let old = v self other d la lb in
      rw e (
        ground (arith, linked-links st self other self other, old.0, z, d),
        ground (arith, linked-links st self other other self, z, d),
      )
]

-- If the two differ and just one of them has exited, then nothing is linked, and the living one
-- is sent one exit message from the other with its reason, whichever of the two links.
pub establish_link-exited :
    (st : Store) (self other : ℕ)
    → self ≢ other
    → ((exited (st self) ≡ true)
        → establish_link st self (some other)
          ≡ (false, st, exit_msg other self (st self).exit_reason ∷ []))
      × ((exited (st self) ≡ false)
          → exited (st other) ≡ true
          → establish_link st self (some other)
            ≡ (false, st, exit_msg self other (st other).exit_reason ∷ []))
unfolding establish_link establish_backlink
establish_link-exited st self other d =
    let p : (other == self) ≡ false = ground (arith, d) in
    let q : (self == other) ≡ false = ground (arith, d) in
    (λ gone. rw (p, gone), λ lives gone. rw (p, lives, q, gone))
