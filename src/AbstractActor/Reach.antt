-- ===== src/AbstractActor/Reach.antt =====
-- Any sequence of linking, unlinking, attaching and ending, and whom the end of an actor reaches.
use boost_actor.Common.{
  ℕ, suc, ◌≤◌, ◌≡◌, ◌≢◌, inl, inr, refl, Bool, true, false, List, [], ◌∷◌, Option, if◌then◌else◌,
  ◌==◌, nat_eq, nat_beq_iff, arith, Bool-cases,
}
use boost_actor.Common.Assoc.{==→≡, ==_self}
use boost_actor.AbstractActor.{
  Attachable, observer, functor, link, monitor, Actor, Store, Event, exit_msg, down_msg,
  functor_called, update, exited, matches, attach, attach_impl, establish_link, remove_link,
  cleanup, all_exited,
}
use boost_actor.AbstractActor.Detach.{matching}
use boost_actor.AbstractActor.Links.{links, IsSymmetric, establish_link-IsSymmetric}
use boost_actor.AbstractActor.Unlinks.{remove_link-IsSymmetric}

-- A store that differs in one actor, whose links are the same or which has exited.
update-IsSymmetric :
    (st : Store) (self : ℕ) (s : Actor)
    → (exited s ≡ false
        → (exited (st self) ≡ false)
          × ((b : ℕ) → matching (matches b link) s.attachables ≡ links st self b))
    → IsSymmetric st
    → IsSymmetric (update st self s)
update-IsSymmetric st self s h v a b n la lb = elim (Bool-cases (a == self)) [
  | inl same_a ↦
      let differ : (b == self) ≡ false = ground (arith, nat_beq_iff a self, nat_beq_iff b self) in
      let lives = h (rw same_a at la) in
      let e = ==→≡ a self same_a in
      let old = v self b (rw e at n) lives.0 (rw differ at lb) in
      rw (same_a, differ) (rw (e, lives.1 b) old)
  | inr differ_a ↦ elim (Bool-cases (b == self)) [
    | inl same_b ↦
        let lives = h (rw same_b at lb) in
        let e = ==→≡ b self same_b in
        let old = v a self (rw e at n) (rw differ_a at la) lives.0 in
        rw (differ_a, same_b) (rw (e, lives.1 a) old)
    | inr differ_b ↦ rw (differ_a, differ_b) (v a b n (rw differ_a at la) (rw differ_b at lb))
  ]
]

-- The end of an actor, for a reason that is not `not_exited`.
cleanup-IsSymmetric :
    (st : Store) (self reason : ℕ)
    → reason ≢ 0
    → IsSymmetric st
    → IsSymmetric (cleanup st self reason).0
unfolding cleanup
cleanup-IsSymmetric st self reason r v = elim (Bool-cases (exited (st self))) [
  | inl gone ↦ rw gone v
  | inr lives ↦ rw lives (
      update-IsSymmetric st self (record { exit_reason = reason; attachables = [] })
        (λ h. absurd (ground (arith, r))) v)
]

-- What may be attached besides links.
abbrev pub no_link : Attachable → Bool
no_link (observer o monitor) = true
no_link (observer o link) = false
no_link (functor f) = true

matches-no_link : (b : ℕ) (ptr : Attachable) → no_link ptr ≡ true → matches b link ptr ≡ false
unfolding matches
matches-no_link b (observer o monitor) h = ground arith
matches-no_link b (observer o link) h = absurd (ground arith)
matches-no_link b (functor f) h = refl

attach-IsSymmetric :
    (st : Store) (self : ℕ) (ptr : Attachable)
    → no_link ptr ≡ true
    → IsSymmetric st
    → IsSymmetric (attach st self ptr).0
unfolding attach matching
attach-IsSymmetric st self ptr h v = elim (Bool-cases (exited (st self))) [
  | inl gone ↦ rw gone v
  | inr lives ↦ rw lives (
      update-IsSymmetric st self (attach_impl (st self) ptr)
        (λ l. (lives, λ b. rw (matches-no_link b ptr h))) v)
]

-- One operation on the store.
pub data Step : Store → Store → Type 0 where
  links_to : {st : Store} (self : ℕ) (other : Option ℕ) → Step st (establish_link st self other).1
  unlinks_from : {st : Store} (self : ℕ) (other : Option ℕ) → Step st (remove_link st self other).1
  attaches :
      {st : Store} (self : ℕ) (ptr : Attachable)
      → no_link ptr ≡ true
      → Step st (attach st self ptr).0
  ends : {st : Store} (self reason : ℕ) → reason ≢ 0 → Step st (cleanup st self reason).0

pub data Reach : Store → Type 0 where
  start : Reach (λ a. record { exit_reason = 0; attachables = [] })
  later : {st st' : Store} → Reach st → Step st st' → Reach st'

step-IsSymmetric : {st st' : Store} → Step st st' → IsSymmetric st → IsSymmetric st'
step-IsSymmetric {st} (links_to self other) v = establish_link-IsSymmetric st self other v
step-IsSymmetric {st} (unlinks_from self other) v = remove_link-IsSymmetric st self other v
step-IsSymmetric {st} (attaches self ptr h) v = attach-IsSymmetric st self ptr h v
step-IsSymmetric {st} (ends self reason r) v = cleanup-IsSymmetric st self reason r v

-- From actors with nothing attached, whatever sequence of linking, unlinking, attaching of
-- monitors and functors, and ending of actors follows: two actors that live are linked to each
-- other or not at all, and at most once.
pub Reach-IsSymmetric : {st : Store} → Reach st → IsSymmetric st
unfolding matching
Reach-IsSymmetric start = λ a b n la lb. (refl, omega arith)
Reach-IsSymmetric (later r s) = step-IsSymmetric s (Reach-IsSymmetric r)

-- The exit messages from one actor to another.
pub exits_told : ℕ → List Event → ℕ
exits_told b [] = 0
exits_told b (exit_msg o self reason ∷ events) =
    let rest = exits_told b events in if o == b then suc rest else rest
exits_told b (down_msg o self reason ∷ events) = exits_told b events
exits_told b (functor_called f reason ∷ events) = exits_told b events

exits_told-all_exited :
    (self reason b : ℕ) (l : List Attachable)
    → exits_told b (all_exited self reason l) ≡ matching (matches b link) l
unfolding exits_told all_exited matching matches
exits_told-all_exited self reason b [] = refl
exits_told-all_exited self reason b (observer o monitor ∷ l) =
    ground (arith, exits_told-all_exited self reason b l)
exits_told-all_exited self reason b (observer o link ∷ l) =
    ground (arith, exits_told-all_exited self reason b l)
exits_told-all_exited self reason b (functor f ∷ l) = exits_told-all_exited self reason b l

cleanup_gone :
    (st : Store) (self reason : ℕ) → exited (st self) ≡ true → cleanup st self reason ≡ (st, [])
unfolding cleanup
cleanup_gone st self reason h = rw h

cleanup_first :
    (st : Store) (self reason : ℕ)
    → exited (st self) ≡ false
    → cleanup st self reason ≡ (
      update st self (record { exit_reason = reason; attachables = [] }),
      all_exited self reason (st self).attachables,
    )
unfolding cleanup
cleanup_first st self reason h = rw h

update-exited :
    (st : Store) (self : ℕ) (s : Actor) → exited s ≡ true → exited (update st self s self) ≡ true
update-exited st self s h = rw (==_self self) h

-- In a store that is reached from actors with nothing attached, by linking, unlinking, attaching
-- monitors and functors, and ending actors: when a living actor ends, it sends every other living
-- actor one exit message for each link that this actor has to it, that is one or none, and a
-- second end does nothing.
pub cleanup_tells :
    {st : Store} (self reason b : ℕ)
    → Reach st
    → self ≢ b
    → reason ≢ 0
    → exited (st self) ≡ false
    → exited (st b) ≡ false
    → let (st', events) = cleanup st self reason in
      (exits_told b events ≡ links st b self)
      × (exits_told b events ≤ 1)
      × ((again : ℕ) → cleanup st' self again ≡ (st', []))
cleanup_tells {st} self reason b r n z la lb =
    let both = Reach-IsSymmetric r self b n la lb in
    let told = exits_told-all_exited self reason b (st self).attachables in
    let gone =
      update-exited st self (record { exit_reason = reason; attachables = [] })
        (ground (arith, z)) in
    rw (cleanup_first st self reason la) (
      omega (arith, told, both.0),
      omega (arith, told, both.1),
      λ again. cleanup_gone _ self again gone,
    )
