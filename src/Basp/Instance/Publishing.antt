-- ===== src/Basp/Instance/Publishing.antt =====
-- `add_published_actor` and both `remove_published_actor`: the actors published on ports. The
-- calls of the callback are returned in order; hooks and interfaces play no part in them.
use boost_actor.Common.{
  ℕ, ◌+◌, ◌||◌, ◌≡◌, refl, Bool, false, List, [], ◌∷◌, Option, none, some, arith, inl, inr, ◌==◌,
  EqualityComparable, nat_eq, if◌then◌else◌, length, Bool-cases,
}
use boost_actor.Common.Assoc.{find, assign, erase as erase_key, find-erase, ==→≡}

-- `published_actors_`, without the interfaces, which are not looked at.
abbrev pub PublishedActors : Type 0 → Type 0
PublishedActors A = List (ℕ × A)

-- The ports that a call with `port` is about.
abbrev pub concerns : ℕ → ℕ → Bool
concerns port q = port == 0 || port == q

module _ {A : Type 0} where
  unfoldable pub add_published_actor : PublishedActors A → ℕ → A → PublishedActors A
  add_published_actor published port whom = assign port whom published

  -- `remove_published_actor(port, cb)`: the number, what is left, and the calls.
  unfoldable pub remove_published_on : PublishedActors A → ℕ → ℕ × PublishedActors A × List (A × ℕ)
  remove_published_on published port = elim (find port published) [
    | none ↦ (0, published, [])
    | some whom ↦ (1, erase_key port published, (whom, port) ∷ [])
  ]

module _ {A : Type 0} ⦃e : EqualityComparable A⦄ where
  -- The loop over all ports.
  unfoldable pub remove_everywhere : A → PublishedActors A → ℕ × PublishedActors A × List (A × ℕ)
  remove_everywhere whom [] = (0, [], [])
  remove_everywhere whom ((port, a) ∷ published) =
      let (result, left, calls) = remove_everywhere whom published in
      if a == whom
      then (result + 1, left, (whom, port) ∷ calls)
      else (result, (port, a) ∷ left, calls)

  -- `remove_published_actor(whom, port, cb)`
  unfoldable pub remove_published_actor :
      PublishedActors A → A → ℕ → ℕ × PublishedActors A × List (A × ℕ)
  remove_published_actor published whom port =
      if port == 0 then remove_everywhere whom published else (elim (find port published) [
        | none ↦ (0, published, [])
        | some a ↦
            if a == whom
            then (1, erase_key port published, (whom, port) ∷ [])
            else (0, published, [])
      ])

  -- What a lookup says of a port, apart from one actor.
  abbrev pub unless : A → Option A → Option A
  unless whom none = none
  unless whom (some a) = if a == whom then none else some a

  -- One entry for a port, as in a map.
  abbrev pub IsMap : PublishedActors A → Type 0
  IsMap [] = Unit {0}
  IsMap ((port, a) ∷ published) = (find port published ≡ none) × IsMap published

  remove_everywhere_lem :
      (published : PublishedActors A) (whom : A)
      → IsMap published
      → (port : ℕ)
      → find port (remove_everywhere whom published).1 ≡ unless whom (find port published)
  unfolding remove_everywhere find
  remove_everywhere_lem [] whom m port = refl
  remove_everywhere_lem ((q, a) ∷ published) whom m port =
      let rest = remove_everywhere_lem published whom m.1 port in
      elim (Bool-cases (q == port)) [
        | inl same ↦ elim (Bool-cases (a == whom)) [
          | inl hit ↦ rw (same, hit, rest) (rw (← ==→≡ q port same, m.0) refl)
          | inr other ↦ rw (same, other, same)
        ]
        | inr differ ↦ elim (Bool-cases (a == whom)) [
          | inl hit ↦ rw (differ, hit) rest
          | inr other ↦ rw (differ, other, differ) rest
        ]
      ]

  remove_everywhere-length :
      (published : PublishedActors A) (whom : A)
      → (remove_everywhere whom published).0 ≡ length (remove_everywhere whom published).2
  unfolding remove_everywhere
  remove_everywhere-length [] whom = refl
  remove_everywhere-length ((q, a) ∷ published) whom = elim (Bool-cases (a == whom)) [
    | inl hit ↦ rw hit (omega (arith, remove_everywhere-length published whom))
    | inr other ↦ rw other (remove_everywhere-length published whom)
  ]

  -- One port, for what was found there.
  remove_at :
      (published : PublishedActors A) (whom : A) (port : ℕ) (o : Option A)
      → (port == 0) ≡ false
      → find port published ≡ o
      → (q : ℕ)
      → (find q (remove_published_actor published whom port).1
          ≡ (if concerns port q then unless whom (find q published) else find q published))
        × ((remove_published_actor published whom port).0
            ≡ length (remove_published_actor published whom port).2)
  unfolding remove_published_actor
  remove_at published whom port none z s q = elim (Bool-cases (port == q)) [
    | inl same ↦ rw (z, s, same) (rw (← ==→≡ port q same, s) (refl, refl))
    | inr differ ↦ rw (z, s, differ) (refl, refl)
  ]
  remove_at published whom port (some a) z s q = elim (Bool-cases (a == whom)) [
    | inl hit ↦ elim (Bool-cases (port == q)) [
      | inl same ↦
          rw (z, s, hit, find-erase q port published, same)
            (rw (← ==→≡ port q same, s, hit) (refl, refl))
      | inr differ ↦ rw (z, s, hit, find-erase q port published, differ) (refl, refl)
    ]
    | inr other ↦ elim (Bool-cases (port == q)) [
      | inl same ↦ rw (z, s, other, same) (rw (← ==→≡ port q same, s, other) (refl, refl))
      | inr differ ↦ rw (z, s, other, differ) (refl, refl)
    ]
  ]

  -- Removing a published actor takes it off the given port, or off every port if 0 is given, and
  -- leaves every other entry; the number returned is the number of calls of the callback.
  pub remove_published_actor_lem :
      (published : PublishedActors A) (whom : A) (port : ℕ)
      → IsMap published
      → (q : ℕ)
      → (find q (remove_published_actor published whom port).1
          ≡ (if concerns port q then unless whom (find q published) else find q published))
        × ((remove_published_actor published whom port).0
            ≡ length (remove_published_actor published whom port).2)
  unfolding remove_published_actor
  remove_published_actor_lem published whom port m q = elim (Bool-cases (port == 0)) [
    | inl z ↦
        rw z (remove_everywhere_lem published whom m q, remove_everywhere-length published whom)
    | inr nz ↦ remove_at published whom port (find port published) nz refl q
  ]
