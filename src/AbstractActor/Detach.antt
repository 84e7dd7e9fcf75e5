-- ===== src/AbstractActor/Detach.antt =====
-- When `detach_impl` returns, and what it does.
use boost_actor.Common.{
  ℕ, ◌+◌, ◌≡◌, inl, inr, refl, Bool, true, false, List, [], ◌∷◌, none, some, if◌then◌else◌, nat_eq,
  arith, Bool-cases,
}
use boost_actor.AbstractActor.{Attachable, detach_impl, has_match, remove_first}

-- The number of matches, and what is left without them.
unfoldable pub matching : (Attachable → Bool) → List Attachable → ℕ
matching hit [] = 0
matching hit (ptr ∷ next) = let rest = matching hit next in if hit ptr then 1 + rest else rest

pub without : (Attachable → Bool) → List Attachable → List Attachable
without hit [] = []
without hit (ptr ∷ next) = let rest = without hit next in if hit ptr then rest else ptr ∷ rest

module _ (hit : Attachable → Bool) where
  -- `detach` removes every match and returns how many there were.
  pub detach_lem :
      (l : List Attachable) → detach_impl hit l false false ≡ some (matching hit l, without hit l)
  unfolding detach_impl matching without
  detach_lem [] = refl
  detach_lem (ptr ∷ next) = elim (Bool-cases (hit ptr)) [
    | inl h ↦ rw (h, detach_lem next)
    | inr n ↦ rw (n, detach_lem next)
  ]

  -- With `stop_on_hit` it returns 1 or 0, and takes out the first match or, in a dry run, nothing.
  pub detach_first_lem :
      (l : List Attachable) (dry_run : Bool)
      → detach_impl hit l true dry_run
        ≡ some (if has_match hit l then 1 else 0, if dry_run then l else remove_first hit l)
  unfolding detach_impl has_match remove_first
  detach_first_lem [] true = refl
  detach_first_lem [] false = refl
  detach_first_lem (ptr ∷ next) true = elim (Bool-cases (hit ptr)) [
    | inl h ↦ rw h
    | inr n ↦ rw (n, detach_first_lem next true)
  ]
  detach_first_lem (ptr ∷ next) false = elim (Bool-cases (hit ptr)) [
    | inl h ↦ rw h
    | inr n ↦ rw (n, detach_first_lem next false)
  ]

  -- A dry run that does not stop never returns if there is a match.
  pub detach_forever :
      (l : List Attachable) → has_match hit l ≡ true → detach_impl hit l false true ≡ none
  unfolding detach_impl has_match
  detach_forever [] h = absurd (ground arith)
  detach_forever (ptr ∷ next) h = elim (Bool-cases (hit ptr)) [
    | inl y ↦ rw y
    | inr n ↦ rw (n, detach_forever next (rw n at h))
  ]
