-- ===== src/Common/Assoc.antt =====
-- Maps and sets as lists: `std::unordered_map` by its entries, with one entry for a key, and
-- `std::unordered_set` by its elements, in the order in which the container is walked.
use mathlib.Core.Path.{◌≡◌, refl}
use mathlib.Core.Logic.{◌↔◌, inl, inr}
use mathlib.Core.Bool.{Bool, true, false, ◌||◌, ◌&&◌, not}
use mathlib.Core.Option.{Option, none, some}
use mathlib.Core.List.{List, [], ◌∷◌, ◌++◌}
use native.Mathlib.Omega.{arith}
use boost_actor.Common.Tests.{EqualityComparable, ◌==◌, if◌then◌else◌, Bool-cases}

module _ {K : Type 0} ⦃e : EqualityComparable K⦄ where
  pub ==_self : (k : K) → (k == k) ≡ true
  ==_self k = (e.equals_iff k k).1 refl

  pub ==→≡ : (j k : K) → (j == k) ≡ true → j ≡ k
  ==→≡ j k = (e.equals_iff j k).0

  -- `set.count(x) > 0`
  abbrev pub contains : K → List K → Bool
  contains k [] = false
  contains k (x ∷ xs) = x == k || contains k xs

  -- `set.emplace(x)`
  unfoldable pub emplace_set : K → List K → List K
  emplace_set k xs = if contains k xs then xs else xs ++ k ∷ []

  -- `set.erase(x)`
  pub erase_set : K → List K → List K
  erase_set k [] = []
  erase_set k (x ∷ xs) = if x == k then erase_set k xs else x ∷ erase_set k xs

  pub erase_set-nil : (k : K) → erase_set k [] ≡ []
  unfolding erase_set
  erase_set-nil k = refl

  pub contains-erase_set :
      (j k : K) (xs : List K) → contains j (erase_set k xs) ≡ (contains j xs && not (k == j))
  unfolding erase_set
  contains-erase_set j k [] = refl
  contains-erase_set j k (x ∷ xs) =
      ground
        (arith, contains-erase_set j k xs, e.equals_iff x k, e.equals_iff x j, e.equals_iff k j)

  contains-snoc : (j k : K) (xs : List K) → contains j (xs ++ k ∷ []) ≡ (k == j || contains j xs)
  contains-snoc j k [] = ground arith
  contains-snoc j k (x ∷ xs) = ground (arith, contains-snoc j k xs)

  pub contains-emplace_set :
      (j k : K) (xs : List K) → contains j (emplace_set k xs) ≡ (k == j || contains j xs)
  unfolding emplace_set
  contains-emplace_set j k xs = elim (Bool-cases (contains k xs)) [
    | inl old ↦ rw old (elim (Bool-cases (k == j)) [
      | inl same ↦ rw (same, ← ==→≡ k j same) old
      | inr other ↦ rw other
    ])
    | inr new ↦ rw new (contains-snoc j k xs)
  ]

module _ {K V : Type 0} ⦃e : EqualityComparable K⦄ where
  -- `map.find(k)`
  unfoldable pub find : K → List (K × V) → Option V
  find k [] = none
  find k ((j, v) ∷ m) = if j == k then some v else find k m

  -- `map[k] = v`
  unfoldable pub assign : K → V → List (K × V) → List (K × V)
  assign k v [] = (k, v) ∷ []
  assign k v ((j, w) ∷ m) = if j == k then (k, v) ∷ m else (j, w) ∷ assign k v m

  -- `map.erase(k)`
  pub erase : K → List (K × V) → List (K × V)
  erase k [] = []
  erase k ((j, v) ∷ m) = if j == k then erase k m else (j, v) ∷ erase k m

  pub find-assign :
      (j k : K) (v : V) (m : List (K × V))
      → find j (assign k v m) ≡ (if k == j then some v else find j m)
  unfolding find assign
  find-assign j k v [] = refl
  find-assign j k v ((i, w) ∷ m) =
      ground (arith, e.equals_iff k j, e.equals_iff i k, e.equals_iff i j, find-assign j k v m)

  pub find-erase :
      (j k : K) (m : List (K × V)) → find j (erase k m) ≡ (if k == j then none else find j m)
  unfolding find erase
  find-erase j k [] = ground arith
  find-erase j k ((i, w) ∷ m) =
      ground (arith, e.equals_iff k j, e.equals_iff i k, e.equals_iff i j, find-erase j k m)

-- The test of an optional value, as of a pointer that may be null.
abbrev pub option_beq {ℓ} : {A : Type ℓ} → (A → A → Bool) → Option A → Option A → Bool
option_beq f none none = true
option_beq f none (some b) = false
option_beq f (some a) none = false
option_beq f (some a) (some b) = f a b

pub option_beq_iff {ℓ} :
    {A : Type ℓ} ⦃e : EqualityComparable A⦄ (a b : Option A)
    → (option_beq e.equals a b ≡ true) ↔ (a ≡ b)
option_beq_iff none none = (λ h. refl, λ p. refl)
option_beq_iff none (some b) = (λ h. absurd (ground arith), λ p. cc)
option_beq_iff (some a) none = (λ h. absurd (ground arith), λ p. cc)
option_beq_iff ⦃e⦄ (some a) (some b) = ground (arith, e.equals_iff a b)

instance abbrev pub option_eq {ℓ} :
    {A : Type ℓ} ⦃e : EqualityComparable A⦄ → EqualityComparable (Option A)
option_eq ⦃e⦄ = record { equals = option_beq e.equals; equals_iff = option_beq_iff }
