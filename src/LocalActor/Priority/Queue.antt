-- ===== src/LocalActor/Priority/Queue.antt =====
-- Two queues, one for each priority: what the actor's mailbox promises when priorities count.
use boost_actor.Common.{
  ℕ, ◌≡◌, refl, ap, Bool, true, false, not, List, [], ◌∷◌, ◌++◌, append-nil, Option, none, some,
  Bool-cases, if◌then◌else◌, inl, inr,
}

-- `std::copy_if`
unfoldable pub filter : (ℕ → Bool) → List ℕ → List ℕ
filter p [] = []
filter p (x ∷ xs) = if p x then x ∷ filter p xs else filter p xs

pub record PriorityQueue : Type 0 where
  pub high : List ℕ
  pub low : List ℕ

unfoldable pub pop : PriorityQueue → Option ℕ × PriorityQueue
pop q = elim q.high [
  | x ∷ xs ↦ (some x, record q { high = xs })
  | [] ↦ elim q.low [ x ∷ xs ↦ (some x, record q { low = xs }) | [] ↦ (none, q) ]
]

module _ (p : ℕ → Bool) where
  -- The elements in their order of arrival, told apart by their priority.
  abbrev pub sorted : List ℕ → PriorityQueue
  sorted xs = record { high = filter p xs; low = filter (λ x. not (p x)) xs }

  pub filter-append : (xs ys : List ℕ) → filter p (xs ++ ys) ≡ filter p xs ++ filter p ys
  unfolding filter
  filter-append [] ys = refl
  filter-append (x ∷ xs) ys = elim (Bool-cases (p x)) [
    | inl e ↦ rw e (ap (◌∷◌ x) (filter-append xs ys))
    | inr e ↦ rw e (filter-append xs ys)
  ]

  pub data AllAre (b : Bool) : List ℕ → Type 0 where
    none_left : AllAre b []
    one_more : {x : ℕ} {xs : List ℕ} → p x ≡ b → AllAre b xs → AllAre b (x ∷ xs)

  -- High priority before low priority.
  pub data IsPartitioned : List ℕ → Type 0 where
    low_only : {xs : List ℕ} → AllAre false xs → IsPartitioned xs
    high_first : {x : ℕ} {xs : List ℕ} → p x ≡ true → IsPartitioned xs → IsPartitioned (x ∷ xs)

  pub filter-AllAre-true : (xs : List ℕ) → AllAre true xs → filter p xs ≡ xs
  unfolding filter
  filter-AllAre-true [] a = refl
  filter-AllAre-true (x ∷ xs) (one_more e a) = rw e (ap (◌∷◌ x) (filter-AllAre-true xs a))

  pub filter-AllAre-false : (xs : List ℕ) → AllAre false xs → filter p xs ≡ []
  unfolding filter
  filter-AllAre-false [] a = refl
  filter-AllAre-false (x ∷ xs) (one_more e a) = rw e (filter-AllAre-false xs a)

  pub AllAre-append : {b : Bool} (xs ys : List ℕ) → AllAre b xs → AllAre b ys → AllAre b (xs ++ ys)
  AllAre-append [] ys a c = c
  AllAre-append (x ∷ xs) ys (one_more e a) c = one_more e (AllAre-append xs ys a c)

  pub IsPartitioned-append :
      (xs ys : List ℕ) → AllAre true xs → AllAre false ys → IsPartitioned (xs ++ ys)
  IsPartitioned-append [] ys a c = low_only c
  IsPartitioned-append (x ∷ xs) ys (one_more e a) c = high_first e (IsPartitioned-append xs ys a c)

pub AllAre-not :
    (p : ℕ → Bool) (b : Bool) (xs : List ℕ) → AllAre p b xs → AllAre (λ x. not (p x)) (not b) xs
AllAre-not p b [] none_left = none_left
AllAre-not p b (x ∷ xs) (one_more e a) = one_more (ap not e) (AllAre-not p b xs a)

-- What the filter lets through passes the test.
pub AllAre-filter : (p : ℕ → Bool) (xs : List ℕ) → AllAre p true (filter p xs)
unfolding filter
AllAre-filter p [] = none_left
AllAre-filter p (x ∷ xs) = elim (Bool-cases (p x)) [
  | inl e ↦ rw e (one_more e (AllAre-filter p xs))
  | inr e ↦ rw e (AllAre-filter p xs)
]

module _ (p : ℕ → Bool) where
  pub AllAre-filter-not : (xs : List ℕ) → AllAre p false (filter (λ x. not (p x)) xs)
  unfolding filter
  AllAre-filter-not [] = none_left
  AllAre-filter-not (x ∷ xs) = elim (Bool-cases (p x)) [
    | inl e ↦ rw e (AllAre-filter-not xs)
    | inr e ↦ rw e (one_more e (AllAre-filter-not xs))
  ]

  -- A list with the high priority in front is the two queues, one behind the other.
  pub sorted-append :
      (h l : List ℕ)
      → AllAre p true h
      → AllAre p false l
      → sorted p (h ++ l) ≡ record { high = h; low = l }
  sorted-append h l a b =
      rw
        (
          filter-append p h l,
          filter-append (λ x. not (p x)) h l,
          filter-AllAre-true p h a,
          filter-AllAre-false p l b,
          filter-AllAre-false (λ x. not (p x)) h (AllAre-not p true h a),
          filter-AllAre-true (λ x. not (p x)) l (AllAre-not p false l b),
          append-nil h,
        )
        refl

  -- New elements go behind those of their priority.
  pub sorted-low_append :
      (l items : List ℕ)
      → AllAre p false l
      → sorted p (l ++ items)
        ≡ record { high = filter p items; low = l ++ filter (λ x. not (p x)) items }
  sorted-low_append l items b =
      rw
        (
          filter-append p l items,
          filter-append (λ x. not (p x)) l items,
          filter-AllAre-false p l b,
          filter-AllAre-true (λ x. not (p x)) l (AllAre-not p false l b),
        )
        refl

module _ (is_high_priority : ℕ → Bool) where
  unfoldable pub push : PriorityQueue → ℕ → PriorityQueue
  push q a =
      if is_high_priority a
      then record q { high = q.high ++ a ∷ [] }
      else record q { low = q.low ++ a ∷ [] }

  pub sorted-snoc :
      (xs : List ℕ) (a : ℕ)
      → sorted is_high_priority (xs ++ a ∷ []) ≡ push (sorted is_high_priority xs) a
  unfolding push filter
  sorted-snoc xs a = elim (Bool-cases (is_high_priority a)) [
    | inl e ↦
        rw
          (
            filter-append is_high_priority xs (a ∷ []),
            filter-append (λ x. not (is_high_priority x)) xs (a ∷ []),
            e,
            append-nil,
          )
          refl
    | inr e ↦
        rw
          (
            filter-append is_high_priority xs (a ∷ []),
            filter-append (λ x. not (is_high_priority x)) xs (a ∷ []),
            e,
            append-nil,
          )
          refl
  ]
