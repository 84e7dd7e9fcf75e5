-- ===== src/TryMatch/Overflow.antt =====
-- A wildcard inside the part that a wildcard retries commits its own position, so that the outer
-- `rollback` does not go back to where the outer wildcard stood.
use native.Mathlib.Decide.{dec_lt}
use boost_actor.Common.{
  ℕ, suc, ◌+◌, ◌≤◌, ◌<◌, ◌≡◌, refl, ◌∙◌, Bool, true, false, List, [], ◌∷◌, Option, some, arith,
  ◌==◌, nat_eq, length, All, if◌then◌else◌,
}
use boost_actor.TryMatch.{
  Element, MetaElement, SetCommitRollback, is_wildcard, inspect, submatch, commit, rollback, inc,
  store, try_match_at, try_match,
}
use boost_actor.TryMatch.Steps.{at_match, at_mismatch, at_wildcard, at_end, submatch_miss}

module _ (b : MetaElement) (kb : is_wildcard b ≡ false) where
  -- The inner search fails and leaves slots and fallback position alone.
  inner_fails :
      (i : ℕ) (xs : List Element) (s : SetCommitRollback)
      → All (λ x. inspect b x ≡ false) xs
      → let r = submatch (try_match_at (b ∷ [])) i xs s in
        (r.0 ≡ false) × (r.1.slots ≡ s.slots) × (r.1.fallback_pos ≡ s.fallback_pos)
  unfolding submatch
  inner_fails i [] s h = (refl, refl, refl)
  inner_fails i (x ∷ xs) s h =
      rw (at_mismatch b i x xs s [] kb h.0) (inner_fails (i + 1) xs (rollback s) h.1)

module _ (a v b : MetaElement) (ka : is_wildcard a ≡ false) (wv : is_wildcard v ≡ true)
    (kb : is_wildcard b ≡ false) where
  -- Each value fits `a`, and none fits `b`.
  abbrev Misses : Element → Type 0
  Misses x = (inspect a x ≡ true) × (inspect b x ≡ false)

  Misses-All : (xs : List Element) → All Misses xs → All (λ x. inspect b x ≡ false) xs
  Misses-All [] h = tt
  Misses-All (x ∷ xs) h = (h.0.1, Misses-All xs h.1)

  abbrev retried : ℕ → List Element → SetCommitRollback → Bool × SetCommitRollback
  retried = try_match_at (a ∷ v ∷ b ∷ [])

  last_attempt :
      (i : ℕ) (x : Element) (s : SetCommitRollback)
      → Misses x
      → retried i (x ∷ []) s ≡ (false, inc (store s i))
  last_attempt i x s m = rw (at_match a i x [] s (v ∷ b ∷ []) ka m.0, at_end, kb) (ground arith)

  -- An attempt that fails has moved the fallback position one slot up.
  attempt :
      (i : ℕ) (x y : Element) (xs : List Element) (s : SetCommitRollback)
      → Misses x
      → All Misses (y ∷ xs)
      → let r = retried i (x ∷ y ∷ xs) s in
        (r.0 ≡ false) × (r.1.slots ≡ (store s i).slots) × (r.1.fallback_pos ≡ s.pos + 1)
  attempt i x y xs s m ms =
      rw
        (
          at_match a i x (y ∷ xs) s (v ∷ b ∷ []) ka m.0,
          at_wildcard v (i + 1) y xs (inc (store s i)) [] b wv,
        )
        (inner_fails b kb (i + 1) (y ∷ xs) (commit (inc (store s i))) (Misses-All (y ∷ xs) ms))

  -- The slots from `i` on hold their own numbers, and those below are as in `sl`.
  abbrev Fills : ℕ → ℕ → (ℕ → Option ℕ) → (ℕ → Option ℕ) → Type 0
  Fills i n sl r = ((k : ℕ) → k < i → r k ≡ sl k) × ((k : ℕ) → i ≤ k → k < i + n → r k ≡ some k)

  -- One attempt fills one slot, and the later attempts fill those above.
  Fills-suc :
      (i n : ℕ) (sl t r : ℕ → Option ℕ)
      → ((k : ℕ) → t k ≡ (if k == i then some i else sl k))
      → Fills (i + 1) n t r
      → Fills i (suc n) sl r
  Fills-suc i n sl t r now f = (
    λ k h. f.0 k (omega arith) ∙ (now k ∙ ground arith),
    λ k h l. elim (dec_lt i k) [
      | yes later ↦ f.1 k (omega arith) (omega arith)
      | no lower ↦ f.0 k (omega arith) ∙ (now k ∙ ground arith)
    ],
  )

  retries_fill :
      (xs : List Element) (i : ℕ) (s : SetCommitRollback)
      → s.pos ≡ i
      → All Misses xs
      → Fills i (length xs) s.slots (submatch retried i xs s).1.slots
  unfolding submatch
  retries_fill [] i s e ms = (λ k h. refl, λ k h l. absurd (omega arith))
  retries_fill (x ∷ []) i s e ms =
      rw (last_attempt i x s ms.0) (λ k h. ground arith, λ k h l. ground arith)
  retries_fill (x ∷ y ∷ xs) i s e ms =
      let once = attempt i x y xs s ms.0 ms.1 in
      let t = rollback (retried i (x ∷ y ∷ xs) s).1 in
      rw (submatch_miss retried i x (y ∷ xs) s once.0) (
        Fills-suc i (suc (length xs)) s.slots t.slots _ (λ k. rw once.1 (rw e refl))
          (retries_fill (y ∷ xs) (i + 1) t (omega (arith, once.2)) ms.1))

-- With a pattern of two wildcards, each before an entry, matching writes one slot for each value
-- of the message where every value fits the first entry and none the second: slot `k` holds
-- value `k`, however long the message, although the pattern has two entries to store.
pub rollback_overflow :
    (w a v b : MetaElement) (msg : List Element) (out : ℕ → Option ℕ)
    → is_wildcard w ≡ true
    → is_wildcard a ≡ false
    → is_wildcard v ≡ true
    → is_wildcard b ≡ false
    → All (λ x. (inspect a x ≡ true) × (inspect b x ≡ false)) msg
    → (k : ℕ) → k < length msg
    → (try_match msg (w ∷ a ∷ v ∷ b ∷ []) out).1.slots k ≡ some k
unfolding try_match
rollback_overflow w a v b [] out hw ka hv kb ms k l = absurd (omega arith)
rollback_overflow w a v b (x ∷ xs) out hw ka hv kb ms k l =
    rw (at_wildcard w 0 x xs _ (v ∷ b ∷ []) a hw) (
      (retries_fill a v b ka hv kb (x ∷ xs) 0
          (commit (record { slots = out; pos = 0; fallback_pos = 0 })) refl ms).1
        k (omega arith) (omega arith))
