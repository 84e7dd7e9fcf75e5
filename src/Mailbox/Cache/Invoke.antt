-- ===== src/Mailbox/Cache/Invoke.antt =====
-- `intrusive_partitioned_list::invoke`: who is called, and what stays in the partition.
use boost_actor.Common.{ℕ, ◌≡◌, refl, ap, Bool, true, false, List, [], ◌∷◌, ◌++◌}
use boost_actor.Mailbox.Cache.{InvokeMessageResult, im_success, im_dropped, im_skipped, invoke}

module _ {S : Type 0} (self : S → ℕ → InvokeMessageResult × S) where
  -- A run over the elements `xs` from state `s` in which none is a success: what is kept of
  -- them, and the state behind them.
  pub data Passed : S → List ℕ → List ℕ → S → Type 0 where
    nothing : {s : S} → Passed s [] [] s
    dropped :
        {s s' t : S} {x : ℕ} {xs kept : List ℕ}
        → self s x ≡ (im_dropped, s')
        → Passed s' xs kept t
        → Passed s (x ∷ xs) kept t
    skipped :
        {s s' t : S} {x : ℕ} {xs kept : List ℕ}
        → self s x ≡ (im_skipped true, s')
        → Passed s' xs kept t
        → Passed s (x ∷ xs) (x ∷ kept) t
    stolen :
        {s s' t : S} {x : ℕ} {xs kept : List ℕ}
        → self s x ≡ (im_skipped false, s')
        → Passed s' xs kept t
        → Passed s (x ∷ xs) kept t

  -- The three outcomes of `invoke`.
  pub data Outcome (s : S) (xs : List ℕ) : Bool × List ℕ × S → Type 0 where
    no_success : {kept : List ℕ} {t : S} → Passed s xs kept t → Outcome s xs (false, kept, t)
    succeeded :
        {before kept : List ℕ} (after : List ℕ) {x : ℕ} {t u : S}
        → xs ≡ before ++ x ∷ after
        → Passed s before kept t
        → self t x ≡ (im_success, u)
        → Outcome s xs (true, kept ++ after, u)

  module _ {s s' : S} {x : ℕ} {xs : List ℕ} where
    Outcome-dropped :
        {r : Bool × List ℕ × S}
        → self s x ≡ (im_dropped, s')
        → Outcome s' xs r
        → Outcome s (x ∷ xs) r
    Outcome-dropped e (no_success p) = no_success (dropped e p)
    Outcome-dropped e (succeeded after c p h) = succeeded after (ap (◌∷◌ x) c) (dropped e p) h

    Outcome-stolen :
        {r : Bool × List ℕ × S}
        → self s x ≡ (im_skipped false, s')
        → Outcome s' xs r
        → Outcome s (x ∷ xs) r
    Outcome-stolen e (no_success p) = no_success (stolen e p)
    Outcome-stolen e (succeeded after c p h) = succeeded after (ap (◌∷◌ x) c) (stolen e p) h

    Outcome-skipped :
        {r : Bool × List ℕ × S}
        → self s x ≡ (im_skipped true, s')
        → Outcome s' xs r
        → Outcome s (x ∷ xs) (r.0, x ∷ r.1, r.2)
    Outcome-skipped e (no_success p) = no_success (skipped e p)
    Outcome-skipped e (succeeded after c p h) = succeeded after (ap (◌∷◌ x) c) (skipped e p) h

  -- What one element's result does to the outcome of the rest.
  abbrev Step : S → ℕ → List ℕ → InvokeMessageResult × S → Type 0
  Step s x xs (r, s') =
      self s x ≡ (r, s')
      → Outcome s' xs (invoke self s' xs)
      → Outcome s (x ∷ xs) (
          let rest = invoke self s' xs in
          elim r [
            | im_success ↦ (true, xs, s')
            | im_dropped ↦ rest
            | im_skipped kept ↦ elim kept [ true ↦ (rest.0, x ∷ rest.1, rest.2) | false ↦ rest ]
          ])

  step : (s : S) (x : ℕ) (xs : List ℕ) (r : InvokeMessageResult) (s' : S) → Step s x xs (r, s')
  step s x xs im_success s' e o = succeeded xs refl nothing e
  step s x xs im_dropped s' e o = Outcome-dropped e o
  step s x xs (im_skipped true) s' e o = Outcome-skipped e o
  step s x xs (im_skipped false) s' e o = Outcome-stolen e o

  -- `invoke` offers the elements in their order until one succeeds. What was skipped before it and
  -- all that stands behind it stay in the partition, in order; what was dropped, and the one that
  -- succeeded, are gone. It reports whether one succeeded.
  pub invoke-Outcome : (s : S) (xs : List ℕ) → Outcome s xs (invoke self s xs)
  unfolding invoke
  invoke-Outcome s [] = no_success nothing
  invoke-Outcome s (x ∷ xs) =
      step s x xs (self s x).0 (self s x).1 refl (invoke-Outcome (self s x).1 xs)
