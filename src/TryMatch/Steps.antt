-- ===== src/TryMatch/Steps.antt =====
-- The branches of the matching loop as equations.
use boost_actor.Common.{all, ℕ, ◌+◌, ◌≡◌, refl, true, false, List, [], ◌∷◌}
use boost_actor.TryMatch.{
  Element, MetaElement, SetCommitRollback, is_wildcard, inspect, submatch, commit, rollback, inc,
  store, try_match_at, Matcher,
}

module _ (p : MetaElement) (i : ℕ) (x : Element) (xs : List Element) (s : SetCommitRollback) where
  pub at_last_wildcard : is_wildcard p ≡ true → try_match_at (p ∷ []) i (x ∷ xs) s ≡ (true, s)
  unfolding try_match_at
  at_last_wildcard w = rw (w, try_match_at)

  module _ (ps : List MetaElement) where
    pub at_match :
        is_wildcard p ≡ false
        → inspect p x ≡ true
        → try_match_at (p ∷ ps) i (x ∷ xs) s ≡ try_match_at ps (i + 1) xs (inc (store s i))
    unfolding try_match_at
    at_match w h = rw (w, h, try_match_at)

    pub at_mismatch :
        is_wildcard p ≡ false
        → inspect p x ≡ false
        → try_match_at (p ∷ ps) i (x ∷ xs) s ≡ (false, s)
    unfolding try_match_at
    at_mismatch w h = rw (w, h, try_match_at)

    pub at_wildcard :
        (q : MetaElement)
        → is_wildcard p ≡ true
        → try_match_at (p ∷ q ∷ ps) i (x ∷ xs) s
          ≡ submatch (try_match_at (q ∷ ps)) i (x ∷ xs) (commit s)
    unfolding try_match_at
    at_wildcard q w = rw (w, try_match_at)

module _ (f : Matcher) (i : ℕ) (x : Element) (xs : List Element) (s : SetCommitRollback) where
  pub submatch_hit :
      (f i (x ∷ xs) s).0 ≡ true → submatch f i (x ∷ xs) s ≡ (true, (f i (x ∷ xs) s).1)
  unfolding submatch
  submatch_hit h = rw h

  pub submatch_miss :
      (f i (x ∷ xs) s).0 ≡ false
      → submatch f i (x ∷ xs) s ≡ submatch f (i + 1) xs (rollback (f i (x ∷ xs) s).1)
  unfolding submatch
  submatch_miss h = rw h

-- No value left: only wildcards may remain.
pub at_end :
    (ps : List MetaElement) (i : ℕ) (s : SetCommitRollback)
    → try_match_at ps i [] s ≡ (all is_wildcard ps, s)
unfolding try_match_at
at_end [] i s = refl
at_end (p ∷ ps) i s = refl
