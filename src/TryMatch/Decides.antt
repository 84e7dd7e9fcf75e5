-- ===== src/TryMatch/Decides.antt =====
-- `try_match` and the meaning of a pattern.
use boost_actor.Common.{
  ℕ, ◌+◌, ◌≡◌, refl, ◌↔◌, inl, inr, true, false, List, [], ◌∷◌, Option, arith, all, null,
  Bool-cases,
}
use boost_actor.TryMatch.{
  Element, MetaElement, SetCommitRollback, is_wildcard, inspect, Matcher, submatch, commit,
  rollback, inc, store, try_match_at, try_match,
}
use boost_actor.TryMatch.Steps.{at_last_wildcard, at_match, at_wildcard}
use boost_actor.TryMatch.Spec.{Matches, done, none_of, one_more, exactly}

-- A pattern that matches nothing at all consists of wildcards.
all-Matches : (ps : List MetaElement) → all is_wildcard ps ≡ true → Matches ps []
all-Matches [] h = done
all-Matches (p ∷ ps) h = none_of (ground arith) (all-Matches ps (ground arith))

Matches-all :
    {ps : List MetaElement} {xs : List Element}
    → Matches ps xs
    → xs ≡ []
    → all is_wildcard ps ≡ true
Matches-all done e = refl
Matches-all (none_of w m) e = ground (arith, Matches-all m e)
Matches-all (one_more w m) e = absurd (ground arith)
Matches-all (exactly w h m) e = absurd (ground arith)

-- A wildcard at the end takes all that is left.
last_wildcard : (p : MetaElement) (xs : List Element) → is_wildcard p ≡ true → Matches (p ∷ []) xs
last_wildcard p [] w = none_of w done
last_wildcard p (x ∷ xs) w = one_more w (last_wildcard p xs w)

module _ {p : MetaElement} {ps : List MetaElement} (f : Matcher)
    (f-Matches : (i : ℕ) (xs : List Element) (s : SetCommitRollback)
      → (f i xs s).0 ≡ true
      → Matches ps xs) where
  submatch-Matches :
      (i : ℕ) (xs : List Element) (s : SetCommitRollback)
      → is_wildcard p ≡ true
      → (submatch f i xs s).0 ≡ true
      → Matches (p ∷ ps) xs
  unfolding submatch
  submatch-Matches i [] s w h = absurd (ground arith)
  submatch-Matches i (x ∷ xs) s w h = elim (Bool-cases (f i (x ∷ xs) s).0) [
    | inl found ↦ none_of w (f-Matches i (x ∷ xs) s found)
    | inr missed ↦
        one_more w (submatch-Matches (i + 1) xs (rollback (f i (x ∷ xs) s).1) w (rw (missed) at h))
  ]

-- Nothing left, and some pattern that matches nothing: one more element is no hindrance.
Matches-cons_of_nil :
    (ps : List MetaElement) (x : Element)
    → null ps ≡ false
    → all is_wildcard ps ≡ true
    → Matches ps (x ∷ [])
Matches-cons_of_nil [] x n h = absurd (ground arith)
Matches-cons_of_nil (p ∷ ps) x n h = one_more (ground arith) (all-Matches (p ∷ ps) h)

module _ {p : MetaElement} {ps : List MetaElement} (f : Matcher) (some_left : null ps ≡ false)
    (Matches-f : (i : ℕ) (xs : List Element) (s : SetCommitRollback)
      → Matches ps xs
      → (f i xs s).0 ≡ true) where
  Matches-submatch :
      (i : ℕ) (x : Element) (xs : List Element) (s : SetCommitRollback)
      → Matches (p ∷ ps) (x ∷ xs)
      → is_wildcard p ≡ true
      → (submatch f i (x ∷ xs) s).0 ≡ true
  unfolding submatch
  Matches-submatch i x xs s (none_of w m) _ = rw (Matches-f i (x ∷ xs) s m)
  Matches-submatch i x [] s (one_more w m) _ = rw (
      Matches-f i (x ∷ []) s
        (Matches-cons_of_nil ps x some_left (ground (arith, Matches-all m refl))))
  Matches-submatch i x (y ∷ xs) s (one_more w m) _ = elim (Bool-cases (f i (x ∷ y ∷ xs) s).0) [
    | inl found ↦ rw found
    | inr missed ↦ rw missed (Matches-submatch (i + 1) y xs (rollback (f i (x ∷ y ∷ xs) s).1) m w)
  ]
  Matches-submatch i x xs s (exactly w h m) w' = absurd (ground arith)

try_match_at-Matches :
    (ps : List MetaElement) (i : ℕ) (xs : List Element) (s : SetCommitRollback)
    → (try_match_at ps i xs s).0 ≡ true
    → Matches ps xs
unfolding try_match_at
try_match_at-Matches [] i [] s h = done
try_match_at-Matches (p ∷ ps) i [] s h = all-Matches (p ∷ ps) h
try_match_at-Matches [] i (x ∷ xs) s h = absurd (ground arith)
try_match_at-Matches (p ∷ []) i (x ∷ xs) s h = elim (Bool-cases (is_wildcard p)) [
  | inl w ↦ last_wildcard p (x ∷ xs) w
  | inr k ↦
      exactly k (ground arith) (try_match_at-Matches [] (i + 1) xs (inc (store s i)) (ground arith))
]
try_match_at-Matches (p ∷ q ∷ ps) i (x ∷ xs) s h = elim (Bool-cases (is_wildcard p)) [
  | inl w ↦
      submatch-Matches (try_match_at (q ∷ ps)) (try_match_at-Matches (q ∷ ps)) i (x ∷ xs) (commit s)
        w (ground arith)
  | inr k ↦
      exactly k (ground arith)
        (try_match_at-Matches (q ∷ ps) (i + 1) xs (inc (store s i)) (ground arith))
]

exactly_parts :
    {p : MetaElement} {ps : List MetaElement} {x : Element} {xs : List Element}
    → Matches (p ∷ ps) (x ∷ xs)
    → is_wildcard p ≡ false
    → (inspect p x ≡ true) × Matches ps xs
exactly_parts (none_of w m) k = absurd (ground arith)
exactly_parts (one_more w m) k = absurd (ground arith)
exactly_parts (exactly _ h m) k = (h, m)

Matches-try_match_at :
    (ps : List MetaElement) (i : ℕ) (xs : List Element) (s : SetCommitRollback)
    → Matches ps xs
    → (try_match_at ps i xs s).0 ≡ true
unfolding try_match_at
Matches-try_match_at [] i [] s m = refl
Matches-try_match_at (p ∷ ps) i [] s m = Matches-all m refl
Matches-try_match_at [] i (x ∷ xs) s m = elim m [ ]
Matches-try_match_at (p ∷ []) i (x ∷ xs) s m = elim (Bool-cases (is_wildcard p)) [
  | inl w ↦ rw (at_last_wildcard p i x xs s w)
  | inr k ↦
      rw (at_match p i x xs s [] k (exactly_parts m k).0)
        (Matches-try_match_at [] (i + 1) xs (inc (store s i)) (exactly_parts m k).1)
]
Matches-try_match_at (p ∷ q ∷ ps) i (x ∷ xs) s m = elim (Bool-cases (is_wildcard p)) [
  | inl w ↦ rw (at_wildcard p i x xs s ps q w) (
      Matches-submatch (try_match_at (q ∷ ps)) refl (Matches-try_match_at (q ∷ ps)) i x xs
        (commit s) m w)
  | inr k ↦
      rw (at_match p i x xs s (q ∷ ps) k (exactly_parts m k).0)
        (Matches-try_match_at (q ∷ ps) (i + 1) xs (inc (store s i)) (exactly_parts m k).1)
]

-- `try_match` succeeds on exactly the messages that the pattern matches, whatever the array holds.
pub try_match_iff :
    (msg : List Element) (pattern : List MetaElement) (out : ℕ → Option ℕ)
    → ((try_match msg pattern out).0 ≡ true) ↔ Matches pattern msg
unfolding try_match
try_match_iff msg pattern out =
    (try_match_at-Matches pattern 0 msg _, Matches-try_match_at pattern 0 msg _)
