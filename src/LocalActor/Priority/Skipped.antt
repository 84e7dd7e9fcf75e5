-- ===== src/LocalActor/Priority/Skipped.antt =====
-- `push_to_cache` of local_actor.cpp: where a skipped message waits.
use boost_actor.Common.{
  ℕ, ◌≡◌, refl, ap, ◌∙◌, Bool, true, false, List, [], ◌∷◌, ◌++◌, Bool-cases, inl, inr,
}
use boost_actor.Mailbox.{SingleReaderQueue}
use boost_actor.LocalActor.Priority.{push_to_cache, insert, partition_point}
use boost_actor.LocalActor.Priority.Fetch.{insert_end}
use boost_actor.LocalActor.Priority.Order.{pending}
use boost_actor.LocalActor.Priority.Queue.{
  PriorityQueue, push, filter, sorted, sorted-snoc, IsPartitioned, AllAre-append,
  filter-AllAre-false, low_only, high_first, one_more, none_left,
}

abbrev in_front : ℕ → PriorityQueue → PriorityQueue
in_front x w = record w { high = x ∷ w.high }

module _ (p : ℕ → Bool) where
  -- Behind the last high priority element.
  insert_high :
      (v : ℕ) (xs : List ℕ)
      → p v ≡ true
      → IsPartitioned p xs
      → IsPartitioned p (insert (partition_point p xs) v xs)
        × (sorted p (insert (partition_point p xs) v xs) ≡ push p (sorted p xs) v)
  unfolding insert partition_point push filter
  insert_high v [] e part = (high_first e (low_only none_left), rw e refl)
  insert_high v (x ∷ xs) e (low_only (one_more f a)) =
      rw (f, e)
        (high_first e (low_only (one_more f a)), rw f (rw (filter-AllAre-false p xs a) refl))
  insert_high v (x ∷ xs) e (high_first f part) =
      let (q, s) = insert_high v xs e part in
      rw f (high_first f q, rw f (ap (in_front x) s ∙ rw e refl))

  insert_low :
      (v : ℕ) (xs : List ℕ) → p v ≡ false → IsPartitioned p xs → IsPartitioned p (xs ++ v ∷ [])
  insert_low v xs e (low_only a) = low_only (AllAre-append p xs (v ∷ []) a (one_more e none_left))
  insert_low v (x ∷ xs) e (high_first f part) = high_first f (insert_low v xs e part)

-- A skipped message of a priority aware actor goes behind the skipped ones of its priority: the
-- second partition keeps high priority in front, its elements stay in their order, and what waits
-- to be taken is not touched.
pub push_to_cache-push :
    (is_high_priority : ℕ → Bool) (q : SingleReaderQueue) (v : ℕ)
    → IsPartitioned is_high_priority q.cache.second
    → let q' = push_to_cache is_high_priority true q v in
      IsPartitioned is_high_priority q'.cache.second
      × (sorted is_high_priority q'.cache.second
          ≡ push is_high_priority (sorted is_high_priority q.cache.second) v)
      × (pending q' ≡ pending q)
unfolding push_to_cache
push_to_cache-push p q v part = elim (Bool-cases (p v)) [
  | inl e ↦ let (a, b) = insert_high p v q.cache.second e part in rw e (a, b, refl)
  | inr e ↦
      rw (e, insert_end v q.cache.second)
        (insert_low p v q.cache.second e part, sorted-snoc p q.cache.second v, refl)
]
