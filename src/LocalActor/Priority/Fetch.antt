-- ===== src/LocalActor/Priority/Fetch.antt =====
-- What one pass of `next_message` over the mailbox of local_actor.cpp leaves in the cache.
use boost_actor.Common.{
  ℕ, zero, suc, ◌<◌, ◌≡◌, refl, ap, sym, ◌∙◌, arith, Bool, true, false, not, List, [], ◌∷◌, ◌++◌,
  Option, none, some, length, length-append, Bool-cases, nat_eq, inl, inr, append_assoc, append-nil,
}
use boost_actor.Mailbox.{SingleReaderQueue, try_pop}
use boost_actor.Mailbox.Fifo.{contents, IsOpen}
use boost_actor.Mailbox.Popping.{IsReady, ready-IsOpen, try_pop_nil, try_pop_cons}
use boost_actor.LocalActor.Priority.{insert, place, read_mailbox, with_first}
use boost_actor.LocalActor.Priority.Queue.{filter}

pub insert_end : (v : ℕ) (xs : List ℕ) → insert (length xs) v xs ≡ xs ++ v ∷ []
unfolding insert
insert_end v [] = refl
insert_end v (x ∷ xs) = ap (◌∷◌ x) (insert_end v xs)

insert_between : (v : ℕ) (xs ys : List ℕ) → insert (length xs) v (xs ++ ys) ≡ xs ++ v ∷ ys
unfolding insert
insert_between v [] ys = refl
insert_between v (x ∷ xs) ys = ap (◌∷◌ x) (insert_between v xs ys)

length-insert : (i v : ℕ) (xs : List ℕ) → length (insert i v xs) ≡ suc (length xs)
unfolding insert
length-insert zero v xs = refl
length-insert (suc i) v [] = refl
length-insert (suc i) v (x ∷ xs) = ap suc (length-insert i v xs)

module _ (p : ℕ → Bool) where
  place_high :
      (v : ℕ) (h l : List ℕ)
      → p v ≡ true
      → place p (length h) (h ++ l) v ≡ (suc (length h), h ++ v ∷ l)
  unfolding place
  place_high v h l e = rw (e, insert_between v h l) (ground (arith, length-append h (v ∷ l)))

  place_low :
      (v : ℕ) (h l : List ℕ)
      → p v ≡ false
      → place p (length h) (h ++ l) v ≡ (length h, (h ++ l) ++ v ∷ [])
  unfolding place
  place_low v h l e =
      rw (e, insert_end v (h ++ l))
        (ground (arith, length-append (h ++ l) (v ∷ []), length-append h l))

  -- What the loop leaves: the partition `first`, nothing in the mailbox.
  abbrev pub IsRead : Option SingleReaderQueue → List ℕ → List ℕ → Type 0
  IsRead o first second =
      (q' : SingleReaderQueue) × (o ≡ some q')
      × IsReady q'
      × (contents q' ≡ [])
      × (q'.cache.first ≡ first)
      × (q'.cache.second ≡ second)

  read_none :
      (n hp : ℕ) (q q' : SingleReaderQueue)
      → try_pop q ≡ some (none, q')
      → read_mailbox p (suc n) hp q ≡ some q'
  unfolding read_mailbox
  read_none n hp q q' e = rw (read_mailbox, e) refl

  read_some :
      (n hp a : ℕ) (q q' : SingleReaderQueue)
      → try_pop q ≡ some (some a, q')
      → read_mailbox p (suc n) hp q
        ≡ read_mailbox p n
            (place p hp q'.cache.first a).0
            (with_first q' (place p hp q'.cache.first a).1)
  unfolding read_mailbox
  read_some n hp a q q' e = rw (read_mailbox, e) refl

  IsRead-ap :
      (o o' : Option SingleReaderQueue) (first first' second second' : List ℕ)
      → o' ≡ o
      → first ≡ first'
      → second ≡ second'
      → IsRead o first second
      → IsRead o' first' second'
  IsRead-ap o o' first first' second second' e f g (q', got, opened, rest, a, b) =
      (q', e ∙ got, opened, rest, a ∙ f, b ∙ g)

  filter_nil : filter p [] ≡ []
  unfolding filter
  filter_nil = refl

  filter-true : (a : ℕ) (l : List ℕ) → p a ≡ true → filter p (a ∷ l) ≡ a ∷ filter p l
  unfolding filter
  filter-true a l e = rw e refl

  filter-false : (a : ℕ) (l : List ℕ) → p a ≡ false → filter p (a ∷ l) ≡ filter p l
  unfolding filter
  filter-false a l e = rw e refl

module _ (p : ℕ → Bool) where
  -- The loop reads the mailbox to its end: the high priority elements go before the insert
  -- point, the others to the end, each in the order of arrival.
  pub read_mailbox-IsRead :
      (n hp : ℕ) (items h l : List ℕ) (q : SingleReaderQueue)
      → IsOpen q
      → contents q ≡ items
      → length items < n
      → hp ≡ length h
      → q.cache.first ≡ h ++ l
      → IsRead p
          (read_mailbox p n hp q)
          ((h ++ filter p items) ++ l ++ filter (λ x. not (p x)) items)
          q.cache.second
  read_mailbox-IsRead zero hp items h l q o c lt e f = absurd (omega arith)
  read_mailbox-IsRead (suc n) hp [] h l q o c lt e f =
      let (q', got, opened, rest, kept) = try_pop_nil q o c in
      (
        q',
        read_none p n hp q q' got,
        opened,
        rest,
        rw (filter_nil p, filter_nil (λ x. not (p x)), append-nil h, append-nil (h ++ l))
            (ap (λ c. c.first) kept ∙ f),
        ap (λ c. c.second) kept,
      )
  read_mailbox-IsRead (suc n) hp (a ∷ items) h l q o c lt e f =
      let (q', got, opened, rest, kept) = try_pop_cons q a items o c in
      let f' = ap (λ c. c.first) kept ∙ f in
      let g' = ap (λ c. c.second) kept in
      elim (Bool-cases (p a)) [
        | inl high ↦
            IsRead-ap p _ _ _ _ _ _
              (read_some p n hp a q q' got ∙ rw (f', e, place_high p a h l high) refl)
              (rw (filter-true p a items high, filter-false (λ x. not (p x)) a items (ap not high))
                (rw (append_assoc h (a ∷ []) (filter p items)) refl))
              g'
              (read_mailbox-IsRead n (suc (length h)) items (h ++ a ∷ []) l
                (with_first q' (h ++ a ∷ l)) (ready-IsOpen q' opened) rest (omega arith)
                (omega (arith, length-append h (a ∷ []))) (sym (append_assoc h (a ∷ []) l)))
        | inr low ↦
            IsRead-ap p _ _ _ _ _ _
              (read_some p n hp a q q' got ∙ rw (f', e, place_low p a h l low) refl)
              (rw (filter-false p a items low, filter-true (λ x. not (p x)) a items (ap not low))
                (rw
                  (
                    append_assoc (h ++ filter p items) (l ++ a ∷ [])
                        (filter (λ x. not (p x)) items),
                    append_assoc l (a ∷ []) (filter (λ x. not (p x)) items),
                    append_assoc (h ++ filter p items) l (a ∷ filter (λ x. not (p x)) items),
                  )
                  refl))
              g'
              (read_mailbox-IsRead n (length h) items h (l ++ a ∷ [])
                (with_first q' ((h ++ l) ++ a ∷ [])) (ready-IsOpen q' opened) rest (omega arith)
                refl (append_assoc h l (a ∷ [])))
      ]
