-- ===== src/Mailbox/Linearise.antt =====
-- The retry loop of `enqueue` under interference.
use boost_actor.Common.{
  ℕ, ◌≡◌, ◌≢◌, ◌⊎◌, refl, ap, subst, sym, ◌∙◌, true, false, List, [], ◌∷◌, ◌++◌, All, arith, inl,
  inr, Bool-cases, if◌then◌else◌, if_cases, ◌==◌, nat_eq, nat_beq_iff,
}
use boost_actor.Common.Assoc.{contains}
use boost_actor.Mailbox.{
  EnqueueResult, queue_closed, Stack, nullptr, empty_dummy, blocked_dummy, nodes, nodes_of, Pointer,
  null_pointer, stack_empty_dummy, reader_blocked_dummy, node, same_pointer, push, SharedStack,
  next_of_new, exchanged, enqueue_loop,
}

-- The elements reached from a pointer over `next`.
abbrev pub IsChain : (ℕ → Pointer) → Pointer → List ℕ → Type 0
IsChain next p [] = p ≡ null_pointer
IsChain next p (x ∷ xs) = (p ≡ node x) × IsChain next (next x) xs

-- The memory holds a stack.
abbrev pub Represents : SharedStack → Stack → Type 0
Represents s nullptr = s.stack ≡ null_pointer
Represents s empty_dummy = s.stack ≡ stack_empty_dummy
Represents s blocked_dummy = s.stack ≡ reader_blocked_dummy
Represents s (nodes b l) = IsChain s.next s.stack (b ∷ l)

-- The memory holds a stack that the element is not on.
abbrev pub IsStack : ℕ → SharedStack → Type 0
IsStack a s = (st : Stack) × Represents s st × (contains a (nodes_of st) ≡ false)

-- The last of some states, the first of which is `s`.
abbrev pub last_of : SharedStack → List SharedStack → SharedStack
last_of s [] = s
last_of s (t ∷ ts) = last_of t ts

same_pointer-eq : (p q : Pointer) → same_pointer p q ≡ true → p ≡ q
same_pointer-eq null_pointer null_pointer h = refl
same_pointer-eq stack_empty_dummy stack_empty_dummy h = refl
same_pointer-eq reader_blocked_dummy reader_blocked_dummy h = refl
same_pointer-eq (node a) (node b) h = ap node ((nat_beq_iff a b).0 h)
same_pointer-eq _ _ h = absurd (ground arith)

same_pointer_self : (p : Pointer) → same_pointer p p ≡ true
same_pointer_self null_pointer = refl
same_pointer_self stack_empty_dummy = refl
same_pointer_self reader_blocked_dummy = refl
same_pointer_self (node a) = (nat_beq_iff a a).1 refl

module _ (a : ℕ) where
  abbrev with_next : Pointer → (ℕ → Pointer) → ℕ → Pointer
  with_next e next k = if k == a then e else next k

  IsChain-with_next :
      (e : Pointer) (next : ℕ → Pointer) (p : Pointer) (xs : List ℕ)
      → contains a xs ≡ false
      → IsChain next p xs
      → IsChain (with_next e next) p xs
  IsChain-with_next e next p [] f c = c
  IsChain-with_next e next p (x ∷ xs) f (h, c) = elim (Bool-cases (x == a)) [
    | inl same ↦ absurd (ground arith)
    | inr other ↦ (h, rw other (IsChain-with_next e next (next x) xs (ground arith) c))
  ]

  -- The result and the memory of one atomic push on the stack that `t` holds.
  abbrev pub IsPushOn : SharedStack → EnqueueResult → SharedStack → Type 0
  IsPushOn t r s' =
      (st : Stack) × Represents t st × (r ≡ (push st a).0) × Represents s' (push st a).1

  exchanged-IsPushOn :
      (t : SharedStack) (st : Stack)
      → t.stack ≢ null_pointer
      → Represents t st
      → contains a (nodes_of st) ≡ false
      → let (r, t') = exchanged t.stack t a in IsPushOn t r t'
  unfolding exchanged push
  exchanged-IsPushOn t nullptr n h f = absurd (n h)
  exchanged-IsPushOn t empty_dummy n h f =
      (empty_dummy, h, rw h refl, (refl, rw ((nat_beq_iff a a).1 refl, h) refl))
  exchanged-IsPushOn t blocked_dummy n h f =
      (blocked_dummy, h, rw h refl, (refl, rw ((nat_beq_iff a a).1 refl, h) refl))
  exchanged-IsPushOn t (nodes b l) n (h, c) f = (
    nodes b l,
    (h, c),
    rw h refl,
    (
      refl,
      (
        rw ((nat_beq_iff a a).1 refl, h) refl,
        (IsChain-with_next (next_of_new t.stack) t.next (node b) (b ∷ l) f (refl, c)).1,
      ),
    ),
  )

  -- What a loop that started on `s` has done when it ends, with `rest` of the others' states left.
  abbrev pub Linearised :
      SharedStack → List SharedStack → EnqueueResult × SharedStack × List SharedStack → Type 0
  Linearised s others (r, s', rest) =
      (before : List SharedStack) × (others ≡ before ++ rest) × IsPushOn (last_of s before) r s'

  null_or_not : (p : Pointer) → (p ≡ null_pointer) ⊎ (p ≢ null_pointer)
  null_or_not null_pointer = inl refl
  null_or_not stack_empty_dummy = inr (λ e. cc)
  null_or_not reader_blocked_dummy = inr (λ e. cc)
  null_or_not (node b) = inr (λ e. cc)

  loop_closed :
      (others : List SharedStack) (s : SharedStack)
      → enqueue_loop others null_pointer s a ≡ (queue_closed, s, others)
  unfolding enqueue_loop
  loop_closed [] s = refl
  loop_closed (t ∷ others) s = refl

  loop_quiet :
      (p : Pointer) (s : SharedStack)
      → p ≢ null_pointer
      → p ≡ s.stack
      → enqueue_loop [] p s a ≡ ((exchanged p s a).0, (exchanged p s a).1, [])
  unfolding enqueue_loop
  loop_quiet p s n h = quiet p n (subst (λ q. same_pointer q p ≡ true) h (same_pointer_self p))
    where
      quiet :
          (p : Pointer)
          → p ≢ null_pointer
          → same_pointer s.stack p ≡ true
          → enqueue_loop [] p s a ≡ ((exchanged p s a).0, (exchanged p s a).1, [])
      quiet null_pointer n same = absurd (n refl)
      quiet stack_empty_dummy n same = rw same refl
      quiet reader_blocked_dummy n same = rw same refl
      quiet (node b) n same = rw same refl

  loop_attempt :
      (p : Pointer) (s t : SharedStack) (others : List SharedStack)
      → p ≢ null_pointer
      → enqueue_loop (t ∷ others) p s a ≡ (
          if same_pointer t.stack p
          then ((exchanged p t a).0, (exchanged p t a).1, others)
          else enqueue_loop others t.stack t a)
  unfolding enqueue_loop
  loop_attempt null_pointer s t others n = absurd (n refl)
  loop_attempt stack_empty_dummy s t others n = refl
  loop_attempt reader_blocked_dummy s t others n = refl
  loop_attempt (node b) s t others n = refl

  closed_at_once :
      (others : List SharedStack) (s : SharedStack)
      → IsStack a s
      → s.stack ≡ null_pointer
      → Linearised s others (queue_closed, s, others)
  unfolding push
  closed_at_once others s (st, h, f) e = ([], refl, (nullptr, e, refl, e))

  closed-Linearised :
      (others : List SharedStack) (s : SharedStack)
      → IsStack a s
      → s.stack ≡ null_pointer
      → Linearised s others (enqueue_loop others s.stack s a)
  closed-Linearised others s v e =
      subst (Linearised s others)
        (sym (ap (λ p. enqueue_loop others p s a) e ∙ loop_closed others s))
        (closed_at_once others s v e)

  attempt-Linearised :
      (p : Pointer) (s t : SharedStack) (others : List SharedStack)
      → p ≢ null_pointer
      → IsStack a t
      → same_pointer t.stack p ≡ true
      → Linearised s (t ∷ others) ((exchanged p t a).0, (exchanged p t a).1, others)
  attempt-Linearised p s t others n (st, h, f) same =
      let e = same_pointer-eq t.stack p same in
      (
        t ∷ [],
        refl,
        subst (λ p. let (r, t') = exchanged p t a in IsPushOn t r t') e
            (exchanged-IsPushOn t st (λ z. n (sym e ∙ z)) h f),
      )

  undisturbed :
      (s : SharedStack)
      → IsStack a s
      → s.stack ≢ null_pointer
      → Linearised s [] (enqueue_loop [] s.stack s a)
  undisturbed s (st, h, f) n =
      subst (Linearised s []) (sym (loop_quiet s.stack s n refl))
        ([], refl, exchanged-IsPushOn s st n h f)

  further :
      (s t : SharedStack) (others : List SharedStack)
      (x : EnqueueResult × SharedStack × List SharedStack)
      → Linearised t others x
      → Linearised s (t ∷ others) x
  further s t others x (before, e, p) = (t ∷ before, ap (λ l. t ∷ l) e, p)

  -- `enqueue` of a new element, which is on none of the stacks, ends whatever other threads make of
  -- the stack between its attempts. When it ends, some of the others' states lie behind it, and what
  -- it does is one atomic push on the last of these: the result is that of the push, and the memory
  -- then holds what the push leaves, with every element that was on the stack at that moment.
  pub enqueue_loop_linearises :
      (others : List SharedStack) (s : SharedStack)
      → All (IsStack a) (s ∷ others)
      → let (r, s', rest) = enqueue_loop others s.stack s a in
        (before : List SharedStack) × (others ≡ before ++ rest) × IsPushOn (last_of s before) r s'
  enqueue_loop_linearises [] s v = elim (null_or_not s.stack) [
    | inl e ↦ closed-Linearised [] s v.0 e
    | inr n ↦ undisturbed s v.0 n
  ]
  enqueue_loop_linearises (t ∷ others) s v = elim (null_or_not s.stack) [
    | inl e ↦ closed-Linearised (t ∷ others) s v.0 e
    | inr n ↦
        let rest = enqueue_loop_linearises others t v.1 in
        subst (Linearised s (t ∷ others)) (sym (loop_attempt s.stack s t others n)) (
          if_cases (Linearised s (t ∷ others)) (same_pointer t.stack s.stack)
            (λ same. attempt-Linearised s.stack s t others n v.1.0 same)
            (λ changed. further s t others (enqueue_loop others t.stack t a) rest))
  ]
