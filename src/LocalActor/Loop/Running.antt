-- ===== src/LocalActor/Loop/Running.antt =====
-- local_actor.cpp: the messages in the cache, after one was handled. Every round of the loop over
-- them takes one out, so that it ends.
use boost_actor.Common.{
  ℕ, zero, suc, ◌<◌, ◌≤◌, ◌≡◌, refl, ap, subst, sym, ◌∙◌, arith, Bool, true, false, List, ◌∷◌, ◌++◌,
  Option, some, Bool-cases, inl, inr, length, length-append,
}
use boost_actor.MessageId.{MessageId}
use boost_actor.Mailbox.Popping.{IsReady}
use boost_actor.Mailbox.Cache.{InvokeMessageResult, im_success, im_dropped, im_skipped}
use boost_actor.Mailbox.Cache
use boost_actor.Mailbox.Cache.Invoke.{
  Passed, nothing, dropped, skipped, stolen, Outcome, no_success, succeeded, invoke-Outcome,
}
use boost_actor.LocalActor.{LocalActor, Behavior}
use boost_actor.LocalActor.Requests.{awaited_response_id}
use boost_actor.LocalActor.Handlers.{Program}
use boost_actor.LocalActor.Invoke.{invoke_message}
use boost_actor.LocalActor.Resume.{actor_done, invoke_from_cache, serve_cache, get_behavior}
use boost_actor.LocalActor.Resume.Ends.{IsEnded, actor_done-cases}
use boost_actor.LocalActor.Kept.{Keeps, Keeps-trans, unchanged}
use boost_actor.LocalActor.Kept.Messages.{invoke_message-Keeps}

module _ (p : Program) (bhvr : Behavior) (mid : MessageId) where
  abbrev offered : LocalActor → ℕ → InvokeMessageResult × LocalActor
  offered t x = invoke_message p t x bhvr mid

  after_offer :
      (s s' : LocalActor) (x : ℕ) (r : InvokeMessageResult) → offered s x ≡ (r, s') → Keeps s s'
  after_offer s s' x r e = subst (λ y. Keeps s y.1) e (invoke_message-Keeps p s x bhvr mid)

  Passed-Keeps :
      (s t : LocalActor) (xs kept : List ℕ)
      → Passed offered s xs kept t
      → Keeps s t × (length kept ≤ length xs)
  Passed-Keeps s _ _ _ nothing = (unchanged s, omega arith)
  Passed-Keeps s t _ kept (dropped {s'} {x} {xs} e q) =
      let (k, l) = Passed-Keeps s' t xs kept q in
      (Keeps-trans (after_offer s s' x im_dropped e) k, omega arith)
  Passed-Keeps s t _ _ (skipped {s'} {x} {xs} {kept} e q) =
      let (k, l) = Passed-Keeps s' t xs kept q in
      (Keeps-trans (after_offer s s' x (im_skipped true) e) k, omega arith)
  Passed-Keeps s t _ kept (stolen {s'} {x} {xs} e q) =
      let (k, l) = Passed-Keeps s' t xs kept q in
      (Keeps-trans (after_offer s s' x (im_skipped false) e) k, omega arith)

  -- What a pass over the elements `xs` may change.
  abbrev IsPass : LocalActor → List ℕ → Bool × List ℕ × LocalActor → Type 0
  IsPass s xs (handled, rest, s') =
      Keeps s s' × (length rest ≤ length xs) × (handled ≡ true → length rest < length xs)

  Outcome-IsPass :
      (s : LocalActor) (xs : List ℕ) (r : Bool × List ℕ × LocalActor)
      → Outcome offered s xs r
      → IsPass s xs r
  Outcome-IsPass s xs _ (no_success {kept} {t} q) =
      let (k, l) = Passed-Keeps s t xs kept q in (k, l, λ h. absurd (ground arith))
  Outcome-IsPass s xs _ (succeeded {before} {kept} after {x} {t} {u} c q e) =
      let (k, l) = Passed-Keeps s t before kept q in
      let shorter : length (kept ++ after) < length xs =
        omega (arith, ap length c, length-append before (x ∷ after), length-append kept after) in
      (Keeps-trans k (after_offer t u x im_success e), omega arith, λ h. shorter)

-- `invoke_from_cache` leaves a ready mailbox, the first partition and what the owner has taken over;
-- it takes at least one element out of the cache when it reports one as handled.
pub invoke_from_cache-IsPass :
    (p : Program) (s : LocalActor)
    → let (handled, s') = invoke_from_cache p s in
      (IsReady s.mailbox → IsReady s'.mailbox)
      × (handled ≡ true → length s'.mailbox.cache.second < length s.mailbox.cache.second)
unfolding invoke_from_cache
invoke_from_cache-IsPass p s =
    let self = offered p (get_behavior s) (awaited_response_id s) in
    let (k, l, lt) =
      Outcome-IsPass p (get_behavior s) (awaited_response_id s) s s.mailbox.cache.second
        (Cache.invoke self s s.mailbox.cache.second)
        (invoke-Outcome self s s.mailbox.cache.second) in
    (k.ready, lt)

-- What the loop over the cache ends with.
abbrev pub IsServed : Option (Bool × LocalActor) → Type 0
IsServed o =
    (is_done : Bool) × (s' : LocalActor) × (o ≡ some (is_done, s'))
    × (is_done ≡ true → IsEnded s')
    × (is_done ≡ false → IsReady s'.mailbox)

serve_none :
    (n : ℕ) (p : Program) (s : LocalActor)
    → (invoke_from_cache p s).0 ≡ false
    → serve_cache (suc n) p s ≡ some (false, (invoke_from_cache p s).1)
unfolding serve_cache
serve_none n p s h = rw (serve_cache, h) refl

serve_done :
    (n : ℕ) (p : Program) (s : LocalActor)
    → (invoke_from_cache p s).0 ≡ true
    → let (is_done, s') = actor_done p (invoke_from_cache p s).1 in
      is_done ≡ true → serve_cache (suc n) p s ≡ some (true, s')
unfolding serve_cache
serve_done n p s h d = rw (serve_cache, h, d) refl

serve_on :
    (n : ℕ) (p : Program) (s : LocalActor)
    → (invoke_from_cache p s).0 ≡ true
    → let (is_done, s') = actor_done p (invoke_from_cache p s).1 in
      is_done ≡ false → serve_cache (suc n) p s ≡ serve_cache n p s'
unfolding serve_cache
serve_on n p s h d = rw (serve_cache, h, d) refl

-- With more fuel than the cache has skipped messages, the loop over the cache ends: the actor is
-- done, or goes on with a mailbox that is not blocked.
pub serve_cache-IsServed :
    (n : ℕ) (p : Program) (s : LocalActor)
    → IsReady s.mailbox
    → length s.mailbox.cache.second < n
    → IsServed (serve_cache n p s)
serve_cache-IsServed zero p s r lt = absurd (omega arith)
serve_cache-IsServed (suc n) p s r lt =
    let s1 = (invoke_from_cache p s).1 in
    let (ready', shorter) = invoke_from_cache-IsPass p s in
    let (ends, goes_on) = actor_done-cases p s1 in
    elim (Bool-cases (invoke_from_cache p s).0) [
      | inr e ↦ (false, s1, serve_none n p s e, λ h. absurd (ground arith), λ h. ready' r)
      | inl e ↦ elim (Bool-cases (actor_done p s1).0) [
        | inl d ↦ (
          true,
          (actor_done p s1).1,
          serve_done n p s e d,
          λ h. ends d,
          λ h. absurd (ground arith),
        )
        | inr d ↦
            let lt1 : length s1.mailbox.cache.second < n = omega (arith, shorter e) in
            subst IsServed (sym (serve_on n p s e d ∙ ap (λ t. serve_cache n p t) (goes_on d)))
              (serve_cache-IsServed n p s1 (ready' r) lt1)
      ]
    ]
