-- ===== src/LocalActor/Loop/Contract.antt =====
-- local_actor.cpp: what `resume` promises to the scheduler.
use boost_actor.Common.{
  ℕ, zero, suc, ◌≢◌, ◌≡◌, refl, subst, sym, arith, Bool, true, false, List, [], Option, none, some,
  if_elim, if_cases,
}
use boost_actor.MessageId.{invalid_message_id}
use boost_actor.Mailbox.{SingleReaderQueue}
use boost_actor.Mailbox.Fifo.{contents}
use boost_actor.Mailbox.Popping.{IsReady}
use boost_actor.Mailbox.Cache.{InvokeMessageResult, im_success, im_dropped, im_skipped}
use boost_actor.LocalActor.{LocalActor, MailboxElement, Behavior}
use boost_actor.LocalActor.Priority.{push_to_cache}
use boost_actor.LocalActor.Priority.Ready.{next_message-IsServed}
use boost_actor.LocalActor.Requests.{awaited_response_id}
use boost_actor.LocalActor.Handlers.{Program, run_code}
use boost_actor.LocalActor.Invoke.{invoke_message}
use boost_actor.LocalActor.Resume.{
  ResumeResult, done, actor_done, serve_cache, cache_rounds, high_at, time_is_up, arrive,
}
use boost_actor.LocalActor.Resume.Ends.{IsEnded, actor_done-cases}
use boost_actor.LocalActor.Kept.{Keeps, Keeps-trans, unchanged, do_become-Keeps, run_actions-Keeps}
use boost_actor.LocalActor.Kept.Messages.{invoke_message-Keeps}
use boost_actor.LocalActor.Kept.Skips.{Declines, invoke_message-kept}
use boost_actor.LocalActor.Loop.{
  Arrivals, Round, returns, goes_on, bhvr_for_next, after_cache, after_success, after_invoke,
  no_message, with_message, round, resume_loop, resume, initialize, with_initial,
}
use boost_actor.LocalActor.Loop.Running.{serve_cache-IsServed}
use boost_actor.LocalActor.Loop.Running
use boost_actor.LocalActor.Loop.Blocks.{
  Promised, GoesWell, IsRound, head_empty, no_message-GoesWell, arrive-Keeps,
  time_is_up-KeptPromise,
}

ended_or_on :
    (h : ℕ) (is_done : Bool) (s : LocalActor)
    → (is_done ≡ true → IsEnded s)
    → (is_done ≡ false → IsReady s.mailbox)
    → IsRound (after_cache h (some (is_done, s)))
ended_or_on h true s ends runs = (returns done s, refl, ends refl)
ended_or_on h false s ends runs = (goes_on h s, refl, runs refl)

served-IsRound :
    (h : ℕ) (o : Option (Bool × LocalActor)) → Running.IsServed o → IsRound (after_cache h o)
served-IsRound h o (is_done, s', e, ends, runs) =
    subst (λ x. IsRound (after_cache h x)) (sym e) (ended_or_on h is_done s' ends runs)

after_success-IsRound :
    (p : Program) (h : ℕ) (s : LocalActor) → IsReady s.mailbox → IsRound (after_success p h s)
unfolding after_success
after_success-IsRound p h s r =
    let s1 = record s { bhvr_stack = record s.bhvr_stack { erased_elements = [] } } in
    let (is_done, s2) = actor_done p s1 in
    let (ends, same) = actor_done-cases p s1 in
    if_cases IsRound is_done (λ d. (returns done s2, refl, ends d))
      (λ d.
        let r2 = subst (λ t. IsReady t.mailbox) (sym (same d)) r in
        served-IsRound (suc h) (serve_cache (cache_rounds s2) p s2)
          (serve_cache-IsServed (cache_rounds s2) p s2 r2 (omega arith)))

push_to_cache-IsReady :
    (p : ℕ → Bool) (aware : Bool) (q : SingleReaderQueue) (a : ℕ)
    → IsReady q
    → IsReady (push_to_cache p aware q a)
unfolding push_to_cache
push_to_cache-IsReady p aware q a r = if_elim IsReady aware r r

after_invoke-IsRound :
    (p : Program) (h ptr : ℕ) (r : InvokeMessageResult) (s : LocalActor)
    → r ≢ im_skipped false
    → IsReady s.mailbox
    → IsRound (after_invoke p h ptr (r, s))
unfolding after_invoke
after_invoke-IsRound p h ptr im_success s k r = after_success-IsRound p h s r
after_invoke-IsRound p h ptr im_dropped s k r = (goes_on h s, refl, r)
after_invoke-IsRound p h ptr (im_skipped false) s k r = absurd (k refl)
after_invoke-IsRound p h ptr (im_skipped true) s k r =
    let q = push_to_cache (high_at s) s.is_priority_aware s.mailbox ptr in
    (
      goes_on h (record s { mailbox = q }),
      refl,
      push_to_cache-IsReady (high_at s) s.is_priority_aware s.mailbox ptr r,
    )

with_message-IsRound :
    (p : Program) (h : ℕ) (es : List MailboxElement) (s : LocalActor) (o : Option ℕ)
    (q : SingleReaderQueue)
    → Declines p
    → IsReady q
    → (o ≡ none → contents q ≡ [])
    → (o ≡ none → s.is_priority_aware ≡ true → q.cache.first ≡ [])
    → IsRound (with_message p h es s (some (o, q)))
unfolding with_message
with_message-IsRound p h es s none q d r e f =
    let s' = record s { mailbox = q } in
    (no_message h es s', refl, no_message-GoesWell h es s' (r, head_empty q (e refl), f refl))
with_message-IsRound p h es s (some ptr) q d r e f =
    let s' = record s { mailbox = q } in
    let bhvr = bhvr_for_next s' in
    let mid = awaited_response_id s' in
    let k = invoke_message-Keeps p s' ptr bhvr mid in
    after_invoke-IsRound p h ptr (invoke_message p s' ptr bhvr mid).0
      (invoke_message p s' ptr bhvr mid).1 (invoke_message-kept p d s' ptr bhvr mid) (k.ready r)

round-IsRound :
    (p : Program) (h : ℕ) (es : List MailboxElement) (s : LocalActor)
    → Declines p
    → IsReady s.mailbox
    → IsRound (round p h es s)
unfolding round
round-IsRound p h es s d r =
    let (o, q, got, r', e, f) = next_message-IsServed (high_at s) s.is_priority_aware s.mailbox r in
    subst (λ x. IsRound (with_message p h es s x)) (sym got)
      (with_message-IsRound p h es s o q d r' e f)

abbrev pub IsResumed : Option (ResumeResult × LocalActor) → Type 0
IsResumed o = (r : ResumeResult) × (s' : LocalActor) × (o ≡ some (r, s')) × Promised r s'

abbrev after_round : Program → Arrivals → ℕ → Option Round → Option (ResumeResult × LocalActor)
after_round p others n o = elim o [
  | none ↦ none
  | some (returns r s') ↦ some (r, s')
  | some (goes_on handled s') ↦ resume_loop p others n handled s'
]

after_round-IsResumed :
    (p : Program) (others : Arrivals) (n : ℕ) (x : Round)
    → ((h : ℕ) (s : LocalActor) → IsReady s.mailbox → IsResumed (resume_loop p others n h s))
    → GoesWell x
    → IsResumed (after_round p others n (some x))
after_round-IsResumed p others n (returns r s') rest well = (r, s', refl, well)
after_round-IsResumed p others n (goes_on handled s') rest well = rest handled s' well

resume_loop-IsResumed :
    (p : Program) (others : Arrivals) (n h : ℕ) (s : LocalActor)
    → Declines p
    → IsReady s.mailbox
    → IsResumed (resume_loop p others n h s)
unfolding resume_loop
resume_loop-IsResumed p others zero h s d r =
    let t = arrive s (others.before zero) in
    let es = others.meanwhile zero in
    let (res, s') = time_is_up h es t in
    (res, s', refl, time_is_up-KeptPromise h es t ((arrive-Keeps s (others.before zero)).ready r))
resume_loop-IsResumed p others (suc n) h s d r =
    let t = arrive s (others.before (suc n)) in
    let (x, got, well) =
      round-IsRound p h (others.meanwhile (suc n)) t d
        ((arrive-Keeps s (others.before (suc n))).ready r) in
    subst (λ o. IsResumed (after_round p others n o)) (sym got)
      (after_round-IsResumed p others n x
        (λ handled s'. resume_loop-IsResumed p others n handled s' d) well)

with_initial-Keeps : (s : LocalActor) (o : Option Behavior) → Keeps s (with_initial s o)
with_initial-Keeps s none = unchanged s
with_initial-Keeps s (some bhvr) = do_become-Keeps s bhvr true

initialize-IsReady :
    (p : Program) (s : LocalActor) → IsReady s.mailbox → IsReady (initialize p s).mailbox
unfolding initialize
initialize-IsReady p s r =
    let s1 = record s { is_initialized = true } in
    let k =
      Keeps-trans (run_actions-Keeps p.make_behavior.1 invalid_message_id s1)
        (with_initial-Keeps (run_code s1 p.make_behavior.1) p.make_behavior.0) in
    k.ready r

pub resume-IsResumed :
    (p : Program) (others : Arrivals) (s : LocalActor) (max_throughput : ℕ)
    → Declines p
    → IsReady s.mailbox
    → IsResumed (resume p others s max_throughput)
unfolding resume
resume-IsResumed p others s n d r =
    let s1 = initialize p s in
    let r1 = initialize-IsReady p s r in
    let (ends, same) = actor_done-cases p s1 in
    if_cases IsResumed s.is_initialized (λ old. resume_loop-IsResumed p others n 0 s d r)
      (λ new.
        if_cases IsResumed (actor_done p s1).0 (λ h. (done, (actor_done p s1).1, refl, ends h))
          (λ h.
            resume_loop-IsResumed p others n 0 (actor_done p s1).1 d
              (subst (λ t. IsReady t.mailbox) (sym (same h)) r1)))
