-- ===== src/LocalActor/Resume/Ends.antt =====
-- local_actor.cpp and sync_request_bouncer.cpp: the end of an actor, and what becomes of the
-- messages that it leaves behind or that come later.
use boost_actor.Common.{
  ◌∙◌, append-nil, ℕ, ◌≡◌, ◌≢◌, refl, ap, subst, sym, arith, Bool, true, false, ◌||◌, not, List, [],
  ◌∷◌, ◌++◌, none, some, if◌then◌else◌, Bool-cases, inl, inr, ◌==◌, nat_eq, map,
}
use boost_actor.AbstractActor.{not_exited, exited, Store}
use boost_actor.AbstractActor
use boost_actor.MessageId.{is_request, response_id}
use boost_actor.Mailbox.{closed, queue_closed}
use boost_actor.Mailbox.Cache
use boost_actor.Mailbox.Closing.{close_lem}
use boost_actor.Mailbox.Popping.{enqueue-closed}
use boost_actor.Mailbox.Fifo.{contents}
use boost_actor.LocalActor.{
  LocalActor, MailboxElement, Event, sent, attached, sync_exited_msg, exit_reason, has_behavior,
}
use boost_actor.LocalActor.Handlers.{Program, run_code}
use boost_actor.LocalActor.Invoke.{normal_exit_reason}
use boost_actor.LocalActor.Resume.{
  bounce_all, cleanup, end_actor, actor_done, no_behaviors, enqueue, stored, after_enqueue,
}
use boost_actor.LocalActor.Resume.Answers.{bounce_nobody, bounce_one, Answered, bounce_all-Answered}

-- An actor that has ended: it takes no message, waits for none and has a reason.
pub record IsEnded (s : LocalActor) : Type 0 where
  pub closed : closed s.mailbox ≡ true
  pub drained : contents s.mailbox ≡ []
  pub cache : s.mailbox.cache ≡ Cache.init
  pub pending : s.pending_responses ≡ []
  pub idle : s.current_element ≡ none
  pub unregistered : s.is_registered ≡ false
  pub exited : exit_reason s ≢ not_exited

cleanup_reason :
    (st : Store) (self reason : ℕ)
    → reason ≢ not_exited
    → ((AbstractActor.cleanup st self reason).0 self).exit_reason ≢ not_exited
unfolding AbstractActor.cleanup
cleanup_reason st self reason h = ground arith

-- `cleanup` with a reason ends the actor. It sends the answers to what waits in the mailbox and
-- then in the cache: each request that has a sender gets one response with the reason, in this
-- order, and nothing else is answered. After that it tells what is attached to the actor.
pub cleanup-IsEnded :
    (s : LocalActor) (reason : ℕ)
    → reason ≢ not_exited
    → let s' = cleanup s reason in
      let waiting = contents s.mailbox ++ (s.mailbox.cache.first ++ s.mailbox.cache.second) in
      let events = (AbstractActor.cleanup s.actors s.address reason).1 in
      IsEnded s'
      × ((es : List Event) × Answered reason s.memory waiting es
          × (s'.outbox ≡ (s.outbox ++ es) ++ map attached events))
unfolding cleanup
cleanup-IsEnded s reason h =
    let (all_closed, shut, empty, cache, later) = close_lem s.mailbox [] in
    (
      record {
        closed = shut;
        drained = empty;
        cache = cache;
        pending = refl;
        idle = refl;
        unregistered = refl;
        exited = cleanup_reason s.actors s.address reason h;
      },
      (
        bounce_all reason s.memory
            (contents s.mailbox ++ (s.mailbox.cache.first ++ s.mailbox.cache.second)),
        bounce_all-Answered reason s.memory _ h,
        ap
            (λ l.
              (s.outbox ++ bounce_all reason s.memory l)
              ++ map attached (AbstractActor.cleanup s.actors s.address reason).1)
            all_closed,
      ),
    )

exit_with : (r : ℕ) → (if r == not_exited then normal_exit_reason else r) ≢ not_exited
exit_with r = ground arith

pub end_actor-IsEnded : (p : Program) (s : LocalActor) → IsEnded (end_actor p s)
unfolding end_actor
end_actor-IsEnded p s =
    let s1 = record (run_code s p.on_exit) { bhvr_stack = no_behaviors } in
    let rsn =
      (if s1.planned_exit_reason == not_exited
        then normal_exit_reason
        else s1.planned_exit_reason) in
    (cleanup-IsEnded (record s1 { planned_exit_reason = rsn }) rsn
      (exit_with s1.planned_exit_reason)).0

-- `actor_done` ends the actor, or does nothing.
pub actor_done-cases :
    (p : Program) (s : LocalActor)
    → let (is_done, s') = actor_done p s in
      (is_done ≡ true → IsEnded s') × (is_done ≡ false → s' ≡ s)
unfolding actor_done
actor_done-cases p s =
    elim (Bool-cases (not (has_behavior s) || not (s.planned_exit_reason == not_exited))) [
      | inl e ↦ rw e (λ h. end_actor-IsEnded p s, λ h. absurd (ground arith))
      | inr e ↦ rw e (λ h. absurd (ground arith), λ h. refl)
    ]

abbrev IsRefused : LocalActor → MailboxElement → Bool × LocalActor → Type 0
IsRefused s e (scheduled, s') =
    (scheduled ≡ false)
    × IsEnded s'
    × ((sender : ℕ)
        → e.sender ≡ some sender
        → is_request e.mid ≡ true
        → s'.outbox
          ≡ s.outbox
            ++ sent sender (record {
              sender = none;
              mid = response_id e.mid;
              msg = sync_exited_msg sender (exit_reason s);
            })
              ∷ [])
    × (is_request e.mid ≡ false → s'.outbox ≡ s.outbox)
    × (e.sender ≡ none → s'.outbox ≡ s.outbox)

stored-IsEnded :
    (s : LocalActor) (e : MailboxElement) (l : List Event)
    → IsEnded s
    → IsEnded (record (stored s e s.mailbox) { outbox = l })
stored-IsEnded s e l w = record {
  closed = w.closed;
  drained = w.drained;
  cache = w.cache;
  pending = w.pending;
  idle = w.idle;
  unregistered = w.unregistered;
  exited = w.exited;
}

IsRefused-closed :
    (s : LocalActor) (e : MailboxElement)
    → IsEnded s
    → IsRefused s e (after_enqueue s e (queue_closed, s.mailbox))
unfolding after_enqueue
IsRefused-closed s e w = elim (Bool-cases (is_request e.mid)) [
  | inl r ↦ rw r (
    refl,
    stored-IsEnded s e _ w,
    λ sender f g. ap (λ l. s.outbox ++ l) (bounce_one (exit_reason s) sender e w.exited f r),
    λ h. absurd (ground arith),
    λ h. ap (λ l. s.outbox ++ l) (bounce_nobody (exit_reason s) e h) ∙ append-nil s.outbox,
  )
  | inr r ↦ rw r (
    refl,
    stored-IsEnded s e s.outbox w,
    λ sender f g. absurd (ground arith),
    λ h. refl,
    λ h. refl,
  )
]

-- An actor that has ended takes no further element: a request from a sender gets one response,
-- which tells the reason of the end; what is no request, or has no sender, gets none. The
-- scheduler is not called.
pub enqueue-IsEnded :
    (s : LocalActor) (e : MailboxElement)
    → IsEnded s
    → let (scheduled, s') = enqueue s e in
      (scheduled ≡ false)
      × IsEnded s'
      × ((sender : ℕ)
          → e.sender ≡ some sender
          → is_request e.mid ≡ true
          → s'.outbox
            ≡ s.outbox
              ++ sent sender (record {
                sender = none;
                mid = response_id e.mid;
                msg = sync_exited_msg sender (exit_reason s);
              })
                ∷ [])
      × (is_request e.mid ≡ false → s'.outbox ≡ s.outbox)
      × (e.sender ≡ none → s'.outbox ≡ s.outbox)
unfolding enqueue
enqueue-IsEnded s e w =
    subst (λ r. IsRefused s e (after_enqueue s e r))
      (sym (enqueue-closed s.mailbox s.next_free w.closed)) (IsRefused-closed s e w)
