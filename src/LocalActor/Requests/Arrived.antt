-- ===== src/LocalActor/Requests/Arrived.antt =====
-- local_actor.cpp: what the arrival of a response and a new handler do to the pending requests.
use boost_actor.Common.{
  ℕ, ◌≡◌, ◌≢◌, ◌<◌, ◌^◌, refl, subst, sym, arith, true, false, ◌&&◌, not, List, [], ◌∷◌, none, some,
  Bool-cases, Option-cases, inl, inr, ◌==◌, nat_eq, if◌then◌else◌,
}
use boost_actor.MessageId.{MessageId}
use boost_actor.LocalActor.{LocalActor, Behavior, timeout, with_timeout_elim, valid_duration}
use boost_actor.LocalActor.Requests.{
  PendingResponse, any_pending, find_pending, remove_pending, write_pending, mark_arrived, awaits,
  find_pending_response, set_response_handler, request_sync_timeout_msg,
}
use boost_actor.LocalActor.Requests.Numbered.{Numbered, younger, IsNumbered, Numbered-≤}

remove_pending-Numbered :
    (n : ℕ) (mid : MessageId) (l : List PendingResponse)
    → Numbered n l
    → Numbered n (remove_pending mid l)
unfolding remove_pending
remove_pending-Numbered n mid [] p = p
remove_pending-Numbered n mid (pr ∷ l) (younger {k} lt p) = elim (Bool-cases (pr.0 == mid)) [
  | inl e ↦ rw e (Numbered-≤ (omega arith) (remove_pending-Numbered k mid l p))
  | inr e ↦ rw e (younger lt (remove_pending-Numbered k mid l p))
]

write_pending-Numbered :
    (n : ℕ) (mid : MessageId) (b : Behavior) (l : List PendingResponse)
    → Numbered n l
    → Numbered n (write_pending mid b l)
unfolding write_pending
write_pending-Numbered n mid b [] p = p
write_pending-Numbered n mid b (pr ∷ l) (younger {k} lt p) = elim (Bool-cases (pr.0 == mid)) [
  | inl e ↦ rw e (younger lt p)
  | inr e ↦ rw e (younger lt (write_pending-Numbered k mid b l p))
]

pub any-remove :
    (mid other : MessageId) (l : List PendingResponse)
    → any_pending other (remove_pending mid l) ≡ (any_pending other l && not (mid == other))
unfolding any_pending remove_pending
any-remove mid other [] = refl
any-remove mid other (pr ∷ l) = ground (arith, any-remove mid other l)

pub removed :
    (mid : MessageId) (l : List PendingResponse) → any_pending mid (remove_pending mid l) ≡ false
removed mid l = ground (arith, any-remove mid mid l)

find-remove :
    (mid other : MessageId) (l : List PendingResponse)
    → find_pending other (remove_pending mid l)
      ≡ (if mid == other then none else find_pending other l)
unfolding find_pending remove_pending
find-remove mid other [] = ground arith
find-remove mid other (pr ∷ l) = ground (arith, find-remove mid other l)

find-write :
    (mid other : MessageId) (b : Behavior) (l : List PendingResponse)
    → find_pending other (write_pending mid b l)
      ≡ (if mid == other && any_pending mid l then some b else find_pending other l)
unfolding find_pending write_pending any_pending
find-write mid other b [] = ground arith
find-write mid other b (pr ∷ l) = ground (arith, find-write mid other b l)

-- Once a response has arrived, it is awaited no more, so that a second one is expired; every other
-- response is awaited as before, with the same handler, and the numbers stay in order.
pub mark_arrived-awaits :
    (s : LocalActor) (mid other : MessageId)
    → IsNumbered s
    → let s' = mark_arrived s mid in
      (awaits s' mid ≡ false)
      × (mid ≢ other → awaits s' other ≡ awaits s other)
      × (mid ≢ other → find_pending_response s' other ≡ find_pending_response s other)
      × IsNumbered s'
unfolding mark_arrived awaits find_pending_response
mark_arrived-awaits s mid other n =
    let l = s.pending_responses in
    (
      ground (arith, any-remove mid mid l),
      λ h. ground (arith, any-remove mid other l),
      λ h. ground (arith, find-remove mid other l),
      record {
        fits = n.fits;
        numbered = remove_pending-Numbered s.last_request_id mid l n.numbered;
      },
    )

found-any :
    (mid : MessageId) (l : List PendingResponse)
    → find_pending mid l ≡ none
    → any_pending mid l ≡ false
unfolding find_pending any_pending
found-any mid [] h = refl
found-any mid (pr ∷ l) h = ground (arith, found-any mid l)

module _ (s : LocalActor) (mid : MessageId) (bhvr : Behavior) where
  pending-set_response_handler :
      (old : Behavior)
      → find_pending mid s.pending_responses ≡ some old
      → let s' = set_response_handler s mid bhvr in
        (s'.pending_responses ≡ write_pending mid bhvr s.pending_responses)
        × (s'.last_request_id ≡ s.last_request_id)
  unfolding set_response_handler find_pending_response request_sync_timeout_msg
  pending-set_response_handler old h =
      rw (set_response_handler, h)
        (with_timeout_elim
          (λ t.
            (write_pending mid bhvr t.pending_responses
              ≡ write_pending mid bhvr s.pending_responses)
            × (t.last_request_id ≡ s.last_request_id))
          (timeout bhvr) s (λ d. request_sync_timeout_msg s d mid) (refl, refl)
          (λ d. elim (Bool-cases (valid_duration d)) [
            | inl e ↦ rw e (refl, refl)
            | inr e ↦ rw e (refl, refl)
          ]))

  -- A handler set for a response that is awaited is the one found for it, with its timeout
  -- requested from the scheduler; every other response keeps its handler, and the numbers stay in
  -- order.
  pub set_response_handler-find :
      IsNumbered s
      → awaits s mid ≡ true
      → let s' = set_response_handler s mid bhvr in
        (find_pending_response s' mid ≡ some bhvr)
        × ((other : MessageId)
            → mid ≢ other
            → find_pending_response s' other ≡ find_pending_response s other)
        × IsNumbered s'
  unfolding find_pending_response awaits
  set_response_handler-find n a = elim (Option-cases (find_pending mid s.pending_responses)) [
    | inl e ↦ absurd (ground (arith, found-any mid s.pending_responses))
    | inr (old, e) ↦
        let (p, i) = pending-set_response_handler old e in
        rw p (
          ground (arith, find-write mid mid bhvr s.pending_responses),
          λ other h. ground (arith, find-write mid other bhvr s.pending_responses),
          record {
            fits = subst (λ k. k < 2 ^ 61) (sym i) n.fits;
            numbered =
                subst (λ k. Numbered k (write_pending mid bhvr s.pending_responses)) (sym i)
                  (write_pending-Numbered s.last_request_id mid bhvr s.pending_responses
                    n.numbered);
          },
        )
  ]
