-- ===== src/LocalActor/Requests/Numbered.antt =====
-- The request IDs that local_actor.cpp gives out: fresh numbers, youngest first.
use boost_actor.Common.{
  ℕ, suc, ◌+◌, ◌^◌, ◌<◌, ◌≤◌, ◌≡◌, refl, arith, true, false, List, [], ◌∷◌, none, nat_eq,
}
use boost_actor.MessageId.{
  MessageId, normal, high, increment, response_id, with_high_priority, is_request, valid,
  is_response,
}
use boost_actor.LocalActor.{LocalActor, Behavior, no_behavior}
use boost_actor.LocalActor.Requests.{
  PendingResponse, any_pending, find_pending, new_request_id, awaits, find_pending_response,
  set_response_handler,
}

-- The pending IDs are response IDs of the numbers up to `n`, each once, the youngest first.
pub data Numbered : ℕ → List PendingResponse → Type 0 where
  no_pending : {n : ℕ} → Numbered n []
  younger :
      {n k : ℕ} {b : Behavior} {l : List PendingResponse}
      → k < n
      → Numbered k l
      → Numbered n ((2 ^ 63 + suc k, b) ∷ l)

-- The number of the last request fits the 61 bits of an ID.
pub record IsNumbered (s : LocalActor) : Type 0 where
  pub fits : s.last_request_id < 2 ^ 61
  pub numbered : Numbered s.last_request_id s.pending_responses

pub Numbered-≤ : {m n : ℕ} {l : List PendingResponse} → m ≤ n → Numbered m l → Numbered n l
Numbered-≤ h no_pending = no_pending
Numbered-≤ h (younger lt p) = younger (omega arith) p

pub increment_fits : (n : ℕ) → suc n < 2 ^ 61 → increment n ≡ suc n
unfolding increment
increment_fits n h = ground arith

pub response_id_fits : (n : ℕ) → suc n < 2 ^ 61 → response_id (suc n) ≡ 2 ^ 63 + suc n
unfolding response_id is_request valid is_response
response_id_fits n h = ground arith

response_id_high :
    (n : ℕ) → suc n < 2 ^ 61 → response_id (with_high_priority (suc n)) ≡ 2 ^ 63 + 2 ^ 61 + suc n
unfolding response_id is_request valid is_response with_high_priority
response_id_high n h = ground arith

-- What is not among the numbers up to `n` is not pending.
not_pending :
    (n : ℕ) (l : List PendingResponse) (mid : MessageId)
    → Numbered n l
    → 2 ^ 63 + n < mid
    → any_pending mid l ≡ false
unfolding any_pending
not_pending n [] mid no_pending h = refl
not_pending n (_ ∷ l) mid (younger {k} lt p) h = ground (arith, not_pending k l mid p (omega arith))

find_not_pending :
    (mid : MessageId) (l : List PendingResponse)
    → any_pending mid l ≡ false
    → find_pending mid l ≡ none
unfolding any_pending find_pending
find_not_pending mid [] h = refl
find_not_pending mid (pr ∷ l) h = ground (arith, find_not_pending mid l)

-- The state after a request, told by its number.
module _ (s : LocalActor) (h : suc s.last_request_id < 2 ^ 61) where
  abbrev requested : LocalActor
  requested = record s {
    last_request_id = suc s.last_request_id;
    pending_responses = (2 ^ 63 + suc s.last_request_id, no_behavior) ∷ s.pending_responses;
  }

  new_request_normal : new_request_id s normal ≡ (suc s.last_request_id, requested)
  unfolding new_request_id
  new_request_normal =
      rw (increment_fits s.last_request_id h, response_id_fits s.last_request_id h) refl

  new_request_high : new_request_id s high ≡ (with_high_priority (suc s.last_request_id), requested)
  unfolding new_request_id
  new_request_high =
      rw (increment_fits s.last_request_id h, response_id_fits s.last_request_id h) refl

  requested-IsNumbered : IsNumbered s → IsNumbered requested
  requested-IsNumbered n = record { fits = h; numbered = younger (omega arith) n.numbered }

  requested-awaits : awaits requested (2 ^ 63 + suc s.last_request_id) ≡ true
  unfolding awaits any_pending
  requested-awaits = ground arith

  awaits_not :
      (mid : MessageId)
      → IsNumbered s
      → 2 ^ 63 + suc s.last_request_id < mid
      → awaits requested mid ≡ false
  unfolding awaits
  awaits_not mid n lt =
      not_pending (suc s.last_request_id) requested.pending_responses mid
        (younger (omega arith) n.numbered) lt

  awaits_fresh : IsNumbered s → awaits s (2 ^ 63 + suc s.last_request_id) ≡ false
  unfolding awaits
  awaits_fresh n =
      not_pending s.last_request_id s.pending_responses (2 ^ 63 + suc s.last_request_id) n.numbered
        (omega arith)

-- As long as the numbers fit the 61 bits of an ID, a request of normal priority gets the next
-- number: its response was not pending before, is pending after, and all that is pending still
-- has numbers of its own, the youngest first.
pub new_request_id-IsNumbered :
    (s : LocalActor)
    → IsNumbered s
    → suc s.last_request_id < 2 ^ 61
    → let (mid, s') = new_request_id s normal in
      (mid ≡ suc s.last_request_id)
      × IsNumbered s'
      × (awaits s (response_id mid) ≡ false)
      × (awaits s' (response_id mid) ≡ true)
new_request_id-IsNumbered s n h =
    rw (new_request_normal s h, response_id_fits s.last_request_id h)
      (refl, requested-IsNumbered s h n, awaits_fresh s h n, requested-awaits s h)

pub awaits-find_pending_response :
    (s : LocalActor) (mid : MessageId) → awaits s mid ≡ false → find_pending_response s mid ≡ none
unfolding awaits find_pending_response
awaits-find_pending_response s mid h = find_not_pending mid s.pending_responses h

handler_not_set :
    (s : LocalActor) (mid : MessageId) (bhvr : Behavior)
    → find_pending_response s mid ≡ none
    → set_response_handler s mid bhvr ≡ s
unfolding set_response_handler
handler_not_set s mid bhvr h = rw (set_response_handler, h) refl

-- A request of high priority is noted without the bit of its priority, which the response to it
-- has: the response is not awaited, no pending request is found for it, and a handler for it
-- is not set.
pub new_request_id-high_priority :
    (s : LocalActor) (bhvr : Behavior)
    → IsNumbered s
    → suc s.last_request_id < 2 ^ 61
    → let (mid, s') = new_request_id s high in
      (awaits s' (response_id mid) ≡ false)
      × (find_pending_response s' (response_id mid) ≡ none)
      × (set_response_handler s' (response_id mid) bhvr ≡ s')
new_request_id-high_priority s bhvr n h =
    let unawaited = awaits_not s h (2 ^ 63 + 2 ^ 61 + suc s.last_request_id) n (omega arith) in
    let not_found =
      awaits-find_pending_response (requested s h) (2 ^ 63 + 2 ^ 61 + suc s.last_request_id)
        unawaited in
    rw (new_request_high s h, response_id_high s.last_request_id h)
      (unawaited, not_found, handler_not_set (requested s h) _ bhvr not_found)
