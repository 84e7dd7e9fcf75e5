-- ===== src/LocalActor/Timeouts/Active.antt =====
-- local_actor.cpp: which timeout message of an actor's behavior is the active one.
use boost_actor.Common.{
  ℕ, ◌^◌, ◌<◌, ◌≡◌, refl, arith, true, false, ◌==◌, nat_eq, [], ◌∷◌, ◌++◌, some,
}
use boost_actor.MessageId.{invalid_message_id}
use boost_actor.LocalActor.{
  LocalActor, Duration, valid_duration, is_zero, timeout_msg, MailboxElement, delayed,
}
use boost_actor.LocalActor.Timeouts.{
  is_active_timeout, request_timeout, reset_timeout, next_timeout,
}

-- The timeout message of a state whose timeout was requested last.
abbrev pub timeout_message : LocalActor → MailboxElement
timeout_message s = record {
  sender = some s.address;
  mid = invalid_message_id;
  msg = timeout_msg s.timeout_id;
}

next_timeout_differs : (t : ℕ) → (next_timeout (next_timeout t) == next_timeout t) ≡ false
next_timeout_differs t = ground arith

-- A valid timeout of a duration above zero: the message handed to the scheduler has the ID that is
-- active, and the message of the timeout requested before is expired. The ID returned is another
-- one, never active, so that `reset_timeout` with it, as `blocking_actor::dequeue` calls it, resets
-- nothing.
pub request_timeout-is_active_timeout :
    (s : LocalActor) (d : Duration)
    → s.timeout_id < 2 ^ 32
    → valid_duration d ≡ true
    → is_zero d ≡ false
    → let (result, s') = request_timeout s d in
      (s'.outbox ≡ s.outbox ++ delayed d s.address (timeout_message s') ∷ [])
      × (is_active_timeout s' s'.timeout_id ≡ true)
      × (is_active_timeout s' s.timeout_id ≡ false)
      × (is_active_timeout s' result ≡ false)
      × (reset_timeout s' result ≡ s')
unfolding request_timeout is_active_timeout reset_timeout
request_timeout-is_active_timeout s d b v z =
    rw (v, z)
      (
        refl,
        ground arith,
        ground arith,
        next_timeout_differs s.timeout_id,
        rw (next_timeout_differs s.timeout_id) refl,
      )
