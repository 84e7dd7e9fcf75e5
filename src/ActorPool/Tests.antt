-- ===== src/ActorPool/Tests.antt =====
-- A pool with workers 21, 22 and 23.
use boost_actor.Common.{
  suc, ℕ, ◌≡◌, ◌≢◌, ◌⊎◌, refl, true, false, List, [], ◌∷◌, none, some, null, get_elem?, arith,
}
use boost_actor.MessageId.{is_request, response_id}
use boost_actor.ActorPool.{
  exit_msg, down_msg, put, other, Mail, Answer, answered, enqueued, ActorPool, filter,
}
use boost_actor.ActorPool.Filter.{cleanups, filters, filters_lem, filter-request}
use boost_actor.ActorPool.RoundRobin.{dispatch_all, round_robin-fair}

abbrev pool : ActorPool
pool = record { planned_reason = 0; workers = 21 ∷ 22 ∷ 23 ∷ [] }

abbrev work : ℕ → Mail
work n = record { sender = some 5; mid = 7; content = other n }

-- Two workers fail, one comes, the pool is told to exit, and told again.
abbrev mails : List Mail
mails =
    record { sender = none; mid = 0; content = down_msg 21 }
    ∷ record { sender = none; mid = 0; content = down_msg 22 }
    ∷ record { sender = none; mid = 0; content = put (some 24) }
    ∷ record { sender = none; mid = 0; content = exit_msg 9 }
    ∷ record { sender = none; mid = 0; content = exit_msg 10 }
    ∷ []

some_reason : (n : ℕ) → suc n ≢ 0
some_reason n e = absurd (omega (arith, e))

filters_lem_example :
    let (p', events) = filters pool mails in
    ((p'.planned_reason ≡ 0) × (cleanups events ≡ 0))
    ⊎ ((p'.planned_reason ≢ 0) × (p'.workers ≡ []) × (cleanups events ≡ 1))
filters_lem_example =
    filters_lem mails pool (tt, (tt, (tt, (some_reason 8, (some_reason 9, tt))))) refl

request_7 : is_request 7 ≡ true
unfolding is_request
request_7 = refl

filter-request_example :
    let r = filter pool (work 3) in
    ((r ≡ (false, pool, [])) × (null pool.workers ≡ false))
    ⊎ ((r.0 ≡ true) × (r.1 ≡ pool) × ((a : Answer) × (r.2 ≡ answered 5 (response_id 7) a ∷ [])))
filter-request_example = filter-request pool 5 7 3 request_7

round_robin-fair_example :
    (i : ℕ) × (w : ℕ) × (m : Mail) × (get_elem? (21 ∷ 22 ∷ 23 ∷ []) 1 ≡ some w)
    × (get_elem? (work 1 ∷ work 2 ∷ work 3 ∷ []) i ≡ some m)
    × (get_elem? (dispatch_all 5 (21 ∷ 22 ∷ 23 ∷ []) (work 1 ∷ work 2 ∷ work 3 ∷ [])).1 i
        ≡ some (enqueued w m))
round_robin-fair_example =
    round_robin-fair (21 ∷ 22 ∷ 23 ∷ []) (work 1 ∷ work 2 ∷ work 3 ∷ []) 5 1 refl (omega arith)
      (omega arith)
