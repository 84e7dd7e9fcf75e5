-- ===== src/ActorPool/Filter.antt =====
-- What becomes of the messages to a pool.
use boost_actor.Common.{
  ℕ, suc, ◌+◌, ◌≡◌, ◌≢◌, ◌⊎◌, inl, inr, refl, true, false, List, [], ◌∷◌, ◌++◌, Option, none, some,
  map, ◌==◌, nat_eq, null, arith, Bool-cases, All,
}
use boost_actor.MessageId.{MessageId, valid, is_request, response_id}
use boost_actor.ActorPool.{
  sync_exited_msg, empty_msg, Content, exit_msg, down_msg, put, delete, get, other, Mail, Answer,
  Event, answered, sent_exit, monitored, cleaned_up, null_sender, enqueued, ActorPool, bounce,
  erase_worker, Filtered, without_worker, ignore, filter_content, filter,
}

-- A pool that has planned its end has no workers left.
abbrev pub IsValid : ActorPool → Type 0
IsValid p = (p.planned_reason ≡ 0) ⊎ (p.workers ≡ [])

-- The reason of an exit message is one.
abbrev pub HasReason : Content → Type 0
HasReason (exit_msg reason) = reason ≢ 0
HasReason _ = Unit {0}

pub cleanups : List Event → ℕ
cleanups [] = 0
cleanups (cleaned_up _ ∷ events) = suc (cleanups events)
cleanups (answered _ _ _ ∷ events) = cleanups events
cleanups (sent_exit _ _ ∷ events) = cleanups events
cleanups (monitored _ ∷ events) = cleanups events
cleanups (null_sender ∷ events) = cleanups events
cleanups (enqueued _ _ ∷ events) = cleanups events

-- What a message does to the end of a pool that has not planned it: nothing, or it plans the end
-- and cleans up once.
abbrev Planned : Filtered → Type 0
Planned r =
    ((r.1.planned_reason ≡ 0) × (cleanups r.2 ≡ 0))
    ⊎ ((r.1.planned_reason ≢ 0) × (r.1.workers ≡ []) × (cleanups r.2 ≡ 1))

cleanups-exits :
    (l : List ℕ) (reason : ℕ)
    → cleanups (map (λ w. sent_exit w reason) l ++ cleaned_up reason ∷ []) ≡ 1
unfolding cleanups
cleanups-exits [] reason = refl
cleanups-exits (w ∷ l) reason = cleanups-exits l reason

without_worker-Planned :
    (p : ActorPool) (left : List ℕ) → p.planned_reason ≡ 0 → Planned (without_worker p left)
unfolding without_worker cleanups
without_worker-Planned p [] z = inr (λ e. absurd (omega (arith, e)), refl, refl)
without_worker-Planned p (w ∷ left) z = inl (z, refl)

cleanups-ignore : (sender : Option ℕ) (mid : MessageId) → cleanups (ignore sender mid) ≡ 0
unfolding ignore cleanups
cleanups-ignore none mid = refl
cleanups-ignore (some sender) mid = elim (Bool-cases (valid mid)) [ inl y ↦ rw y | inr n ↦ rw n ]

cleanups-bounce :
    (rsn : ℕ) (sender : Option ℕ) (mid : MessageId) → cleanups (bounce rsn sender mid) ≡ 0
unfolding bounce cleanups
cleanups-bounce rsn none mid = refl
cleanups-bounce rsn (some sender) mid = elim (Bool-cases (is_request mid)) [
  | inl y ↦ rw y
  | inr n ↦ rw n
]

filter_content-Planned :
    (p : ActorPool) (sender : Option ℕ) (mid : MessageId) (content : Content)
    → HasReason content
    → p.planned_reason ≡ 0
    → Planned (filter_content p sender mid content)
unfolding filter_content cleanups
filter_content-Planned p sender mid (exit_msg reason) r z =
    inr (r, refl, cleanups-exits p.workers reason)
filter_content-Planned p sender mid (down_msg source) r z =
    without_worker-Planned p (erase_worker source p.workers) z
filter_content-Planned p sender mid (put none) r z = inl (z, refl)
filter_content-Planned p sender mid (put (some worker)) r z = inl (z, refl)
filter_content-Planned p sender mid (delete none) r z = inl (z, refl)
filter_content-Planned p sender mid (delete (some what)) r z = inl (z, refl)
filter_content-Planned p none mid get r z = inl (z, refl)
filter_content-Planned p (some sender) mid get r z = inl (z, refl)
filter_content-Planned p sender mid (other n) r z = elim (Bool-cases (null p.workers)) [
  | inl y ↦ rw y (inl (z, cleanups-ignore sender mid))
  | inr n ↦ rw n (inl (z, refl))
]

filter_live :
    (p : ActorPool) (m : Mail)
    → p.planned_reason ≡ 0
    → filter p m ≡ filter_content p m.sender m.mid m.content
unfolding filter
filter_live p m z = rw z

-- A pool that has planned its end stays as it is, whatever comes.
filter_ended :
    (p : ActorPool) (m : Mail)
    → p.planned_reason ≢ 0
    → ((filter p m).0 ≡ true) × ((filter p m).1 ≡ p) × (cleanups (filter p m).2 ≡ 0)
unfolding filter cleanups
filter_ended p m z =
    let ended : (p.planned_reason == 0) ≡ false = ground (arith, z) in
    elim (Bool-cases (valid m.mid)) [
      | inl y ↦ rw (ended, y) (refl, refl, cleanups-bounce p.planned_reason m.sender m.mid)
      | inr n ↦ rw (ended, n) (refl, refl, refl)
    ]

-- The pool after a sequence of messages, and the events on the way.
pub filters : ActorPool → List Mail → ActorPool × List Event
filters p [] = (p, [])
filters p (m ∷ ms) =
    let (filtered, p', events) = filter p m in
    let (p'', rest) = filters p' ms in (p'', events ++ rest)

cleanups-append : (xs ys : List Event) → cleanups (xs ++ ys) ≡ cleanups xs + cleanups ys
unfolding cleanups
cleanups-append [] ys = omega arith
cleanups-append (cleaned_up r ∷ xs) ys = omega (arith, cleanups-append xs ys)
cleanups-append (answered _ _ _ ∷ xs) ys = cleanups-append xs ys
cleanups-append (sent_exit _ _ ∷ xs) ys = cleanups-append xs ys
cleanups-append (monitored _ ∷ xs) ys = cleanups-append xs ys
cleanups-append (null_sender ∷ xs) ys = cleanups-append xs ys
cleanups-append (enqueued _ _ ∷ xs) ys = cleanups-append xs ys

filters_ended :
    (ms : List Mail) (p : ActorPool)
    → p.planned_reason ≢ 0
    → ((filters p ms).0 ≡ p) × (cleanups (filters p ms).1 ≡ 0)
unfolding filters cleanups
filters_ended [] p z = (refl, refl)
filters_ended (m ∷ ms) p z =
    let (f, same, none_now) = filter_ended p m z in
    let rest = filters_ended ms p z in
    rw same
      (rest.0, omega (arith, cleanups-append (filter p m).2 (filters p ms).1, none_now, rest.1))

-- From a pool that has not planned its end, whatever messages come, in whatever order, where each
-- exit message has a reason: either the pool has still not planned its end and has never cleaned
-- up, or it has planned it, has no workers left and has cleaned up exactly once.
pub filters_lem :
    (ms : List Mail) (p : ActorPool)
    → All (λ m. HasReason m.content) ms
    → p.planned_reason ≡ 0
    → let (p', events) = filters p ms in
      ((p'.planned_reason ≡ 0) × (cleanups events ≡ 0))
      ⊎ ((p'.planned_reason ≢ 0) × (p'.workers ≡ []) × (cleanups events ≡ 1))
unfolding filters cleanups
filters_lem [] p r z = inl (z, refl)
filters_lem (m ∷ ms) p r z =
    rw (filter_live p m z) (elim (filter_content-Planned p m.sender m.mid m.content r.0 z) [
      | inl (z', c) ↦ elim (filters_lem ms (filter_content p m.sender m.mid m.content).1 r.1 z') [
        | inl (z'', c') ↦ inl (
          z'',
          omega (
            arith,
            cleanups-append (filter_content p m.sender m.mid m.content).2
                (filters (filter_content p m.sender m.mid m.content).1 ms).1,
            c,
            c',
          ),
        )
        | inr (d, w, c') ↦ inr (
          d,
          w,
          omega (
            arith,
            cleanups-append (filter_content p m.sender m.mid m.content).2
                (filters (filter_content p m.sender m.mid m.content).1 ms).1,
            c,
            c',
          ),
        )
      ]
      | inr (d, w, c) ↦
          let (same, c') = filters_ended ms (filter_content p m.sender m.mid m.content).1 d in
          inr (
            rw same (
              d,
              w,
              omega (
                arith,
                cleanups-append (filter_content p m.sender m.mid m.content).2
                    (filters (filter_content p m.sender m.mid m.content).1 ms).1,
                c,
                c',
              ),
            ))
    ])

valid-is_request : (mid : MessageId) → is_request mid ≡ true → valid mid ≡ true
unfolding is_request
valid-is_request mid q = ground (arith, q)

-- A request that asks for work is passed on to the policy with the workers as they were, of which
-- there is at least one, or the pool sends its sender exactly one answer, under the response ID.
pub filter-request :
    (p : ActorPool) (sender : ℕ) (mid : MessageId) (n : ℕ)
    → is_request mid ≡ true
    → let r = filter p (record { sender = some sender; mid = mid; content = other n }) in
      ((r ≡ (false, p, [])) × (null p.workers ≡ false))
      ⊎ ((r.0 ≡ true)
          × (r.1 ≡ p)
          × ((a : Answer) × (r.2 ≡ answered sender (response_id mid) a ∷ [])))
unfolding filter filter_content bounce ignore
filter-request p sender mid n q =
    let v = valid-is_request mid q in
    elim (Bool-cases (p.planned_reason == 0)) [
      | inr ended ↦ inr (rw (ended, v, q) ((refl, refl, (sync_exited_msg p.planned_reason, refl))))
      | inl live ↦ elim (Bool-cases (null p.workers)) [
        | inl idle ↦ inr (rw (live, idle, v) (refl, refl, (empty_msg, refl)))
        | inr some_worker ↦ inl (rw (live, some_worker) (refl, refl))
      ]
    ]
