-- ===== src/ActorPool.antt =====
-- libboost_actor_core/src/actor_pool.cpp: a pool of workers that stands for one actor, with the
-- policies that choose a worker. A message is known by what the pool looks for in it; locks are
-- left out, since each message is handled as one step.
pub mod Filter
pub mod RoundRobin
mod Tests
use boost_actor.Common.{
  ℕ, ◌+◌, ◌%◌, ◌^◌, Bool, true, false, ◌&&◌, not, List, [], ◌∷◌, ◌++◌, Option, none, some, map,
  if◌then◌else◌, ◌==◌, nat_eq, null, length, get_elem?,
}
use boost_actor.MessageId.{MessageId, valid, is_request, response_id}

-- What the pool tests a message for; a worker that is `invalid_actor` is `none`.
pub data Content : Type 0 where
  exit_msg down_msg : ℕ → Content
  put delete : Option ℕ → Content
  get : Content
  other : ℕ → Content

pub record Mail : Type 0 where
  pub sender : Option ℕ
  pub mid : MessageId
  pub content : Content

pub data Answer : Type 0 where
  sync_exited_msg : ℕ → Answer
  workers_msg : List ℕ → Answer
  empty_msg : Answer

-- `null_sender` is the call through the null pointer that an invalid sender gives.
pub data Event : Type 0 where
  answered : ℕ → MessageId → Answer → Event
  sent_exit : ℕ → ℕ → Event
  monitored : ℕ → Event
  cleaned_up : ℕ → Event
  null_sender : Event
  enqueued : ℕ → Mail → Event

abbrev pub not_exited : ℕ
not_exited = 0

abbrev pub out_of_workers : ℕ
out_of_workers = 7

pub record ActorPool : Type 0 where
  pub planned_reason : ℕ
  pub workers : List ℕ

-- `sync_request_bouncer`, for a reason that is not `not_exited`
unfoldable pub bounce : ℕ → Option ℕ → MessageId → List Event
bounce rsn none mid = []
bounce rsn (some sender) mid =
    if is_request mid then answered sender (response_id mid) (sync_exited_msg rsn) ∷ [] else []

-- `std::find` and `erase`
unfoldable pub erase_worker : ℕ → List ℕ → List ℕ
erase_worker w [] = []
erase_worker w (x ∷ xs) = let rest = erase_worker w xs in if x == w then xs else x ∷ rest

abbrev pub Filtered : Type 0
Filtered = Bool × ActorPool × List Event

-- The end of the branch for `down_msg`: the pool ends with its last worker.
unfoldable pub without_worker : ActorPool → List ℕ → Filtered
without_worker p left =
    if null left
    then (
      true,
      record { planned_reason = out_of_workers; workers = left },
      cleaned_up out_of_workers ∷ [],
    )
    else (true, record p { workers = left }, [])

-- An answer to the sender of a message that no worker can take.
unfoldable pub ignore : Option ℕ → MessageId → List Event
ignore none mid = []
ignore (some sender) mid =
    if valid mid then answered sender (response_id mid) empty_msg ∷ [] else []

-- `filter` on a pool that has not planned its end.
unfoldable pub filter_content : ActorPool → Option ℕ → MessageId → Content → Filtered
filter_content p sender mid (exit_msg reason) = (
  true,
  record { planned_reason = reason; workers = [] },
  map (λ w. sent_exit w reason) p.workers ++ cleaned_up reason ∷ [],
)
filter_content p sender mid (down_msg source) = without_worker p (erase_worker source p.workers)
filter_content p sender mid (put none) = (true, p, [])
filter_content p sender mid (put (some worker)) =
    (true, record p { workers = p.workers ++ worker ∷ [] }, monitored worker ∷ [])
filter_content p sender mid (delete none) = (true, p, [])
filter_content p sender mid (delete (some what)) =
    (true, record p { workers = erase_worker what p.workers }, [])
filter_content p none mid get = (true, p, null_sender ∷ [])
filter_content p (some sender) mid get =
    (true, p, answered sender (response_id mid) (workers_msg p.workers) ∷ [])
filter_content p sender mid (other n) =
    if null p.workers then (true, p, ignore sender mid) else (false, p, [])

unfoldable pub filter : ActorPool → Mail → Filtered
filter p m =
    if p.planned_reason == not_exited
    then filter_content p m.sender m.mid m.content
    else (true, p, if valid m.mid then bounce p.planned_reason m.sender m.mid else [])

-- A policy has a state of its own, and is called with workers only.
abbrev pub Policy : Type 0 → Type 0
Policy S = S → List ℕ → Mail → S × List Event

-- `round_robin`: `vec[pos_++ % vec.size()]`
unfoldable pub round_robin : Policy ℕ
round_robin pos vec m = (
  (pos + 1) % 2 ^ 64,
  elim (get_elem? vec (pos % length vec)) [ none ↦ [] | some selected ↦ enqueued selected m ∷ [] ],
)

-- `broadcast`: the first worker comes last.
unfoldable pub broadcast : Policy (Unit {0})
broadcast s [] m = (s, [])
broadcast s (front ∷ rest) m = (s, map (λ w. enqueued w m) rest ++ enqueued front m ∷ [])

-- `enqueue`
unfoldable pub enqueue :
    {S : Type 0} → Policy S → S × ActorPool → Mail → (S × ActorPool) × List Event
enqueue policy (s, p) m =
    let (filtered, p', events) = filter p m in
    let (s', dispatched) = policy s p'.workers m in
    if filtered then ((s, p'), events) else ((s', p'), events ++ dispatched)
