-- ===== src/AbstractActor.antt =====
-- libboost_actor_core/src/abstract_actor.cpp and default_attachable.cpp: what is attached to an
-- actor, links in both directions, and the end of an actor. Each operation is one step of the
-- store of actors, the locks it takes left out. Actors are numbers, and the messages sent and
-- the functors called are events.
pub mod Detach
pub mod Links
pub mod Unlinks
pub mod Reach
mod Tests
use boost_actor.Common.{
  ℕ, ◌+◌, Bool, true, false, ◌&&◌, not, List, [], ◌∷◌, ◌++◌, Option, none, some, if◌then◌else◌,
  ◌==◌, nat_eq,
}

pub data ObserveType : Type 0 where
  monitor link : ObserveType

-- `attachable`: a `default_attachable`, or a functor that matches no token.
pub data Attachable : Type 0 where
  observer : ℕ → ObserveType → Attachable
  functor : ℕ → Attachable

-- `exit_reason::not_exited`
abbrev pub not_exited : ℕ
not_exited = 0

-- The list from `attachables_head_` on.
pub record Actor : Type 0 where
  pub exit_reason : ℕ
  pub attachables : List Attachable

-- A message that an actor sends to another: receiver, sender and reason.
pub data Event : Type 0 where
  exit_msg down_msg : ℕ → ℕ → ℕ → Event
  functor_called : ℕ → ℕ → Event

abbrev pub Store : Type 0
Store = ℕ → Actor

abbrev pub update : Store → ℕ → Actor → Store
update st a s k = if k == a then s else st k

abbrev pub exited : Actor → Bool
exited s = not (s.exit_reason == not_exited)

abbrev pub same_type : ObserveType → ObserveType → Bool
same_type monitor monitor = true
same_type link link = true
same_type _ _ = false

-- `matches`, for the token of an observer
pub matches : ℕ → ObserveType → Attachable → Bool
matches who type (observer o t) = o == who && same_type t type
matches who type (functor f) = false

-- `attach_impl`
abbrev pub attach_impl : Actor → Attachable → Actor
attach_impl s ptr = record s { attachables = ptr ∷ s.attachables }

-- `detach_impl(what, ptr, stop_on_hit, dry_run)`: the number and the list left, for a token that
-- `hit` tells. In a dry run that does not stop, a match calls itself with the same arguments for
-- ever: `none`.
unfoldable pub detach_impl :
    (Attachable → Bool) → List Attachable → Bool → Bool → Option (ℕ × List Attachable)
detach_impl hit [] stop_on_hit dry_run = some (0, [])
detach_impl hit (ptr ∷ next) stop_on_hit dry_run =
    let rest = detach_impl hit next stop_on_hit dry_run in
    if hit ptr
    then (if dry_run
        then (if stop_on_hit then some (1, ptr ∷ next) else none)
        else (if stop_on_hit
            then some (1, next)
            else (elim rest [ none ↦ none | some r ↦ some (1 + r.0, r.1) ])))
    else (elim rest [ none ↦ none | some r ↦ some (r.0, ptr ∷ r.1) ])

-- `detach_impl` with `stop_on_hit`, which always ends: the first match, taken out or not.
unfoldable pub has_match : (Attachable → Bool) → List Attachable → Bool
has_match hit [] = false
has_match hit (ptr ∷ next) = if hit ptr then true else has_match hit next

unfoldable pub remove_first : (Attachable → Bool) → List Attachable → List Attachable
remove_first hit [] = []
remove_first hit (ptr ∷ next) =
    let rest = remove_first hit next in if hit ptr then next else ptr ∷ rest

-- `actor_exited`, called on an actor's end
abbrev pub actor_exited : ℕ → ℕ → Attachable → Event
actor_exited self reason (observer o monitor) = down_msg o self reason
actor_exited self reason (observer o link) = exit_msg o self reason
actor_exited self reason (functor f) = functor_called f reason

-- `attach`; a null pointer does nothing and is left out.
pub attach : Store → ℕ → Attachable → Store × List Event
attach st self ptr =
    if exited (st self)
    then (st, actor_exited self (st self).exit_reason ptr ∷ [])
    else (update st self (attach_impl (st self) ptr), [])

-- `establish_backlink_impl(other)`, where `none` is `invalid_actor_addr`
unfoldable pub establish_backlink : Store → ℕ → Option ℕ → Bool × Store × List Event
establish_backlink st self none = (false, st, [])
establish_backlink st self (some other) =
    if other == self
    then (false, st, [])
    else (if exited (st self)
        then (false, st, exit_msg other self (st self).exit_reason ∷ [])
        else (if has_match (matches other link) (st self).attachables
            then (false, st, [])
            else (true, update st self (attach_impl (st self) (observer other link)), [])))

-- `establish_link_impl(other)`
unfoldable pub establish_link : Store → ℕ → Option ℕ → Bool × Store × List Event
establish_link st self none = (false, st, [])
establish_link st self (some other) =
    let back = establish_backlink st other (some self) in
    if other == self
    then (false, st, [])
    else (if exited (st self)
        then (false, st, exit_msg other self (st self).exit_reason ∷ [])
        else (if back.0
            then (
              true,
              update back.1 self (attach_impl (back.1 self) (observer other link)),
              back.2,
            )
            else (false, back.1, back.2)))

-- `remove_backlink_impl(other)`
unfoldable pub remove_backlink : Store → ℕ → Option ℕ → Bool × Store
remove_backlink st self none = (false, st)
remove_backlink st self (some other) =
    let l = (st self).attachables in
    if other == self then (false, st) else (
      has_match (matches other link) l,
      update st self (record (st self) { attachables = remove_first (matches other link) l }),
    )

-- `remove_link_impl(other)`
unfoldable pub remove_link : Store → ℕ → Option ℕ → Bool × Store
remove_link st self none = (false, st)
remove_link st self (some other) =
    let l = (st self).attachables in
    let st' =
      update st self (record (st self) { attachables = remove_first (matches other link) l }) in
    if other == self
    then (false, st)
    else (if has_match (matches other link) l
        then (true, (remove_backlink st' other (some self)).1)
        else (false, st'))

-- The loop of `cleanup` over what was attached.
unfoldable pub all_exited : ℕ → ℕ → List Attachable → List Event
all_exited self reason [] = []
all_exited self reason (i ∷ next) = actor_exited self reason i ∷ all_exited self reason next

unfoldable pub cleanup : Store → ℕ → ℕ → Store × List Event
cleanup st self reason = if exited (st self) then (st, []) else (
  update st self (record { exit_reason = reason; attachables = [] }),
  all_exited self reason (st self).attachables,
)
