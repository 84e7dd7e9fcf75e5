-- ===== src/Registry.antt =====
-- libboost_actor_core/src/actor_registry.cpp: the actors of this process by their IDs, the actors
-- with a name, and the number of running actors. Each operation is one step under its lock.
-- Actors are numbers, as in AbstractActor, and a null pointer or an invalid handle is `none`.
pub mod Lives
pub mod Named
mod Tests
use boost_actor.Common.{
  ℕ, ◌+◌, ◌-◌, ◌%◌, ◌^◌, Bool, List, [], ◌∷◌, ◌++◌, Option, none, some, ◌==◌, nat_eq, leb,
}
use boost_actor.Common.Assoc.{find, assign}
use boost_actor.AbstractActor.{not_exited}

-- `exit_reason::unknown`
abbrev pub unknown : ℕ
unknown = 6

-- `value_type`: the actor, null once it has finished, and its exit reason
abbrev pub Entry : Type 0
Entry = Option ℕ × ℕ

pub record Registry : Type 0 where
  pub entries : List (ℕ × Entry)
  pub named_entries : List (ℕ × Option ℕ)
  pub running : ℕ

-- A functor that is attached to an actor: to erase the entry of a key, or to reset a name.
pub data Functor : Type 0 where
  erases resets_name : ℕ → Functor

-- The functors that an operation attaches, each with its actor.
abbrev pub Attached : Type 0
Attached = List (ℕ × Functor)

abbrev pub entry_or_unknown : Option Entry → Entry
entry_or_unknown none = (none, unknown)
entry_or_unknown (some i) = i

pub get_entry : Registry → ℕ → Entry
get_entry r key = entry_or_unknown (find key r.entries)

abbrev pub get : Registry → ℕ → Option ℕ
unfolding get_entry
get r key = (get_entry r key).0

-- The operation `put` of an actor that is there, on the entry found under its key.
pub emplace : Registry → ℕ → ℕ → Option Entry → Registry × Attached
emplace r key val (some old) = (r, [])
emplace r key val none =
    (record r { entries = r.entries ++ (key, (some val, not_exited)) ∷ [] }, (val, erases key) ∷ [])

pub put : Registry → ℕ → Option ℕ → Registry × Attached
unfolding emplace
put r key none = (r, [])
put r key (some val) = emplace r key val (find key r.entries)

-- The operation `erase`, on the entry found.
pub reset_entry : Registry → ℕ → ℕ → Option Entry → Registry
reset_entry r key reason none = r
reset_entry r key reason (some entry) = record r { entries = assign key (none, reason) r.entries }

pub erase : Registry → ℕ → ℕ → Registry
unfolding reset_entry
erase r key reason = reset_entry r key reason (find key r.entries)

abbrev size_t_values : ℕ
size_t_values = 2 ^ 64

pub inc_running : Registry → Registry
inc_running r = record r { running = (r.running + 1) % size_t_values }

-- The second component tells whether those that wait are notified.
pub dec_running : Registry → Registry × Bool
dec_running r =
    let new_val = (r.running + (size_t_values - 1)) % size_t_values in
    (record r { running = new_val }, leb new_val 1)

-- The test of the loop of `await_running_count_equal`.
pub count_reached : Registry → ℕ → Bool
count_reached r expected = r.running == expected

abbrev pub valid_or_none : Option (Option ℕ) → Option ℕ
valid_or_none none = none
valid_or_none (some value) = value

pub get_named : Registry → ℕ → Option ℕ
get_named r key = valid_or_none (find key r.named_entries)

-- The call of `attach_functor` of the operation `put_named`.
pub name_functor : ℕ → Option ℕ → Attached
name_functor key none = []
name_functor key (some a) = (a, resets_name key) ∷ []

-- `emplace` of the named entries: a name that has an entry keeps it.
pub emplace_named : Registry → ℕ → Option ℕ → Option (Option ℕ) → Registry
emplace_named r key value (some old) = r
emplace_named r key value none = record r { named_entries = r.named_entries ++ (key, value) ∷ [] }

pub put_named : Registry → ℕ → Option ℕ → Registry × Attached
unfolding name_functor emplace_named
put_named r key value =
    (emplace_named r key value (find key r.named_entries), name_functor key value)

-- A functor is called with the exit reason of its actor.
pub call : Registry → ℕ → Functor → Registry
unfolding erase put_named
call r reason (erases key) = erase r key reason
call r reason (resets_name key) = (put_named r key none).0

-- The actor exits: the functors attached to it are called.
pub exits : Registry → ℕ → Attached → Registry
unfolding call
exits r reason [] = r
exits r reason ((a, f) ∷ fs) = exits (call r reason f) reason fs
