-- ===== src/TryMatch.antt =====
-- libboost_actor_core/src/try_match.cpp with boost/actor/detail/try_match.hpp: matching a message
-- against a pattern with wildcards. A message is the list of its elements' types and values; a
-- `void*` to an element is the element's position. The array behind `out` has no end here, so
-- that a write beyond it is seen.
pub mod Steps
pub mod Spec
pub mod Decides
pub mod Overflow
mod Tests
use boost_actor.Common.{
  ℕ, zero, suc, ◌+◌, Bool, true, false, ◌&&◌, ◌||◌, not, List, [], ◌∷◌, Option, none, some,
  if◌then◌else◌, ◌==◌, nat_eq, all, null,
}

-- An element of a message: `type_nr_at`, its `std::type_info` where the number is 0, and its
-- value if it is an atom.
pub record Element : Type 0 where
  pub typenr : ℕ
  pub rtti : ℕ
  pub atom : ℕ

-- The function pointer of a `meta_element`.
pub data MatchFun : Type 0 where
  element atom_constant nullptr : MatchFun

pub record MetaElement : Type 0 where
  pub v : ℕ
  pub typenr : ℕ
  pub rtti : Option ℕ
  pub match_fun : MatchFun

-- `type_nr<atom_value>::value`
abbrev pub atom_typenr : ℕ
atom_typenr = 5

-- The four specialisations of `meta_element_factory`.
abbrev pub create_announced : ℕ → MetaElement
create_announced tn = record { v = 0; typenr = suc tn; rtti = none; match_fun = element }

abbrev pub create_by_rtti : ℕ → MetaElement
create_by_rtti t = record { v = 0; typenr = 0; rtti = some t; match_fun = element }

abbrev pub create_atom : ℕ → MetaElement
create_atom a = record { v = a; typenr = atom_typenr; rtti = none; match_fun = atom_constant }

abbrev pub create_anything : MetaElement
create_anything = record { v = 0; typenr = 0; rtti = none; match_fun = nullptr }

abbrev is_null : Option ℕ → Bool
is_null none = true
is_null (some t) = false

pub is_wildcard : MetaElement → Bool
is_wildcard me = me.typenr == 0 && is_null me.rtti

abbrev points_to : Option ℕ → ℕ → Bool
points_to none t = false
points_to (some u) t = u == t

-- `tuple_vals::match_element`: the numbers agree, and without a number the type infos do.
pub type_matches : Element → ℕ → Option ℕ → Bool
type_matches e typenr rtti = e.typenr == typenr && (not (e.typenr == 0) || points_to rtti e.rtti)

pub match_element : MetaElement → Element → Bool
unfolding type_matches
match_element me e = type_matches e me.typenr me.rtti

pub match_atom_constant : MetaElement → Element → Bool
unfolding type_matches
match_atom_constant me e = type_matches e atom_typenr none && me.v == e.atom

-- `pbegin->fun(...)`. A null function belongs to wildcards alone, which are never inspected.
call_fun : MatchFun → MetaElement → Element → Bool
unfolding match_element match_atom_constant
call_fun element me e = match_element me e
call_fun atom_constant me e = match_atom_constant me e
call_fun nullptr me e = false

pub inspect : MetaElement → Element → Bool
unfolding call_fun
inspect me e = call_fun me.match_fun me e

-- `set_commit_rollback`; `slots` is the array from `data_` on.
pub record SetCommitRollback : Type 0 where
  pub slots : ℕ → Option ℕ
  pub pos : ℕ
  pub fallback_pos : ℕ

abbrev pub inc : SetCommitRollback → SetCommitRollback
inc s = record s { pos = s.pos + 1 }

abbrev pub commit : SetCommitRollback → SetCommitRollback
commit s = record s { fallback_pos = s.pos }

abbrev pub rollback : SetCommitRollback → SetCommitRollback
rollback s = record s { pos = s.fallback_pos }

-- `*storage = msg.at(pos)` at `storage.current()`
abbrev pub store : SetCommitRollback → ℕ → SetCommitRollback
store s i = record s { slots = λ k. if k == s.pos then some i else s.slots k }

abbrev pub Matcher : Type 0
Matcher = ℕ → List Element → SetCommitRollback → Bool × SetCommitRollback

-- The loop over the remaining values behind a wildcard.
pub submatch : Matcher → Matcher
submatch f i [] s = (false, s)
submatch f i (x ∷ xs) s =
    let (found, s') = f i (x ∷ xs) s in
    let rest = submatch f (i + 1) xs (rollback s') in if found then (true, s') else rest

-- `i` is msg_pos, and the list holds the values from there on.
pub try_match_at : List MetaElement → Matcher
unfolding submatch
try_match_at ps i [] s = (all is_wildcard ps, s)
try_match_at [] i (x ∷ xs) s = (false, s)
try_match_at (p ∷ ps) i (x ∷ xs) s = elim (is_wildcard p) [
  | true ↦ (if null ps then (true, s) else submatch (try_match_at ps) i (x ∷ xs) (commit s))
  | false ↦ elim (inspect p x) [
    | true ↦ try_match_at ps (i + 1) xs (inc (store s i))
    | false ↦ (false, s)
  ]
]

pub try_match : List Element → List MetaElement → (ℕ → Option ℕ) → Bool × SetCommitRollback
try_match msg pattern out =
    try_match_at pattern 0 msg (record { slots = out; pos = 0; fallback_pos = 0 })
