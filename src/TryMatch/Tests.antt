-- ===== src/TryMatch/Tests.antt =====
-- Concrete patterns and messages: `{anything, int, anything, atom}` against four integers.
use boost_actor.Common.{ℕ, ◌≡◌, ◌++◌, ◌↔◌, refl, true, List, [], ◌∷◌, Option, none}
use boost_actor.TryMatch.{
  Element, MetaElement, create_announced, create_atom, create_anything, is_wildcard, inspect,
  try_match, try_match_at, submatch,
}
use boost_actor.TryMatch.Spec.{Matches}
use boost_actor.TryMatch.Decides.{try_match_iff}

-- An element of the announced type that `create_announced 6` asks for.
abbrev an_int : Element
an_int = record { typenr = 7; rtti = 0; atom = 0 }

abbrev ints : List Element
ints = an_int ∷ an_int ∷ an_int ∷ an_int ∷ []

abbrev an_atom : Element
an_atom = record { typenr = 5; rtti = 0; atom = 99 }

abbrev two_wildcards : List MetaElement
two_wildcards = create_anything ∷ create_announced 6 ∷ create_anything ∷ create_atom 99 ∷ []

abbrev no_slots : ℕ → Option ℕ
no_slots k = none

found_at_the_end : (try_match (ints ++ an_atom ∷ []) two_wildcards no_slots).0 ≡ true
unfolding try_match try_match_at submatch is_wildcard inspect
found_at_the_end = refl

try_match_iff_example :
    ((try_match ints two_wildcards no_slots).0 ≡ true) ↔ Matches two_wildcards ints
try_match_iff_example = try_match_iff ints two_wildcards no_slots

-- The pattern stores two positions, yet the slot behind them is written.
