-- ===== src/Registry/Tests.antt =====
-- Runs of the registry: the actor 5 by its ID 7 and by the name 3.
use boost_actor.Common.{◌≡◌, refl, List, [], ◌∷◌, some}
use boost_actor.Common.Assoc.{find}
use boost_actor.Registry.{Registry, get_entry, put_named, exits}
use boost_actor.Registry.Lives.{Call, puts, erases, run, lives, never_put, answer, run-lives}
use boost_actor.Registry.Named.{Stays, put_named-exits}

abbrev no_actors : Registry
no_actors = record { entries = []; named_entries = []; running = 0 }

abbrev calls : List Call
calls = puts 7 (some 5) ∷ puts 7 (some 6) ∷ erases 8 1 ∷ erases 7 2 ∷ puts 7 (some 9) ∷ []

run-lives_example : get_entry (run no_actors calls) 7 ≡ answer (lives 7 never_put calls)
run-lives_example = run-lives no_actors calls 7 refl

put_named-exits_example :
    Stays
      (exits (put_named no_actors 3 (some 5)).0 2 (put_named no_actors 3 (some 5)).1)
      3
      5
      (some 6)
unfolding find
put_named-exits_example = put_named-exits no_actors 3 5 2 (some 6) refl
