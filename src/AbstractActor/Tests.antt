-- ===== src/AbstractActor/Tests.antt =====
-- Actors 1 and 2 are linked; actor 1 may have exited for reason 9.
use boost_actor.Common.{ℕ, ◌≤◌, ◌≡◌, refl, Bool, true, List, [], ◌∷◌, some, nat_eq, arith}
use boost_actor.AbstractActor.{
  Attachable, observer, functor, link, monitor, Store, establish_link, cleanup, has_match,
  establish_backlink,
}
use boost_actor.AbstractActor.Links.{links, IsSymmetric}
use boost_actor.AbstractActor.Reach.{
  links_to, Reach, start, later, Reach-IsSymmetric, exits_told, cleanup_tells,
}

abbrev fresh : Store
fresh a = record { exit_reason = 0; attachables = [] }

abbrev linked : Store
linked = (establish_link fresh 1 (some 2)).1

linked-Reach : Reach linked
linked-Reach = later start (links_to 1 (some 2))

abbrev attached : List Attachable
attached = functor 7 ∷ observer 2 link ∷ observer 3 monitor ∷ observer 2 link ∷ []

abbrev anything : Attachable → Bool
anything ptr = true

Reach-IsSymmetric_example : IsSymmetric linked
Reach-IsSymmetric_example = Reach-IsSymmetric linked-Reach

cleanup_tells_example :
    let (st', events) = cleanup linked 1 9 in
    (exits_told 2 events ≡ links linked 2 1)
    × (exits_told 2 events ≤ 1)
    × ((again : ℕ) → cleanup st' 1 again ≡ (st', []))
unfolding establish_link establish_backlink has_match
cleanup_tells_example =
    cleanup_tells 1 9 2 linked-Reach (λ e. absurd (omega (arith, e)))
      (λ e. absurd (omega (arith, e))) refl refl

fresh-IsSymmetric : IsSymmetric fresh
fresh-IsSymmetric = Reach-IsSymmetric start

abbrev one_gone : Store
one_gone = (cleanup fresh 1 9).0
