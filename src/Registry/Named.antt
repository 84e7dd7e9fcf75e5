-- ===== src/Registry/Named.antt =====
-- What becomes of a name when its actor exits.
use boost_actor.Common.{
  ℕ, ◌≡◌, refl, List, [], ◌∷◌, ◌++◌, Option, none, some, arith, sym, subst, nat_eq, nat_beq_iff,
}
use boost_actor.Common.Assoc.{find}
use boost_actor.Registry.{Registry, get_named, emplace_named, name_functor, put_named, call, exits}

abbrev Named : Registry → ℕ → ℕ → Type 0
Named r key a = find key r.named_entries ≡ some (some a)

find_named-snoc :
    {V : Type 0} (key : ℕ) (v : V) (m : List (ℕ × V))
    → find key m ≡ none
    → find key (m ++ (key, v) ∷ []) ≡ some v
unfolding find
find_named-snoc key v [] h = ground (arith, nat_beq_iff key key)
find_named-snoc key v ((j, w) ∷ m) h = ground (arith, nat_beq_iff j key, find_named-snoc key v m)

put_named-Named :
    (r : Registry) (key a : ℕ)
    → find key r.named_entries ≡ none
    → Named (put_named r key (some a)).0 key a
unfolding put_named emplace_named
put_named-Named r key a h = rw h (find_named-snoc key (some a) r.named_entries h)

keeps_name :
    (r : Registry) (key a : ℕ) (value : Option ℕ) → Named r key a → (put_named r key value).0 ≡ r
unfolding put_named emplace_named
keeps_name r key a value h = rw h refl

-- The functor that is to reset the name changes nothing.
exits-put_named :
    (r : Registry) (key a reason : ℕ)
    → Named (put_named r key (some a)).0 key a
    → exits (put_named r key (some a)).0 reason (put_named r key (some a)).1
      ≡ (put_named r key (some a)).0
unfolding put_named name_functor exits call
exits-put_named r key a reason named = keeps_name (put_named r key (some a)).0 key a none named

abbrev pub Stays : Registry → ℕ → ℕ → Option ℕ → Type 0
Stays r key a later = (get_named r key ≡ some a) × ((put_named r key later).0 ≡ r)

Named-Stays : (r : Registry) (key a : ℕ) (later : Option ℕ) → Named r key a → Stays r key a later
unfolding get_named
Named-Stays r key a later h = (rw h refl, keeps_name r key a later h)

-- A name that was free is given to an actor. When that actor exits, for any reason, the functor
-- that was attached to reset the name runs, and the name still answers the actor that exited; no
-- later actor can be given that name.
pub put_named-exits :
    (r : Registry) (key a reason : ℕ) (later : Option ℕ)
    → find key r.named_entries ≡ none
    → Stays (exits (put_named r key (some a)).0 reason (put_named r key (some a)).1) key a later
put_named-exits r key a reason later h =
    let named = put_named-Named r key a h in
    subst (λ g. Stays g key a later) (sym (exits-put_named r key a reason named))
      (Named-Stays (put_named r key (some a)).0 key a later named)
