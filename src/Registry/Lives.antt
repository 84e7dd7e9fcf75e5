-- ===== src/Registry/Lives.antt =====
-- What the registry promises of one ID: a life that starts with the first `put` of it.
use boost_actor.Common.{
  ℕ, ◌≡◌, refl, ◌∙◌, List, [], ◌∷◌, ◌++◌, Option, none, some, arith, if◌then◌else◌, ◌==◌, nat_eq,
  nat_beq_iff, inl, inr, ◌⊎◌,
}
use boost_actor.Common.Assoc.{find, find-assign}
use boost_actor.AbstractActor.{not_exited}
use boost_actor.Registry.{
  Registry, Entry, entry_or_unknown, get_entry, get, emplace, put, reset_entry, erase,
}

-- An actor that was never put, one that runs, and one that has exited.
pub data Life : Type 0 where
  never_put : Life
  alive : ℕ → Life
  over : ℕ → Life

pub data Call : Type 0 where
  puts : ℕ → Option ℕ → Call
  erases : ℕ → ℕ → Call

pub run : Registry → List Call → Registry
run r [] = r
run r (puts key val ∷ cs) = run (put r key val).0 cs
run r (erases key reason ∷ cs) = run (erase r key reason) cs

-- An actor that is put for the first time starts a life, and nothing starts a second one.
abbrev started : Option ℕ → Life → Life
started (some val) never_put = alive val
started _ l = l

-- A life that has started ends with the reason that was given last.
abbrev ended : ℕ → Life → Life
ended reason never_put = never_put
ended reason _ = over reason

-- The life of one ID through the calls: those for other IDs do not change it.
pub lives : ℕ → Life → List Call → Life
lives k l [] = l
lives k l (puts key val ∷ cs) = lives k (if key == k then started val l else l) cs
lives k l (erases key reason ∷ cs) = lives k (if key == k then ended reason l else l) cs

-- The entry that stands for a life, in the registry and as `get_entry` answers it.
abbrev image : Life → Option Entry
image never_put = none
image (alive val) = some (some val, not_exited)
image (over reason) = some (none, reason)

pub answer : Life → Entry
answer l = entry_or_unknown (image l)

find-snoc :
    {V : Type 0} (k key : ℕ) (v : V) (m : List (ℕ × V))
    → find key m ≡ none
    → find k (m ++ (key, v) ∷ []) ≡ (if key == k then some v else find k m)
unfolding find
find-snoc k key v [] h = refl
find-snoc k key v ((j, w) ∷ m) h =
    ground (arith, nat_beq_iff j k, nat_beq_iff j key, nat_beq_iff key k, find-snoc k key v m)

-- There is no entry for the ID of an actor yet, or that of the actor, which runs.
abbrev pub KnownAs : Registry → ℕ → ℕ → Type 0
KnownAs r key a = (find key r.entries ≡ none) ⊎ (find key r.entries ≡ some (some a, not_exited))

get-found : (r : Registry) (key : ℕ) (i : Entry) → find key r.entries ≡ some i → get r key ≡ i.0
unfolding get_entry
get-found r key i h = rw (get, h) refl

pub put-get : (r : Registry) (key a : ℕ) → KnownAs r key a → get (put r key (some a)).0 key ≡ some a
unfolding put emplace
put-get r key a (inl new) =
    let added = find-snoc key key (some a, not_exited) r.entries new in
    rw new (
      get-found (emplace r key a none).0 key (some a, not_exited)
        (added ∙ rw ((nat_beq_iff key key).1 refl) refl))
put-get r key a (inr old) = rw old (get-found r key (some a, not_exited) old)

emplace-image :
    (r : Registry) (k key val : ℕ) (l l' : Life)
    → find key r.entries ≡ image l'
    → find k r.entries ≡ image l
    → (key ≡ k → l ≡ l')
    → find k (emplace r key val (image l')).0.entries
      ≡ image (if key == k then started (some val) l else l)
unfolding emplace
emplace-image r k key val l never_put h e same =
    rw (find-snoc k key (some val, not_exited) r.entries h)
      (ground (arith, nat_beq_iff key k, same))
emplace-image r k key val l (alive v) h e same = ground (arith, nat_beq_iff key k, same)
emplace-image r k key val l (over v) h e same = ground (arith, nat_beq_iff key k, same)

reset_entry-image :
    (r : Registry) (k key reason : ℕ) (l l' : Life)
    → find k r.entries ≡ image l
    → (key ≡ k → l ≡ l')
    → find k (reset_entry r key reason (image l')).entries
      ≡ image (if key == k then ended reason l else l)
unfolding reset_entry
reset_entry-image r k key reason l never_put e same = ground (arith, nat_beq_iff key k, same)
reset_entry-image r k key reason l (alive v) e same =
    rw (find-assign k key (none, reason) r.entries) (ground (arith, nat_beq_iff key k, same))
reset_entry-image r k key reason l (over v) e same =
    rw (find-assign k key (none, reason) r.entries) (ground (arith, nat_beq_iff key k, same))

Represents : Registry → (ℕ → Life) → Type 0
Represents r f = (k : ℕ) → find k r.entries ≡ image (f k)

abbrev put_lives : ℕ → Option ℕ → (ℕ → Life) → ℕ → Life
put_lives key val f k = if key == k then started val (f k) else f k

abbrev erase_lives : ℕ → ℕ → (ℕ → Life) → ℕ → Life
erase_lives key reason f k = if key == k then ended reason (f k) else f k

put-Represents :
    (r : Registry) (f : ℕ → Life) (key : ℕ) (val : Option ℕ)
    → Represents r f
    → Represents (put r key val).0 (put_lives key val f)
unfolding put Represents
put-Represents r f key none h k = ground (arith, h k)
put-Represents r f key (some val) h k =
    rw (h key) (emplace-image r k key val (f k) (f key) (h key) (h k) (λ e. cc))

erase-Represents :
    (r : Registry) (f : ℕ → Life) (key reason : ℕ)
    → Represents r f
    → Represents (erase r key reason) (erase_lives key reason f)
unfolding erase Represents
erase-Represents r f key reason h k =
    rw (h key) (reset_entry-image r k key reason (f k) (f key) (h k) (λ e. cc))

get_entry-answer :
    (r : Registry) (f : ℕ → Life) (k : ℕ) → Represents r f → get_entry r k ≡ answer (f k)
unfolding get_entry answer Represents
get_entry-answer r f k h = rw (h k) refl

run-Represents :
    (r : Registry) (f : ℕ → Life) (cs : List Call) (k : ℕ)
    → Represents r f
    → get_entry (run r cs) k ≡ answer (lives k (f k) cs)
unfolding run lives
run-Represents r f [] k h = get_entry-answer r f k h
run-Represents r f (puts key val ∷ cs) k h =
    run-Represents (put r key val).0 (put_lives key val f) cs k (put-Represents r f key val h)
run-Represents r f (erases key reason ∷ cs) k h =
    run-Represents (erase r key reason) (erase_lives key reason f) cs k
      (erase-Represents r f key reason h)

empty-Represents : (r : Registry) → r.entries ≡ [] → Represents r (λ _. never_put)
unfolding Represents find
empty-Represents r h k = rw h refl

-- Whatever is put and erased, and in whatever order, the registry answers for each ID what the
-- life of that ID alone tells: the first actor that was put under it until it is erased, from
-- then on no actor and the reason given last, and `unknown` where no actor was ever put. It
-- starts empty.
pub run-lives :
    (r : Registry) (cs : List Call) (k : ℕ)
    → r.entries ≡ []
    → get_entry (run r cs) k ≡ answer (lives k never_put cs)
run-lives r cs k h = run-Represents r (λ _. never_put) cs k (empty-Represents r h)
