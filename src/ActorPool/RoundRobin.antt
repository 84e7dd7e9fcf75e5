-- ===== src/ActorPool/RoundRobin.antt =====
-- `round_robin`: whose turn it is.
use native.Mathlib.Nat.{mod-lt, mod-add-mod, mod-eq_of_lt, add-mod_right}
use native.Mathlib.Decide.{dec_le}
use boost_actor.Common.{
  ℕ, zero, suc, ◌+◌, ◌-◌, ◌%◌, ◌^◌, ◌≤◌, ◌<◌, ◌≡◌, refl, ap, sym, ◌∙◌, List, [], ◌∷◌, ◌++◌, some,
  length, get_elem?, arith,
}
use boost_actor.ActorPool.{Mail, Event, enqueued, round_robin}

-- The policy on a sequence of messages, with the same workers.
pub dispatch_all : ℕ → List ℕ → List Mail → ℕ × List Event
dispatch_all pos vec [] = (pos, [])
dispatch_all pos vec (m ∷ ms) =
    let (pos', events) = round_robin pos vec m in
    let (pos'', rest) = dispatch_all pos' vec ms in (pos'', events ++ rest)

-- Any index is met within one round.
turn_of : (pos n j : ℕ) → j < n → (i : ℕ) × (i < n) × ((pos + i) % n ≡ j)
turn_of pos n j h = elim (dec_le (pos % n) j) [
  | yes ahead ↦ (
    j - pos % n,
    omega arith,
    sym (mod-add-mod pos n (j - pos % n)) ∙ (ap (λ (k : ℕ). k % n) (omega arith) ∙ mod-eq_of_lt h),
  )
  | no behind ↦ (
    j + n - pos % n,
    omega arith,
    sym (mod-add-mod pos n (j + n - pos % n))
        ∙ (ap (λ (k : ℕ). k % n) {y = j + n} (omega (arith, mod-lt pos {m = n} (omega arith)))
            ∙ (add-mod_right j n ∙ mod-eq_of_lt h)),
  )
]

get_elem?-lt : (vec : List ℕ) (i : ℕ) → i < length vec → (w : ℕ) × (get_elem? vec i ≡ some w)
get_elem?-lt [] i h = absurd (omega arith)
get_elem?-lt (x ∷ xs) zero h = (x, refl)
get_elem?-lt (x ∷ xs) (suc i) h = get_elem?-lt xs i (omega arith)

one_turn :
    (pos : ℕ) (vec : List ℕ) (m : Mail) (w : ℕ)
    → get_elem? vec (pos % length vec) ≡ some w
    → round_robin pos vec m ≡ ((pos + 1) % 2 ^ 64, enqueued w m ∷ [])
unfolding round_robin
one_turn pos vec m w e = rw e

-- The message at a position goes to the worker whose turn it is.
dispatch_all-turn :
    (vec : List ℕ) (ms : List Mail) (pos i w : ℕ) (m : Mail)
    → 0 < length vec
    → pos + length ms ≤ 2 ^ 64
    → get_elem? ms i ≡ some m
    → get_elem? vec ((pos + i) % length vec) ≡ some w
    → get_elem? (dispatch_all pos vec ms).1 i ≡ some (enqueued w m)
unfolding dispatch_all
dispatch_all-turn vec [] pos i w m h b e t = absurd (ground (arith, e))
dispatch_all-turn vec (m' ∷ ms) pos zero w m h b e t =
    let here : get_elem? vec (pos % length vec) ≡ some w =
      ap (λ (k : ℕ). get_elem? vec (k % length vec)) (omega arith) ∙ t in
    rw (one_turn pos vec m' w here) (ground (arith, e))
dispatch_all-turn vec (m' ∷ []) pos (suc i) w m h b e t = absurd (ground (arith, e))
dispatch_all-turn vec (m' ∷ m'' ∷ ms) pos (suc i) w m h b e t =
    let (w', here) = get_elem?-lt vec (pos % length vec) (mod-lt pos {m = length vec} h) in
    let next : (pos + 1) % 2 ^ 64 ≡ pos + 1 = omega arith in
    let there : get_elem? vec ((pos + 1 + i) % length vec) ≡ some w =
      ap (λ (k : ℕ). get_elem? vec (k % length vec)) (omega arith) ∙ t in
    rw (one_turn pos vec m' w' here, next)
      (dispatch_all-turn vec (m'' ∷ ms) (pos + 1) i w m h (omega arith) e there)

get_elem?-mail : (ms : List Mail) (i : ℕ) → i < length ms → (m : Mail) × (get_elem? ms i ≡ some m)
get_elem?-mail [] i h = absurd (omega arith)
get_elem?-mail (m ∷ ms) zero h = (m, refl)
get_elem?-mail (m ∷ ms) (suc i) h = get_elem?-mail ms i (omega arith)

-- In any run of as many messages as there are workers, from whatever position, each worker is
-- given one of them, as long as the position does not wrap around at 2 ^ 64.
pub round_robin-fair :
    (vec : List ℕ) (ms : List Mail) (pos j : ℕ)
    → length ms ≡ length vec
    → pos + length vec ≤ 2 ^ 64
    → j < length vec
    → (i : ℕ) × (w : ℕ) × (m : Mail) × (get_elem? vec j ≡ some w)
      × (get_elem? ms i ≡ some m)
      × (get_elem? (dispatch_all pos vec ms).1 i ≡ some (enqueued w m))
round_robin-fair vec ms pos j l b h =
    let (i, below, turn) = turn_of pos (length vec) j h in
    let (w, at_j) = get_elem?-lt vec j h in
    let (m, at_i) = get_elem?-mail ms i (omega arith) in
    (
      i,
      w,
      m,
      at_j,
      at_i,
      dispatch_all-turn vec ms pos i w m (omega arith) (omega arith) at_i
          (ap (λ (k : ℕ). get_elem? vec k) turn ∙ at_j),
    )
