-- ===== src/Atom/Digits.antt =====
-- The base-64 reading of atom_val.hpp.
use native.Mathlib.Nat.{
  mul-add-div_right, div-eq_of_lt, pow-suc, one-le-pow, mul-le-mul_left, mul-le-mul_right,
}
use boost_actor.Common.{
  ℕ, ◌+◌, ◌*◌, ◌/◌, ◌%◌, ◌^◌, ◌≤◌, ◌<◌, ◌≡◌, refl, ap, Bool, true, false, List, [], ◌∷◌, arith,
  ◌==◌, nat_eq, leb, ltb, length, ◌&&◌, ◌||◌, if◌then◌else◌, holds_below, holds_below_sound,
  Bool-cases, inl, inr,
}
use boost_actor.Atom.{encode, decode, next_interim, atom_val}

pub div_of_mul-add : (y q r : ℕ) → r < q → (y * q + r) / q ≡ y
div_of_mul-add y q r h = omega (arith, mul-add-div_right {m = q} (omega arith) y r, div-eq_of_lt h)

-- The characters that an atom keeps: digits, letters, the underscore and the blank.
abbrev pub is_atom_char : ℕ → Bool
is_atom_char c =
    (leb 0x30 c && leb c 0x39)
    || (leb 0x41 c && leb c 0x5a)
    || (leb 0x61 c && leb c 0x7a)
    || c == 0x5f
    || c == 0x20

-- Any other character becomes a blank.
abbrev pub canonical : ℕ → ℕ
canonical c = if is_atom_char c then c else 0x20

encode_table : holds_below 128 (λ c. ltb (encode c) 64 && decode (encode c) == canonical c) ≡ true
unfolding holds_below encode decode
encode_table = refl

encode_high : (c : ℕ) → leb c 0x7f ≡ false → (encode c ≡ 0) × (canonical c ≡ 0x20)
unfolding encode
encode_high c h = (rw h, ground arith)

decode_zero : decode 0 ≡ 0x20
unfolding decode
decode_zero = refl

pub encode_facts : (c : ℕ) → (encode c < 64) × (decode (encode c) ≡ canonical c)
encode_facts c = elim (Bool-cases (leb c 0x7f)) [
  | inl low ↦ ground (
    arith,
    holds_below_sound 128 (λ (x : ℕ). ltb (encode x) 64 && decode (encode x) == canonical x) c
        encode_table (ground arith),
  )
  | inr high ↦ rw ((encode_high c high).0, (encode_high c high).1) (omega arith, decode_zero)
]

-- the digits of a text, most significant first
unfoldable pub digits : List ℕ → ℕ
digits [] = 0
digits (c ∷ s) = encode c * 64 ^ length s + digits s

pub digits-lt : (s : List ℕ) → digits s < 64 ^ length s
unfolding digits
digits-lt [] = omega arith
digits-lt (c ∷ s) = grind (arith, digits-lt s, (encode_facts c).0, pow-suc 64 (length s))

shift_keeps : (i q : ℕ) → 0 < q → (i + 1) * (q * 64) ≤ 2 ^ 64 → i * 2 ^ 6 % 2 ^ 64 ≡ i * 64
shift_keeps i q h k = omega (arith, mul-le-mul_left {m = 1} {n = q} ((i + 1) * 64) h)

room_left : (i q e : ℕ) → e < 64 → (i + 1) * (q * 64) ≤ 2 ^ 64 → (i * 64 + e + 1) * q ≤ 2 ^ 64
room_left i q e h k =
    omega (arith, mul-le-mul_right {m = i * 64 + e + 1} {n = (i + 1) * 64} q (omega arith))

-- As long as nothing is shifted out, the interim value stands before the digits.
pub atom_val-digits :
    (s : List ℕ) (i : ℕ)
    → (i + 1) * 64 ^ length s ≤ 2 ^ 64
    → atom_val s i ≡ i * 64 ^ length s + digits s
unfolding digits atom_val next_interim
atom_val-digits [] i h = omega arith
atom_val-digits (c ∷ s) i h =
    let q = 64 ^ length s in
    let h' : (i + 1) * (q * 64) ≤ 2 ^ 64 = rw (pow-suc 64 (length s)) at h in
    rw (shift_keeps i q (one-le-pow (length s) 64 (omega arith)) h') (
      omega (
        arith,
        pow-suc 64 (length s),
        atom_val-digits s (i * 64 + encode c) (room_left i q (encode c) (encode_facts c).0 h'),
        ap (λ (t : ℕ). i * t) (pow-suc 64 (length s)),
      ))
