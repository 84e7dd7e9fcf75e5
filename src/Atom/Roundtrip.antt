-- ===== src/Atom/Roundtrip.antt =====
-- Printing the atom of a text.
use native.Mathlib.Nat.{div-eq_of_lt, pow-suc, pow-le-pow_right}
use native.Mathlib.Decide.{dec_lt}
use boost_actor.Common.{
  ℕ, zero, suc, ◌+◌, ◌-◌, ◌*◌, ◌/◌, ◌%◌, ◌^◌, ◌≤◌, ◌<◌, ◌≡◌, refl, true, false, List, [], ◌∷◌,
  arith, nat_eq, length, map, ap,
}
use boost_actor.Atom.{encode, atom, read_digits, to_string}
use boost_actor.Atom.Digits.{
  digits, digits-lt, div_of_mul-add, atom_val-digits, canonical, encode_facts,
}

-- Reading the digits of a text, whatever stands before them.
read_digits-digits :
    (s : List ℕ) (p : ℕ)
    → read_digits (length s) true (p * 64 ^ length s + digits s) ≡ map canonical s
unfolding read_digits digits
read_digits-digits [] p = refl
read_digits-digits (c ∷ s) p =
    let q = 64 ^ length s in
    let x = p * 64 ^ suc (length s) + (encode c * q + digits s) in
    let e : x ≡ (p * 64 + encode c) * q + digits s =
      omega (arith, ap (λ (t : ℕ). p * t) (pow-suc 64 (length s))) in
    let top : x / q % 64 ≡ encode c = omega (
      arith,
      ap (λ (t : ℕ). t / q) e,
      div_of_mul-add (p * 64 + encode c) q (digits s) (digits-lt s),
      (encode_facts c).0,
    ) in
    rw (top, (encode_facts c).1, e)
      (ap (◌∷◌ (canonical c)) (read_digits-digits s (p * 64 + encode c)))

-- The places above the marker 0xF are zeros, and are skipped.
read_digits-skip :
    (d j k x : ℕ)
    → j ≡ d + k
    → x / 64 ^ k ≡ 0xf
    → x < 16 * 64 ^ k
    → read_digits (suc j) false x ≡ read_digits k true x
unfolding read_digits
read_digits-skip zero j k x e m h = let e' : j ≡ k = omega arith in rw (e', m)
read_digits-skip (suc d) zero k x e m h = absurd (omega arith)
read_digits-skip (suc d) (suc j) k x e m h =
    let z : x / 64 ^ suc j ≡ 0 = div-eq_of_lt (
      omega (
        arith,
        pow-suc 64 k,
        pow-le-pow_right {n = 64} (omega arith) {i = suc k} {j = suc j} (omega arith),
      )) in
    rw (z, read_digits) (read_digits-skip d j k x (omega arith) m h)

full_word : (n x : ℕ) → n ≡ 10 → x / 64 ^ n ≡ 0xf → to_string x ≡ read_digits n true x
unfolding to_string
full_word n x e m = let m' : x / 2 ^ 60 ≡ 0xf = rw e at m in rw (m', e)

module _ (s : List ℕ) where
  marked : length s ≤ 10 → atom s ≡ 15 * 64 ^ length s + digits s
  unfolding atom
  marked h =
      atom_val-digits s 0xf
        (omega (arith, pow-le-pow_right {n = 64} (omega arith) {i = length s} {j = 10} h))

  -- A text of ten characters fills the word, and a shorter one is found behind the marker.
  to_string-marked :
      length s ≤ 10
      → to_string (15 * 64 ^ length s + digits s)
        ≡ read_digits (length s) true (15 * 64 ^ length s + digits s)
  unfolding to_string
  to_string-marked h = elim (dec_lt (length s) 10) [
    | yes short ↦
        let z : (15 * 64 ^ length s + digits s) / 2 ^ 60 ≡ 0 = div-eq_of_lt (
          omega (
            arith,
            digits-lt s,
            pow-le-pow_right {n = 64} (omega arith) {i = length s} {j = 9} (omega arith),
          )) in
        rw z (
          read_digits-skip (9 - length s) 9 (length s) _ (omega arith)
            (div_of_mul-add 15 _ _ (digits-lt s)) (omega (arith, digits-lt s)))
    | no long ↦ full_word (length s) _ (omega arith) (div_of_mul-add 15 _ _ (digits-lt s))
  ]

-- Whatever the text of at most ten characters, printing its atom gives the text back, each
-- character that is no digit, letter, underscore or blank as a blank.
pub to_string-atom : (s : List ℕ) → length s ≤ 10 → to_string (atom s) ≡ map canonical s
to_string-atom s h = rw (marked s h, to_string-marked s h) (read_digits-digits s 15)
