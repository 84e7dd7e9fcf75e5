-- ===== src/Binary/Ints.antt =====
-- Integers and raw bytes there and back.
use native.Mathlib.Nat.{pow-suc}
use boost_actor.Common.{
  ℕ, zero, suc, ◌+◌, ◌*◌, ◌/◌, ◌%◌, ◌^◌, ◌≤◌, ◌<◌, ◌≡◌, refl, ap, sym, ◌∙◌, ◌⊎◌, [], ◌∷◌, ◌++◌,
  none, some, arith, length, take, drop, take-append, drop-append, length-append, All, ltb,
  Bool-cases, inl, inr, length-take, ltb→lt,
}
use boost_actor.Binary.{Bytes, write_int, int_of, read_int, read_raw, range_check}

pub length-write_int : (size value : ℕ) → length (write_int size value) ≡ size
unfolding write_int
length-write_int zero value = refl
length-write_int (suc size) value = ap suc (length-write_int size (value / 256))

int_of-write_int : (size value : ℕ) → value < 256 ^ size → int_of (write_int size value) ≡ value
unfolding write_int int_of
int_of-write_int zero value h = omega arith
int_of-write_int (suc size) value h =
    omega (arith, int_of-write_int size (value / 256) (omega (arith, pow-suc 256 size)))

pub read_raw-append :
    (n : ℕ) (bs rest : Bytes) → length bs ≡ n → read_raw n (bs ++ rest) ≡ some (bs, rest)
unfolding read_raw range_check
read_raw-append n bs rest e =
    ground (arith, take-append n bs rest e, drop-append n bs rest e, length-append bs rest)

-- What is read back is what was written, if it fits the type.
pub read_int-write_int :
    (size value : ℕ) (rest : Bytes)
    → value < 256 ^ size
    → read_int size (write_int size value ++ rest) ≡ some (value, rest)
unfolding read_int range_check
read_int-write_int size value rest h =
    let e = length-write_int size value in
    ground (
      arith,
      take-append size (write_int size value) rest e,
      drop-append size (write_int size value) rest e,
      length-append (write_int size value) rest,
      int_of-write_int size value h,
      e,
    )

abbrev pub IsBytes : Bytes → Type 0
IsBytes bs = All (λ b. b < 256) bs

pub write_int-int_of : (bs : Bytes) → IsBytes bs → write_int (length bs) (int_of bs) ≡ bs
unfolding write_int int_of
write_int-int_of [] v = refl
write_int-int_of (b ∷ bs) v =
    let low : (b + 256 * int_of bs) % 256 ≡ b = omega (arith, v.0) in
    let high : (b + 256 * int_of bs) / 256 ≡ int_of bs = omega (arith, v.0) in
    rw (low, high) (ap (◌∷◌ b) (write_int-int_of bs v.1))

IsBytes-take : (n : ℕ) (bs : Bytes) → IsBytes bs → IsBytes (take n bs)
IsBytes-take zero bs v = tt
IsBytes-take (suc n) [] v = tt
IsBytes-take (suc n) (b ∷ bs) v = (v.0, IsBytes-take n bs v.1)

pub IsBytes-drop : (n : ℕ) (bs : Bytes) → IsBytes bs → IsBytes (drop n bs)
IsBytes-drop zero bs v = v
IsBytes-drop (suc n) [] v = tt
IsBytes-drop (suc n) (b ∷ bs) v = IsBytes-drop n bs v.1

-- A read succeeds exactly if there are enough bytes, and takes just these.
pub read_raw_lem :
    (n : ℕ) (bs : Bytes)
    → ((n ≤ length bs) × (read_raw n bs ≡ some (take n bs, drop n bs)))
      ⊎ ((length bs < n) × (read_raw n bs ≡ none))
unfolding read_raw range_check
read_raw_lem n bs = elim (Bool-cases (ltb (length bs) n)) [
  | inl short ↦ inr (ltb→lt _ _ short, rw short)
  | inr enough ↦ inl (ground arith, rw enough)
]

pub read_int_lem :
    (n : ℕ) (bs : Bytes)
    → ((n ≤ length bs) × (read_int n bs ≡ some (int_of (take n bs), drop n bs)))
      ⊎ ((length bs < n) × (read_int n bs ≡ none))
unfolding read_int range_check
read_int_lem n bs = elim (Bool-cases (ltb (length bs) n)) [
  | inl short ↦ inr (ltb→lt _ _ short, rw short)
  | inr enough ↦ inl (ground arith, rw enough)
]

-- The integer read from bytes is written as these bytes.
pub write_int-take :
    (n : ℕ) (bs : Bytes) → n ≤ length bs → IsBytes bs → write_int n (int_of (take n bs)) ≡ take n bs
write_int-take n bs h v =
    let e : length (take n bs) ≡ n = omega (arith, length-take n bs) in
    ap (λ k. write_int k (int_of (take n bs))) (sym e)
    ∙ write_int-int_of (take n bs) (IsBytes-take n bs v)
