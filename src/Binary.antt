-- ===== src/Binary.antt =====
-- libboost_actor_core/src/binary_serializer.cpp and binary_deserializer.cpp: values as bytes.
-- `memcpy` of an integer is taken to be little endian, as on the platforms that the build files
-- name. The serializer appends to a list; the deserializer's `pos_` is the list of the bytes from
-- there to `end_`, and `none` stands for the `std::out_of_range` that it throws.
pub mod Ints
pub mod Strings
mod Tests
use boost_actor.Common.{
  ℕ, zero, suc, ◌+◌, ◌*◌, ◌/◌, ◌%◌, ◌^◌, Bool, true, false, not, List, [], ◌∷◌, ◌++◌, Option, none,
  some, if◌then◌else◌, ◌==◌, nat_eq, length, take, drop, ltb,
}

abbrev pub Bytes : Type 0
Bytes = List ℕ

-- What a read gives: the value and the bytes behind it.
abbrev pub Read : Type 0 → Type 0
Read A = Option (A × Bytes)

infixl 5 ◌>>=◌
abbrev pub ◌>>=◌ : {A B : Type 0} → Read A → (A × Bytes → Read B) → Read B
none >>= f = none
some r >>= f = f r

-- `write_int` for a type of `size` bytes
pub write_int : ℕ → ℕ → Bytes
write_int zero value = []
write_int (suc size) value = (value % 256) ∷ write_int size (value / 256)

-- The integer that `memcpy` makes of bytes.
pub int_of : Bytes → ℕ
int_of [] = 0
int_of (b ∷ bs) = b + 256 * int_of bs

-- `range_check(begin, end, read_size)`
pub range_check : ℕ → Bytes → Bool
range_check read_size bs = not (ltb (length bs) read_size)

-- `read_raw`
unfoldable pub read_raw : ℕ → Bytes → Read Bytes
unfolding range_check
read_raw num_bytes bs =
    if range_check num_bytes bs then some (take num_bytes bs, drop num_bytes bs) else none

-- `write_raw`
abbrev pub write_raw : Bytes → Bytes
write_raw bs = bs

-- `read_range` of an integer of `size` bytes
pub read_int : ℕ → Bytes → Read ℕ
unfolding range_check int_of
read_int size bs = if range_check size bs then some (int_of (take size bs), drop size bs) else none

pub write_bool : Bool → Bytes
write_bool value = write_int 1 (if value then 1 else 0)

pub read_bool : Bytes → Read Bool
read_bool bs = do (intval, rest) ← read_int 1 bs; some (not (intval == 0), rest)

-- `write_string`: the size as 32 bits, then the characters
pub write_string : Bytes → Bytes
write_string str = write_int 4 (length str % 2 ^ 32) ++ str

pub read_string : Bytes → Read Bytes
read_string bs = do (str_size, rest) ← read_int 4 bs; read_raw str_size rest

-- The loops over a `u16string` and a `u32string`, whose characters have `size` bytes.
pub write_chars : ℕ → List ℕ → Bytes
write_chars size [] = []
write_chars size (c ∷ str) = write_int size c ++ write_chars size str

pub read_chars : ℕ → ℕ → Bytes → Read (List ℕ)
read_chars size zero bs = some ([], bs)
read_chars size (suc n) bs = do
  (c, rest) ← read_int size bs
  (str, rest') ← read_chars size n rest
  some (c ∷ str, rest')

pub write_unicode_string : ℕ → List ℕ → Bytes
write_unicode_string size str = write_int 4 (length str % 2 ^ 32) ++ write_chars size str

-- `read_unicode_string`
pub read_unicode_string : ℕ → Bytes → Read (List ℕ)
read_unicode_string size bs = do (str_size, rest) ← read_int 4 bs; read_chars size str_size rest
