-- ===== src/Binary/Strings.antt =====
-- Booleans and strings there and back.
use boost_actor.Common.{
  ℕ, ◌^◌, ◌<◌, ◌≡◌, refl, Bool, true, false, List, [], ◌∷◌, ◌++◌, some, arith, length, All,
  append_assoc,
}
use native.Mathlib.Nat.{mod-eq_of_lt}
use boost_actor.Binary.{
  Bytes, write_bool, read_bool, write_string, read_string, write_chars, read_chars,
  write_unicode_string, read_unicode_string,
}
use boost_actor.Binary.Ints.{read_int-write_int, read_raw-append}

-- A Boolean value is read back.
pub read_bool-write_bool :
    (value : Bool) (rest : Bytes) → read_bool (write_bool value ++ rest) ≡ some (value, rest)
unfolding read_bool write_bool
read_bool-write_bool true rest = rw (read_int-write_int 1 1 rest (omega arith))
read_bool-write_bool false rest = rw (read_int-write_int 1 0 rest (omega arith))

-- A string shorter than 4 GiB is read back, and the bytes behind it are left.
pub read_string-write_string :
    (str rest : Bytes)
    → length str < 2 ^ 32
    → read_string (write_string str ++ rest) ≡ some (str, rest)
unfolding read_string write_string
read_string-write_string str rest h =
    rw (append_assoc, mod-eq_of_lt h, read_int-write_int 4 (length str) (str ++ rest) h)
      (read_raw-append (length str) str rest refl)

read_chars-write_chars :
    (size : ℕ) (str : List ℕ) (rest : Bytes)
    → All (λ c. c < 256 ^ size) str
    → read_chars size (length str) (write_chars size str ++ rest) ≡ some (str, rest)
unfolding read_chars write_chars
read_chars-write_chars size [] rest v = refl
read_chars-write_chars size (c ∷ str) rest v = rw (
  append_assoc,
  read_int-write_int size c (write_chars size str ++ rest) v.0,
  read_chars-write_chars size str rest v.1,
)

-- A string of fewer than 2 ^ 32 wide characters, each of which fits the width, is read back, and
-- the bytes behind it are left.
pub read_unicode_string-write_unicode_string :
    (size : ℕ) (str : List ℕ) (rest : Bytes)
    → length str < 2 ^ 32
    → All (λ c. c < 256 ^ size) str
    → read_unicode_string size (write_unicode_string size str ++ rest) ≡ some (str, rest)
unfolding read_unicode_string write_unicode_string
read_unicode_string-write_unicode_string size str rest h v =
    rw
      (
        append_assoc,
        mod-eq_of_lt h,
        read_int-write_int 4 (length str) (write_chars size str ++ rest) h,
      )
      (read_chars-write_chars size str rest v)
