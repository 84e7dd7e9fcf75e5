-- ===== src/Atom.antt =====
-- libboost_actor_core/boost/actor/detail/atom_val.hpp and the printing of atoms in
-- libboost_actor_core/src/string_serialization.cpp: ten characters in a 64-bit word, six bits
-- each. A C string is the list of its bytes before the terminating NUL.
pub mod Digits
pub mod Roundtrip
mod Tests
use boost_actor.Common.{
  ℕ, zero, suc, ◌+◌, ◌*◌, ◌/◌, ◌%◌, ◌^◌, Bool, true, false, List, [], ◌∷◌, get_or, leb,
  if◌then◌else◌, ◌==◌, nat_eq, replicate, ◌++◌,
}

-- Row `..0` to `..F` of the source's table, for each leading digit.
abbrev encoding_table : List ℕ
encoding_table =
    replicate 48 0
    ++ (1 ∷ 2 ∷ 3 ∷ 4 ∷ 5 ∷ 6 ∷ 7 ∷ 8 ∷ 9 ∷ 10 ∷ 0 ∷ 0 ∷ 0 ∷ 0 ∷ 0 ∷ 0 ∷ 0 ∷ 11 ∷ 12 ∷ 13 ∷ 14 ∷ 15
        ∷ 16 ∷ 17 ∷ 18 ∷ 19 ∷ 20 ∷ 21 ∷ 22 ∷ 23 ∷ 24 ∷ 25 ∷ 26 ∷ 27 ∷ 28 ∷ 29 ∷ 30 ∷ 31 ∷ 32 ∷ 33
        ∷ 34 ∷ 35 ∷ 36 ∷ 0 ∷ 0 ∷ 0 ∷ 0 ∷ 37 ∷ 0 ∷ 38 ∷ 39 ∷ 40 ∷ 41 ∷ 42 ∷ 43 ∷ 44 ∷ 45 ∷ 46 ∷ 47
        ∷ 48 ∷ 49 ∷ 50 ∷ 51 ∷ 52 ∷ 53 ∷ 54 ∷ 55 ∷ 56 ∷ 57 ∷ 58 ∷ 59 ∷ 60 ∷ 61 ∷ 62 ∷ 63 ∷ 0 ∷ 0 ∷ 0
        ∷ 0 ∷ 0 ∷ [])

-- " 0123456789" "ABCDEFGHIJKLMNOPQRSTUVWXYZ_" "abcdefghijklmnopqrstuvwxyz"
abbrev decoding_table : List ℕ
decoding_table =
    0x20 ∷ 0x30 ∷ 0x31 ∷ 0x32 ∷ 0x33 ∷ 0x34 ∷ 0x35 ∷ 0x36 ∷ 0x37 ∷ 0x38 ∷ 0x39 ∷ 0x41 ∷ 0x42 ∷ 0x43
    ∷ 0x44 ∷ 0x45 ∷ 0x46 ∷ 0x47 ∷ 0x48 ∷ 0x49 ∷ 0x4a ∷ 0x4b ∷ 0x4c ∷ 0x4d ∷ 0x4e ∷ 0x4f ∷ 0x50
    ∷ 0x51 ∷ 0x52 ∷ 0x53 ∷ 0x54 ∷ 0x55 ∷ 0x56 ∷ 0x57 ∷ 0x58 ∷ 0x59 ∷ 0x5a ∷ 0x5f ∷ 0x61 ∷ 0x62
    ∷ 0x63 ∷ 0x64 ∷ 0x65 ∷ 0x66 ∷ 0x67 ∷ 0x68 ∷ 0x69 ∷ 0x6a ∷ 0x6b ∷ 0x6c ∷ 0x6d ∷ 0x6e ∷ 0x6f
    ∷ 0x70 ∷ 0x71 ∷ 0x72 ∷ 0x73 ∷ 0x74 ∷ 0x75 ∷ 0x76 ∷ 0x77 ∷ 0x78 ∷ 0x79 ∷ 0x7a ∷ []

-- `encoding_table[(char_code <= 0x7F) ? char_code : 0]`
pub encode : ℕ → ℕ
encode char_code = get_or encoding_table (if leb char_code 0x7f then char_code else 0) 0

pub decode : ℕ → ℕ
decode digit = get_or decoding_table digit 0

-- The `|` with a six-bit code is a sum: the shift leaves the low six bits clear.
pub next_interim : ℕ → ℕ → ℕ
next_interim current char_code = current * 2 ^ 6 % 2 ^ 64 + encode char_code

pub atom_val : List ℕ → ℕ → ℕ
atom_val [] interim = interim
atom_val (c ∷ cstr) interim = atom_val cstr (next_interim interim c)

-- `atom` of atom.hpp; its `static_assert` admits at most ten characters.
pub atom : List ℕ → ℕ
atom str = atom_val str 0xf

-- The loop of `to_string(const atom_value&)` with `n` rounds left, where bitshift is 6 * (n - 1)
-- and `(x & mask) >> bitshift` is the digit at that place.
pub read_digits : ℕ → Bool → ℕ → List ℕ
read_digits zero read_chars x = []
read_digits (suc n) true x = decode (x / 64 ^ n % 64) ∷ read_digits n true x
read_digits (suc n) false x = read_digits n (x / 64 ^ n % 64 == 0xf) x

pub to_string : ℕ → List ℕ
to_string x = read_digits 10 (x / 2 ^ 60 == 0xf) x
