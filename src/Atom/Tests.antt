-- ===== src/Atom/Tests.antt =====
-- Concrete atoms: "OK", and a text with characters that atoms do not have.
use boost_actor.Common.{ℕ, ◌≡◌, refl, List, [], ◌∷◌, arith, map}
use boost_actor.Atom.{atom, to_string, atom_val, next_interim, encode, read_digits, decode}
use boost_actor.Atom.Digits.{canonical}
use boost_actor.Atom.Roundtrip.{to_string-atom}

abbrev ok_text : List ℕ
ok_text = 0x4f ∷ 0x4b ∷ []

-- "A-b!"
abbrev odd_text : List ℕ
odd_text = 0x41 ∷ 0x2d ∷ 0x62 ∷ 0x21 ∷ []

ok_atom : to_string (atom ok_text) ≡ ok_text
unfolding atom to_string atom_val next_interim encode read_digits decode
ok_atom = refl

odd_atom : to_string (atom odd_text) ≡ 0x41 ∷ 0x20 ∷ 0x62 ∷ 0x20 ∷ []
unfolding atom to_string atom_val next_interim encode read_digits decode
odd_atom = refl

to_string-atom_example : to_string (atom odd_text) ≡ map canonical odd_text
to_string-atom_example = to_string-atom odd_text (omega arith)
