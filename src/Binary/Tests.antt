-- ===== src/Binary/Tests.antt =====
-- Concrete values in their serialized form.
use boost_actor.Common.{ℕ, ◌≡◌, refl, List, [], ◌∷◌}
use boost_actor.Binary.{Bytes, write_int}

little_endian : write_int 4 0x01020304 ≡ 4 ∷ 3 ∷ 2 ∷ 1 ∷ []
unfolding write_int
little_endian = refl

abbrev behind : Bytes
behind = 7 ∷ 8 ∷ []

abbrev text : Bytes
text = 0x4f ∷ 0x4b ∷ []

abbrev wide_text : List ℕ
wide_text = 0x20ac ∷ 0x4b ∷ []
