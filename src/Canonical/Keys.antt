-- ===== src/Canonical/Keys.antt =====
-- The order of object members: `sorted(value.items(), key=lambda kv: kv[0].encode("utf-16-be"))`
-- of src/sort4circ_dpp/canonical.py.
use sort4circ.Prelude.{
  Text, codes, ℕ, ◌+◌, ◌-◌, ◌/◌, ◌%◌, String, Bool, true, false, List, [], ◌∷◌, ◌++◌, nat_eq, ltb,
  if◌then◌else◌,
}

abbrev unit_bytes : ℕ → List ℕ
unit_bytes u = u / 256 ∷ u % 256 ∷ []

-- A code point beyond the basic plane is a pair of surrogates.
unfoldable pub char_bytes : ℕ → List ℕ
char_bytes c =
    if ltb c 0x10000
    then unit_bytes c
    else unit_bytes (0xd800 + (c - 0x10000) / 0x400) ++ unit_bytes (0xdc00 + (c - 0x10000) % 0x400)

-- `text.encode("utf-16-be")`
unfoldable pub utf_16_be : Text → List ℕ
unfolding char_bytes
utf_16_be [] = []
utf_16_be (c ∷ t) = char_bytes c ++ utf_16_be t

-- `a <= b` on byte strings
unfoldable pub bytes_le : List ℕ → List ℕ → Bool
bytes_le [] b = true
bytes_le (x ∷ a) [] = false
bytes_le (x ∷ a) (y ∷ b) =
    let rest = bytes_le a b in if ltb x y then true else if nat_eq x y then rest else false

abbrev pub Member : Type 0
Member = String × Text

unfoldable pub sort_key : Member → List ℕ
unfolding utf_16_be
sort_key m = utf_16_be (codes m.0)

unfoldable pub insert_member : Member → List Member → List Member
unfolding bytes_le sort_key
insert_member m [] = m ∷ []
insert_member m (n ∷ l) =
    let rest = insert_member m l in
    if bytes_le (sort_key m) (sort_key n) then m ∷ n ∷ l else n ∷ rest

-- A stable sort by key.
unfoldable pub sorted : List Member → List Member
unfolding insert_member
sorted [] = []
sorted (m ∷ l) = insert_member m (sorted l)
