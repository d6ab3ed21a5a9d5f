-- ===== src/Prelude/Codes.antt =====
-- Texts as lists of code points, and decimal numerals.
use Prim.Native.Nat.{ℕ, zero, suc, ◌+◌, ◌/◌, ◌%◌}
use Prim.Native.Char.{code}
use Prim.Native.String.{String}
use mathlib.Core.List.{List, [], ◌∷◌, ◌++◌}
use sort4circ.Prelude.Tests.{ltb, if◌then◌else◌}

abbrev pub Text : Type 0
Text = List ℕ

abbrev pub codes : String → Text
codes String.[] = []
codes (String.◌∷◌ c s) = code c ∷ codes s

abbrev pub join_texts : Text → Text → Text
join_texts s t = s ++ t

-- `str(n)` for n ≥ 0; a fuel above n is enough, since a division by ten makes n smaller.
unfoldable pub digits : ℕ → ℕ → Text
digits zero n = []
digits (suc f) n =
    let rest = digits f (n / 10) in if ltb n 10 then (n + 48) ∷ [] else rest ++ (n % 10 + 48) ∷ []

-- `s[i]`, as a text of one character
abbrev pub char_at : ℕ → String → String
char_at n String.[] = ""
char_at zero (String.◌∷◌ c s) = String.◌∷◌ c String.[]
char_at (suc n) (String.◌∷◌ c s) = char_at n s

abbrev digit_string : ℕ → String
digit_string n = char_at n "0123456789"

-- The same numeral as a string.
unfoldable pub decimal : ℕ → ℕ → String
decimal zero n = ""
decimal (suc f) n =
    let rest = decimal f (n / 10) in
    if ltb n 10 then digit_string n else Prim.Native.String.◌++◌ rest (digit_string (n % 10))

-- The number of bytes of the UTF-8 encoding.
unfoldable pub utf_8_length : Text → ℕ
utf_8_length [] = 0
utf_8_length (c ∷ t) =
    utf_8_length t
    + (if ltb c 128 then 1 else if ltb c 2048 then 2 else if ltb c 65536 then 3 else 4)
