-- ===== src/Canonical/Text.antt =====
-- Numbers and strings in canonical JSON: `_number` and `_string` of
-- src/sort4circ_dpp/canonical.py. A text is the list of its code points.
use sort4circ.Prelude.{
  ℕ, suc, ◌+◌, ◌/◌, ◌%◌, ◌^◌, String, Bool, true, false, ◌&&◌, ◌||◌, [], ◌∷◌, ◌++◌, nat_eq, ltb,
  if◌then◌else◌, Result, ok, err, Text, codes, digits,
}
use sort4circ.Prelude.Int.{ℤ, pos, negsuc, pos_part, neg_part}
use sort4circ.Reasons.{Error, canonicalisation_error}
use sort4circ.Json.{Float, finite, infinite, nan}
use sort4circ.Env.{Env}

unfoldable pub int_text : ℤ → Text
unfolding digits
int_text (pos n) = digits (suc n) n
int_text (negsuc n) = 45 ∷ digits (suc (suc n)) (suc n)

-- `"e" in text or "E" in text`
unfoldable pub has_exponent : Text → Bool
has_exponent [] = false
has_exponent (c ∷ t) = nat_eq c 101 || (nat_eq c 69 || has_exponent t)

abbrev negate : Bool → ℕ → ℤ
negate true (suc n) = negsuc n
negate _ n = pos n

abbrev is_negative : ℤ → Bool
is_negative (pos n) = false
is_negative (negsuc n) = true

-- `_number` of a float: a value that is integral and below 1e21 is printed as that integer.
unfoldable pub float_text : Env → Float → Result Error Text
unfolding int_text has_exponent
float_text env (infinite sign) = err canonicalisation_error
float_text env nan = err canonicalisation_error
float_text env (finite m k) =
    let magnitude = pos_part m + neg_part m in
    let whole = magnitude / 2 ^ k in
    let text = codes (env.float_repr (finite m k)) in
    if nat_eq (magnitude % 2 ^ k) 0 && ltb whole (10 ^ 21)
    then ok (int_text (negate (is_negative m) whole))
    else if has_exponent text
    then err canonicalisation_error
    else ok text

abbrev hex_digit : ℕ → ℕ
hex_digit d = if ltb d 10 then d + 48 else d + 87

-- The escapes of `json.dumps(…, ensure_ascii=False)`.
unfoldable pub escape : ℕ → Text
escape c =
    if nat_eq c 34
    then 92 ∷ 34 ∷ []
    else if nat_eq c 92
    then 92 ∷ 92 ∷ []
    else if nat_eq c 10
    then 92 ∷ 110 ∷ []
    else if nat_eq c 13
    then 92 ∷ 114 ∷ []
    else if nat_eq c 9
    then 92 ∷ 116 ∷ []
    else if nat_eq c 8
    then 92 ∷ 98 ∷ []
    else if nat_eq c 12
    then 92 ∷ 102 ∷ []
    else if ltb c 32
    then 92 ∷ 117 ∷ 48 ∷ 48 ∷ hex_digit (c / 16) ∷ hex_digit (c % 16) ∷ []
    else c ∷ []

unfoldable pub escape_all : Text → Text
unfolding escape
escape_all [] = []
escape_all (c ∷ t) = escape c ++ escape_all t

unfoldable pub string_text : String → Text
unfolding escape_all
string_text s = 34 ∷ escape_all (codes s) ++ 34 ∷ []
