-- ===== src/Api/Hex.antt =====
-- The hexadecimal digits that `_scoped_key` of src/sort4circ_dpp/api.py writes, and their values.
use Prim.Native.Char.{code}
use Prim.Native.String.append
use text.Mathlib.TextEquality.{Char-path}
use sort4circ.Prelude.{
  ℕ, zero, suc, ◌+◌, ◌-◌, ◌*◌, ◌/◌, ◌%◌, ◌<◌, ◌≡◌, refl, ap, ap₂, ◌∙◌, String, [], ◌∷◌, ◌++◌, arith,
  if◌then◌else◌, ltb, codes, Text,
}
use sort4circ.Api.Keys.{hex_text, unit_escape}

pub codes-append : (s t : String) → codes (Prim.Native.String.◌++◌ s t) ≡ codes s ++ codes t
codes-append String.[] t = ap codes (append.nil t)
codes-append (String.◌∷◌ c s) t =
    ap codes (append.cons c s t) ∙ ap (◌∷◌ (code c)) (codes-append s t)

pub codes_inj : (s t : String) → codes s ≡ codes t → s ≡ t
codes_inj String.[] String.[] h = refl
codes_inj String.[] (String.◌∷◌ d t) h = absurd (cc)
codes_inj (String.◌∷◌ c s) String.[] h = absurd (cc)
codes_inj (String.◌∷◌ c s) (String.◌∷◌ d t) h =
    ap₂ String.◌∷◌ (Char-path c d (ground arith)) (codes_inj s t (ground arith))

-- The code point of a hexadecimal digit, and its value.
pub hex_code : ℕ → ℕ
hex_code d = if ltb d 10 then d + 48 else d + 87

pub hex_value : ℕ → ℕ
hex_value c = if ltb c 58 then c - 48 else c - 87

hex_value-hex_code : (d : ℕ) → d < 16 → hex_value (hex_code d) ≡ d
unfolding hex_value hex_code
hex_value-hex_code d h = ground arith

hex_text_lem : (d : ℕ) → d < 16 → codes (hex_text d) ≡ hex_code d ∷ []
unfolding hex_code
hex_text_lem zero h = refl
hex_text_lem (suc zero) h = refl
hex_text_lem (suc (suc zero)) h = refl
hex_text_lem (suc (suc (suc zero))) h = refl
hex_text_lem (suc (suc (suc (suc zero)))) h = refl
hex_text_lem (suc (suc (suc (suc (suc zero))))) h = refl
hex_text_lem (suc (suc (suc (suc (suc (suc zero)))))) h = refl
hex_text_lem (suc (suc (suc (suc (suc (suc (suc zero))))))) h = refl
hex_text_lem (suc (suc (suc (suc (suc (suc (suc (suc zero)))))))) h = refl
hex_text_lem (suc (suc (suc (suc (suc (suc (suc (suc (suc zero))))))))) h = refl
hex_text_lem (suc (suc (suc (suc (suc (suc (suc (suc (suc (suc zero)))))))))) h = refl
hex_text_lem (suc (suc (suc (suc (suc (suc (suc (suc (suc (suc (suc zero))))))))))) h = refl
hex_text_lem (suc (suc (suc (suc (suc (suc (suc (suc (suc (suc (suc (suc zero)))))))))))) h = refl
hex_text_lem (suc (suc (suc (suc (suc (suc (suc (suc (suc (suc (suc (suc (suc zero))))))))))))) h =
    refl
hex_text_lem
      (suc (suc (suc (suc (suc (suc (suc (suc (suc (suc (suc (suc (suc (suc zero)))))))))))))) h =
    refl
hex_text_lem
      (suc (suc (suc (suc (suc (suc (suc (suc (suc (suc (suc (suc (suc (suc (suc zero)))))))))))))))
      h =
    refl
hex_text_lem
      (suc
        (suc (suc (suc (suc (suc (suc (suc (suc (suc (suc (suc (suc (suc (suc (suc d))))))))))))))))
      h =
    absurd (omega arith)

unfoldable pub unit_codes : ℕ → Text
unit_codes u =
    92
    ∷ 117
    ∷ hex_code (u / 4096)
    ∷ hex_code (u / 256 % 16)
    ∷ hex_code (u / 16 % 16)
    ∷ hex_code (u % 16)
    ∷ []

pub unit_escape_lem : (u : ℕ) → u < 0x10000 → codes (unit_escape u) ≡ unit_codes u
unfolding unit_codes
unit_escape_lem u h =
    rw
      (
        codes-append "\\u",
        codes-append (hex_text (u / 4096)),
        codes-append (hex_text (u / 256 % 16)),
        codes-append (hex_text (u / 16 % 16)),
        hex_text_lem (u / 4096) (omega arith),
        hex_text_lem (u / 256 % 16) (omega arith),
        hex_text_lem (u / 16 % 16) (omega arith),
        hex_text_lem (u % 16) (omega arith),
      )
      refl

-- The number of four hexadecimal digits.
pub four_digits : ℕ → ℕ → ℕ → ℕ → ℕ
four_digits a b c d = hex_value a * 4096 + hex_value b * 256 + hex_value c * 16 + hex_value d

pub four_digits_lem :
    (u : ℕ)
    → u < 0x10000
    → four_digits
        (hex_code (u / 4096))
        (hex_code (u / 256 % 16))
        (hex_code (u / 16 % 16))
        (hex_code (u % 16))
      ≡ u
unfolding four_digits
four_digits_lem u h =
    rw
      (
        hex_value-hex_code (u / 4096) (omega arith),
        hex_value-hex_code (u / 256 % 16) (omega arith),
        hex_value-hex_code (u / 16 % 16) (omega arith),
        hex_value-hex_code (u % 16) (omega arith),
      )
      (omega arith)
