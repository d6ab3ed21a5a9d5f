-- ===== src/Api/Escapes.antt =====
-- The escapes of `json.dumps` in `_scoped_key` of src/sort4circ_dpp/api.py read back as the characters that
-- they stand for.
use Prim.Native.Char.{code, Char}
use Prim.Native.String.append
use mathlib.Core.List.{append_assoc}
use sort4circ.Prelude.{
  ℕ, ◌+◌, ◌-◌, ◌*◌, ◌/◌, ◌%◌, ◌<◌, ◌≡◌, refl, ap, ap₂, ◌∙◌, String, Bool, true, false, [], ◌∷◌,
  ◌++◌, arith, if◌then◌else◌, nat_eq, ltb, codes, Text,
}
use sort4circ.Canonical.Order.{code-Scalar, Scalar}
use sort4circ.Api.Keys.{unit_escape, ascii_escape}
use sort4circ.Api.Hex.{codes-append, four_digits, four_digits_lem, unit_codes, unit_escape_lem}

-- The second half of a pair of surrogates, after the first.
read_low : ℕ → Text → ℕ × Text
read_low high (x ∷ y ∷ a ∷ b ∷ c ∷ d ∷ t) =
    (0x10000 + (high - 0xd800) * 0x400 + (four_digits a b c d - 0xdc00), t)
read_low high t = (high, t)

read_unit : Text → ℕ × Text
read_unit (a ∷ b ∷ c ∷ d ∷ t) =
    let u = four_digits a b c d in
    let low = read_low u t in if ltb u 0xd800 then (u, t) else if ltb 0xdfff u then (u, t) else low
read_unit t = (0, t)

-- What an escape stands for, after its backslash.
read_escape : Text → ℕ × Text
read_escape [] = (0, [])
read_escape (e ∷ t) =
    if nat_eq e 110
    then (10, t)
    else if nat_eq e 114
    then (13, t)
    else if nat_eq e 116
    then (9, t)
    else if nat_eq e 98
    then (8, t)
    else if nat_eq e 102
    then (12, t)
    else if nat_eq e 117
    then read_unit t
    else (e, t)

-- The first character of an escaped text, and what follows it.
pub read_char : Text → ℕ × Text
read_char [] = (0, [])
read_char (c ∷ t) = if nat_eq c 92 then read_escape t else (c, t)

read_unit_lem : (u : ℕ) (t : Text) → Scalar u → u < 0x10000 → read_char (unit_codes u ++ t) ≡ (u, t)
unfolding read_char read_escape read_unit unit_codes
read_unit_lem u t s h = rw (four_digits_lem u h) (ground arith)

read_pair_lem :
    (c : ℕ) (t : Text)
    → 0xffff < c
    → c < 0x110000
    → read_char (
        unit_codes (0xd800 + (c - 0x10000) / 0x400)
        ++ (unit_codes (0xdc00 + (c - 0x10000) % 0x400) ++ t))
      ≡ (c, t)
unfolding read_char read_escape read_unit read_low unit_codes
read_pair_lem c t h k =
    rw
      (
        four_digits_lem (0xd800 + (c - 0x10000) / 0x400) (omega arith),
        four_digits_lem (0xdc00 + (c - 0x10000) % 0x400) (omega arith),
        not_below,
        not_above,
      )
      (ap (λ n. (n, t)) (omega arith))
  where
    not_below : ltb (0xd800 + (c - 0x10000) / 0x400) 0xd800 ≡ false
    not_below = ground arith

    not_above : ltb 0xdfff (0xd800 + (c - 0x10000) / 0x400) ≡ false
    not_above = ground arith

-- A quotation mark reads back as itself.
pub read_char-quote : (t : Text) → read_char (34 ∷ t) ≡ (34, t)
unfolding read_char
read_char-quote t = refl

-- What holds of both branches holds of the conditional.
on_branches :
    (P : String → Type 0) (b : Bool) (x y : String)
    → (b ≡ true → P x)
    → (b ≡ false → P y)
    → P (if b then x else y)
on_branches P true x y h k = h refl
on_branches P false x y h k = k refl

-- The escape of a character reads back as the character.
module _ (c : Char) (t : Text) where
  abbrev ReadsBack : ℕ → String → Type 0
  ReadsBack n x = read_char (codes x ++ t) ≡ (n, t)

  -- A character with an escape of its own.
  short :
      (n m : ℕ) (x : String) → read_char (codes x ++ t) ≡ (m, t) → nat_eq n m ≡ true → ReadsBack n x
  short n m x h p = h ∙ ap (λ (k : ℕ). (k, t)) (ground arith)

  plain : (n : ℕ) → code c ≡ n → nat_eq n 92 ≡ false → ReadsBack n (String.◌∷◌ c String.[])
  unfolding read_char
  plain n e p = rw (e, p) refl

  unit : (n : ℕ) → Scalar n → n < 0x10000 → ReadsBack n (unit_escape n)
  unit n s h = ap (λ (x : Text). read_char (x ++ t)) (unit_escape_lem n h) ∙ read_unit_lem n t s h

  pair :
      (n : ℕ)
      → 0xffff < n
      → n < 0x110000
      → ReadsBack n (
          Prim.Native.String.◌++◌
            (unit_escape (0xd800 + (n - 0x10000) / 0x400))
            (unit_escape (0xdc00 + (n - 0x10000) % 0x400)))
  pair n h k =
      ap (λ (x : Text). read_char (x ++ t)) parts
      ∙ ap read_char (append_assoc (unit_codes (0xd800 + (n - 0x10000) / 0x400)) _ t)
      ∙ read_pair_lem n t h k
    where
      parts :
          codes (
            Prim.Native.String.◌++◌
              (unit_escape (0xd800 + (n - 0x10000) / 0x400))
              (unit_escape (0xdc00 + (n - 0x10000) % 0x400)))
          ≡ unit_codes (0xd800 + (n - 0x10000) / 0x400)
            ++ unit_codes (0xdc00 + (n - 0x10000) % 0x400)
      parts =
          codes-append (unit_escape (0xd800 + (n - 0x10000) / 0x400)) _
          ∙ ap₂ (◌++◌) (unit_escape_lem (0xd800 + (n - 0x10000) / 0x400) (omega arith))
              (unit_escape_lem (0xdc00 + (n - 0x10000) % 0x400) (omega arith))

  read_by_code :
      (n : ℕ) → Scalar n → code c ≡ n → ReadsBack n (ascii_escape n (String.◌∷◌ c String.[]))
  unfolding ascii_escape read_char read_escape
  read_by_code n s e = on_branches (ReadsBack n) (nat_eq n 34) _ _ (short n 34 "\\\"" refl) λ _.
      on_branches (ReadsBack n) (nat_eq n 92) _ _ (short n 92 "\\\\" refl) λ p.
        on_branches (ReadsBack n) (nat_eq n 10) _ _ (short n 10 "\\n" refl) λ _.
          on_branches (ReadsBack n) (nat_eq n 13) _ _ (short n 13 "\\r" refl) λ _.
            on_branches (ReadsBack n) (nat_eq n 9) _ _ (short n 9 "\\t" refl) λ _.
              on_branches (ReadsBack n) (nat_eq n 8) _ _ (short n 8 "\\b" refl) λ _.
                on_branches (ReadsBack n) (nat_eq n 12) _ _ (short n 12 "\\f" refl) λ _.
                  on_branches (ReadsBack n) (ltb n 32) _ _ (λ q. unit n s (ground arith))
                    λ _.
                      on_branches (ReadsBack n) (ltb n 127) _ _ (λ _. plain n e p)
                        λ _.
                          on_branches (ReadsBack n) (ltb n 0x10000) _ _
                            (λ q. unit n s (ground arith)) λ q. pair n (ground arith) (ground arith)

  pub read_char-ascii_escape :
      read_char (codes (ascii_escape (code c) (String.◌∷◌ c String.[])) ++ t) ≡ (code c, t)
  read_char-ascii_escape = read_by_code (code c) (code-Scalar c) refl
