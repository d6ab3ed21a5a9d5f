-- ===== src/Canonical/Order.antt =====
-- The order of object members is total on distinct keys: the encoding of a key determines it.
use Prim.Native.Nat.{compare, Ordering}
use Prim.Native.Char.{Char, char, code, IsLt}
use text.Mathlib.TextEquality.{Char-path}
use sort4circ.Prelude.{
  codes, ℕ, ◌<◌, ◌≡◌, refl, sym, ap₂, ◌⊎◌, inl, inr, String, true, false, List, [], ◌∷◌, ◌++◌, ltb,
  arith, Bool-cases,
}
use sort4circ.Canonical.Keys.{char_bytes, utf_16_be, bytes_le, Member, sort_key}

pub bytes_le_refl : (a : List ℕ) → bytes_le a a ≡ true
unfolding bytes_le
bytes_le_refl [] = refl
bytes_le_refl (x ∷ a) = ground (arith, bytes_le_refl a)

pub bytes_le_total : (a b : List ℕ) → bytes_le a b ≡ false → bytes_le b a ≡ true
unfolding bytes_le
bytes_le_total [] b h = cc
bytes_le_total (x ∷ a) [] h = refl
bytes_le_total (x ∷ a) (y ∷ b) h = ground (arith, bytes_le_total a b)

pub bytes_le_antisymm : (a b : List ℕ) → bytes_le a b ≡ true → bytes_le b a ≡ true → a ≡ b
unfolding bytes_le
bytes_le_antisymm [] [] h k = refl
bytes_le_antisymm [] (y ∷ b) h k = cc
bytes_le_antisymm (x ∷ a) [] h k = cc
bytes_le_antisymm (x ∷ a) (y ∷ b) h k = ground (arith, bytes_le_antisymm a b)

pub bytes_le_trans :
    (a b c : List ℕ) → bytes_le a b ≡ true → bytes_le b c ≡ true → bytes_le a c ≡ true
unfolding bytes_le
bytes_le_trans [] b c h k = refl
bytes_le_trans (x ∷ a) [] c h k = cc
bytes_le_trans (x ∷ a) (y ∷ b) [] h k = cc
bytes_le_trans (x ∷ a) (y ∷ b) (z ∷ c) h k = ground (arith, bytes_le_trans a b c)

-- A code point that is no surrogate.
abbrev pub Scalar : ℕ → Type 0
Scalar c = (c < 0xd800) ⊎ ((0xdfff < c) × (c < 0x110000))

abbrev Both : Ordering → Ordering → Type 0
Both Ordering.lt o = IsLt o
Both Ordering.eq _ = ⊥
Both Ordering.gt _ = ⊥

abbrev ScalarAt : Ordering → Ordering → Ordering → Type 0
ScalarAt Ordering.lt _ _ = Unit
ScalarAt Ordering.eq o p = Both o p
ScalarAt Ordering.gt o p = Both o p

Scalar-bounds :
    (n : ℕ) (o p q : Ordering)
    → compare n 55296 ≡ o
    → compare 57343 n ≡ p
    → compare n 1114112 ≡ q
    → ScalarAt o p q
    → Scalar n
Scalar-bounds n Ordering.lt p q a b c s = inl (ground arith)
Scalar-bounds n Ordering.eq Ordering.lt Ordering.lt a b c s = inr (ground arith, ground arith)
Scalar-bounds n Ordering.eq Ordering.lt Ordering.eq a b c s = elim s [ ]
Scalar-bounds n Ordering.eq Ordering.lt Ordering.gt a b c s = elim s [ ]
Scalar-bounds n Ordering.eq Ordering.eq q a b c s = elim s [ ]
Scalar-bounds n Ordering.eq Ordering.gt q a b c s = elim s [ ]
Scalar-bounds n Ordering.gt Ordering.lt Ordering.lt a b c s = inr (ground arith, ground arith)
Scalar-bounds n Ordering.gt Ordering.lt Ordering.eq a b c s = elim s [ ]
Scalar-bounds n Ordering.gt Ordering.lt Ordering.gt a b c s = elim s [ ]
Scalar-bounds n Ordering.gt Ordering.eq q a b c s = elim s [ ]
Scalar-bounds n Ordering.gt Ordering.gt q a b c s = elim s [ ]

pub code-Scalar : (c : Char) → Scalar (code c)
code-Scalar (char n s) =
    Scalar-bounds n (compare n 55296) (compare 57343 n) (compare n 1114112) refl refl refl s

-- The bytes of a character end where the next character begins, and determine it.
char_bytes_inj :
    (c d : ℕ) (x y : List ℕ)
    → Scalar c
    → Scalar d
    → char_bytes c ++ x ≡ char_bytes d ++ y
    → (c ≡ d) × (x ≡ y)
unfolding char_bytes
char_bytes_inj c d x y sc sd h = elim (Bool-cases (ltb c 0x10000)) [
  | inl p ↦ elim (Bool-cases (ltb d 0x10000)) [ inl q ↦ ground arith | inr q ↦ ground arith ]
  | inr p ↦ elim (Bool-cases (ltb d 0x10000)) [ inl q ↦ ground arith | inr q ↦ ground arith ]
]

char_bytes-ne-nil : (c : ℕ) (x : List ℕ) → ¬ ([] ≡ char_bytes c ++ x)
unfolding char_bytes
char_bytes-ne-nil c x h = ground arith

utf_16_be_inj : (s t : String) → utf_16_be (codes s) ≡ utf_16_be (codes t) → s ≡ t
unfolding utf_16_be
utf_16_be_inj String.[] String.[] h = refl
utf_16_be_inj String.[] (String.◌∷◌ d t) h =
    absurd (char_bytes-ne-nil (code d) (utf_16_be (codes t)) h)
utf_16_be_inj (String.◌∷◌ c s) String.[] h =
    absurd (char_bytes-ne-nil (code c) (utf_16_be (codes s)) (sym h))
utf_16_be_inj (String.◌∷◌ c s) (String.◌∷◌ d t) h =
    let (e, r) = char_bytes_inj (code c) (code d) _ _ (code-Scalar c) (code-Scalar d) h in
    ap₂ String.◌∷◌ (Char-path c d e) (utf_16_be_inj s t r)

-- Members with different keys have different sort keys.
pub sort_key_inj : (m n : Member) → sort_key m ≡ sort_key n → m.0 ≡ n.0
unfolding sort_key
sort_key_inj m n h = utf_16_be_inj m.0 n.0 h
