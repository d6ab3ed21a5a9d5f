-- ===== src/Store/Etags.antt =====
-- The entity tags of two versions of one passport differ.
use sort4circ.Prelude.{
  ℕ, zero, suc, ◌+◌, ◌-◌, ◌*◌, ◌/◌, ◌%◌, ◌<◌, ◌≤◌, ◌≡◌, ◌≢◌, refl, sym, ap, ◌∙◌, false, [], ◌∷◌,
  ◌++◌, Text, digits, ltb, nat_eq, Bool-cases, inl, inr, arith, codes,
}
use mathlib.Core.List.{append_assoc, append_cancel_left}
use sort4circ.Store.Patch.{lstrip, rstrip, strip_quotes}

-- The number that a numeral denotes, after a number.
value_from : ℕ → Text → ℕ
value_from acc [] = acc
value_from acc (c ∷ t) = value_from (acc * 10 + (c - 48)) t

value_from-append :
    (acc : ℕ) (s t : Text) → value_from acc (s ++ t) ≡ value_from (value_from acc s) t
unfolding value_from
value_from-append acc [] t = refl
value_from-append acc (c ∷ s) t = value_from-append (acc * 10 + (c - 48)) s t

value_from-digits : (f n : ℕ) → n < f → value_from 0 (digits f n) ≡ n
unfolding digits value_from
value_from-digits zero n h = absurd (omega arith)
value_from-digits (suc f) n h = elim (Bool-cases (ltb n 10)) [
  | inl p ↦ rw p (omega arith)
  | inr p ↦
      rw
        (
          p,
          value_from-append 0 (digits f (n / 10)) ((n % 10 + 48) ∷ []),
          value_from-digits f (n / 10) (smaller p),
        )
        (omega arith)
]
  where
    at_least : ltb n 10 ≡ false → 10 ≤ n
    at_least p = ground arith

    smaller : ltb n 10 ≡ false → n / 10 < f
    smaller p = omega (arith, at_least p)

-- A numeral ends in a digit.
digits-last :
    (f n : ℕ) → (u : Text) × (c : ℕ) × (digits (suc f) n ≡ u ++ c ∷ []) × (nat_eq c 34 ≡ false)
unfolding digits
digits-last f n = elim (Bool-cases (ltb n 10)) [
  | inl p ↦ rw p ([], n + 48, refl, ground arith)
  | inr p ↦ rw p (digits f (n / 10), n % 10 + 48, refl, ground arith)
]

rstrip-quote : (t : Text) (c : ℕ) → nat_eq c 34 ≡ false → rstrip (t ++ c ∷ 34 ∷ []) ≡ t ++ c ∷ []
unfolding rstrip
rstrip-quote [] c h = rw h refl
rstrip-quote (x ∷ []) c h = rw h refl
rstrip-quote (x ∷ y ∷ t) c h = rw (rstrip-quote (y ∷ t) c h) refl

-- An entity tag without its quotes.
pub bare : Text → ℕ → Text
bare short version = codes "dpp-" ++ (short ++ (codes "-v" ++ digits (suc version) version))

unfoldable pub quoted : Text → ℕ → Text
quoted short version =
    codes "\"dpp-" ++ (short ++ (codes "-v" ++ (digits (suc version) version ++ codes "\"")))

-- A tag up to the last character of its number.
stem : Text → Text → Text
stem short u = codes "dpp-" ++ (short ++ (codes "-v" ++ u))

stem-append : (short u : Text) (c : ℕ) (t : Text) → stem short u ++ c ∷ t ≡ stem short (u ++ c ∷ t)
unfolding stem
stem-append short u c t = rw (append_assoc, append_assoc) refl

strip-opened :
    (short u : Text) (c : ℕ)
    → strip_quotes (34 ∷ (stem short u ++ c ∷ 34 ∷ [])) ≡ rstrip (stem short u ++ c ∷ 34 ∷ [])
unfolding strip_quotes lstrip stem
strip-opened short u c = refl

bare-stem :
    (short : Text) (version : ℕ) → stem short (digits (suc version) version) ≡ bare short version
unfolding stem bare
bare-stem short version = refl

quoted-stem :
    (short : Text) (version : ℕ) (u : Text) (c : ℕ)
    → digits (suc version) version ≡ u ++ c ∷ []
    → quoted short version ≡ 34 ∷ (stem short u ++ c ∷ 34 ∷ [])
unfolding quoted stem
quoted-stem short version u c e = rw (e, append_assoc, append_assoc, append_assoc) refl

strip-stem :
    (short u : Text) (c : ℕ)
    → nat_eq c 34 ≡ false
    → strip_quotes (34 ∷ (stem short u ++ c ∷ 34 ∷ [])) ≡ stem short u ++ c ∷ []
strip-stem short u c n = opened ∙ rstrip-quote (stem short u) c n
  where
    opened :
        strip_quotes (34 ∷ (stem short u ++ c ∷ 34 ∷ [])) ≡ rstrip (stem short u ++ c ∷ 34 ∷ [])
    opened = strip-opened short u c

pub strip-quoted :
    (short : Text) (version : ℕ) → strip_quotes (quoted short version) ≡ bare short version
strip-quoted short version =
    let (u, c, e, n) = digits-last version version in
    ap strip_quotes (quoted-stem short version u c e)
    ∙ strip-stem short u c n
    ∙ stem-append short u c []
    ∙ ap (stem short) (sym e)
    ∙ bare-stem short version

-- Two versions have different tags.
pub bare-distinct : (short : Text) (m n : ℕ) → m ≢ n → bare short m ≢ bare short n
unfolding bare
bare-distinct short m n d e =
    let same : digits (suc m) m ≡ digits (suc n) n =
      append_cancel_left (codes "-v") _ _
        (append_cancel_left short _ _ (append_cancel_left (codes "dpp-") _ _ e)) in
    d (
      sym (value_from-digits (suc m) m (omega arith))
      ∙ ap (value_from 0) same
      ∙ value_from-digits (suc n) n (omega arith))
