-- ===== src/Exchange/Members.antt =====
-- The members that `_write_value` of src/sort4circ_dpp/exchange.py writes, and the dict that they are read into.
use sort4circ.Prelude.{
  ◌≡◌, refl, ap, String, Bool, false, none, ◌==◌, elem, eq_iff, arith, Bool-cases, inl, inr,
}
use sort4circ.Json.{
  Json, Dict, null, bool, int, float, str, arr, obj, empty, entry, set, get?, Float,
}
use sort4circ.Exchange.{
  Numerals, pascal, camel, write_value, write_members, names, has_duplicate, tag_of,
}
use sort4circ.Exchange.Survival.{MembersSurvive}

-- The members of one dict after those of another.
abbrev pub extend : Dict → Dict → Dict
extend empty d = d
extend (entry j w out) d = entry j w (extend out d)

-- No key of the second dict is in the first.
abbrev pub Apart : Dict → Dict → Type 0
Apart out empty = Unit
Apart out (entry k v d) = (get? k out ≡ none) × Apart out d

pub set_new :
    (k : String) (v : Json) (out : Dict)
    → get? k out ≡ none
    → set k v out ≡ extend out (entry k v empty)
unfolding set get?
set_new k v empty h = refl
set_new k v (entry j w out) h = elim (Bool-cases (j == k)) [
  | inl p ↦ let h' = rw p at h in absurd (cc)
  | inr p ↦ rw p (ap (entry j w) (set_new k v out (rw p at h)))
]

pub extend_assoc :
    (out : Dict) (k : String) (v : Json) (d : Dict)
    → extend (extend out (entry k v empty)) d ≡ extend out (entry k v d)
extend_assoc empty k v d = refl
extend_assoc (entry j w out) k v d = ap (entry j w) (extend_assoc out k v d)

pub extend-empty : (out : Dict) → extend out empty ≡ out
extend-empty empty = refl
extend-empty (entry j w out) = ap (entry j w) (extend-empty out)

get?-extend :
    (j k : String) (v : Json) (out : Dict)
    → get? j out ≡ none
    → (k == j) ≡ false
    → get? j (extend out (entry k v empty)) ≡ none
unfolding get?
get?-extend j k v empty h n = rw n refl
get?-extend j k v (entry i w out) h n = elim (Bool-cases (i == j)) [
  | inl p ↦ let h' = rw p at h in absurd (cc)
  | inr p ↦ rw p (get?-extend j k v out (rw p at h) n)
]

pub Apart-extend :
    (k : String) (v : Json) (out d : Dict)
    → Apart out d
    → get? k d ≡ none
    → Apart (extend out (entry k v empty)) d
unfolding get?
Apart-extend k v out empty h n = tt
Apart-extend k v out (entry j w d) h n = elim (Bool-cases (j == k)) [
  | inl p ↦ let n' = rw p at n in absurd (cc)
  | inr p ↦ (
    get?-extend j k v out h.0 (ground (arith, p, eq_iff j k, eq_iff k j)),
    Apart-extend k v out d h.1 (rw p at n),
  )
]

pub Apart-empty : (d : Dict) → Apart empty d
unfolding get?
Apart-empty empty = tt
Apart-empty (entry k v d) = (refl, Apart-empty d)

pub tag_of-write_value :
    (n : Numerals) (key : String) (v : Json) → tag_of (write_value n key v) ≡ pascal key
unfolding tag_of write_value
tag_of-write_value n key null = refl
tag_of-write_value n key (bool b) = refl
tag_of-write_value n key (int i) = refl
tag_of-write_value n key (float x) = refl
tag_of-write_value n key (str t) = refl
tag_of-write_value n key (arr xs) = refl
tag_of-write_value n key (obj d) = refl

module _ (n : Numerals) (is_fraction : Float → Bool) where
  -- The element of a key stands among those of a dict only if the key does.
  other_names :
      (k : String) (d : Dict)
      → camel (pascal k) ≡ k
      → get? k d ≡ none
      → MembersSurvive is_fraction d
      → elem (pascal k) (names (write_members n d)) ≡ false
  unfolding names get? write_members MembersSurvive
  other_names k empty c h m = refl
  other_names k (entry j w d) c h (cj, fresh, s, m) = elim (Bool-cases (j == k)) [
    | inl p ↦ let h' = rw p at h in absurd (cc)
    | inr p ↦ rw (tag_of-write_value n j w, different p, other_names k d c (rw p at h) m) refl
  ]
    where
      different : (j == k) ≡ false → (pascal k == pascal j) ≡ false
      different p = ground (arith, p, eq_iff j k, eq_iff (pascal k) (pascal j), c, cj)

  pub distinct_names :
      (d : Dict) → MembersSurvive is_fraction d → has_duplicate (names (write_members n d)) ≡ false
  unfolding names has_duplicate write_members MembersSurvive
  distinct_names empty m = refl
  distinct_names (entry k v d) (c, fresh, s, m) =
      rw (tag_of-write_value n k v, other_names k d c fresh m) (distinct_names d m)
