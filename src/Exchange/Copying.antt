-- ===== src/Exchange/Copying.antt =====
-- Reading the members of a passport, as `from_xml` of src/sort4circ_dpp/exchange.py does, one after another.
use sort4circ.Prelude.{
  ◌≡◌, refl, sym, ap, ◌∙◌, String, true, false, Option, none, some, List, [], ◌∷◌, ◌==◌, elem,
  eq_iff, arith, Bool-cases, inl, inr,
}
use sort4circ.Json.{Json, Dict, get?, set}
use sort4circ.Json.Laws.{get?-set}

-- The members of a record under the names, written over another.
abbrev pub copy_one : String → Option Json → Dict → Dict
copy_one name none out = out
copy_one name (some v) out = set name v out

abbrev pub copy_all : List String → Dict → Dict → Dict
copy_all [] source out = out
copy_all (name ∷ rest) source out = copy_all rest source (copy_one name (get? name source) out)

copy_one-kept :
    (k name : String) (source out : Dict)
    → get? k out ≡ get? k source
    → get? k (copy_one name (get? name source) out) ≡ get? k source
copy_one-kept k name source out h = by_value (get? name source) refl
  where
    by_value :
        (o : Option Json) → get? name source ≡ o → get? k (copy_one name o out) ≡ get? k source
    by_value none e = h
    by_value (some v) e = elim (Bool-cases (name == k)) [
      | inl p ↦ rw (get?-set, p) (sym e ∙ ap (λ (j : String). get? j source) ((eq_iff name k).0 p))
      | inr p ↦ rw (get?-set, p) h
    ]

pub copy_all-kept :
    (k : String) (names : List String) (source out : Dict)
    → get? k out ≡ get? k source
    → get? k (copy_all names source out) ≡ get? k source
copy_all-kept k [] source out h = h
copy_all-kept k (name ∷ rest) source out h =
    copy_all-kept k rest source (copy_one name (get? name source) out)
      (copy_one-kept k name source out h)

copy_one-copied :
    (k name : String) (source out : Dict)
    → get? k out ≡ none
    → (k == name) ≡ true
    → get? k (copy_one name (get? name source) out) ≡ get? k source
copy_one-copied k name source out h p = by_value (get? name source) refl
  where
    same : (name == k) ≡ true
    same = ground (arith, p, eq_iff k name, eq_iff name k)

    by_value :
        (o : Option Json) → get? name source ≡ o → get? k (copy_one name o out) ≡ get? k source
    by_value none e = h ∙ sym (ap (λ (j : String). get? j source) ((eq_iff k name).0 p) ∙ e)
    by_value (some v) e =
        rw (get?-set, same) (sym e ∙ ap (λ (j : String). get? j source) ((eq_iff name k).0 same))

copy_one-other :
    (k name : String) (o : Option Json) (out : Dict)
    → get? k out ≡ none
    → (k == name) ≡ false
    → get? k (copy_one name o out) ≡ none
copy_one-other k name none out h p = h
copy_one-other k name (some v) out h p =
    let n : (name == k) ≡ false = ground (arith, p, eq_iff k name, eq_iff name k) in
    rw (get?-set, n) h

pub copy_all-copied :
    (k : String) (names : List String) (source out : Dict)
    → get? k out ≡ none
    → elem k names ≡ true
    → get? k (copy_all names source out) ≡ get? k source
copy_all-copied k [] source out h m = absurd (cc)
copy_all-copied k (name ∷ rest) source out h m = elim (Bool-cases (k == name)) [
  | inl p ↦
      copy_all-kept k rest source (copy_one name (get? name source) out)
        (copy_one-copied k name source out h p)
  | inr p ↦
      copy_all-copied k rest source (copy_one name (get? name source) out)
        (copy_one-other k name (get? name source) out h p) (rw p at m)
]
