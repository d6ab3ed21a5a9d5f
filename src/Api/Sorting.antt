-- ===== src/Api/Sorting.antt =====
-- The sort of `search` of src/sort4circ_dpp/api.py: the same rows, in ascending order.
use mathlib.Core.List.{Perm}
use mathlib.Core.List.Perm
use sort4circ.Prelude.{
  suc, ◌≡◌, refl, ap, ◌∙◌, String, true, false, List, [], ◌∷◌, ◌==◌, length, arith, eq_iff, Text,
  codes, Bool-cases, inl, inr,
}
use sort4circ.Api.Pages.{Row, text_lt, row_lt, insert_row, sort_rows}

-- No row of the list has the identifier.
abbrev pub Fresh : String → List Row → Type 0
Fresh id [] = Unit
Fresh id (r ∷ rows) = ((r.dpp_id == id) ≡ false) × Fresh id rows

-- The identifiers of the rows are distinct, and none is the empty text.
abbrev pub Identified : List Row → Type 0
Identified [] = Unit
Identified (r ∷ rows) = ((r.dpp_id == "") ≡ false) × Fresh r.dpp_id rows × Identified rows

-- No row is less than one before it.
abbrev pub Ascending : List Row → Type 0
Ascending [] = Unit
Ascending (r ∷ []) = Unit
Ascending (r ∷ x ∷ rows) = (row_lt x r ≡ false) × Ascending (x ∷ rows)

Fresh-insert_row :
    (id : String) (r : Row) (rows : List Row)
    → (r.dpp_id == id) ≡ false
    → Fresh id rows
    → Fresh id (insert_row r rows)
unfolding insert_row
Fresh-insert_row id r [] n h = (n, tt)
Fresh-insert_row id r (x ∷ rows) n h = elim (Bool-cases (row_lt x r)) [
  | inl p ↦ rw p (h.0, Fresh-insert_row id r rows n h.1)
  | inr p ↦ rw p (n, h)
]

pub Fresh-sort_rows : (id : String) (rows : List Row) → Fresh id rows → Fresh id (sort_rows rows)
unfolding sort_rows
Fresh-sort_rows id [] h = tt
Fresh-sort_rows id (r ∷ rows) h =
    Fresh-insert_row id r (sort_rows rows) h.0 (Fresh-sort_rows id rows h.1)

Identified-insert_row :
    (r : Row) (rows : List Row)
    → (r.dpp_id == "") ≡ false
    → Fresh r.dpp_id rows
    → Identified rows
    → Identified (insert_row r rows)
unfolding insert_row
Identified-insert_row r [] n f h = (n, tt, tt)
Identified-insert_row r (x ∷ rows) n f h = elim (Bool-cases (row_lt x r)) [
  | inl p ↦ rw p (
    h.0,
    Fresh-insert_row x.dpp_id r rows
        (ground (arith, f.0, eq_iff r.dpp_id x.dpp_id, eq_iff x.dpp_id r.dpp_id)) h.1,
    Identified-insert_row r rows n f.1 h.2,
  )
  | inr p ↦ rw p (n, f, h)
]

pub Identified-sort_rows : (rows : List Row) → Identified rows → Identified (sort_rows rows)
unfolding sort_rows
Identified-sort_rows [] h = tt
Identified-sort_rows (r ∷ rows) h =
    Identified-insert_row r (sort_rows rows) h.0 (Fresh-sort_rows r.dpp_id rows h.1)
      (Identified-sort_rows rows h.2)

insert_row-Perm : (r : Row) (rows : List Row) → Perm (insert_row r rows) (r ∷ rows)
unfolding insert_row
insert_row-Perm r [] = (Perm.refl _)
insert_row-Perm r (x ∷ rows) = elim (Bool-cases (row_lt x r)) [
  | inl p ↦ rw p (Perm.trans (Perm.cons x (insert_row-Perm r rows)) (Perm.swap r x rows))
  | inr p ↦ rw p (Perm.refl _)
]

pub sort_rows-Perm : (rows : List Row) → Perm (sort_rows rows) rows
unfolding sort_rows
sort_rows-Perm [] = Perm.nil
sort_rows-Perm (r ∷ rows) =
    Perm.trans (insert_row-Perm r (sort_rows rows)) (Perm.cons r (sort_rows-Perm rows))

text_lt-asymm : (s t : Text) → text_lt s t ≡ true → text_lt t s ≡ false
unfolding text_lt
text_lt-asymm s [] h = cc
text_lt-asymm [] (d ∷ t) h = refl
text_lt-asymm (c ∷ s) (d ∷ t) h = ground (arith, text_lt-asymm s t)

row_lt-asymm : (a b : Row) → row_lt a b ≡ true → row_lt b a ≡ false
unfolding row_lt
row_lt-asymm a b h = ground (
  arith,
  eq_iff a.updated_at b.updated_at,
  eq_iff b.updated_at a.updated_at,
  text_lt-asymm (codes a.dpp_id) (codes b.dpp_id),
  text_lt-asymm (codes a.updated_at) (codes b.updated_at),
)

-- A row that is not less than the rows before it.
Ascending-cons_insert :
    (y r : Row) (rows : List Row)
    → row_lt r y ≡ false
    → Ascending (y ∷ rows)
    → Ascending (insert_row r rows)
    → Ascending (y ∷ insert_row r rows)
unfolding insert_row
Ascending-cons_insert y r [] n h k = (n, tt)
Ascending-cons_insert y r (x ∷ rows) n h k = elim (Bool-cases (row_lt x r)) [
  | inl p ↦ rw p (h.0, rw p at k)
  | inr p ↦ rw p (n, rw p at k)
]

Ascending-tail : (x : Row) (rows : List Row) → Ascending (x ∷ rows) → Ascending rows
Ascending-tail x [] h = tt
Ascending-tail x (y ∷ rows) h = h.1

Ascending-insert_row : (r : Row) (rows : List Row) → Ascending rows → Ascending (insert_row r rows)
unfolding insert_row
Ascending-insert_row r [] h = tt
Ascending-insert_row r (x ∷ rows) h = elim (Bool-cases (row_lt x r)) [
  | inl p ↦ rw p (
      Ascending-cons_insert x r rows (row_lt-asymm x r p) h
        (Ascending-insert_row r rows (Ascending-tail x rows h)))
  | inr p ↦ rw p (p, h)
]

pub Ascending-sort_rows : (rows : List Row) → Ascending (sort_rows rows)
unfolding sort_rows
Ascending-sort_rows [] = tt
Ascending-sort_rows (r ∷ rows) = Ascending-insert_row r (sort_rows rows) (Ascending-sort_rows rows)

length-insert_row : (r : Row) (rows : List Row) → length (insert_row r rows) ≡ suc (length rows)
unfolding insert_row
length-insert_row r [] = refl
length-insert_row r (x ∷ rows) = ground (arith, length-insert_row r rows)

pub length-sort_rows : (rows : List Row) → length (sort_rows rows) ≡ length rows
unfolding sort_rows
length-sort_rows [] = refl
length-sort_rows (r ∷ rows) = length-insert_row r (sort_rows rows) ∙ ap suc (length-sort_rows rows)
