-- ===== src/Api/Pagination.antt =====
-- A client that follows `nextCursor` through `search` of src/sort4circ_dpp/api.py.
use mathlib.Core.List.{Perm, append_assoc}
use sort4circ.Prelude.{
  length-append, ℕ, zero, suc, ◌≤◌, ◌<◌, ◌≡◌, refl, subst, sym, ap, ◌∙◌, String, Option, none, some,
  List, [], ◌∷◌, ◌++◌, Result, ok, ◌>>=◌, ltb, length, arith, Bool-cases, inl, inr,
}
use sort4circ.Reasons.{Error}
use sort4circ.Json.{Dict}
use sort4circ.Store.State.{Store}
use sort4circ.Store.Reads.{values}
use sort4circ.Access.{Principal, require_scope, default_view}
use sort4circ.Api.Pages.{Row, sort_rows, rows_of, start_of, project_rows, Page, page_of}
use sort4circ.Api.Sorting.{
  Identified, Identified-sort_rows, Ascending, sort_rows-Perm, Ascending-sort_rows,
  length-sort_rows,
}
use sort4circ.Api.Search.{search}
use sort4circ.Api.Paging.{
  cut_at, project_rows-append, start_of-append, holds_read, page_of-last, page_of-more,
}

-- The requests of a client that asks for the first page, then for the page after each cursor, until
-- a page has none: the records of all pages, in order, or none if the requests run out first.
abbrev pub follow :
    (Option String → Result Error (Option (List Dict))) → Page → Result Error (Option (List Dict))
follow next page = followed page.next_cursor
  where
    joined : Option (List Dict) → Option (List Dict)
    joined none = none
    joined (some rest) = some (page.found ++ rest)

    followed : Option String → Result Error (Option (List Dict))
    followed none = ok (some page.found)
    followed (some cursor) = next (some cursor) >>= λ rest. ok (joined rest)

unfoldable pub traverse :
    ℕ → Principal → ℕ → Store → Option String → Result Error (Option (List Dict))
traverse zero p limit s cursor = ok none
traverse (suc requests) p limit s cursor =
    (search cursor limit p s).0 >>= λ page. follow (traverse requests p limit s) page

module _ (p : Principal) (k : ℕ) (s : Store) (rows : List Row)
    (read : rows_of (values s.records) ≡ ok rows) (identified : Identified (sort_rows rows)) where
  search-page :
      (cursor : Option String)
      → (search cursor (suc k) p s).0
        ≡ page_of (default_view p.role) p cursor (suc k) (sort_rows rows)
  unfolding search require_scope
  search-page cursor = rw (holds_read p.role, read) refl

  traverse-more :
      (requests : ℕ) (cursor : Option String) (a b : List Row) (r : Row) (c : List Row)
      (found rest : List Dict)
      → length b ≡ k
      → 0 < length c
      → sort_rows rows ≡ a ++ (b ++ r ∷ c)
      → start_of cursor (a ++ (b ++ r ∷ c)) ≡ length a
      → project_rows (default_view p.role) p (b ++ r ∷ []) ≡ ok found
      → traverse requests p (suc k) s (some r.dpp_id) ≡ ok (some rest)
      → traverse (suc requests) p (suc k) s cursor ≡ ok (some (found ++ rest))
  unfolding traverse
  traverse-more requests cursor a b r c found rest n m e start h later =
      rw
        (
          search-page cursor,
          e,
          page_of-more (default_view p.role) p k cursor a b r c found n m start h,
          later,
        )
        refl

  -- The next cursor stands for the rows after it.
  next_start :
      (a b : List Row) (r : Row) (c : List Row)
      → sort_rows rows ≡ a ++ (b ++ r ∷ c)
      → start_of (some r.dpp_id) ((a ++ (b ++ r ∷ [])) ++ c) ≡ length (a ++ (b ++ r ∷ []))
  next_start a b r c e =
      ap (start_of (some r.dpp_id)) same
      ∙ start_of-append (a ++ b) r c
          (subst Identified (e ∙ sym (append_assoc a b (r ∷ c))) identified)
      ∙ omega (arith, length-append a b, length-append a (b ++ r ∷ []), length-append b (r ∷ []))
    where
      same : (a ++ (b ++ r ∷ [])) ++ c ≡ (a ++ b) ++ r ∷ c
      same = rw (append_assoc, append_assoc, append_assoc) refl

  regroup :
      (a b : List Row) (r : Row) (c : List Row) → a ++ (b ++ r ∷ c) ≡ (a ++ (b ++ r ∷ [])) ++ c
  regroup a b r c = rw (append_assoc, append_assoc) refl

  -- The rows that are left from a cursor on.
  traverse-rest :
      (requests : ℕ) (cursor : Option String) (a b : List Row) (seen : List Dict)
      → length b < requests
      → sort_rows rows ≡ a ++ b
      → start_of cursor (a ++ b) ≡ length a
      → project_rows (default_view p.role) p b ≡ ok seen
      → traverse requests p (suc k) s cursor ≡ ok (some seen)
  unfolding traverse
  traverse-rest zero cursor a b seen n e start h = absurd (omega arith)
  traverse-rest (suc requests) cursor a b seen n e start h =
      elim (Bool-cases (ltb (suc k) (length b))) [
        | inl more ↦
            let (b₁, r, c, cut, size) = cut_at k b (ground arith) in
            let (found, rest, h₁, h₂, same) =
              project_rows-append (default_view p.role) p (b₁ ++ r ∷ []) c seen (
                ap (project_rows (default_view p.role) p) (append_assoc b₁ (r ∷ []) c ∙ sym cut)
                ∙ h) in
            let e' = e ∙ ap (◌++◌ a) cut in
            traverse-more requests cursor a b₁ r c found rest size
              (ground (arith, ap length cut, length-append b₁ (r ∷ c))) e'
              (ap (λ l. start_of cursor (a ++ l)) (sym cut) ∙ start) h₁
              (traverse-rest requests (some r.dpp_id) (a ++ (b₁ ++ r ∷ [])) c rest
                (omega (arith, ap length cut, length-append b₁ (r ∷ c))) (e' ∙ regroup a b₁ r c)
                (next_start a b₁ r c e') h₂)
            ∙ ap (λ l. ok (some l)) same
        | inr last ↦
            rw
              (
                search-page cursor,
                e,
                page_of-last (default_view p.role) p k cursor a b seen (ground arith) start h,
              )
              refl
      ]

-- A client that asks `search` for the first page and then for the page after each cursor, with any
-- limit of one or more, on a store whose records have texts as `updatedAt` and distinct `dppId`s that are not
-- empty, and whose records its view can be made of, is done after at most as many requests as there are
-- records and one: it has then seen each record of the store exactly once, in the view of its role, in
-- ascending order of `(updatedAt, dppId)`.
pub traverse-sort_rows :
    (p : Principal) (limit : ℕ) (s : Store) (rows : List Row) (seen : List Dict)
    → rows_of (values s.records) ≡ ok rows
    → Identified rows
    → project_rows (default_view p.role) p (sort_rows rows) ≡ ok seen
    → 1 ≤ limit
    → (requests : ℕ) → length rows < requests
    → (traverse requests p limit s none ≡ ok (some seen))
      × Perm (sort_rows rows) rows
      × Ascending (sort_rows rows)
unfolding start_of
traverse-sort_rows p zero s rows seen read i h m requests n = absurd (omega arith)
traverse-sort_rows p (suc k) s rows seen read i h m requests n = (
  traverse-rest p k s rows read (Identified-sort_rows rows i) requests none [] (sort_rows rows) seen
      (omega (arith, length-sort_rows rows)) refl refl h,
  sort_rows-Perm rows,
  Ascending-sort_rows rows,
)
