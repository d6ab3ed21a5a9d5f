-- ===== src/Tests/Api/Searches.antt =====
-- Searches over a shelf of three records, and an instance of the theorem on the traversal.
use mathlib.Core.List.{Perm}
use sort4circ.Prelude.{◌≡◌, refl, ok, String, none, some, [], ◌∷◌, List}
use sort4circ.Json.{Dict, empty, entry, str}
use sort4circ.Store.State.{Store, new_store}
use sort4circ.Prelude.{arith}
use sort4circ.Api.Pages.{Row}
use sort4circ.Api.Sorting.{Identified, Ascending}
use sort4circ.Api.Pagination.{traverse-sort_rows}
use sort4circ.Json.{select}
use sort4circ.Json.Shape.{text_at}
use sort4circ.Store.Reads.{values}
use sort4circ.Access.{scopes, default_view, require_scope}
use sort4circ.Access.Projection.{project}
use sort4circ.Api.Pages.{
  sort_rows, rows_of, position_after, start_of, project_rows, last_id, page_of,
}
use sort4circ.Api.Search.{search}
use sort4circ.Api.Pagination.{traverse}
use sort4circ.Tests.Api.{maker}

abbrev garment : String → String → Dict
garment id time = entry "dppId" (str id) (entry "updatedAt" (str time) empty)

abbrev row : String → String → Row
row id time = record { updated_at = time; dpp_id = id; item = garment id time }

abbrev shelf : Store
shelf = record new_store {
  records = ("c", garment "c" "t3") ∷ ("a", garment "a" "t1") ∷ ("b", garment "b" "t2") ∷ [];
}

abbrev shelf_rows : List Row
shelf_rows = row "c" "t3" ∷ row "a" "t1" ∷ row "b" "t2" ∷ []

first_page :
    (search none 1 maker shelf).0
    ≡ ok (record { found = garment "a" "t1" ∷ []; next_cursor = some "a" })
unfolding select text_at values scopes default_view require_scope project sort_rows rows_of start_of
    project_rows last_id page_of search
first_page = refl

-- An update between two pages moves the record that the cursor names to the end, and the traversal
-- never sees the records that it passed.
abbrev shelf_after : Store
shelf_after = record new_store {
  records = ("c", garment "c" "t3") ∷ ("a", garment "a" "t4") ∷ ("b", garment "b" "t2") ∷ [];
}

omitted : (search (some "a") 1 maker shelf_after).0 ≡ ok (record { found = []; next_cursor = none })
unfolding select text_at values scopes require_scope sort_rows rows_of position_after start_of
    project_rows page_of search
omitted = refl

-- A cursor that names no record starts again.
restarts : (search (some "no such") 1 maker shelf).0 ≡ (search none 1 maker shelf).0
unfolding select text_at values scopes require_scope sort_rows rows_of position_after start_of
    page_of search
restarts = refl

identified : Identified shelf_rows
identified = ((refl), (refl, (refl, tt)), ((refl), (refl, tt), ((refl), tt, tt)))

abbrev in_order : List Dict
in_order = garment "a" "t1" ∷ garment "b" "t2" ∷ garment "c" "t3" ∷ []

shelf_read : rows_of (values shelf.records) ≡ ok shelf_rows
unfolding select text_at values rows_of
shelf_read = refl

shelf_seen : project_rows (default_view maker.role) maker (sort_rows shelf_rows) ≡ ok in_order
unfolding default_view project sort_rows project_rows
shelf_seen = refl

traverse-sort_rows_example :
    (traverse 4 maker 2 shelf none ≡ ok (some in_order))
    × Perm (sort_rows shelf_rows) shelf_rows
    × Ascending (sort_rows shelf_rows)
traverse-sort_rows_example =
    traverse-sort_rows maker 2 shelf shelf_rows in_order shelf_read identified shelf_seen
      (omega arith) 4 (omega arith)
