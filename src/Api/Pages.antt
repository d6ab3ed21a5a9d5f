-- ===== src/Api/Pages.antt =====
-- The pages of `search` of src/sort4circ_dpp/api.py: the records in the order of
-- `(updatedAt, dppId)`, cut after a cursor.
use sort4circ.Prelude.{
  ℕ, suc, ◌+◌, String, Bool, true, false, Option, none, some, List, [], ◌∷◌, Result, ok, ◌>>=◌,
  Text, codes, if◌then◌else◌, ◌==◌, ltb, nat_eq, take, drop, length,
}
use sort4circ.Reasons.{Error}
use sort4circ.Json.{Dict}
use sort4circ.Json.Shape.{text_at}
use sort4circ.Access.{View, Principal}
use sort4circ.Access.Projection.{project}

-- A record with the texts that it is sorted by.
pub record Row : Type 0 where
  pub updated_at : String
  pub dpp_id : String
  pub item : Dict

-- `a < b` on texts, by code points
unfoldable pub text_lt : Text → Text → Bool
text_lt s [] = false
text_lt [] (d ∷ t) = true
text_lt (c ∷ s) (d ∷ t) =
    let rest = text_lt s t in if ltb c d then true else if nat_eq c d then rest else false

-- `(a.updatedAt, a.dppId) < (b.updatedAt, b.dppId)`
unfoldable pub row_lt : Row → Row → Bool
unfolding text_lt
row_lt a b =
    if a.updated_at == b.updated_at
    then text_lt (codes a.dpp_id) (codes b.dpp_id)
    else text_lt (codes a.updated_at) (codes b.updated_at)

-- A stable sort: a row goes before the first row that is not less.
unfoldable pub insert_row : Row → List Row → List Row
unfolding row_lt
insert_row r [] = r ∷ []
insert_row r (x ∷ xs) = let rest = insert_row r xs in if row_lt x r then x ∷ rest else r ∷ x ∷ xs

unfoldable pub sort_rows : List Row → List Row
unfolding insert_row
sort_rows [] = []
sort_rows (r ∷ rs) = insert_row r (sort_rows rs)

-- `r["updatedAt"], r["dppId"]` of each record
unfoldable pub rows_of : List Dict → Result Error (List Row)
rows_of [] = ok []
rows_of (item ∷ items) = do
  updated_at ← text_at "updatedAt" item
  dpp_id ← text_at "dppId" item
  rest ← rows_of items
  let row : Row = record { updated_at = updated_at; dpp_id = dpp_id; item = item }
  ok (row ∷ rest)

-- The loop that looks for the cursor.
unfoldable pub position_after : String → ℕ → List Row → ℕ
position_after cursor position [] = 0
position_after cursor position (r ∷ rows) =
    let later = position_after cursor (suc position) rows in
    if r.dpp_id == cursor then suc position else later

-- `start`: a cursor that is missing, empty or unknown stands for the beginning.
unfoldable pub start_of : Option String → List Row → ℕ
start_of none rows = 0
start_of (some cursor) rows = if cursor == "" then 0 else position_after cursor 0 rows

unfoldable pub project_rows : View → Principal → List Row → Result Error (List Dict)
project_rows view p [] = ok []
project_rows view p (r ∷ rows) = do
  seen ← project r.item view p
  rest ← project_rows view p rows
  ok (seen ∷ rest)

-- `page[-1]["dppId"]`, for a page that has a row
unfoldable pub last_id : List Row → Option String
last_id [] = none
last_id (r ∷ []) = some r.dpp_id
last_id (r ∷ x ∷ rows) = last_id (x ∷ rows)

pub record Page : Type 0 where
  pub found : List Dict
  pub next_cursor : Option String

-- The page after a cursor, of sorted rows.
unfoldable pub page_of : View → Principal → Option String → ℕ → List Row → Result Error Page
page_of view p cursor limit rows =
    let start = start_of cursor rows in
    let page = take limit (drop start rows) in
    project_rows view p page >>= λ found. ok (record {
      found = found;
      next_cursor = if ltb (start + limit) (length rows) then last_id page else none;
    })
