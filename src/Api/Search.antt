-- ===== src/Api/Search.antt =====
-- `search` of src/sort4circ_dpp/api.py.
use sort4circ.Prelude.{ℕ, String, Option, none, some, List, [], ◌∷◌}
use sort4circ.Json.{Items, Dict, str, arr, obj, nil, cons, entry, empty, set}
use sort4circ.Store.Reads.{values}
use sort4circ.Access.{Principal, require_scope, default_view}
use sort4circ.Api.{Step, ◌>>=◌, ◌>>◌, lift, query}
use sort4circ.Api.Pages.{Page, rows_of, sort_rows, page_of}

-- `search`; FastAPI admits limits from 1 to 500, and 50 stands for a limit that is not given.
unfoldable pub search : Option String → ℕ → Principal → Step Page
search cursor limit p = do
  lift (require_scope p "dpp.read")
  rows ← query (λ s. rows_of (values s.records))
  lift (page_of (default_view p.role) p cursor limit (sort_rows rows))

abbrev pub dict_items : List Dict → Items
dict_items [] = nil
dict_items (d ∷ ds) = cons (obj d) (dict_items ds)

abbrev pub with_cursor : Option String → Dict → Dict
with_cursor none body = body
with_cursor (some cursor) body = set "nextCursor" (str cursor) body

-- `body`
unfoldable pub page_body : Page → Dict
page_body page = with_cursor page.next_cursor (entry "items" (arr (dict_items page.found)) empty)
