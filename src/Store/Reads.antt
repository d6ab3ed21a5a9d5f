-- ===== src/Store/Reads.antt =====
-- The reads of `PassportStore`: `get`, `get_version`, `resolve_carrier`, `history` and iteration.
use sort4circ.Prelude.{
  ℕ, String, Option, none, some, List, [], ◌∷◌, Result, ok, err, ◌>>=◌, ◌==◌, if◌then◌else◌, lookup,
  Assoc, nat_eq,
}
use sort4circ.Reasons.{Error, raised, ident_retired, ident_unknown, state_not_found}
use sort4circ.Json.{Dict}
use sort4circ.Json.Shape.{text_at, nat_at}
use sort4circ.Store.State.{Store, require, history_of}

unfoldable pub get : String → Store → Result Error Dict
get id s = do
  item ← require id s
  status ← text_at "status" item
  if status == "retired" then err (raised ident_retired) else ok item

-- The first version of a history with the number that is asked for.
unfoldable pub find_version : ℕ → List Dict → Result Error Dict
find_version version [] = err (raised state_not_found)
find_version version (candidate ∷ rest) = nat_at "recordVersion" candidate >>= λ n.
    if nat_eq n version then ok candidate else find_version version rest

unfoldable pub get_version : String → ℕ → Store → Result Error Dict
get_version id version s = find_version version (history_of id s)

-- The live index first, the retired identifiers next.
abbrev pub resolved : Option String → Option String → Store → Result Error Dict
resolved (some id) retired s = get id s
resolved none (some id) s = err (raised ident_retired)
resolved none none s = err (raised ident_unknown)

unfoldable pub resolve_carrier : String → Store → Result Error Dict
resolve_carrier encoded s =
    resolved (lookup encoded s.carrier_index) (lookup encoded s.retired_carriers) s

unfoldable pub values : Assoc Dict → List Dict
values [] = []
values ((id, item) ∷ rest) = item ∷ values rest
