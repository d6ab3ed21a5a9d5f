-- ===== src/ReadIndex.antt =====
-- src/sort4circ_dpp/index.py: the projection that sorting reads, beside the store. A time, a lag and the
-- limit are multiples of 2^-20 ms, which is finer than the nanoseconds of the monotonic clock; sums and
-- differences of such doubles are taken as exact. `now` is the reading of the clock in the call.
use sort4circ.Prelude.{
  ℕ, zero, suc, ◌+◌, ◌*◌, ◌/◌, ◌%◌, ◌-◌, max, String, Bool, true, false, Option, none, some, List,
  [], ◌∷◌, Result, ok, err, ◌>>=◌, Assoc, lookup, insert, ltb, nat_eq, if◌then◌else◌,
}
use sort4circ.Prelude.Int.{pos}
use sort4circ.Reasons.{Error, raised, key_error, dep_unavailable}
use sort4circ.Json.{
  Json, Items, Dict, null, int, str, arr, obj, nil, cons, empty, entry, get?, set, select,
}
use sort4circ.Json.Shape.{as_dict, json_at, get_or, text_at, items_or_empty}
use sort4circ.Store.State.{Store}
use sort4circ.Store.Append.{collection_of}
use sort4circ.Store.Reads.{get, values}
pub mod Freshness

pub record Entry : Type 0 where
  pub record_version : Json
  pub committed_at_ms : ℕ
  pub generated_at_ms : ℕ
  pub payload : Dict

pub record ReadIndex : Type 0 where
  pub max_lag_ms : Option ℕ
  pub lag_ms : ℕ
  pub entries : Assoc Entry
  pub caught_up_at_ms : ℕ

abbrev pub summary_keys : List String
summary_keys =
    "observationId" ∷ "fibreType" ∷ "percentage" ∷ "percentageBasis" ∷ "valueStatus" ∷ "method"
    ∷ "confidence" ∷ []

abbrev pub sorting_keys : List String
sorting_keys =
    "articleClass" ∷ "fabricConstruction" ∷ "colourPrimary" ∷ "condition" ∷ "technicalFlags" ∷ []

unfoldable pub summaries : Items → Result Error Items
summaries nil = ok nil
summaries (cons x xs) = do
  d ← as_dict x
  rest ← summaries xs
  ok (cons (obj (select summary_keys d)) rest)

-- `prior[-1] if prior else None`
abbrev pub last_or_null : Items → Json
last_or_null nil = null
last_or_null (cons x nil) = x
last_or_null (cons x (cons y xs)) = last_or_null (cons y xs)

-- `sorting_view`, the function of the module
unfoldable pub sorting_record : Dict → Result Error Dict
sorting_record source = do
  prior ← items_or_empty (get? "sortingDecisions" source)
  id ← json_at "dppId" source
  version ← json_at "recordVersion" source
  time ← json_at "updatedAt" source
  product ← as_dict (get_or "product" (obj empty) source)
  observations ← collection_of (get? "materialObservations" source)
  summary ← summaries observations
  ok (
      entry "dppId" id (
        entry "recordVersion" version (
          entry "generatedAt" time (
            entry "product" (obj (select sorting_keys product)) (
              entry "materialSummary" (arr summary)
                (entry "priorDecision" (last_or_null prior) empty))))))

abbrev pub with_entry : String → Entry → ℕ → ReadIndex → ReadIndex
with_entry id e committed ix = record ix {
  entries = insert id e ix.entries;
  caught_up_at_ms = max ix.caught_up_at_ms committed;
}

-- `committed_at_ms or generated_at_ms`
abbrev pub commit_time : ℕ → ℕ → ℕ
commit_time committed now = if nat_eq committed 0 then now else committed

-- `_project`
unfoldable pub project_record : Dict → ℕ → ℕ → ReadIndex → Result Error ReadIndex
project_record source committed now ix = do
  id ← text_at "dppId" source
  version ← json_at "recordVersion" source
  payload ← sorting_record source
  let e : Entry = record {
    record_version = version;
    committed_at_ms = commit_time committed now;
    generated_at_ms = now;
    payload = payload;
  }
  ok (with_entry id e committed ix)

abbrev pub stored_or_raise : String → Option Dict → Result Error Dict
stored_or_raise id none = err (key_error id)
stored_or_raise id (some item) = ok item

-- `_on_commit`
unfoldable pub on_commit : String → ℕ → Store → ReadIndex → Result Error ReadIndex
on_commit id now s ix = do
  item ← stored_or_raise id (lookup id s.records)
  project_record item s.last_commit_ms now ix

-- The loop of `attach`, with the reading of the clock for each record.
unfoldable pub project_all : List Dict → ℕ → (ℕ → ℕ) → ℕ → ReadIndex → Result Error ReadIndex
project_all [] i now committed ix = ok ix
project_all (item ∷ items) i now committed ix = project_record item committed (now i) ix >>= λ next.
    project_all items (i + 1) now committed next

-- `attach`, after it has set `on_commit`
unfoldable pub attach : (ℕ → ℕ) → Store → ReadIndex → Result Error ReadIndex
attach now s ix = do
  next ← project_all (values s.records) 0 now s.last_commit_ms ix
  ok (record next { caught_up_at_ms = max next.caught_up_at_ms s.last_commit_ms })

-- `backlog_ms`
unfoldable pub backlog_ms : Store → ReadIndex → ℕ
backlog_ms s ix = s.last_commit_ms - ix.caught_up_at_ms

abbrev pub tick : ℕ
tick = 1048576

-- `round`, to the nearest millisecond, and to the even one halfway.
abbrev pub nearest : ℕ → ℕ → ℕ
nearest whole rest =
    if ltb (2 * rest) tick
    then whole
    else (if ltb tick (2 * rest) then whole + 1 else whole + whole % 2)

unfoldable pub round_ms : ℕ → ℕ
round_ms lag = nearest (lag / tick) (lag % tick)

unfoldable pub lag_of : Store → ReadIndex → Entry → ℕ
lag_of s ix e = e.generated_at_ms - e.committed_at_ms + backlog_ms s ix + ix.lag_ms

abbrev pub is_beyond : Option ℕ → ℕ → Bool
is_beyond none lag = false
is_beyond (some limit) lag = ltb limit lag

abbrev pub labelled : ℕ → String → Dict → Dict
labelled lag consistency view =
    set "consistency" (str consistency) (set "indexLagMs" (int (pos lag)) view)

-- The read of the authoritative record.
unfoldable pub strong_view : String → Store → Result Error Dict
strong_view id s = do item ← get id s; view ← sorting_record item; ok (labelled 0 "strong" view)

abbrev pub projected : Store → ReadIndex → String → Option Entry → Result Error Dict
projected s ix id none = strong_view id s
projected s ix id (some e) =
    if is_beyond ix.max_lag_ms (lag_of s ix e)
    then err (raised dep_unavailable)
    else ok (labelled (round_ms (lag_of s ix e)) "projected" e.payload)

-- `ReadIndex.sorting_view`
unfoldable pub sorting_view : String → Bool → Store → ReadIndex → Result Error Dict
sorting_view id true s ix = strong_view id s
sorting_view id false s ix = projected s ix id (lookup id ix.entries)
