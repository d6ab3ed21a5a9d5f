-- ===== src/Api/Reads.antt =====
-- The handlers of src/sort4circ_dpp/api.py that read: `sorting_view`, `integrity`, `resolve`, `get_dpp`
-- and `health`, with `OutboxEntry.as_integrity_entry` of src/sort4circ_dpp/store.py.
use sort4circ.Prelude.{
  String, Bool, true, false, Option, none, some, [], ◌∷◌, List, ok, Text, if◌then◌else◌, ◌==◌,
}
use sort4circ.Prelude.Int.{pos}
use sort4circ.Reasons.{Code}
use sort4circ.Reasons.Catalogue.{code_name}
use sort4circ.Json.{Items, Dict, str, int, arr, obj, nil, cons, entry, empty, set}
use sort4circ.Json.Shape.{json_at}
use sort4circ.Store.State.{OutboxEntry, etag}
use sort4circ.Store.Patch.{strip_quotes, text_eq}
use sort4circ.Store.Reads.{get, resolve_carrier}
use sort4circ.Evidence.Histogram.{state_name}
use sort4circ.Access.{Principal, require_scope, resolve_view}
use sort4circ.ReadIndex
use sort4circ.Api.{Step, ◌>>=◌, ◌>>◌, lift, query, Reply}
use sort4circ.Api.Writes.{respond}

abbrev pub answered : Bool → Dict → Reply
answered no_store body = record {
  status = 200;
  entity_tag = none;
  location = none;
  no_store = no_store;
  body = some body;
}

-- `sorting_view`; is the consistency that is asked for `strong`?
unfoldable pub sorting_view : String → Bool → Principal → ReadIndex.ReadIndex → Step Reply
sorting_view id strong p index = do
  lift (require_scope p "sorting.read")
  view ← query (λ s. ReadIndex.sorting_view id strong s index)
  lift (ok (answered true view))

abbrev pub optional_text : String → Option String → Dict → Dict
optional_text k none d = d
optional_text k (some t) d = set k (str t) d

abbrev pub name_of : Option Code → Option String
name_of none = none
name_of (some code) = some (code_name code)

-- `as_integrity_entry`
unfoldable pub as_integrity_entry : OutboxEntry → Dict
as_integrity_entry e = optional_text "lastReasonCode" (name_of e.last_reason_code) (
    optional_text "confirmedAt" e.confirmed_at (
      optional_text "transactionRef" e.transaction_ref (
        optional_text "ledgerNetworkId" e.ledger_network_id (
          entry "evidenceId" (str e.evidence_id) (
            entry "subjectRef" (str e.dpp_id) (
              entry "subjectVersion" (int (pos e.subject_version)) (
                entry "canonicalisation" (str "rfc8785") (
                  entry "digestAlgorithm" (str "sha-256") (
                    entry "digestValue" (str e.digest_value) (
                      entry "evidenceState" (str (state_name e.state)) (
                        entry "createdAt" (str e.created_at)
                          (entry "attempts" (int (pos e.attempts)) empty))))))))))))

-- The entries of the outbox that are about a passport.
unfoldable pub integrity_entries : String → List OutboxEntry → Items
integrity_entries id [] = nil
integrity_entries id (e ∷ es) =
    let rest = integrity_entries id es in
    if e.dpp_id == id then cons (obj (as_integrity_entry e)) rest else rest

-- `integrity`
unfoldable pub integrity : String → Principal → Step Reply
integrity id p = do
  lift (require_scope p "integrity.read")
  item ← query (get id)
  found ← lift (json_at "dppId" item)
  version ← lift (json_at "recordVersion" item)
  entries ← query (λ s. ok (integrity_entries id s.outbox))
  lift (
      ok (
        answered false (
          entry "dppId" found
            (entry "recordVersion" version (entry "integrity" (arr entries) empty)))))

-- `view or "sorting"`
abbrev pub view_or_sorting : Option String → Option String
view_or_sorting none = some "sorting"
view_or_sorting (some view) = if view == "" then some "sorting" else some view

-- `resolve`, with the `unquote` of the standard library
unfoldable pub resolve : (String → String) → String → Option String → Principal → Step Reply
resolve unquote carrier_id view p = do
  lift (require_scope p "dpp.resolve")
  item ← query (resolve_carrier (unquote carrier_id))
  selected ← lift (resolve_view p (view_or_sorting view))
  respond selected p item

-- `if_none_match and if_none_match.strip('"') == current.strip('"')`
abbrev pub is_current : Option Text → Text → Bool
is_current none current = false
is_current (some []) current = false
is_current (some (c ∷ t)) current = text_eq (strip_quotes (c ∷ t)) (strip_quotes current)

-- `Response(status_code=304, headers={"ETag": current})`
abbrev pub not_modified : Text → Reply
not_modified current = record {
  status = 304;
  entity_tag = some current;
  location = none;
  no_store = false;
  body = none;
}

abbrev pub read_unless : Bool → Text → Option String → Principal → Dict → Step Reply
read_unless true current view p item = lift (ok (not_modified current))
read_unless false current view p item = do
  selected ← lift (resolve_view p view)
  respond selected p item

-- `get_dpp`
unfoldable pub get_dpp : String → Option String → Option Text → Principal → Step Reply
get_dpp id view if_none_match p = do
  lift (require_scope p "dpp.read")
  item ← query (get id)
  current ← lift (etag item)
  read_unless (is_current if_none_match current) current view p item

-- `health`
abbrev pub health : Reply
health = answered false (entry "status" (str "ok") (entry "schemaVersion" (str "1.0.0") empty))
