-- ===== src/Tests/ReadIndex.antt =====
-- Runs of the read index, and instances of its theorems.
use sort4circ.Prelude.{◌≡◌, ◌+◌, ◌*◌, refl, Result, ok, err, true, false, some, []}
use sort4circ.Prelude.Int.{pos}
use sort4circ.Reasons.{Error}
use sort4circ.Json.{Dict, empty, int}
use sort4circ.ReadIndex.{ReadIndex, Entry}
use sort4circ.ReadIndex.Freshness.{sorting_view-agrees}
use sort4circ.Tests.Sample.{shirt_item, one_shirt}
use sort4circ.Json.{
  get?, set, remove, set_default, merge, items_append, items_length, keys, select, is_truthy,
  without,
}
use sort4circ.Json.Shape.{dict_or_empty, items_or_empty, text_at, nat_at, as_dict}
use sort4circ.ReadIndex.{
  summaries, sorting_record, project_record, on_commit, project_all, attach, backlog_ms, lag_of,
  strong_view, sorting_view, tick, round_ms,
}
use sort4circ.Canonical.Text.{int_text, has_exponent, float_text, escape, escape_all, string_text}
use sort4circ.Canonical.Keys.{char_bytes, utf_16_be, bytes_le, sort_key, insert_member, sorted}
use sort4circ.Canonical.Serialise.{
  join, member_texts, braces, object_text, array_text, canonicalise, canonicalise_items,
  canonicalise_members,
}
use sort4circ.Canonical.Projection.{
  pick_present, pick, pick_observations, add_dict, add_items, integrity_projection,
}
use sort4circ.Canonical.Digest.{canonical_bytes, digest}
use sort4circ.Vocab.{validate_record}
use sort4circ.Composition.{check_composition}
use sort4circ.Validation.{validate_schema, validate_payload}
use sort4circ.Store.State.{require, history_of, committed, commit, accept, after_last_colon, etag}
use sort4circ.Store.Create.{with_defaults, is_registered, create}
use sort4circ.Store.Reads.{get, values}
use sort4circ.Prelude.{lookup, insert, erase}
use sort4circ.Prelude.{digits, decimal, utf_8_length}

abbrev index : ReadIndex
index = record { max_lag_ms = some 500; lag_ms = 0; entries = []; caught_up_at_ms = 0 }

abbrev index_or : ReadIndex → Result Error ReadIndex → ReadIndex
index_or ix (ok jx) = jx
index_or ix (err e) = ix

abbrev index_after : ReadIndex
index_after = index_or index (on_commit "urn:s4c:1" 9 one_shirt index)

abbrev view_or_nothing : Result Error Dict → Dict
view_or_nothing (ok d) = d
view_or_nothing (err e) = empty

abbrev fast : Dict
fast = view_or_nothing (sorting_view "urn:s4c:1" false one_shirt index_after)

abbrev slow : Dict
slow = view_or_nothing (sorting_view "urn:s4c:1" true one_shirt index_after)

abbrev entry_after : Entry
entry_after = record {
  record_version = int (pos 1);
  committed_at_ms = 7;
  generated_at_ms = 9;
  payload = view_or_nothing (sorting_record shirt_item);
}

handles : on_commit "urn:s4c:1" 9 one_shirt index ≡ ok index_after
unfolding get? set remove set_default merge items_append items_length keys select is_truthy without
    dict_or_empty items_or_empty text_at nat_at as_dict summaries sorting_record project_record
    on_commit project_all attach backlog_ms lag_of round_ms strong_view sorting_view int_text
    has_exponent float_text escape escape_all string_text char_bytes utf_16_be bytes_le sort_key
    insert_member sorted join member_texts braces object_text array_text canonicalise
    canonicalise_items canonicalise_members pick_present pick pick_observations add_dict add_items
    integrity_projection canonical_bytes digest validate_record check_composition validate_schema
    validate_payload require history_of committed commit accept after_last_colon etag with_defaults
    is_registered create get values lookup insert erase digits decimal utf_8_length
handles = refl

serves : sorting_view "urn:s4c:1" false one_shirt index_after ≡ ok fast
unfolding get? set remove set_default merge items_append items_length keys select is_truthy without
    dict_or_empty items_or_empty text_at nat_at as_dict summaries sorting_record project_record
    on_commit project_all attach backlog_ms lag_of round_ms strong_view sorting_view int_text
    has_exponent float_text escape escape_all string_text char_bytes utf_16_be bytes_le sort_key
    insert_member sorted join member_texts braces object_text array_text canonicalise
    canonicalise_items canonicalise_members pick_present pick pick_observations add_dict add_items
    integrity_projection canonical_bytes digest validate_record check_composition validate_schema
    validate_payload require history_of committed commit accept after_last_colon etag with_defaults
    is_registered create get values lookup insert erase digits decimal utf_8_length
serves = refl

serves_strong : sorting_view "urn:s4c:1" true one_shirt index_after ≡ ok slow
unfolding get? set remove set_default merge items_append items_length keys select is_truthy without
    dict_or_empty items_or_empty text_at nat_at as_dict summaries sorting_record project_record
    on_commit project_all attach backlog_ms lag_of round_ms strong_view sorting_view int_text
    has_exponent float_text escape escape_all string_text char_bytes utf_16_be bytes_le sort_key
    insert_member sorted join member_texts braces object_text array_text canonicalise
    canonicalise_items canonicalise_members pick_present pick pick_observations add_dict add_items
    integrity_projection canonical_bytes digest validate_record check_composition validate_schema
    validate_payload require history_of committed commit accept after_last_colon etag with_defaults
    is_registered create get values lookup insert erase digits decimal utf_8_length
serves_strong = refl

stored : lookup "urn:s4c:1" one_shirt.records ≡ some shirt_item
unfolding get? set remove set_default merge items_append items_length keys select is_truthy without
    dict_or_empty items_or_empty text_at nat_at as_dict summaries sorting_record project_record
    on_commit project_all attach backlog_ms lag_of round_ms strong_view sorting_view int_text
    has_exponent float_text escape escape_all string_text char_bytes utf_16_be bytes_le sort_key
    insert_member sorted join member_texts braces object_text array_text canonicalise
    canonicalise_items canonicalise_members pick_present pick pick_observations add_dict add_items
    integrity_projection canonical_bytes digest validate_record check_composition validate_schema
    validate_payload require history_of committed commit accept after_last_colon etag with_defaults
    is_registered create get values lookup insert erase digits decimal utf_8_length
stored = refl

named : text_at "dppId" shirt_item ≡ ok "urn:s4c:1"
unfolding get? set remove set_default merge items_append items_length keys select is_truthy without
    dict_or_empty items_or_empty text_at nat_at as_dict summaries sorting_record project_record
    on_commit project_all attach backlog_ms lag_of round_ms strong_view sorting_view int_text
    has_exponent float_text escape escape_all string_text char_bytes utf_16_be bytes_le sort_key
    insert_member sorted join member_texts braces object_text array_text canonicalise
    canonicalise_items canonicalise_members pick_present pick pick_observations add_dict add_items
    integrity_projection canonical_bytes digest validate_record check_composition validate_schema
    validate_payload require history_of committed commit accept after_last_colon etag with_defaults
    is_registered create get values lookup insert erase digits decimal utf_8_length
named = refl

-- Two readings, one and a half and two and a half milliseconds: both are reported as two.
rounds_half : (round_ms (tick + 524288) ≡ 2) × (round_ms (2 * tick + 524288) ≡ 2)
unfolding round_ms
rounds_half = (refl, refl)

sorting_view-agrees_example : get? "recordVersion" fast ≡ get? "recordVersion" slow
sorting_view-agrees_example =
    sorting_view-agrees "urn:s4c:1" "recordVersion" 9 one_shirt index index_after shirt_item fast
      slow stored named handles serves serves_strong refl refl
