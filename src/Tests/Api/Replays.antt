-- ===== src/Tests/Api/Replays.antt =====
-- A repeated request, scoped keys and refused writes.
use sort4circ.Prelude.{◌≡◌, refl, Result, ok, err, false, none, some, []}
use sort4circ.Reasons.{Error, raised, authz_operation_forbidden}
use sort4circ.Json.{empty, entry, str, obj}
use sort4circ.Store.State.{Store, Io}
use sort4circ.Access.{anonymous}
use sort4circ.Auth.{public_only}
use sort4circ.Prelude.{ne_of_eq_false}
use sort4circ.Api.{Reply}
use sort4circ.Api.Writes.{Request, event, post, patch_dpp}
use sort4circ.Api.Replays.{post-replay}
use sort4circ.Api.Refusals.{public_only-refused}
use sort4circ.Api.Scopes.{SameScope, idempotent-scoped_key}
use sort4circ.Tests.Sample.{sample_env, sample_io, shirt, one_shirt, store_or}
use sort4circ.Json.{
  get?, set, remove, set_default, merge, items_append, items_length, keys, select, is_truthy,
  without,
}
use sort4circ.Json.Shape.{dict_or_empty, items_or_empty, text_at, nat_at, as_dict}
use sort4circ.Canonical.Text.{int_text, has_exponent, float_text, escape, escape_all, string_text}
use sort4circ.Canonical.Keys.{char_bytes, utf_16_be, bytes_le, sort_key, insert_member, sorted}
use sort4circ.Canonical.Serialise.{
  join, member_texts, braces, object_text, array_text, canonicalise, canonicalise_items,
  canonicalise_members,
}
use sort4circ.Canonical.Projection.{
  pick_present, pick, pick_observations, add_dict, add_items, integrity_projection,
}
use sort4circ.Canonical.Digest.{canonical_bytes, digest}
use sort4circ.Vocab.{validate_record}
use sort4circ.Composition.{check_composition}
use sort4circ.Validation.{validate_schema, validate_payload}
use sort4circ.Store.State.{require, history_of, committed, commit, accept, after_last_colon, etag}
use sort4circ.Store.Create.{with_defaults, is_registered, create}
use sort4circ.Store.Append.{has_id, append}
use sort4circ.Store.Patch.{
  text_eq, lstrip, rstrip, strip_quotes, check_precondition, patch_member, apply_patch, items_take,
  guard_collection, guard_append_only, next_version, patch,
}
use sort4circ.Store.Carriers.{
  check_owner, is_commissioned, release, replace_one, replace_all, binding_for, set_epc,
  bound_record, bind, admission, commission_carrier,
}
use sort4circ.Prelude.{lookup, insert, erase}
use sort4circ.Prelude.{digits, decimal, utf_8_length}
use sort4circ.Store.Reads.{get, find_version, get_version, resolve_carrier, values}
use sort4circ.Store.Idempotency.{idempotent, remember}
use sort4circ.Access.{
  role_named, role_name, rank, view_named, scopes, default_view, require_scope, resolve_view,
  check_keys, check_patch_paths,
}
use sort4circ.Access.Projection.{
  observation_for, observations_for, those, heading, body, own_events, sorting_part, project,
}
use sort4circ.Auth.{public_only, demo}
use sort4circ.Api.Keys.{ascii_escape, ascii_escapes, quoted, scoped_key}
use sort4circ.Api.Writes.{
  respond, replayed_creation, replayed, once, create_new, create_dpp, event_of, observation_of,
  append_new, add_event, add_observation, commission_new, commission, patch_dpp,
}
use sort4circ.Api.Pages.{
  text_lt, row_lt, insert_row, sort_rows, rows_of, position_after, start_of, project_rows, last_id,
  page_of,
}
use sort4circ.Api.Search.{search, page_body}
use sort4circ.Api.Pagination.{traverse}
use sort4circ.Api.Integrity.{find_entry}
use sort4circ.Tests.Api.{maker, auditor}

abbrev reply_or : Reply → Result Error Reply → Reply
reply_or r (ok q) = q
reply_or r (err e) = r

abbrev no_reply : Reply
no_reply = record { status = 0; entity_tag = none; location = none; no_store = false; body = none }

abbrev worn : Request
worn = event "urn:s4c:1" (entry "eventType" (str "active") empty)

abbrev first_reply : Reply
first_reply = reply_or no_reply (post sample_env sample_io "t5" maker (some "key") worn one_shirt).0

abbrev after_event : Store
after_event = (post sample_env sample_io "t5" maker (some "key") worn one_shirt).1

event_answered :
    post sample_env sample_io "t5" maker (some "key") worn one_shirt ≡ (ok first_reply, after_event)
unfolding set_default items_append text_at nat_at canonicalise_members integrity_projection
    canonical_bytes digest validate_record check_composition validate_schema validate_payload
    require committed commit accept etag with_defaults is_registered create has_id append
    next_version lookup insert idempotent remember scopes require_scope scoped_key once event_of
    append_new add_event
event_answered = refl

event_status : first_reply.status ≡ 201
unfolding set_default items_append text_at nat_at canonicalise_members integrity_projection
    canonical_bytes digest validate_record check_composition validate_schema validate_payload
    require committed commit accept etag with_defaults is_registered create has_id append
    next_version lookup insert idempotent remember scopes require_scope scoped_key once event_of
    append_new add_event
event_status = refl

abbrev later_io : Io
later_io = record { now = λ i. "later"; urn = λ kind. "urn:s4c:9"; monotonic_ms = 9 }

post-replay_example :
    (again : Reply) × (post sample_env later_io "t6" maker (some "key") worn after_event
      ≡ (ok again, after_event))
    × (again.status ≡ first_reply.status)
    × (again.body ≡ first_reply.body)
post-replay_example =
    post-replay sample_env sample_io later_io "t5" "t6" maker "key" worn one_shirt after_event
      first_reply event_answered

key_text :
    scoped_key maker (some "k\"1") "create" ""
    ≡ some "[\"ana\", \"org 1\", \"brand\", \"create\", \"\", \"k\\\"1\"]"
unfolding role_name scoped_key
key_text = refl

abbrev noted : Store
noted = store_or one_shirt (
    remember sample_env (scoped_key maker (some "key") "create" "") (obj shirt) (str "answer")
      one_shirt)

notes :
    remember sample_env
      (scoped_key maker (some "key") "create" "")
      (obj shirt)
      (str "answer")
      one_shirt
    ≡ ok noted
unfolding float_text escape escape_all string_text char_bytes utf_16_be bytes_le sort_key
    insert_member sorted join member_texts braces object_text array_text canonicalise
    canonicalise_items canonicalise_members pick_present release replace_one replace_all binding_for
    set_epc bound_record bind admission commission_carrier lookup insert erase digits decimal
    utf_8_length get find_version get_version resolve_carrier values idempotent remember role_named
    role_name rank view_named scopes default_view require_scope resolve_view check_keys
    check_patch_paths observation_for observations_for those heading body own_events sorting_part
    project public_only demo ascii_escape ascii_escapes quoted scoped_key respond replayed_creation
    replayed once create_new create_dpp event_of observation_of append_new add_event add_observation
    commission_new commission patch_dpp text_lt row_lt insert_row sort_rows rows_of position_after
    start_of project_rows last_id page_of search page_body traverse find_entry
notes = refl

other_scope : ¬ SameScope maker auditor "key" "key" "create" "create" "" ""
other_scope same = ne_of_eq_false "ana" "eva" refl same.subject

idempotent-scoped_key_example :
    idempotent sample_env (scoped_key auditor (some "key") "create" "") (obj shirt) noted
    ≡ idempotent sample_env (scoped_key auditor (some "key") "create" "") (obj shirt) one_shirt
idempotent-scoped_key_example =
    idempotent-scoped_key sample_env maker auditor "key" "key" "create" "create" "" "" (obj shirt)
      (str "answer") (obj shirt) one_shirt noted notes other_scope

claims_nothing : public_only [] ≡ ok anonymous
unfolding get? set remove set_default merge items_append items_length keys select is_truthy without
    dict_or_empty items_or_empty text_at nat_at as_dict int_text has_exponent float_text escape
    escape_all string_text char_bytes utf_16_be bytes_le sort_key insert_member sorted join
    member_texts braces object_text array_text canonicalise canonicalise_items canonicalise_members
    pick_present pick pick_observations add_dict add_items integrity_projection canonical_bytes
    digest validate_record check_composition validate_schema validate_payload require history_of
    committed commit accept after_last_colon etag with_defaults is_registered create has_id append
    text_eq lstrip rstrip strip_quotes check_precondition patch_member apply_patch items_take
    guard_collection guard_append_only next_version patch check_owner is_commissioned release
    replace_one replace_all binding_for set_epc bound_record bind admission commission_carrier
    lookup insert erase digits decimal utf_8_length get find_version get_version resolve_carrier
    values idempotent remember role_named role_name rank view_named scopes default_view
    require_scope resolve_view check_keys check_patch_paths observation_for observations_for those
    heading body own_events sorting_part project public_only demo ascii_escape ascii_escapes quoted
    scoped_key respond replayed_creation replayed once create_new create_dpp event_of observation_of
    append_new add_event add_observation commission_new commission patch_dpp text_lt row_lt
    insert_row sort_rows rows_of position_after start_of project_rows last_id page_of search
    page_body traverse find_entry
claims_nothing = refl

public_only-refused_example :
    (post sample_env sample_io "t" anonymous (some "key") worn one_shirt
      ≡ (err (raised authz_operation_forbidden), one_shirt))
    × (patch_dpp sample_env sample_io "urn:s4c:1" anonymous none shirt one_shirt
        ≡ (err (raised authz_operation_forbidden), one_shirt))
public_only-refused_example =
    public_only-refused sample_env sample_io [] anonymous "t" (some "key") worn "urn:s4c:1" none
      shirt one_shirt claims_nothing
