-- ===== src/Tests/Store.antt =====
-- Runs of the store, and instances of its theorems.
use sort4circ.Prelude.{none, ◌≡◌, refl, ok, err, some, [], ◌∷◌, codes, lookup, Text, ◌≢◌}
use sort4circ.Reasons.{
  raised, ident_duplicate_binding, ident_retired, dpp_error, payload_vocab_invalid,
  state_idempotency_conflict,
}
use sort4circ.Json.{Items, Dict, arr, str, obj}
use sort4circ.Store.Consistent.{Consistent}
use sort4circ.Store.Commissions.{SameBooks, count_commissioned}
use sort4circ.Store.Bindings.{commission-eq-err}
use sort4circ.Store.Commissioning.{commission_unique}
use sort4circ.Store.State.{Store}
use sort4circ.Store.Ownership
use sort4circ.Store.Ownership.{commission-owned, more, stop}
use sort4circ.Store.Reachable.{
  Reachable, start, step, created, commissioned, Reachable-Consistent, version_at,
  get_version-position,
}
use sort4circ.Store.Retries.{idempotent-remember, idempotent-conflict, text_eq-ne}
use sort4circ.Tests.Sample.{
  second_shirt, sample_env, sample_io, shirt, tag, one_shirt, tagged_item, tagged, second_item,
  two_shirts, bad_tag, after_bad_tag, text_or_nothing, remembering,
}
use sort4circ.Json.{
  get?, set, remove, set_default, merge, items_append, items_length, keys, select, is_truthy,
  without,
}
use sort4circ.Json.Shape.{dict_or_empty, items_or_empty, text_at, nat_at, as_dict}
use sort4circ.Canonical.Text.{int_text, has_exponent, float_text, escape, escape_all, string_text}
use sort4circ.Canonical.Keys.{char_bytes, utf_16_be, bytes_le, sort_key, insert_member, sorted}
use sort4circ.Canonical.Serialise.{
  join, member_texts, braces, object_text, array_text, canonicalise, canonicalise_items,
  canonicalise_members,
}
use sort4circ.Canonical.Projection.{
  pick_present, pick, pick_observations, add_dict, add_items, integrity_projection,
}
use sort4circ.Canonical.Digest.{canonical_bytes, digest}
use sort4circ.Vocab.{validate_record}
use sort4circ.Composition.{check_composition}
use sort4circ.Validation.{validate_schema, validate_payload}
use sort4circ.Store.State.{require, history_of, committed, commit, accept, after_last_colon, etag}
use sort4circ.Store.Create.{with_defaults, is_registered, create}
use sort4circ.Store.Patch.{
  text_eq, lstrip, rstrip, strip_quotes, check_precondition, patch_member, apply_patch, items_take,
  guard_collection, guard_append_only, next_version, patch,
}
use sort4circ.Store.Carriers.{
  check_owner, is_commissioned, release, replace_one, replace_all, binding_for, set_epc,
  bound_record, bind, admission, commission_carrier,
}
use sort4circ.Prelude.{lookup, insert, erase}
use sort4circ.Prelude.{digits, decimal, utf_8_length}
use sort4circ.Store.Reads.{get, find_version, get_version, resolve_carrier, values}
use sort4circ.Store.Idempotency.{idempotent, remember}

commissions :
    commission_carrier sample_env sample_io "urn:s4c:1" (tag "E1") one_shirt
    ≡ (ok tagged_item, tagged)
unfolding set_default items_append text_at nat_at canonicalise_members integrity_projection
    canonical_bytes digest validate_record check_composition validate_schema validate_payload
    require committed commit accept with_defaults is_registered create next_version check_owner
    replace_all binding_for set_epc bound_record bind admission commission_carrier lookup insert
commissions = refl

-- A carrier of an unknown type is refused, but the passport's commissioned carrier is gone.
refuses :
    commission_carrier sample_env sample_io "urn:s4c:1" bad_tag tagged
    ≡ (err (dpp_error payload_vocab_invalid (codes "carriers[1].carrierType" ∷ [])), after_bad_tag)
unfolding set_default items_append text_at nat_at canonicalise_members integrity_projection
    canonical_bytes digest validate_record check_composition validate_schema validate_payload
    require committed commit accept with_defaults is_registered create next_version check_owner
    is_commissioned replace_one replace_all binding_for set_epc bound_record bind admission
    commission_carrier lookup insert
refuses = refl

lost : resolve_carrier "E1" after_bad_tag ≡ err (raised ident_retired)
unfolding set_default items_append text_at nat_at canonicalise_members integrity_projection
    canonical_bytes digest validate_record check_composition validate_schema validate_payload
    require committed commit accept with_defaults is_registered create next_version check_owner
    is_commissioned release replace_one replace_all binding_for set_epc bound_record bind admission
    commission_carrier lookup insert erase resolve_carrier
lost = refl

first_write : Reachable sample_env one_shirt
first_write = step start (created sample_io shirt)

second_write : Reachable sample_env tagged
second_write = step first_write (commissioned sample_io "urn:s4c:1" (tag "E1"))

Reachable-Consistent_example : Consistent sample_env tagged
Reachable-Consistent_example = Reachable-Consistent sample_env tagged second_write

get_version-position_example :
    get_version "urn:s4c:1" 2 tagged ≡ version_at 1 2 (history_of "urn:s4c:1" tagged)
get_version-position_example = get_version-position sample_env "urn:s4c:1" 2 tagged second_write

encoded_identifier : text_at "encodedIdentifier" (tag "E1") ≡ ok "E1"
unfolding select text_at
encoded_identifier = refl

commission_unique_example :
    (carriers : Items) × (get? "carriers" tagged_item ≡ some (arr carriers))
    × (count_commissioned carriers ≡ 1)
    × (lookup "urn:s4c:1" tagged.records ≡ some tagged_item)
    × (lookup "E1" tagged.carrier_index ≡ some "urn:s4c:1")
    × (resolve_carrier "E1" tagged ≡ get "urn:s4c:1" tagged)
commission_unique_example =
    commission_unique sample_env sample_io "urn:s4c:1" (tag "E1") "E1" one_shirt tagged_item tagged
      encoded_identifier (Reachable-Consistent sample_env one_shirt first_write) commissions

second_found : require "urn:s4c:2" two_shirts ≡ ok second_item
unfolding get? set remove set_default merge items_append items_length keys select is_truthy without
    dict_or_empty items_or_empty text_at nat_at as_dict int_text has_exponent float_text escape
    escape_all string_text char_bytes utf_16_be bytes_le sort_key insert_member sorted join
    member_texts braces object_text array_text canonicalise canonicalise_items canonicalise_members
    pick_present pick pick_observations add_dict add_items integrity_projection canonical_bytes
    digest validate_record check_composition validate_schema validate_payload require history_of
    committed commit accept after_last_colon etag with_defaults is_registered create text_eq lstrip
    rstrip strip_quotes check_precondition patch_member apply_patch items_take guard_collection
    guard_append_only next_version patch check_owner is_commissioned release replace_one replace_all
    binding_for set_epc bound_record bind admission commission_carrier lookup insert erase digits
    decimal utf_8_length get find_version get_version resolve_carrier values idempotent remember
second_found = refl

-- The first passport gets another carrier in place of the one with the identifier.
abbrev replaced_store : Store
replaced_store = (commission_carrier sample_env sample_io "urn:s4c:1" (tag "E2") two_shirts).1

tags :
    commission_carrier sample_env sample_io "urn:s4c:1" (tag "E1") one_shirt
    ≡ (ok tagged_item, tagged)
unfolding get? set remove set_default merge items_append items_length keys select is_truthy without
    dict_or_empty items_or_empty text_at nat_at as_dict int_text has_exponent float_text escape
    escape_all string_text char_bytes utf_16_be bytes_le sort_key insert_member sorted join
    member_texts braces object_text array_text canonicalise canonicalise_items canonicalise_members
    pick_present pick pick_observations add_dict add_items integrity_projection canonical_bytes
    digest validate_record check_composition validate_schema validate_payload require history_of
    committed commit accept after_last_colon etag with_defaults is_registered create text_eq lstrip
    rstrip strip_quotes check_precondition patch_member apply_patch items_take guard_collection
    guard_append_only next_version patch check_owner is_commissioned release replace_one replace_all
    binding_for set_epc bound_record bind admission commission_carrier lookup insert erase digits
    decimal utf_8_length get find_version get_version resolve_carrier values idempotent remember
tags = refl

second_kept : require "urn:s4c:2" replaced_store ≡ ok second_item
unfolding get? set remove set_default merge items_append items_length keys select is_truthy without
    dict_or_empty items_or_empty text_at nat_at as_dict int_text has_exponent float_text escape
    escape_all string_text char_bytes utf_16_be bytes_le sort_key insert_member sorted join
    member_texts braces object_text array_text canonicalise canonicalise_items canonicalise_members
    pick_present pick pick_observations add_dict add_items integrity_projection canonical_bytes
    digest validate_record check_composition validate_schema validate_payload require history_of
    committed commit accept after_last_colon etag with_defaults is_registered create text_eq lstrip
    rstrip strip_quotes check_precondition patch_member apply_patch items_take guard_collection
    guard_append_only next_version patch check_owner is_commissioned release replace_one replace_all
    binding_for set_epc bound_record bind admission commission_carrier lookup insert erase digits
    decimal utf_8_length get find_version get_version resolve_carrier values idempotent remember
second_kept = refl

was_replaced : lookup "E1" replaced_store.carrier_index ≡ none
unfolding get? set remove set_default merge items_append items_length keys select is_truthy without
    dict_or_empty items_or_empty text_at nat_at as_dict int_text has_exponent float_text escape
    escape_all string_text char_bytes utf_16_be bytes_le sort_key insert_member sorted join
    member_texts braces object_text array_text canonicalise canonicalise_items canonicalise_members
    pick_present pick pick_observations add_dict add_items integrity_projection canonical_bytes
    digest validate_record check_composition validate_schema validate_payload require history_of
    committed commit accept after_last_colon etag with_defaults is_registered create text_eq lstrip
    rstrip strip_quotes check_precondition patch_member apply_patch items_take guard_collection
    guard_append_only next_version patch check_owner is_commissioned release replace_one replace_all
    binding_for set_epc bound_record bind admission commission_carrier lookup insert erase digits
    decimal utf_8_length get find_version get_version resolve_carrier values idempotent remember
was_replaced = refl

commission-owned_example :
    commission_carrier sample_env sample_io "urn:s4c:2" (tag "E1") replaced_store
    ≡ (err (raised ident_duplicate_binding), replaced_store)
commission-owned_example =
    commission-owned sample_env sample_io sample_io "urn:s4c:1" "urn:s4c:2" "E1" (tag "E1")
      (tag "E1") tagged_item second_item one_shirt tagged replaced_store
      (Reachable-Consistent sample_env one_shirt (step start (created sample_io shirt))) tags
      encoded_identifier
      (more (Ownership.created sample_io second_shirt)
        (more (Ownership.commissioned sample_io (tag "E2")) stop))
      second_kept encoded_identifier refl

commission-eq-err_example : SameBooks tagged after_bad_tag
commission-eq-err_example =
    commission-eq-err sample_env sample_io "urn:s4c:1" bad_tag tagged
      (dpp_error payload_vocab_invalid (codes "carriers[1].carrierType" ∷ [])) after_bad_tag refuses

abbrev request : Dict → Text
request d = text_or_nothing (canonicalise sample_env (obj d))

shirt-request : canonicalise sample_env (obj shirt) ≡ ok (request shirt)
unfolding get? set remove set_default merge items_append items_length keys select is_truthy without
    dict_or_empty items_or_empty text_at nat_at as_dict int_text has_exponent float_text escape
    escape_all string_text char_bytes utf_16_be bytes_le sort_key insert_member sorted join
    member_texts braces object_text array_text canonicalise canonicalise_items canonicalise_members
    pick_present pick pick_observations add_dict add_items integrity_projection canonical_bytes
    digest validate_record check_composition validate_schema validate_payload require history_of
    committed commit accept after_last_colon etag with_defaults is_registered create text_eq lstrip
    rstrip strip_quotes check_precondition patch_member apply_patch items_take guard_collection
    guard_append_only next_version patch check_owner is_commissioned release replace_one replace_all
    binding_for set_epc bound_record bind admission commission_carrier lookup insert erase digits
    decimal utf_8_length get find_version get_version resolve_carrier values idempotent remember
shirt-request = refl

tag-request : canonicalise sample_env (obj (tag "E1")) ≡ ok (request (tag "E1"))
unfolding get? set remove set_default merge items_append items_length keys select is_truthy without
    dict_or_empty items_or_empty text_at nat_at as_dict int_text has_exponent float_text escape
    escape_all string_text char_bytes utf_16_be bytes_le sort_key insert_member sorted join
    member_texts braces object_text array_text canonicalise canonicalise_items canonicalise_members
    pick_present pick pick_observations add_dict add_items integrity_projection canonical_bytes
    digest validate_record check_composition validate_schema validate_payload require history_of
    committed commit accept after_last_colon etag with_defaults is_registered create text_eq lstrip
    rstrip strip_quotes check_precondition patch_member apply_patch items_take guard_collection
    guard_append_only next_version patch check_owner is_commissioned release replace_one replace_all
    binding_for set_epc bound_record bind admission commission_carrier lookup insert erase digits
    decimal utf_8_length get find_version get_version resolve_carrier values idempotent remember
tag-request = refl

remembers : remember sample_env (some "key") (obj shirt) (str "answer") one_shirt ≡ ok remembering
unfolding get? set remove set_default merge items_append items_length keys select is_truthy without
    dict_or_empty items_or_empty text_at nat_at as_dict int_text has_exponent float_text escape
    escape_all string_text char_bytes utf_16_be bytes_le sort_key insert_member sorted join
    member_texts braces object_text array_text canonicalise canonicalise_items canonicalise_members
    pick_present pick pick_observations add_dict add_items integrity_projection canonical_bytes
    digest validate_record check_composition validate_schema validate_payload require history_of
    committed commit accept after_last_colon etag with_defaults is_registered create text_eq lstrip
    rstrip strip_quotes check_precondition patch_member apply_patch items_take guard_collection
    guard_append_only next_version patch check_owner is_commissioned release replace_one replace_all
    binding_for set_epc bound_record bind admission commission_carrier lookup insert erase digits
    decimal utf_8_length get find_version get_version resolve_carrier values idempotent remember
remembers = refl

requests_differ : request shirt ≢ request (tag "E1")
unfolding get? set remove set_default merge items_append items_length keys select is_truthy without
    dict_or_empty items_or_empty text_at nat_at as_dict int_text has_exponent float_text escape
    escape_all string_text char_bytes utf_16_be bytes_le sort_key insert_member sorted join
    member_texts braces object_text array_text canonicalise canonicalise_items canonicalise_members
    pick_present pick pick_observations add_dict add_items integrity_projection canonical_bytes
    digest validate_record check_composition validate_schema validate_payload require history_of
    committed commit accept after_last_colon etag with_defaults is_registered create text_eq lstrip
    rstrip strip_quotes check_precondition patch_member apply_patch items_take guard_collection
    guard_append_only next_version patch check_owner is_commissioned release replace_one replace_all
    binding_for set_epc bound_record bind admission commission_carrier lookup insert erase digits
    decimal utf_8_length get find_version get_version resolve_carrier values idempotent remember
requests_differ = text_eq-ne (request shirt) (request (tag "E1")) refl

idempotent-remember_example :
    idempotent sample_env (some "key") (obj shirt) remembering ≡ ok (some (str "answer"))
idempotent-remember_example =
    idempotent-remember sample_env "key" (obj shirt) (str "answer") one_shirt remembering
      (request shirt) shirt-request remembers (obj shirt) shirt-request

idempotent-conflict_example :
    idempotent sample_env (some "key") (obj (tag "E1")) remembering
    ≡ err (raised state_idempotency_conflict)
idempotent-conflict_example =
    idempotent-conflict sample_env "key" (obj shirt) (str "answer") one_shirt remembering
      (request shirt) shirt-request remembers (obj (tag "E1")) (request (tag "E1")) tag-request
      requests_differ
