-- ===== src/Tests/Patches.antt =====
-- Runs of a patch, and instances of its theorems.
use sort4circ.Prelude.{◌≡◌, refl, ok, err, false, some, none, codes}
use sort4circ.Reasons.{raised, state_version_conflict}
use sort4circ.Json.{Dict}
use sort4circ.Store.Reachable.{start, step, created, commissioned, Reachable-Consistent}
use sort4circ.Store.AppendOnly.{Extends, patch-Extends}
use sort4circ.Store.Runs.{more, stop}
use sort4circ.Store.LostUpdates.{patch-once}
use sort4circ.Store.State.{Store}
use sort4circ.Tests.Sample.{
  second_shirt, sample_env, sample_io, shirt, tag, tagged_item, tagged, event_patch, patched_item,
  patched_store,
}
use sort4circ.Json.{
  get?, set, remove, set_default, merge, items_append, items_length, keys, select, is_truthy,
  without,
}
use sort4circ.Json.Shape.{dict_or_empty, items_or_empty, text_at, nat_at, as_dict}
use sort4circ.Json.Equality.{float_eq, dict_length, equal, equal_items, equal_members}
use sort4circ.Canonical.Text.{int_text, has_exponent, float_text, escape, escape_all, string_text}
use sort4circ.Canonical.Keys.{char_bytes, utf_16_be, bytes_le, sort_key, insert_member, sorted}
use sort4circ.Canonical.Serialise.{
  join, member_texts, braces, object_text, array_text, canonicalise, canonicalise_items,
  canonicalise_members,
}
use sort4circ.Canonical.Projection.{
  pick_present, pick, pick_observations, add_dict, add_items, integrity_projection,
}
use sort4circ.Canonical.Digest.{canonical_bytes, digest}
use sort4circ.Vocab.{validate_record}
use sort4circ.Composition.{check_composition}
use sort4circ.Validation.{validate_schema, validate_payload}
use sort4circ.Store.State.{require, history_of, committed, commit, accept, after_last_colon, etag}
use sort4circ.Store.Create.{with_defaults, is_registered, create}
use sort4circ.Store.Patch.{
  text_eq, lstrip, rstrip, strip_quotes, check_precondition, patch_member, apply_patch, items_take,
  guard_collection, guard_append_only, next_version, patch,
}
use sort4circ.Store.Carriers.{
  commission_carrier, admission, check_owner, replace_all, bind, bound_record, binding_for, set_epc,
}
use sort4circ.Prelude.{lookup, insert, erase}
use sort4circ.Prelude.{digits, decimal, utf_8_length}

patches :
    patch sample_env sample_io "urn:s4c:1" event_patch (some (codes "dpp-1-v2")) tagged
    ≡ (ok patched_item, patched_store)
unfolding get? set remove set_default merge items_append items_length keys select is_truthy without
    dict_or_empty items_or_empty text_at nat_at as_dict float_eq dict_length equal equal_items
    equal_members int_text has_exponent float_text escape escape_all string_text char_bytes
    utf_16_be bytes_le sort_key insert_member sorted join member_texts braces object_text array_text
    canonicalise canonicalise_items canonicalise_members pick_present pick pick_observations
    add_dict add_items integrity_projection canonical_bytes digest validate_record check_composition
    validate_schema validate_payload require history_of committed commit accept after_last_colon
    etag with_defaults is_registered create text_eq lstrip rstrip strip_quotes check_precondition
    patch_member apply_patch items_take guard_collection guard_append_only next_version patch
    commission_carrier admission check_owner replace_all bind bound_record binding_for set_epc
    lookup insert erase digits decimal utf_8_length
patches = refl

found : require "urn:s4c:1" tagged ≡ ok tagged_item
unfolding get? set remove set_default merge items_append items_length keys select is_truthy without
    dict_or_empty items_or_empty text_at nat_at as_dict float_eq dict_length equal equal_items
    equal_members int_text has_exponent float_text escape escape_all string_text char_bytes
    utf_16_be bytes_le sort_key insert_member sorted join member_texts braces object_text array_text
    canonicalise canonicalise_items canonicalise_members pick_present pick pick_observations
    add_dict add_items integrity_projection canonical_bytes digest validate_record check_composition
    validate_schema validate_payload require history_of committed commit accept after_last_colon
    etag with_defaults is_registered create text_eq lstrip rstrip strip_quotes check_precondition
    patch_member apply_patch items_take guard_collection guard_append_only next_version patch
    commission_carrier admission check_owner replace_all bind bound_record binding_for set_epc
    lookup insert erase digits decimal utf_8_length
found = refl

patch-Extends_example :
    (old : Dict) × (require "urn:s4c:1" tagged ≡ ok old)
    × Extends "lifecycleEvents" old patched_item
patch-Extends_example =
    patch-Extends sample_env sample_io "urn:s4c:1" event_patch (some (codes "dpp-1-v2")) tagged
      patched_store patched_item "lifecycleEvents" patches refl

names_no_key : get? "dppId" event_patch ≡ none
unfolding get? set remove set_default merge items_append items_length keys select is_truthy without
    dict_or_empty items_or_empty text_at nat_at as_dict float_eq dict_length equal equal_items
    equal_members int_text has_exponent float_text escape escape_all string_text char_bytes
    utf_16_be bytes_le sort_key insert_member sorted join member_texts braces object_text array_text
    canonicalise canonicalise_items canonicalise_members pick_present pick pick_observations
    add_dict add_items integrity_projection canonical_bytes digest validate_record check_composition
    validate_schema validate_payload require history_of committed commit accept after_last_colon
    etag with_defaults is_registered create text_eq lstrip rstrip strip_quotes check_precondition
    patch_member apply_patch items_take guard_collection guard_append_only next_version patch
    commission_carrier admission check_owner replace_all bind bound_record binding_for set_epc
    lookup insert erase digits decimal utf_8_length
names_no_key = refl

no_star : text_eq (strip_quotes (codes "dpp-1-v2")) (codes "*") ≡ false
unfolding get? set remove set_default merge items_append items_length keys select is_truthy without
    dict_or_empty items_or_empty text_at nat_at as_dict float_eq dict_length equal equal_items
    equal_members int_text has_exponent float_text escape escape_all string_text char_bytes
    utf_16_be bytes_le sort_key insert_member sorted join member_texts braces object_text array_text
    canonicalise canonicalise_items canonicalise_members pick_present pick pick_observations
    add_dict add_items integrity_projection canonical_bytes digest validate_record check_composition
    validate_schema validate_payload require history_of committed commit accept after_last_colon
    etag with_defaults is_registered create text_eq lstrip rstrip strip_quotes check_precondition
    patch_member apply_patch items_take guard_collection guard_append_only next_version patch
    commission_carrier admission check_owner replace_all bind bound_record binding_for set_epc
    lookup insert erase digits decimal utf_8_length
no_star = refl

-- The store after a second passport and another carrier.
abbrev later : Store
later =
    (commission_carrier sample_env sample_io "urn:s4c:1" (tag "E2")
      (create sample_env sample_io second_shirt patched_store).1).1

patch-once_example :
    patch sample_env sample_io "urn:s4c:1" shirt (some (codes "dpp-1-v2")) later
    ≡ (err (raised state_version_conflict), later)
patch-once_example =
    patch-once sample_env sample_io sample_io "urn:s4c:1" event_patch shirt (codes "dpp-1-v2")
      tagged patched_store later patched_item
      (Reachable-Consistent sample_env tagged (
        step (step start (created sample_io shirt))
          (commissioned sample_io "urn:s4c:1" (tag "E1"))))
      names_no_key no_star patches
      (more (created sample_io second_shirt)
        (more (commissioned sample_io "urn:s4c:1" (tag "E2")) stop))
