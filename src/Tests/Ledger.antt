-- ===== src/Tests/Ledger.antt =====
-- Runs of the ledger adapters and of the worker, and instances of their theorems.
use sort4circ.Prelude.{
  ◌≡◌, refl, Result, ok, err, String, true, false, Option, none, some, [], List, Text, ℕ, ◌+◌,
  if◌then◌else◌, ◌==◌, inl, inr, ◌⊎◌,
}
use sort4circ.Reasons.{transition_error}
use sort4circ.Json.{Json, Dict, empty, entry, str, obj}
use sort4circ.Store.State.{OutboxEntry, queued, submitted, confirmed}
use sort4circ.Store.Consistent.{Consistent}
use sort4circ.Store.Reachable.{start, step, created, Reachable-Consistent}
use sort4circ.Ledger.{Receipt, Failure, other_error, matches, mismatches, unanchored, unverifiable}
use sort4circ.Ledger.Memory
use sort4circ.Ledger.Memory.{InMemoryLedger}
use sort4circ.Ledger.Besu
use sort4circ.Ledger.Besu.{BesuLedger}
use sort4circ.Ledger.Verdicts.{
  Grounds, memory-repeated, besu-repeated, verify-Grounds, besu-verdict,
}
use sort4circ.Evidence.Drains.{drain-Consistent}
use sort4circ.Evidence.Draining.{process-verify, process-submitted}
use sort4circ.Evidence.Reconciling.{reconciled-confirmed}
use sort4circ.Tests.Sample.{sample_env, sample_io, shirt, one_shirt, text_or_nothing}
use sort4circ.Json.{
  get?, set, remove, set_default, merge, items_append, items_length, keys, select, is_truthy,
  without,
}
use sort4circ.Json.Shape.{dict_or_empty, items_or_empty, text_at, nat_at, as_dict}
use sort4circ.Canonical.Text.{int_text, has_exponent, float_text, escape, escape_all, string_text}
use sort4circ.Canonical.Keys.{char_bytes, utf_16_be, bytes_le, sort_key, insert_member, sorted}
use sort4circ.Canonical.Serialise.{
  join, member_texts, braces, object_text, array_text, canonicalise, canonicalise_items,
  canonicalise_members,
}
use sort4circ.Canonical.Projection.{
  pick_present, pick, pick_observations, add_dict, add_items, integrity_projection,
}
use sort4circ.Canonical.Digest.{canonical_bytes, digest}
use sort4circ.Store.State.{require, history_of, committed, commit, accept, after_last_colon, etag}
use sort4circ.Store.Create.{with_defaults, is_registered, create}
use sort4circ.Prelude.{lookup, insert, erase}
use sort4circ.Prelude.{digits, decimal, utf_8_length}
use sort4circ.Evidence.{
  is_permitted, is_terminal, moved, transition, envelope_for, failed, received, process, visit,
  drain_entries, drain,
}
use sort4circ.Evidence.Reconciling.{
  reconciled, reconcile_entry, reconcile_entries, reconcile, unresolved,
}
use sort4circ.Ledger.{verify}
use sort4circ.Ledger.Memory.{store, new_receipt, memory_adapter}
use sort4circ.Ledger.Besu.{rpc, read_receipt, besu_adapter}

abbrev ledger : InMemoryLedger
ledger = record {
  network_id = "example-memory";
  auto_confirm = true;
  fail_next = none;
  receipts = [];
  digests = [];
}

abbrev entry_one : OutboxEntry
entry_one = record {
  evidence_id = "urn:e:1";
  dpp_id = "urn:s4c:1";
  subject_version = 1;
  digest_value = "157";
  created_at = "t0";
  state = queued;
  attempts = 0;
  transaction_ref = none;
  ledger_network_id = none;
  confirmed_at = none;
  last_reason_code = none;
}

abbrev envelope_text : Text
envelope_text = text_or_nothing (canonicalise sample_env (obj (envelope_for entry_one)))

envelope_canonical : canonicalise sample_env (obj (envelope_for entry_one)) ≡ ok envelope_text
unfolding get? set remove set_default merge items_append items_length keys select is_truthy without
    dict_or_empty items_or_empty text_at nat_at as_dict int_text has_exponent float_text escape
    escape_all string_text char_bytes utf_16_be bytes_le sort_key insert_member sorted join
    member_texts braces object_text array_text canonicalise canonicalise_items canonicalise_members
    pick_present pick pick_observations add_dict add_items integrity_projection canonical_bytes
    digest require history_of committed commit accept after_last_colon etag with_defaults
    is_registered create lookup insert erase digits decimal utf_8_length is_permitted is_terminal
    moved transition envelope_for failed received process visit drain_entries drain reconciled
    reconcile_entry reconcile_entries reconcile unresolved verify store new_receipt memory_adapter
    rpc read_receipt besu_adapter Memory.submit Besu.submit Besu.status
envelope_canonical = refl

nothing_known : lookup "urn:e:1" ledger.receipts ≡ none
unfolding get? set remove set_default merge items_append items_length keys select is_truthy without
    dict_or_empty items_or_empty text_at nat_at as_dict int_text has_exponent float_text escape
    escape_all string_text char_bytes utf_16_be bytes_le sort_key insert_member sorted join
    member_texts braces object_text array_text canonicalise canonicalise_items canonicalise_members
    pick_present pick pick_observations add_dict add_items integrity_projection canonical_bytes
    digest require history_of committed commit accept after_last_colon etag with_defaults
    is_registered create lookup insert erase digits decimal utf_8_length is_permitted is_terminal
    moved transition envelope_for failed received process visit drain_entries drain reconciled
    reconcile_entry reconcile_entries reconcile unresolved verify store new_receipt memory_adapter
    rpc read_receipt besu_adapter Memory.submit Besu.submit Besu.status
nothing_known = refl

process-verify_example :
    (f : OutboxEntry) × (l' : InMemoryLedger) × (process
        (memory_adapter sample_env)
        5
        "now"
        entry_one
        ledger
      ≡ ((none, f), l'))
    × (f.state ≡ confirmed)
    × (f.attempts ≡ entry_one.attempts + 1)
    × (verify (memory_adapter sample_env) "urn:e:1" "158" l'
        ≡ (ok (if entry_one.digest_value == "158" then matches else mismatches), l'))
process-verify_example =
    process-verify sample_env 5 "now" "158" entry_one ledger envelope_text refl refl refl
      nothing_known envelope_canonical

abbrev receipt_or : Receipt → Result Failure Receipt → Receipt
receipt_or r (ok receipt) = receipt
receipt_or r (err e) = r

abbrev no_receipt : Receipt
no_receipt = record {
  evidence_id = "";
  transaction_ref = "";
  network_id = "";
  state = "submitted";
  confirmed_at = none;
  block_ref = none;
  raw = none;
}

abbrev receipt_one : Receipt
receipt_one =
    receipt_or no_receipt (Memory.submit sample_env "urn:e:1" (envelope_for entry_one) ledger).0

abbrev ledger_one : InMemoryLedger
ledger_one = (Memory.submit sample_env "urn:e:1" (envelope_for entry_one) ledger).1

submits :
    Memory.submit sample_env "urn:e:1" (envelope_for entry_one) ledger
    ≡ (ok receipt_one, ledger_one)
unfolding get? set remove set_default merge items_append items_length keys select is_truthy without
    dict_or_empty items_or_empty text_at nat_at as_dict int_text has_exponent float_text escape
    escape_all string_text char_bytes utf_16_be bytes_le sort_key insert_member sorted join
    member_texts braces object_text array_text canonicalise canonicalise_items canonicalise_members
    pick_present pick pick_observations add_dict add_items integrity_projection canonical_bytes
    digest require history_of committed commit accept after_last_colon etag with_defaults
    is_registered create lookup insert erase digits decimal utf_8_length is_permitted is_terminal
    moved transition envelope_for failed received process visit drain_entries drain reconciled
    reconcile_entry reconcile_entries reconcile unresolved verify store new_receipt memory_adapter
    rpc read_receipt besu_adapter Memory.submit Besu.submit Besu.status
submits = refl

memory-repeated_example :
    Memory.submit sample_env "urn:e:1" empty ledger_one ≡ (ok receipt_one, ledger_one)
memory-repeated_example =
    memory-repeated sample_env "urn:e:1" (envelope_for entry_one) empty ledger ledger_one
      receipt_one submits

verifies : verify (memory_adapter sample_env) "urn:e:1" "157" ledger_one ≡ (ok matches, ledger_one)
unfolding get? set remove set_default merge items_append items_length keys select is_truthy without
    dict_or_empty items_or_empty text_at nat_at as_dict int_text has_exponent float_text escape
    escape_all string_text char_bytes utf_16_be bytes_le sort_key insert_member sorted join
    member_texts braces object_text array_text canonicalise canonicalise_items canonicalise_members
    pick_present pick pick_observations add_dict add_items integrity_projection canonical_bytes
    digest require history_of committed commit accept after_last_colon etag with_defaults
    is_registered create lookup insert erase digits decimal utf_8_length is_permitted is_terminal
    moved transition envelope_for failed received process visit drain_entries drain reconciled
    reconcile_entry reconcile_entries reconcile unresolved verify store new_receipt memory_adapter
    rpc read_receipt besu_adapter Memory.submit Besu.submit Besu.status
verifies = refl

verify-Grounds_example :
    (receipt : Option Receipt) × ((memory_adapter sample_env).status "urn:e:1" ledger_one
      ≡ (ok receipt, ledger_one))
    × Grounds receipt
        ((memory_adapter sample_env).anchored_digest "urn:e:1" ledger_one)
        "157"
        matches
verify-Grounds_example =
    verify-Grounds (memory_adapter sample_env) "urn:e:1" "157" ledger_one ledger_one matches
      verifies

-- A node that counts its calls, accepts every transaction and confirms it at the third call.
abbrev node_step : ℕ → String → List Json → Option Dict × ℕ
node_step n method params =
    if method == "eth_sendTransaction"
    then (some (entry "result" (str "0xaa") empty), n + 1)
    else (some (entry "result" (obj (entry "status" (str "0x1") empty)) empty), n + 1)

abbrev besu : BesuLedger ℕ
besu = record {
  node = 0;
  contract_address = "0xc";
  from_address = "0xf";
  network_id = "s4c-besu-ref";
  receipts = [];
  digests = [];
}

abbrev besu_one : BesuLedger ℕ
besu_one = (Besu.submit node_step sample_env "urn:e:1" (envelope_for entry_one) besu).1

abbrev besu_receipt : Receipt
besu_receipt =
    receipt_or no_receipt
      (Besu.submit node_step sample_env "urn:e:1" (envelope_for entry_one) besu).0

besu_submits :
    Besu.submit node_step sample_env "urn:e:1" (envelope_for entry_one) besu
    ≡ (ok besu_receipt, besu_one)
unfolding get? set remove set_default merge items_append items_length keys select is_truthy without
    dict_or_empty items_or_empty text_at nat_at as_dict int_text has_exponent float_text escape
    escape_all string_text char_bytes utf_16_be bytes_le sort_key insert_member sorted join
    member_texts braces object_text array_text canonicalise canonicalise_items canonicalise_members
    pick_present pick pick_observations add_dict add_items integrity_projection canonical_bytes
    digest require history_of committed commit accept after_last_colon etag with_defaults
    is_registered create lookup insert erase digits decimal utf_8_length is_permitted is_terminal
    moved transition envelope_for failed received process visit drain_entries drain reconciled
    reconcile_entry reconcile_entries reconcile unresolved verify store new_receipt memory_adapter
    rpc read_receipt besu_adapter Memory.submit Besu.submit Besu.status
besu_submits = refl

besu-repeated_example :
    Besu.submit node_step sample_env "urn:e:1" empty besu_one ≡ (ok besu_receipt, besu_one)
besu-repeated_example =
    besu-repeated node_step sample_env "urn:e:1" (envelope_for entry_one) empty besu besu_one
      besu_receipt besu_submits

abbrev besu_two : BesuLedger ℕ
besu_two = (Besu.status node_step "urn:e:1" besu_one).1

besu_verifies :
    verify (besu_adapter node_step sample_env) "urn:e:1" "157" besu_one
    ≡ (ok unverifiable, besu_two)
unfolding get? set remove set_default merge items_append items_length keys select is_truthy without
    dict_or_empty items_or_empty text_at nat_at as_dict int_text has_exponent float_text escape
    escape_all string_text char_bytes utf_16_be bytes_le sort_key insert_member sorted join
    member_texts braces object_text array_text canonicalise canonicalise_items canonicalise_members
    pick_present pick pick_observations add_dict add_items integrity_projection canonical_bytes
    digest require history_of committed commit accept after_last_colon etag with_defaults
    is_registered create lookup insert erase digits decimal utf_8_length is_permitted is_terminal
    moved transition envelope_for failed received process visit drain_entries drain reconciled
    reconcile_entry reconcile_entries reconcile unresolved verify store new_receipt memory_adapter
    rpc read_receipt besu_adapter Memory.submit Besu.submit Besu.status
besu_verifies = refl

besu-verdict_example : (unverifiable ≡ unanchored) ⊎ (unverifiable ≡ unverifiable)
besu-verdict_example =
    besu-verdict node_step sample_env "urn:e:1" "157" besu_one besu_two unverifiable besu_verifies

drain-Consistent_example :
    Consistent sample_env (drain (memory_adapter sample_env) 5 "now" one_shirt ledger).1
drain-Consistent_example =
    drain-Consistent (memory_adapter sample_env) 5 "now" sample_env one_shirt ledger
      (Reachable-Consistent sample_env one_shirt (step start (created sample_io shirt)))

abbrev submitted_one : OutboxEntry
submitted_one = record entry_one { state = submitted }

abbrev slow_ledger : InMemoryLedger
slow_ledger =
    (Memory.submit sample_env "urn:e:1" (envelope_for entry_one)
      (record ledger { auto_confirm = false })).1

abbrev slow_receipt : Receipt
slow_receipt =
    receipt_or no_receipt
      (Memory.submit sample_env "urn:e:1" (envelope_for submitted_one) slow_ledger).0

resubmits :
    (memory_adapter sample_env).submit "urn:e:1" (envelope_for submitted_one) slow_ledger
    ≡ (ok slow_receipt, slow_ledger)
unfolding get? set remove set_default merge items_append items_length keys select is_truthy without
    dict_or_empty items_or_empty text_at nat_at as_dict int_text has_exponent float_text escape
    escape_all string_text char_bytes utf_16_be bytes_le sort_key insert_member sorted join
    member_texts braces object_text array_text canonicalise canonicalise_items canonicalise_members
    pick_present pick pick_observations add_dict add_items integrity_projection canonical_bytes
    digest require history_of committed commit accept after_last_colon etag with_defaults
    is_registered create lookup insert erase digits decimal utf_8_length is_permitted is_terminal
    moved transition envelope_for failed received process visit drain_entries drain reconciled
    reconcile_entry reconcile_entries reconcile unresolved verify store new_receipt memory_adapter
    rpc read_receipt besu_adapter Memory.submit Besu.submit Besu.status
resubmits = refl

process-submitted_example :
    process (memory_adapter sample_env) 5 "now" submitted_one slow_ledger
    ≡ ((some (other_error transition_error), submitted_one), slow_ledger)
process-submitted_example =
    process-submitted (memory_adapter sample_env) 5 "now" submitted_one slow_ledger slow_ledger
      slow_receipt refl resubmits

receipt_confirmed : (receipt_one.state == "confirmed") ≡ true
unfolding get? set remove set_default merge items_append items_length keys select is_truthy without
    dict_or_empty items_or_empty text_at nat_at as_dict int_text has_exponent float_text escape
    escape_all string_text char_bytes utf_16_be bytes_le sort_key insert_member sorted join
    member_texts braces object_text array_text canonicalise canonicalise_items canonicalise_members
    pick_present pick pick_observations add_dict add_items integrity_projection canonical_bytes
    digest require history_of committed commit accept after_last_colon etag with_defaults
    is_registered create lookup insert erase digits decimal utf_8_length is_permitted is_terminal
    moved transition envelope_for failed received process visit drain_entries drain reconciled
    reconcile_entry reconcile_entries reconcile unresolved verify store new_receipt memory_adapter
    rpc read_receipt besu_adapter Memory.submit Besu.submit Besu.status
receipt_confirmed = refl

reconciled-confirmed_example :
    (f : OutboxEntry) × (reconciled "now" (some receipt_one) submitted_one ≡ ((none, f), 1))
    × (f.state ≡ confirmed)
    × (f.transaction_ref ≡ some receipt_one.transaction_ref)
    × (f.digest_value ≡ submitted_one.digest_value)
    × (f.attempts ≡ submitted_one.attempts)
reconciled-confirmed_example =
    reconciled-confirmed "now" receipt_one submitted_one (inr (inl refl)) receipt_confirmed
