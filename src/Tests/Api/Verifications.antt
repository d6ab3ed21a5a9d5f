-- ===== src/Tests/Api/Verifications.antt =====
-- A verification and the conversion of a reply.
use sort4circ.Prelude.{◌≡◌, ◌≢◌, refl, Result, ok, err, true, Option, none, some, []}
use sort4circ.Reasons.{Error}
use sort4circ.Json.{Dict, empty, entry, str}
use sort4circ.Store.State.{OutboxEntry, queued}
use sort4circ.Store.Reachable.{start, step, created, Reachable-Consistent}
use sort4circ.Ledger
use sort4circ.Ledger.Memory.{InMemoryLedger, memory_adapter}
use sort4circ.Access.{Principal, sorting_operator}
use sort4circ.Store.Append.{value_of}
use sort4circ.Reasons.{value_error}
use sort4circ.Exchange.{Numerals}
use sort4circ.Prelude.{subst}
use sort4circ.Access.{View, sorting_view, full_view}
use sort4circ.Api.Middleware.{respond_as, as_json}
use sort4circ.Api.Formats.{respond_as-projection}
use sort4circ.Api.Integrity.{verify, judged}
use sort4circ.Api.Verification.{verify-recorded}
use sort4circ.Tests.Sample.{sample_env, sample_io, shirt, one_shirt}
use sort4circ.Json.{set_default}
use sort4circ.Json.Shape.{text_at, nat_at}
use sort4circ.Canonical.Serialise.{canonicalise_members}
use sort4circ.Canonical.Projection.{integrity_projection}
use sort4circ.Canonical.Digest.{canonical_bytes, digest}
use sort4circ.Vocab.{validate_record}
use sort4circ.Composition.{check_composition}
use sort4circ.Validation.{validate_schema, validate_payload}
use sort4circ.Store.State.{require, committed, commit, accept}
use sort4circ.Store.Create.{with_defaults, is_registered, create}
use sort4circ.Prelude.{lookup, insert}
use sort4circ.Store.Reads.{get}
use sort4circ.Access.{scopes, require_scope}
use sort4circ.Access.Projection.{observations_for, those, heading, body, sorting_part, project}
use sort4circ.Api.Integrity.{find_entry}
use sort4circ.Tests.Api.{auditor}
use sort4circ.Json.{get?, merge, set}
use sort4circ.Reasons.{ident_retired}
use sort4circ.Reasons.Problems.{problem}
use sort4circ.Api.Middleware.{dpp_error_handler}

abbrev ledger : InMemoryLedger
ledger = record {
  network_id = "example-memory";
  auto_confirm = true;
  fail_next = none;
  receipts = [];
  digests = [];
}

abbrev entry_or : Option OutboxEntry → OutboxEntry → OutboxEntry
entry_or none e = e
entry_or (some f) e = f

abbrev blank : OutboxEntry
blank = record {
  evidence_id = "";
  dpp_id = "";
  subject_version = 0;
  digest_value = "";
  created_at = "";
  state = queued;
  attempts = 0;
  transaction_ref = none;
  ledger_network_id = none;
  confirmed_at = none;
  last_reason_code = none;
}

abbrev question : Dict
question = entry "evidenceId" (str "urn:s4c:1") empty

abbrev evidence : OutboxEntry
evidence = entry_or (find_entry (str "urn:s4c:1") "urn:s4c:1" one_shirt.outbox) blank

known : find_entry (str "urn:s4c:1") "urn:s4c:1" one_shirt.outbox ≡ some evidence
unfolding set_default text_at nat_at canonicalise_members integrity_projection canonical_bytes
    digest validate_record check_composition validate_schema validate_payload committed commit
    accept with_defaults is_registered create lookup find_entry
known = refl

known_question :
    find_entry (value_of "evidenceId" question) "urn:s4c:1" one_shirt.outbox ≡ some evidence
unfolding set_default text_at nat_at canonicalise_members integrity_projection canonical_bytes
    digest validate_record check_composition validate_schema validate_payload committed commit
    accept with_defaults is_registered create lookup find_entry
known_question = refl

may_verify : require_scope auditor "integrity.verify" ≡ ok tt
unfolding scopes require_scope
may_verify = refl

verify-recorded_example :
    verify sample_env (memory_adapter sample_env) "urn:s4c:1" question auditor one_shirt ledger
    ≡ judged sample_env (memory_adapter sample_env) evidence evidence.digest_value (
        Ledger.verify (memory_adapter sample_env) evidence.evidence_id evidence.digest_value ledger)
verify-recorded_example =
    verify-recorded sample_env (memory_adapter sample_env) "urn:s4c:1" question auditor one_shirt
      ledger evidence
      (Reachable-Consistent sample_env one_shirt (step start (created sample_io shirt))) may_verify
      known_question

abbrev numerals : Numerals
numerals = record {
  str_of = λ v. "";
  read_int = λ t. err value_error;
  read_decimal = λ t. err value_error;
}

abbrev operator : Principal
operator = record { subject = "line"; role = sorting_operator; organisation_id = none }

abbrev item_of : Result Error Dict → Dict
item_of (ok d) = d
item_of (err e) = empty

abbrev one_shirt_item : Dict
one_shirt_item = item_of (get "urn:s4c:1" one_shirt)

abbrev sorted_item : Dict
sorted_item = item_of (project one_shirt_item sorting_view operator)

abbrev SortingView : View → Type 0
SortingView sorting_view = Unit
SortingView _ = ⊥

narrower : sorting_view ≢ full_view
narrower e = subst SortingView e tt

sorts : project one_shirt_item sorting_view operator ≡ ok sorted_item
unfolding set_default text_at nat_at canonicalise_members integrity_projection canonical_bytes
    digest validate_record check_composition validate_schema validate_payload require committed
    commit accept with_defaults is_registered create lookup insert get observations_for those
    heading body sorting_part project
sorts = refl

respond_as-projection_example :
    respond_as sample_env numerals true 200 sorted_item ≡ ok (as_json sorted_item)
respond_as-projection_example =
    respond_as-projection sample_env numerals true 200 sorting_view operator one_shirt_item
      sorted_item narrower sorts

-- The refusal of a retired identifier names the passport that supersedes the retired one.
names_successor :
    get? "supersededBy"
      (dpp_error_handler ident_retired [] none
        (entry "supersededBy" (str "urn:s4c:9") empty)
        "/v1"
        "c1").document
    ≡ some (str "urn:s4c:9")
unfolding dpp_error_handler problem get? merge set
names_successor = refl
