-- ===== src/Reasons/Catalogue.antt =====
-- The texts of the reason-code catalogue spec/reason-codes.json as
-- `catalogue` of src/sort4circ_dpp/reasons.py reads them.
use sort4circ.Prelude.{String}
use sort4circ.Reasons.{
  Code, SafeAction, ident_malformed, ident_unknown, ident_retired, ident_ambiguous,
  ident_duplicate_binding, read_suppressed_duplicate, read_weak_signal, auth_missing_token,
  auth_invalid_token, auth_expired_token, authz_operation_forbidden, authz_view_forbidden,
  payload_schema_invalid, payload_vocab_invalid, payload_unit_invalid, payload_version_unsupported,
  state_version_conflict, state_idempotency_conflict, state_append_only_violation, state_not_found,
  map_no_target_rule, map_unit_conversion_failed, map_vocab_unmapped, ledger_unavailable,
  ledger_submit_rejected, ledger_timeout_after_broadcast, ledger_digest_mismatch, dep_unavailable,
  rate_limited, internal_error, back_off, divert, divert_and_alert, investigate, no_command,
  no_effect_on_sorting, quarantine, reconcile_before_resubmit, reject_at_client, reread_and_reapply,
  retry_once_then_divert, retry_same_evidence_id,
}

-- The field `code`.
unfoldable pub code_name : Code → String
code_name ident_malformed = "S4C-IDENT-MALFORMED"
code_name ident_unknown = "S4C-IDENT-UNKNOWN"
code_name ident_retired = "S4C-IDENT-RETIRED"
code_name ident_ambiguous = "S4C-IDENT-AMBIGUOUS"
code_name ident_duplicate_binding = "S4C-IDENT-DUPLICATE-BINDING"
code_name read_suppressed_duplicate = "S4C-READ-SUPPRESSED-DUPLICATE"
code_name read_weak_signal = "S4C-READ-WEAK-SIGNAL"
code_name auth_missing_token = "S4C-AUTH-MISSING-TOKEN"
code_name auth_invalid_token = "S4C-AUTH-INVALID-TOKEN"
code_name auth_expired_token = "S4C-AUTH-EXPIRED-TOKEN"
code_name authz_operation_forbidden = "S4C-AUTHZ-OPERATION-FORBIDDEN"
code_name authz_view_forbidden = "S4C-AUTHZ-VIEW-FORBIDDEN"
code_name payload_schema_invalid = "S4C-PAYLOAD-SCHEMA-INVALID"
code_name payload_vocab_invalid = "S4C-PAYLOAD-VOCAB-INVALID"
code_name payload_unit_invalid = "S4C-PAYLOAD-UNIT-INVALID"
code_name payload_version_unsupported = "S4C-PAYLOAD-VERSION-UNSUPPORTED"
code_name state_version_conflict = "S4C-STATE-VERSION-CONFLICT"
code_name state_idempotency_conflict = "S4C-STATE-IDEMPOTENCY-CONFLICT"
code_name state_append_only_violation = "S4C-STATE-APPEND-ONLY-VIOLATION"
code_name state_not_found = "S4C-STATE-NOT-FOUND"
code_name map_no_target_rule = "S4C-MAP-NO-TARGET-RULE"
code_name map_unit_conversion_failed = "S4C-MAP-UNIT-CONVERSION-FAILED"
code_name map_vocab_unmapped = "S4C-MAP-VOCAB-UNMAPPED"
code_name ledger_unavailable = "S4C-LEDGER-UNAVAILABLE"
code_name ledger_submit_rejected = "S4C-LEDGER-SUBMIT-REJECTED"
code_name ledger_timeout_after_broadcast = "S4C-LEDGER-TIMEOUT-AFTER-BROADCAST"
code_name ledger_digest_mismatch = "S4C-LEDGER-DIGEST-MISMATCH"
code_name dep_unavailable = "S4C-DEP-UNAVAILABLE"
code_name rate_limited = "S4C-RATE-LIMITED"
code_name internal_error = "S4C-INTERNAL-ERROR"

-- The field `condition`.
unfoldable pub condition : Code → String
condition ident_malformed = "Identifier fails syntax or check-digit validation."
condition ident_unknown = "Well-formed identifier with no passport."
condition ident_retired = "Passport retired; successor returned where present."
condition ident_ambiguous = "More than one tag read within the zone window."
condition ident_duplicate_binding = "One identifier resolves to two active passports."
condition read_suppressed_duplicate = "Repeat read inside the suppression window."
condition read_weak_signal = "Read below the configured confidence floor."
condition auth_missing_token = "No credential presented."
condition auth_invalid_token = "Signature, issuer or audience invalid."
condition auth_expired_token = "Token outside the stated validity window."
condition authz_operation_forbidden = "Caller lacks the required scope."
condition authz_view_forbidden = "Caller may not receive the requested view."
condition payload_schema_invalid = "Body fails schema validation; failing paths returned."
condition payload_vocab_invalid = "Coded value outside the declared vocabulary version."
condition payload_unit_invalid = "Unit missing or not permitted for the quantity."
condition payload_version_unsupported = "Schema version not served."
condition state_version_conflict = "If-Match does not equal the current record version."
condition state_idempotency_conflict = "Same idempotency key, different request body."
condition state_append_only_violation = "Attempt to remove an append-only entry."
condition state_not_found = "The addressed resource does not exist."
condition map_no_target_rule = "Source field has no approved mapping."
condition map_unit_conversion_failed = "Conversion undefined or out of range."
condition map_vocab_unmapped = "Source term absent from the mapping table."
condition ledger_unavailable = "Ledger endpoint unreachable."
condition ledger_submit_rejected = "Transaction rejected by the network."
condition ledger_timeout_after_broadcast = "Outcome unknown after broadcast."
condition ledger_digest_mismatch = "Recomputed digest differs from the anchored value."
condition dep_unavailable = "A dependency needed for the operation is unavailable."
condition rate_limited = "Caller exceeded the applicable quota."
condition internal_error = "Unclassified server fault."

-- The field `type`.
unfoldable pub type_uri : Code → String
type_uri ident_malformed = "https://data.sort4circ.eu/problems/s4c-ident-malformed"
type_uri ident_unknown = "https://data.sort4circ.eu/problems/s4c-ident-unknown"
type_uri ident_retired = "https://data.sort4circ.eu/problems/s4c-ident-retired"
type_uri ident_ambiguous = "https://data.sort4circ.eu/problems/s4c-ident-ambiguous"
type_uri ident_duplicate_binding = "https://data.sort4circ.eu/problems/s4c-ident-duplicate-binding"
type_uri read_suppressed_duplicate =
    "https://data.sort4circ.eu/problems/s4c-read-suppressed-duplicate"
type_uri read_weak_signal = "https://data.sort4circ.eu/problems/s4c-read-weak-signal"
type_uri auth_missing_token = "https://data.sort4circ.eu/problems/s4c-auth-missing-token"
type_uri auth_invalid_token = "https://data.sort4circ.eu/problems/s4c-auth-invalid-token"
type_uri auth_expired_token = "https://data.sort4circ.eu/problems/s4c-auth-expired-token"
type_uri authz_operation_forbidden =
    "https://data.sort4circ.eu/problems/s4c-authz-operation-forbidden"
type_uri authz_view_forbidden = "https://data.sort4circ.eu/problems/s4c-authz-view-forbidden"
type_uri payload_schema_invalid = "https://data.sort4circ.eu/problems/s4c-payload-schema-invalid"
type_uri payload_vocab_invalid = "https://data.sort4circ.eu/problems/s4c-payload-vocab-invalid"
type_uri payload_unit_invalid = "https://data.sort4circ.eu/problems/s4c-payload-unit-invalid"
type_uri payload_version_unsupported =
    "https://data.sort4circ.eu/problems/s4c-payload-version-unsupported"
type_uri state_version_conflict = "https://data.sort4circ.eu/problems/s4c-state-version-conflict"
type_uri state_idempotency_conflict =
    "https://data.sort4circ.eu/problems/s4c-state-idempotency-conflict"
type_uri state_append_only_violation =
    "https://data.sort4circ.eu/problems/s4c-state-append-only-violation"
type_uri state_not_found = "https://data.sort4circ.eu/problems/s4c-state-not-found"
type_uri map_no_target_rule = "https://data.sort4circ.eu/problems/s4c-map-no-target-rule"
type_uri map_unit_conversion_failed =
    "https://data.sort4circ.eu/problems/s4c-map-unit-conversion-failed"
type_uri map_vocab_unmapped = "https://data.sort4circ.eu/problems/s4c-map-vocab-unmapped"
type_uri ledger_unavailable = "https://data.sort4circ.eu/problems/s4c-ledger-unavailable"
type_uri ledger_submit_rejected = "https://data.sort4circ.eu/problems/s4c-ledger-submit-rejected"
type_uri ledger_timeout_after_broadcast =
    "https://data.sort4circ.eu/problems/s4c-ledger-timeout-after-broadcast"
type_uri ledger_digest_mismatch = "https://data.sort4circ.eu/problems/s4c-ledger-digest-mismatch"
type_uri dep_unavailable = "https://data.sort4circ.eu/problems/s4c-dep-unavailable"
type_uri rate_limited = "https://data.sort4circ.eu/problems/s4c-rate-limited"
type_uri internal_error = "https://data.sort4circ.eu/problems/s4c-internal-error"

abbrev pub action_name : SafeAction → String
action_name divert = "divert"
action_name divert_and_alert = "divertAndAlert"
action_name retry_once_then_divert = "retryOnceThenDivert"
action_name no_command = "noCommand"
action_name reject_at_client = "rejectAtClient"
action_name quarantine = "quarantine"
action_name no_effect_on_sorting = "noEffectOnSorting"
action_name retry_same_evidence_id = "retrySameEvidenceId"
action_name reconcile_before_resubmit = "reconcileBeforeResubmit"
action_name investigate = "investigate"
action_name back_off = "backOff"
action_name reread_and_reapply = "rereadAndReapply"
