-- ===== src/Reasons.antt =====
-- The reason-code catalogue: src/sort4circ_dpp/reasons.py over spec/reason-codes.json.
use sort4circ.Prelude.{ℕ, Bool, true, false, String, List, [], Text}
pub mod Catalogue
pub mod Problems

-- The released codes, in the order of the document, without the prefix `S4C-`.
pub data Code : Type 0 where
  ident_malformed ident_unknown ident_retired ident_ambiguous ident_duplicate_binding : Code
  read_suppressed_duplicate read_weak_signal : Code
  auth_missing_token auth_invalid_token auth_expired_token : Code
  authz_operation_forbidden authz_view_forbidden : Code
  payload_schema_invalid payload_vocab_invalid payload_unit_invalid : Code
  payload_version_unsupported : Code
  state_version_conflict state_idempotency_conflict state_append_only_violation : Code
  state_not_found : Code
  map_no_target_rule map_unit_conversion_failed map_vocab_unmapped : Code
  ledger_unavailable ledger_submit_rejected ledger_timeout_after_broadcast : Code
  ledger_digest_mismatch : Code
  dep_unavailable rate_limited internal_error : Code

-- The keys of `safeActions`.
pub data SafeAction : Type 0 where
  divert divert_and_alert retry_once_then_divert no_command reject_at_client : SafeAction
  quarantine no_effect_on_sorting retry_same_evidence_id reconcile_before_resubmit : SafeAction
  investigate back_off reread_and_reapply : SafeAction

-- The field `httpStatus` of each entry.
unfoldable pub http_status : Code → ℕ
http_status ident_malformed = 400
http_status ident_unknown = 404
http_status ident_retired = 410
http_status ident_ambiguous = 409
http_status ident_duplicate_binding = 409
http_status read_suppressed_duplicate = 200
http_status read_weak_signal = 200
http_status auth_missing_token = 401
http_status auth_invalid_token = 401
http_status auth_expired_token = 401
http_status authz_operation_forbidden = 403
http_status authz_view_forbidden = 403
http_status payload_schema_invalid = 422
http_status payload_vocab_invalid = 422
http_status payload_unit_invalid = 422
http_status payload_version_unsupported = 400
http_status state_version_conflict = 412
http_status state_idempotency_conflict = 409
http_status state_append_only_violation = 422
http_status state_not_found = 404
http_status map_no_target_rule = 422
http_status map_unit_conversion_failed = 422
http_status map_vocab_unmapped = 422
http_status ledger_unavailable = 503
http_status ledger_submit_rejected = 502
http_status ledger_timeout_after_broadcast = 504
http_status ledger_digest_mismatch = 200
http_status dep_unavailable = 503
http_status rate_limited = 429
http_status internal_error = 500

-- The field `safeAction` of each entry.
unfoldable pub safe_action : Code → SafeAction
safe_action ident_malformed = divert
safe_action ident_unknown = divert
safe_action ident_retired = divert
safe_action ident_ambiguous = divert
safe_action ident_duplicate_binding = divert_and_alert
safe_action read_suppressed_duplicate = no_command
safe_action read_weak_signal = divert
safe_action auth_missing_token = divert_and_alert
safe_action auth_invalid_token = divert_and_alert
safe_action auth_expired_token = retry_once_then_divert
safe_action authz_operation_forbidden = divert_and_alert
safe_action authz_view_forbidden = divert_and_alert
safe_action payload_schema_invalid = reject_at_client
safe_action payload_vocab_invalid = reject_at_client
safe_action payload_unit_invalid = reject_at_client
safe_action payload_version_unsupported = reject_at_client
safe_action state_version_conflict = reread_and_reapply
safe_action state_idempotency_conflict = reject_at_client
safe_action state_append_only_violation = reject_at_client
safe_action state_not_found = reject_at_client
safe_action map_no_target_rule = quarantine
safe_action map_unit_conversion_failed = quarantine
safe_action map_vocab_unmapped = quarantine
safe_action ledger_unavailable = no_effect_on_sorting
safe_action ledger_submit_rejected = retry_same_evidence_id
safe_action ledger_timeout_after_broadcast = reconcile_before_resubmit
safe_action ledger_digest_mismatch = investigate
safe_action dep_unavailable = divert
safe_action rate_limited = back_off
safe_action internal_error = divert_and_alert

-- Membership in `DIVERTING_ACTIONS`.
unfoldable pub is_diverting : SafeAction → Bool
is_diverting divert = true
is_diverting divert_and_alert = true
is_diverting retry_once_then_divert = true
is_diverting _ = false

unfoldable pub diverts : Code → Bool
unfolding safe_action is_diverting
diverts code = is_diverting (safe_action code)

-- What the service raises: a `DppError` with its field paths, or an exception of Python or of
-- another class. The human-readable detail is left out.
pub data Error : Type 0 where
  dpp_error : Code → List Text → Error
  canonicalisation_error : Error
  key_error : String → Error
  type_error : Error
  transition_error : Error
  value_error : Error

-- A `DppError` with no `fields`.
abbrev pub raised : Code → Error
raised code = dpp_error code []
