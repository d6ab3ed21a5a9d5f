-- ===== src/Api/Integrity.antt =====
-- `verify` of src/sort4circ_dpp/api.py: the check of a passport against its anchored digest. What the
-- ledger raises leaves the handler as well.
use sort4circ.Prelude.{
  String, Bool, false, ◌&&◌, Option, none, some, List, [], ◌∷◌, Result, ok, err, if◌then◌else◌,
  ◌==◌,
}
use sort4circ.Prelude.Int.{pos}
use sort4circ.Reasons.{Error, dpp_error, raised, state_not_found}
use sort4circ.Json.{Json, Dict, null, str, int, entry, empty, set}
use sort4circ.Env.{Env}
use sort4circ.Canonical.Digest.{digest}
use sort4circ.Store.State.{Store, OutboxEntry}
use sort4circ.Store.Append.{value_of}
use sort4circ.Store.Reads.{get_version}
use sort4circ.Ledger.{
  Failure, other_error, Adapter, Verdict, matches, mismatches, unanchored, unverifiable,
}
use sort4circ.Ledger
use sort4circ.Access.{Principal, require_scope}

-- `e.evidence_id == evidence_id`, for a value of any type
abbrev pub is_named : Json → OutboxEntry → Bool
is_named (str evidence_id) e = e.evidence_id == evidence_id
is_named _ e = false

-- `next((e for e in store.outbox if …), None)`
unfoldable pub find_entry : Json → String → List OutboxEntry → Option OutboxEntry
find_entry evidence_id id [] = none
find_entry evidence_id id (e ∷ es) =
    let rest = find_entry evidence_id id es in
    if is_named evidence_id e && e.dpp_id == id then some e else rest

abbrev pub verdict_name : Verdict → String
verdict_name matches = "match"
verdict_name mismatches = "mismatch"
verdict_name unanchored = "unanchored"
verdict_name unverifiable = "unverifiable"

abbrev pub text_or_null : Option String → Json
text_or_null none = null
text_or_null (some t) = str t

abbrev pub with_reason : Verdict → Dict → Dict
with_reason mismatches result = set "reasonCode" (str "S4C-LEDGER-DIGEST-MISMATCH") result
with_reason _ result = result

-- `result`
unfoldable pub verification : OutboxEntry → String → Option String → Verdict → Dict
verification e recomputed anchored verdict = with_reason verdict (
    entry "evidenceId" (str e.evidence_id) (
      entry "subjectRef" (str e.dpp_id) (
        entry "subjectVersion" (int (pos e.subject_version)) (
          entry "canonicalisation" (str "rfc8785") (
            entry "digestAlgorithm" (str "sha-256") (
              entry "recomputedDigest" (str recomputed) (
                entry "anchoredDigest" (text_or_null anchored) (
                  entry "ledgerNetworkId" (text_or_null e.ledger_network_id) (
                    entry "transactionRef" (text_or_null e.transaction_ref) (
                      entry "confirmedAt" (text_or_null e.confirmed_at)
                        (entry "verdict" (str (verdict_name verdict)) empty)))))))))))

-- The answer when the version of the evidence is gone.
unfoldable pub unverified : OutboxEntry → Dict
unverified e = entry "evidenceId" (str e.evidence_id) (
    entry "subjectRef" (str e.dpp_id) (
      entry "subjectVersion" (int (pos e.subject_version)) (
        entry "verdict" (str "unverifiable")
          (entry "reasonCode" (str "S4C-STATE-NOT-FOUND") empty))))

module _ {L : Type 0} (env : Env) (adapter : Adapter L) where
  abbrev pub judged : OutboxEntry → String → Result Failure Verdict × L → Result Failure Dict × L
  judged e recomputed (err failure, l) = (err failure, l)
  judged e recomputed (ok verdict, l) =
      (ok (verification e recomputed (adapter.anchored_digest e.evidence_id l) verdict), l)

  -- From the digest on.
  abbrev pub verify_digest : OutboxEntry → Result Error String → L → Result Failure Dict × L
  verify_digest e (err x) l = (err (other_error x), l)
  verify_digest e (ok recomputed) l =
      judged e recomputed (Ledger.verify adapter e.evidence_id recomputed l)

  -- From the lookup of the version on; a `DppError` of it is answered.
  abbrev pub verify_subject : OutboxEntry → Result Error Dict → L → Result Failure Dict × L
  verify_subject e (err (dpp_error code fields)) l = (ok (unverified e), l)
  verify_subject e (err x) l = (err (other_error x), l)
  verify_subject e (ok subject) l = verify_digest e (digest env subject) l

  abbrev pub verify_found : Option OutboxEntry → Store → L → Result Failure Dict × L
  verify_found none s l = (err (other_error (raised state_not_found)), l)
  verify_found (some e) s l = verify_subject e (get_version e.dpp_id e.subject_version s) l

  abbrev pub verify_allowed :
      Result Error (Unit {0}) → String → Dict → Store → L → Result Failure Dict × L
  verify_allowed (err x) id body s l = (err (other_error x), l)
  verify_allowed (ok u) id body s l =
      verify_found (find_entry (value_of "evidenceId" body) id s.outbox) s l

  -- `verify`
  unfoldable pub verify : String → Dict → Principal → Store → L → Result Failure Dict × L
  verify id body p s l = verify_allowed (require_scope p "integrity.verify") id body s l
