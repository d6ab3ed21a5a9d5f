-- ===== src/Ledger/Memory.antt =====
-- src/sort4circ_dpp/ledger/memory.py: the reference adapter.
use Prim.Native.String.{◌++◌}
use sort4circ.Prelude.{
  suc, String, Bool, true, false, Option, none, some, Result, ok, err, Assoc, lookup, insert, Text,
  codes, decimal, utf_8_length, if◌then◌else◌, ◌==◌, length, join_texts,
}
use sort4circ.Prelude.Int.{pos}
use sort4circ.Reasons.{
  Code, Error, key_error, ledger_submit_rejected, ledger_timeout_after_broadcast,
}
use sort4circ.Json.{Json, Dict, str, int, obj, entry, empty, get?}
use sort4circ.Json.Shape.{text_at}
use sort4circ.Env.{Env}
use sort4circ.Canonical.Serialise.{canonicalise}
use sort4circ.Ledger.{Receipt, Failure, ledger_error, other_error, Adapter}

pub record InMemoryLedger : Type 0 where
  pub network_id : String
  pub auto_confirm : Bool
  pub fail_next : Option Code
  pub receipts : Assoc Receipt
  pub digests : Assoc String

-- `envelope.get("createdAt") if state == "confirmed" else None`
abbrev pub confirmation_time : String → Option Json → Option String
confirmation_time state (some (str time)) = if state == "confirmed" then some time else none
confirmation_time state _ = none

-- The receipt that `_store` builds.
unfoldable pub new_receipt : Env → String → Dict → String → Text → InMemoryLedger → Receipt
new_receipt env id envelope state payload l = record {
  evidence_id = id;
  transaction_ref = "0x" ++ env.sha256 (join_texts payload (codes id));
  network_id = l.network_id;
  state = state;
  confirmed_at = confirmation_time state (get? "createdAt" envelope);
  block_ref = some ("block-" ++ decimal (suc (suc (length l.receipts))) (suc (length l.receipts)));
  raw = some (entry "envelopeBytes" (int (pos (utf_8_length payload))) empty);
}

abbrev pub keep_receipt : String → Receipt → InMemoryLedger → InMemoryLedger
keep_receipt id receipt l = record l { receipts = insert id receipt l.receipts }

-- The receipt is kept before the digest of the envelope is read.
abbrev pub keep_digest :
    String
    → Receipt
    → InMemoryLedger
    → Result Error String
    → Result Failure Receipt × InMemoryLedger
keep_digest id receipt l (err e) = (err (other_error e), l)
keep_digest id receipt l (ok hash) = (ok receipt, record l { digests = insert id hash l.digests })

abbrev pub stored_with :
    Env
    → String
    → Dict
    → String
    → InMemoryLedger
    → Result Error Text
    → Result Failure Receipt × InMemoryLedger
stored_with env id envelope state l (err e) = (err (other_error e), l)
stored_with env id envelope state l (ok payload) =
    let receipt = new_receipt env id envelope state payload l in
    keep_digest id receipt (keep_receipt id receipt l) (text_at "digestValue" envelope)

-- `_store`
unfoldable pub store :
    Env → String → Dict → String → InMemoryLedger → Result Failure Receipt × InMemoryLedger
store env id envelope state l =
    stored_with env id envelope state l (canonicalise env (obj envelope))

-- `code == "S4C-LEDGER-TIMEOUT-AFTER-BROADCAST"`
abbrev is_timeout : Code → Bool
is_timeout ledger_timeout_after_broadcast = true
is_timeout _ = false

-- `code != "S4C-LEDGER-SUBMIT-REJECTED"`
abbrev is_retryable : Code → Bool
is_retryable ledger_submit_rejected = false
is_retryable _ = true

abbrev pub failing_with :
    Code → Bool → Result Failure Receipt × InMemoryLedger → Result Failure Receipt × InMemoryLedger
failing_with code retryable (ok _, l) = (err (ledger_error code retryable), l)
failing_with code retryable (err e, l) = (err e, l)

-- The branch of `submit` that an injected failure takes: after a broadcast of unknown outcome the
-- receipt is kept.
abbrev pub fail_with :
    Env
    → Code
    → Bool
    → Bool
    → String
    → Dict
    → InMemoryLedger
    → Result Failure Receipt × InMemoryLedger
fail_with env code retryable true id envelope l =
    failing_with code retryable (store env id envelope "submitted" l)
fail_with env code retryable false id envelope l = (err (ledger_error code retryable), l)

abbrev pub submit_new :
    Env → String → Dict → Option Code → InMemoryLedger → Result Failure Receipt × InMemoryLedger
submit_new env id envelope (some code) l =
    fail_with env code (is_retryable code) (is_timeout code) id envelope
      (record l { fail_next = none })
submit_new env id envelope none l =
    store env id envelope (if l.auto_confirm then "confirmed" else "submitted") l

abbrev pub submit_after :
    Env → String → Dict → Option Receipt → InMemoryLedger → Result Failure Receipt × InMemoryLedger
submit_after env id envelope (some receipt) l = (ok receipt, l)
submit_after env id envelope none l = submit_new env id envelope l.fail_next l

-- `submit`
unfoldable pub submit :
    Env → String → Dict → InMemoryLedger → Result Failure Receipt × InMemoryLedger
submit env id envelope l = submit_after env id envelope (lookup id l.receipts) l

abbrev pub confirmed_with :
    String → String → Option Receipt → InMemoryLedger → Result Failure Receipt × InMemoryLedger
confirmed_with id time none l = (err (other_error (key_error id)), l)
confirmed_with id time (some receipt) l =
    let confirmed = record receipt { state = "confirmed"; confirmed_at = some time } in
    (ok confirmed, record l { receipts = insert id confirmed l.receipts })

-- `confirm`
unfoldable pub confirm : String → String → InMemoryLedger → Result Failure Receipt × InMemoryLedger
confirm id time l = confirmed_with id time (lookup id l.receipts) l

unfoldable pub memory_adapter : Env → Adapter InMemoryLedger
memory_adapter env = record {
  submit = submit env;
  status = λ id l. (ok (lookup id l.receipts), l);
  anchored_digest = λ id l. lookup id l.digests;
}
