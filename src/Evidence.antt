-- ===== src/Evidence.antt =====
-- src/sort4circ_dpp/evidence.py: the table of transitions, and the worker that drains the outbox of
-- the store onto a ledger. Entries are mutable, so a step gives the entry beside what it raised.
use sort4circ.Prelude.{
  ℕ, suc, ◌+◌, String, Bool, true, false, Option, none, some, List, [], ◌∷◌, Result, ok, err, ◌==◌,
  ltb, not, if◌then◌else◌, leb, Assoc, lookup, insert,
}
use sort4circ.Prelude.Int.{pos}
use sort4circ.Reasons.{Code, Error, transition_error}
use sort4circ.Json.{Json, Dict, str, int, entry, empty}
use sort4circ.Store.State.{
  EvidenceState, created, queued, submitted, retryable_failed, confirmed, terminal_failed,
  OutboxEntry, Store,
}
use sort4circ.Ledger.{Receipt, Failure, ledger_error, other_error, Adapter}
pub mod Traces
pub mod Drains
pub mod Draining
pub mod Reconciling
pub mod Histogram

-- `new in TRANSITIONS[old]`
unfoldable pub is_permitted : EvidenceState → EvidenceState → Bool
is_permitted created queued = true
is_permitted queued submitted = true
is_permitted queued retryable_failed = true
is_permitted queued terminal_failed = true
is_permitted submitted confirmed = true
is_permitted submitted retryable_failed = true
is_permitted submitted terminal_failed = true
is_permitted retryable_failed queued = true
is_permitted retryable_failed terminal_failed = true
is_permitted _ _ = false

-- `state in TERMINAL_STATES`
unfoldable pub is_terminal : EvidenceState → Bool
is_terminal confirmed = true
is_terminal terminal_failed = true
is_terminal _ = false

-- The writes of `transition`.
unfoldable pub moved : EvidenceState → Option Code → OutboxEntry → OutboxEntry
moved submitted code e = record e {
  state = submitted;
  last_reason_code = code;
  attempts = e.attempts + 1;
}
moved new code e = record e { state = new; last_reason_code = code }

-- `transition`
unfoldable pub transition : EvidenceState → Option Code → OutboxEntry → Result Failure OutboxEntry
transition new code e =
    if is_permitted e.state new then ok (moved new code e) else err (other_error transition_error)

-- `envelope_for`
unfoldable pub envelope_for : OutboxEntry → Dict
envelope_for e = entry "evidenceId" (str e.evidence_id) (
    entry "subjectRef" (str e.dpp_id) (
      entry "subjectVersion" (int (pos e.subject_version)) (
        entry "canonicalisation" (str "rfc8785") (
          entry "digestAlgorithm" (str "sha-256") (
            entry "digestValue" (str e.digest_value)
              (entry "createdAt" (str e.created_at) empty))))))

-- `receipt.confirmed_at or utcnow()`
abbrev pub time_or_now : String → Option String → String
time_or_now now none = now
time_or_now now (some t) = if t == "" then now else t

-- What a step raised, if it did, and the entry as the step left it.
abbrev pub Outcome : Type 0
Outcome = Option Failure × OutboxEntry

-- An entry whose transition was refused stays as it was.
abbrev pub and_next : OutboxEntry → Result Failure OutboxEntry → (OutboxEntry → Outcome) → Outcome
and_next e (err x) next = (some x, e)
and_next e (ok e') next = next e'

abbrev pub is_queued : EvidenceState → Bool
is_queued queued = true
is_queued _ = false

-- The handler of a `LedgerError`.
unfoldable pub failed : Code → Bool → OutboxEntry → OutboxEntry
failed code retryable e =
    let counted = record e { attempts = e.attempts + 1 } in
    if is_queued e.state
    then record counted {
      state = if retryable then retryable_failed else terminal_failed;
      last_reason_code = some code;
    }
    else counted

abbrev pub confirm_entry : String → Receipt → OutboxEntry → Outcome
confirm_entry now receipt e =
    and_next e (transition confirmed none e)
      λ e'. (none, record e' { confirmed_at = some (time_or_now now receipt.confirmed_at) })

abbrev pub with_receipt : Receipt → OutboxEntry → OutboxEntry
with_receipt receipt e = record e {
  transaction_ref = some receipt.transaction_ref;
  ledger_network_id = some receipt.network_id;
}

-- What follows `self.ledger.submit`.
unfoldable pub received : String → Result Failure Receipt → OutboxEntry → Outcome
received now (err (ledger_error code retryable)) e = (none, failed code retryable e)
received now (err x) e = (some x, e)
received now (ok receipt) e = and_next e (transition submitted none e) λ e'.
    if receipt.state == "confirmed"
    then confirm_entry now receipt (with_receipt receipt e')
    else (none, with_receipt receipt e')

module _ {L : Type 0} (adapter : Adapter L) (max_attempts : ℕ) (now : String) where
  abbrev pub submit_entry : OutboxEntry → L → Outcome × L
  submit_entry e l =
      let (r, l') = adapter.submit e.evidence_id (envelope_for e) l in (received now r e, l')

  abbrev pub submit_queued : OutboxEntry → Result Failure OutboxEntry → L → Outcome × L
  submit_queued e (err x) l = ((some x, e), l)
  submit_queued e (ok e') l = submit_entry e' l

  -- `_process`, by the state of the entry
  abbrev pub process_in : EvidenceState → OutboxEntry → L → Outcome × L
  process_in retryable_failed e l =
      if leb max_attempts e.attempts
      then (and_next e (transition terminal_failed e.last_reason_code e) (λ e'. (none, e')), l)
      else submit_queued e (transition queued none e) l
  process_in _ e l = submit_entry e l

  -- `_process`
  unfoldable pub process : OutboxEntry → L → Outcome × L
  process e l = process_in e.state e l

  -- The loop body of `drain`.
  unfoldable pub visit : OutboxEntry → L → Outcome × L
  visit e l = if is_terminal e.state then ((none, e), l) else process e l

  abbrev pub drain_rest :
      Outcome × L
      → List OutboxEntry
      → (L → (Option Failure × List OutboxEntry) × L)
      → (Option Failure × List OutboxEntry) × L
  drain_rest ((some x, e), l) rest next = ((some x, e ∷ rest), l)
  drain_rest ((none, e), l) rest next = let ((x, es), l') = next l in ((x, e ∷ es), l')

  -- The loop of `drain`: an exception leaves the entries that follow.
  unfoldable pub drain_entries : List OutboxEntry → L → (Option Failure × List OutboxEntry) × L
  drain_entries [] l = ((none, []), l)
  drain_entries (e ∷ es) l = drain_rest (visit e l) es (drain_entries es)

  -- `drain`
  unfoldable pub drain : Store → L → Option Failure × Store × L
  drain s l = let ((x, es), l') = drain_entries s.outbox l in (x, record s { outbox = es }, l')
