-- ===== src/Evidence/Traces.antt =====
-- The states that one visit of the worker leads an entry to.
use sort4circ.Prelude.{
  ℕ, String, Bool, true, false, Option, none, ◌≡◌, refl, Result, ok, err, ◌==◌, if◌then◌else◌,
  Bool-cases, inl, inr, leb,
}
use sort4circ.Reasons.{Code}
use sort4circ.Store.State.{
  EvidenceState, created, queued, submitted, retryable_failed, confirmed, terminal_failed,
  OutboxEntry,
}
use sort4circ.Ledger.{Receipt, Failure, ledger_error, other_error, Adapter}
use sort4circ.Evidence.{
  is_permitted, is_terminal, moved, transition, failed, received, confirm_entry, with_receipt,
  Outcome, and_next, submit_entry, is_queued, submit_queued, process_in, process, visit,
}

-- A finite run through the table of transitions.
pub data Moves : EvidenceState → EvidenceState → Type 0 where
  stay : {a : EvidenceState} → Moves a a
  move : {a b c : EvidenceState} → is_permitted a b ≡ true → Moves b c → Moves a c

Moves-trans : {a b c : EvidenceState} → Moves a b → Moves b c → Moves a c
Moves-trans stay q = q
Moves-trans (move p m) q = move p (Moves-trans m q)

-- The same evidence, at a state that the table leads to.
pub record Advances (e f : OutboxEntry) : Type 0 where
  pub moves : Moves e.state f.state
  pub evidence_id : f.evidence_id ≡ e.evidence_id
  pub dpp_id : f.dpp_id ≡ e.dpp_id
  pub subject_version : f.subject_version ≡ e.subject_version
  pub digest_value : f.digest_value ≡ e.digest_value

pub Advances-refl : (e : OutboxEntry) → Advances e e
Advances-refl e = record {
  moves = stay;
  evidence_id = refl;
  dpp_id = refl;
  subject_version = refl;
  digest_value = refl;
}

Advances-trans : {e f g : OutboxEntry} → Advances e f → Advances f g → Advances e g
Advances-trans a b = record {
  moves = Moves-trans a.moves b.moves;
  evidence_id = cc (a.evidence_id, b.evidence_id);
  dpp_id = cc (a.dpp_id, b.dpp_id);
  subject_version = cc (a.subject_version, b.subject_version);
  digest_value = cc (a.digest_value, b.digest_value);
}

moved-Advances :
    (new : EvidenceState) (code : Option Code) (e : OutboxEntry)
    → is_permitted e.state new ≡ true
    → Advances e (moved new code e)
unfolding moved
moved-Advances submitted code e p = record {
  moves = move p stay;
  evidence_id = refl;
  dpp_id = refl;
  subject_version = refl;
  digest_value = refl;
}
moved-Advances created code e p = record {
  moves = move p stay;
  evidence_id = refl;
  dpp_id = refl;
  subject_version = refl;
  digest_value = refl;
}
moved-Advances queued code e p = record {
  moves = move p stay;
  evidence_id = refl;
  dpp_id = refl;
  subject_version = refl;
  digest_value = refl;
}
moved-Advances retryable_failed code e p = record {
  moves = move p stay;
  evidence_id = refl;
  dpp_id = refl;
  subject_version = refl;
  digest_value = refl;
}
moved-Advances confirmed code e p = record {
  moves = move p stay;
  evidence_id = refl;
  dpp_id = refl;
  subject_version = refl;
  digest_value = refl;
}
moved-Advances terminal_failed code e p = record {
  moves = move p stay;
  evidence_id = refl;
  dpp_id = refl;
  subject_version = refl;
  digest_value = refl;
}

-- A transition and what follows it advance the entry, or the entry stays.
and_next-Advances :
    (new : EvidenceState) (code : Option Code) (e : OutboxEntry) (next : OutboxEntry → Outcome)
    → ((f : OutboxEntry) → Advances f (next f).1)
    → Advances e (and_next e (transition new code e) next).1
unfolding transition
and_next-Advances new code e next k = elim (Bool-cases (is_permitted e.state new)) [
  | inl p ↦ rw p (Advances-trans (moved-Advances new code e p) (k (moved new code e)))
  | inr p ↦ rw p (Advances-refl e)
]

is_queued-true : (state : EvidenceState) → is_queued state ≡ true → state ≡ queued
is_queued-true queued h = refl
is_queued-true created h = absurd (cc)
is_queued-true submitted h = absurd (cc)
is_queued-true retryable_failed h = absurd (cc)
is_queued-true confirmed h = absurd (cc)
is_queued-true terminal_failed h = absurd (cc)

failure_permitted :
    (retryable : Bool)
    → is_permitted queued (if retryable then retryable_failed else terminal_failed) ≡ true
unfolding is_permitted
failure_permitted true = refl
failure_permitted false = refl

failed-Advances :
    (code : Code) (retryable : Bool) (e : OutboxEntry) → Advances e (failed code retryable e)
unfolding failed
failed-Advances code retryable e = elim (Bool-cases (is_queued e.state)) [
  | inl p ↦ rw p (record {
    moves = rw (is_queued-true e.state p) (move (failure_permitted retryable) stay);
    evidence_id = refl;
    dpp_id = refl;
    subject_version = refl;
    digest_value = refl;
  })
  | inr p ↦ rw p (record {
    moves = stay;
    evidence_id = refl;
    dpp_id = refl;
    subject_version = refl;
    digest_value = refl;
  })
]

with_receipt-Advances : (receipt : Receipt) (e : OutboxEntry) → Advances e (with_receipt receipt e)
with_receipt-Advances receipt e = record {
  moves = stay;
  evidence_id = refl;
  dpp_id = refl;
  subject_version = refl;
  digest_value = refl;
}

confirm-Advances :
    (now : String) (receipt : Receipt) (e : OutboxEntry)
    → Advances e (confirm_entry now receipt e).1
confirm-Advances now receipt e = and_next-Advances confirmed none e _ λ f. record {
  moves = stay;
  evidence_id = refl;
  dpp_id = refl;
  subject_version = refl;
  digest_value = refl;
}

received-Advances :
    (now : String) (r : Result Failure Receipt) (e : OutboxEntry) → Advances e (received now r e).1
unfolding received
received-Advances now (err (ledger_error code retryable)) e = failed-Advances code retryable e
received-Advances now (err (other_error x)) e = Advances-refl e
received-Advances now (ok receipt) e = and_next-Advances submitted none e _ λ f.
    elim (Bool-cases (receipt.state == "confirmed")) [
      | inl p ↦ rw p (
          Advances-trans (with_receipt-Advances receipt f)
            (confirm-Advances now receipt (with_receipt receipt f)))
      | inr p ↦ rw p (with_receipt-Advances receipt f)
    ]

module _ {L : Type 0} (adapter : Adapter L) (max_attempts : ℕ) (now : String) where
  submit_entry-Advances :
      (e : OutboxEntry) (l : L) → Advances e (submit_entry adapter max_attempts now e l).0.1
  submit_entry-Advances e l = received-Advances now _ e

  queued-Advances :
      (e : OutboxEntry) (l : L)
      → Advances e (submit_queued adapter max_attempts now e (transition queued none e) l).0.1
  unfolding transition
  queued-Advances e l = elim (Bool-cases (is_permitted e.state queued)) [
    | inl p ↦ rw p (
        Advances-trans (moved-Advances queued none e p)
          (submit_entry-Advances (moved queued none e) l))
    | inr p ↦ rw p (Advances-refl e)
  ]

  process_in-Advances :
      (state : EvidenceState) (e : OutboxEntry) (l : L)
      → Advances e (process_in adapter max_attempts now state e l).0.1
  process_in-Advances retryable_failed e l = elim (Bool-cases (leb max_attempts e.attempts)) [
    | inl p ↦ rw p (and_next-Advances terminal_failed e.last_reason_code e _ Advances-refl)
    | inr p ↦ rw p (queued-Advances e l)
  ]
  process_in-Advances created e l = submit_entry-Advances e l
  process_in-Advances queued e l = submit_entry-Advances e l
  process_in-Advances submitted e l = submit_entry-Advances e l
  process_in-Advances confirmed e l = submit_entry-Advances e l
  process_in-Advances terminal_failed e l = submit_entry-Advances e l

  pub visit-Advances :
      (e : OutboxEntry) (l : L) → Advances e (visit adapter max_attempts now e l).0.1
  unfolding visit process
  visit-Advances e l = elim (Bool-cases (is_terminal e.state)) [
    | inl p ↦ rw p (Advances-refl e)
    | inr p ↦ rw p (process_in-Advances e.state e l)
  ]
