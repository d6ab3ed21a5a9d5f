-- ===== src/Evidence/Reconciling.antt =====
-- `EvidenceWorker.reconcile`, `histogram` and `unresolved` of src/sort4circ_dpp/evidence.py.
use sort4circ.Prelude.{
  ℕ, ◌+◌, ◌≡◌, refl, String, true, Option, none, some, List, [], ◌∷◌, Result, ok, err, ◌==◌, not,
  if◌then◌else◌, ◌⊎◌, inl, inr, keep_if,
}
use sort4circ.Store.State.{
  EvidenceState, queued, submitted, retryable_failed, confirmed, OutboxEntry, Store,
}
use sort4circ.Ledger.{Receipt, Failure, Adapter}
use sort4circ.Evidence.{
  is_terminal, is_permitted, moved, transition, Outcome, confirm_entry, with_receipt,
}

-- The states that a confirmed receipt forces to "submitted" first.
abbrev pub forced_state : EvidenceState → EvidenceState
forced_state retryable_failed = submitted
forced_state queued = submitted
forced_state state = state

-- What `reconcile` does with an entry and the receipt that `status` gives, and what it adds to the
-- count.
unfoldable pub reconciled : String → Option Receipt → OutboxEntry → Outcome × ℕ
reconciled now none e = ((none, e), 0)
reconciled now (some receipt) e =
    if receipt.state == "confirmed"
    then (let known = with_receipt receipt e in
        (confirm_entry now receipt (record known { state = forced_state e.state }), 1))
    else ((none, with_receipt receipt e), 0)

module _ {L : Type 0} (adapter : Adapter L) (now : String) where
  abbrev pub answered : OutboxEntry → Result Failure (Option Receipt) → Outcome × ℕ
  answered e (err x) = ((some x, e), 0)
  answered e (ok receipt) = reconciled now receipt e

  -- The loop body.
  unfoldable pub reconcile_entry : OutboxEntry → L → (Outcome × ℕ) × L
  reconcile_entry e l =
      if is_terminal e.state
      then (((none, e), 0), l)
      else (let (r, l') = adapter.status e.evidence_id l in (answered e r, l'))

  abbrev added : ℕ → Result Failure ℕ → Result Failure ℕ
  added n (ok m) = ok (n + m)
  added n (err x) = err x

  abbrev pub reconcile_rest :
      (Outcome × ℕ) × L
      → List OutboxEntry
      → (L → (Result Failure ℕ × List OutboxEntry) × L)
      → (Result Failure ℕ × List OutboxEntry) × L
  reconcile_rest (((some x, e), n), l) rest next = ((err x, e ∷ rest), l)
  reconcile_rest (((none, e), n), l) rest next =
      let ((r, es), l') = next l in ((added n r, e ∷ es), l')

  unfoldable pub reconcile_entries :
      List OutboxEntry → L → (Result Failure ℕ × List OutboxEntry) × L
  reconcile_entries [] l = ((ok 0, []), l)
  reconcile_entries (e ∷ es) l = reconcile_rest (reconcile_entry e l) es (reconcile_entries es)

  -- `reconcile`
  unfoldable pub reconcile : Store → L → Result Failure ℕ × Store × L
  reconcile s l =
      let ((r, es), l') = reconcile_entries s.outbox l in (r, record s { outbox = es }, l')

-- `unresolved`
unfoldable pub unresolved : Store → List OutboxEntry
unresolved s = keep_if (λ e. not (is_terminal e.state)) s.outbox

-- An entry that is queued, submitted or failed for a retry is confirmed by a confirmed
-- receipt, with the reference of its transaction, and counted once; its digest and the number of
-- its attempts stay.
pub reconciled-confirmed :
    (now : String) (receipt : Receipt) (e : OutboxEntry)
    → (e.state ≡ queued) ⊎ ((e.state ≡ submitted) ⊎ (e.state ≡ retryable_failed))
    → (receipt.state == "confirmed") ≡ true
    → (f : OutboxEntry) × (reconciled now (some receipt) e ≡ ((none, f), 1))
      × (f.state ≡ confirmed)
      × (f.transaction_ref ≡ some receipt.transaction_ref)
      × (f.digest_value ≡ e.digest_value)
      × (f.attempts ≡ e.attempts)
unfolding reconciled transition is_permitted moved
reconciled-confirmed now receipt e (inl h) c = rw (c, h) (_, refl, refl, refl, refl, refl)
reconciled-confirmed now receipt e (inr (inl h)) c = rw (c, h) (_, refl, refl, refl, refl, refl)
reconciled-confirmed now receipt e (inr (inr h)) c = rw (c, h) (_, refl, refl, refl, refl, refl)
