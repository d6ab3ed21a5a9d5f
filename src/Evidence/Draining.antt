-- ===== src/Evidence/Draining.antt =====
-- A drain against the reference ledger, from the outbox to the verdict.
use sort4circ.Prelude.{
  ℕ, ◌+◌, ◌≡◌, refl, ap, ◌∙◌, Result, String, Bool, true, false, none, some, ok, Text, lookup,
  insert, lookup-insert, eq_refl, if◌then◌else◌, ◌==◌,
}
use sort4circ.Reasons.{transition_error}
use sort4circ.Json.{obj, get?}
use sort4circ.Json.Shape.{text_at}
use sort4circ.Env.{Env}
use sort4circ.Canonical.Serialise.{canonicalise}
use sort4circ.Store.State.{EvidenceState, queued, submitted, confirmed, OutboxEntry}
use sort4circ.Ledger.{Receipt, Failure, other_error, Adapter, matches, mismatches, verify}
use sort4circ.Ledger.Memory.{InMemoryLedger, memory_adapter, submit, store, new_receipt}
use sort4circ.Evidence.{
  process, envelope_for, received, transition, is_permitted, moved, process_in, Outcome,
  with_receipt, time_or_now,
}

text_at-envelope : (e : OutboxEntry) → text_at "digestValue" (envelope_for e) ≡ ok e.digest_value
unfolding text_at envelope_for get?
text_at-envelope e = refl

module _ (env : Env) (e : OutboxEntry) (l : InMemoryLedger) (payload : Text)
    (canonical : canonicalise env (obj (envelope_for e)) ≡ ok payload) where
  fresh_receipt : Receipt
  fresh_receipt = new_receipt env e.evidence_id (envelope_for e) "confirmed" payload l

  anchored : InMemoryLedger
  anchored = record l {
    receipts = insert e.evidence_id fresh_receipt l.receipts;
    digests = insert e.evidence_id e.digest_value l.digests;
  }

  submit-fresh :
      l.auto_confirm ≡ true
      → l.fail_next ≡ none
      → lookup e.evidence_id l.receipts ≡ none
      → submit env e.evidence_id (envelope_for e) l ≡ (ok fresh_receipt, anchored)
  unfolding submit store fresh_receipt anchored
  submit-fresh a n u = rw (u, n, a, canonical, text_at-envelope e) refl

  fresh-confirmed : (fresh_receipt.state == "confirmed") ≡ true
  unfolding fresh_receipt new_receipt
  fresh-confirmed = refl

  verify-anchored :
      (recomputed : String)
      → verify (memory_adapter env) e.evidence_id recomputed anchored
        ≡ (ok (if e.digest_value == recomputed then matches else mismatches), anchored)
  unfolding verify memory_adapter anchored fresh_receipt new_receipt
  verify-anchored recomputed = rw (lookup-insert, lookup-insert, eq_refl e.evidence_id) refl

permitted_from :
    (state new : EvidenceState) (b : Bool) (e : OutboxEntry)
    → is_permitted state new ≡ b
    → e.state ≡ state
    → is_permitted e.state new ≡ b
permitted_from state new b e p q = ap (λ (x : EvidenceState). is_permitted x new) q ∙ p

queued_submitted : is_permitted queued submitted ≡ true
unfolding is_permitted
queued_submitted = refl

submitted_confirmed : is_permitted submitted confirmed ≡ true
unfolding is_permitted
submitted_confirmed = refl

submitted_submitted : is_permitted submitted submitted ≡ false
unfolding is_permitted
submitted_submitted = refl

received-refused :
    (now : String) (receipt : Receipt) (e : OutboxEntry)
    → e.state ≡ submitted
    → received now (ok receipt) e ≡ (some (other_error transition_error), e)
unfolding received transition
received-refused now receipt e q =
    rw (permitted_from submitted submitted false e submitted_submitted q) refl

-- What a confirmed receipt makes of a queued entry.
confirmed_entry : String → Receipt → OutboxEntry → OutboxEntry
unfolding moved
confirmed_entry now receipt e =
    record (moved confirmed none (with_receipt receipt (moved submitted none e))) {
      confirmed_at = some (time_or_now now receipt.confirmed_at);
    }

received-confirmed :
    (now : String) (receipt : Receipt) (e : OutboxEntry)
    → e.state ≡ queued
    → (receipt.state == "confirmed") ≡ true
    → received now (ok receipt) e ≡ (none, confirmed_entry now receipt e)
unfolding received transition confirmed_entry moved
received-confirmed now receipt e q c =
    rw (permitted_from queued submitted true e queued_submitted q, c, submitted_confirmed) refl

-- An entry in the queue that the reference ledger does not know is confirmed by one step of the
-- worker, when nothing fails and confirmation is immediate; a verification then answers a match
-- for the digest of the entry and a mismatch for every other one.
pub process-verify :
    (env : Env) (max_attempts : ℕ) (now recomputed : String) (e : OutboxEntry) (l : InMemoryLedger)
    (payload : Text)
    → e.state ≡ queued
    → l.auto_confirm ≡ true
    → l.fail_next ≡ none
    → lookup e.evidence_id l.receipts ≡ none
    → canonicalise env (obj (envelope_for e)) ≡ ok payload
    → (f : OutboxEntry) × (l' : InMemoryLedger) × (process (memory_adapter env) max_attempts now e l
        ≡ ((none, f), l'))
      × (f.state ≡ confirmed)
      × (f.attempts ≡ e.attempts + 1)
      × (verify (memory_adapter env) e.evidence_id recomputed l'
          ≡ (ok (if e.digest_value == recomputed then matches else mismatches), l'))
unfolding process memory_adapter confirmed_entry moved
process-verify env max_attempts now recomputed e l payload q a n u c = (
  confirmed_entry now (fresh_receipt env e l payload c) e,
  anchored env e l payload c,
  ap (λ (state : EvidenceState). process_in (memory_adapter env) max_attempts now state e l) q
      ∙ ap (λ (x : Result Failure Receipt × InMemoryLedger). (received now x.0 e, x.1))
          (submit-fresh env e l payload c a n u)
      ∙ ap (λ (x : Outcome). (x, anchored env e l payload c))
          (received-confirmed now (fresh_receipt env e l payload c) e q
            (fresh-confirmed env e l payload c)),
  refl,
  refl,
  verify-anchored env e l payload c recomputed,
)

-- An entry that is submitted already is not confirmed by the worker: when the ledger answers its
-- second submission, the step raises a refused transition, and the entry stays as it was.
pub process-submitted :
    {L : Type 0} (adapter : Adapter L) (max_attempts : ℕ) (now : String) (e : OutboxEntry)
    (l l' : L) (receipt : Receipt)
    → e.state ≡ submitted
    → adapter.submit e.evidence_id (envelope_for e) l ≡ (ok receipt, l')
    → process adapter max_attempts now e l ≡ ((some (other_error transition_error), e), l')
unfolding process
process-submitted {L} adapter max_attempts now e l l' receipt q r =
    ap (λ (state : EvidenceState). process_in adapter max_attempts now state e l) q
    ∙ ap (λ (x : Result Failure Receipt × L). (received now x.0 e, x.1)) r
    ∙ ap (λ (x : Outcome). (x, l')) (received-refused now receipt e q)
