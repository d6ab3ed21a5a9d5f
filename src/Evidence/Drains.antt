-- ===== src/Evidence/Drains.antt =====
-- What a drain of src/sort4circ_dpp/evidence.py does to each entry of the outbox.
use sort4circ.Prelude.{
  ℕ, leb, ◌⊎◌, inl, inr, String, true, false, Option, none, some, List, [], ◌∷◌, ◌≡◌, refl, Result,
  ok, err,
}
use sort4circ.Env.{Env}
use sort4circ.Store.State.{
  EvidenceState, created, submitted, retryable_failed, terminal_failed, OutboxEntry, Store,
  history_of,
}
use sort4circ.Store.Consistent.{Consistent, AllAnchored, AllAnchored-history}
use sort4circ.Ledger.{Receipt, Failure, ledger_error, other_error, Adapter}
use sort4circ.Evidence.{
  moved, is_permitted, is_terminal, is_queued, transition, failed, received, Outcome, process,
  visit, drain_rest, drain_entries, drain,
}
use sort4circ.Evidence.Traces.{Advances, Advances-refl, visit-Advances}

-- What a drain may do to an entry, with a limit on the attempts: a confirmed or terminally failed one is untouched; one that is created or
-- submitted keeps its state, since the table has no transition to submitted for it; any other ends in a state that the
-- table leads to.
pub record Drained (max_attempts : ℕ) (e f : OutboxEntry) : Type 0 where
  pub advances : Advances e f
  pub terminal : is_terminal e.state ≡ true → f ≡ e
  pub created_kept : e.state ≡ created → f.state ≡ created
  pub submitted_kept : e.state ≡ submitted → f.state ≡ submitted
  pub exhausted :
      e.state ≡ retryable_failed
      → leb max_attempts e.attempts ≡ true
      → (f ≡ e) ⊎ ((f.state ≡ terminal_failed) × (f.attempts ≡ e.attempts))

Drained-refl : (max_attempts : ℕ) (e : OutboxEntry) → Drained max_attempts e e
Drained-refl max_attempts e = record {
  advances = Advances-refl e;
  terminal = λ h. refl;
  created_kept = λ h. h;
  submitted_kept = λ h. h;
  exhausted = λ h k. inl refl;
}

-- What follows a submission leaves an entry in a state from which `submitted` is not permitted, and which is not
-- queued.
received-stuck :
    (now : String) (r : Result Failure Receipt) (e : OutboxEntry) (state : EvidenceState)
    → e.state ≡ state
    → is_permitted state submitted ≡ false
    → is_queued state ≡ false
    → (received now r e).1.state ≡ state
unfolding received failed transition
received-stuck now (err (ledger_error code retryable)) e state h p q = rw (h, q) refl
received-stuck now (err (other_error x)) e state h p q = h
received-stuck now (ok receipt) e state h p q = rw (h, p) refl

module _ {L : Type 0} (adapter : Adapter L) (max_attempts : ℕ) (now : String) where
  visit-terminal :
      (e : OutboxEntry) (l : L)
      → is_terminal e.state ≡ true
      → (visit adapter max_attempts now e l).0.1 ≡ e
  unfolding visit
  visit-terminal e l h = rw h refl

  visit-created :
      (e : OutboxEntry) (l : L)
      → e.state ≡ created
      → (visit adapter max_attempts now e l).0.1.state ≡ created
  unfolding visit process is_terminal is_permitted
  visit-created e l h =
      rw h (received-stuck now _ (record e { state = created }) created refl refl refl)

  visit-submitted :
      (e : OutboxEntry) (l : L)
      → e.state ≡ submitted
      → (visit adapter max_attempts now e l).0.1.state ≡ submitted
  unfolding visit process is_terminal is_permitted
  visit-submitted e l h =
      rw h (received-stuck now _ (record e { state = submitted }) submitted refl refl refl)

  visit-exhausted :
      (e : OutboxEntry) (l : L)
      → e.state ≡ retryable_failed
      → leb max_attempts e.attempts ≡ true
      → ((visit adapter max_attempts now e l).0.1 ≡ e)
        ⊎ (((visit adapter max_attempts now e l).0.1.state ≡ terminal_failed)
            × ((visit adapter max_attempts now e l).0.1.attempts ≡ e.attempts))
  unfolding visit process transition is_terminal is_permitted moved
  visit-exhausted e l h k = inr (rw (h, k) refl, rw (h, k) refl)

  visit-Drained :
      (e : OutboxEntry) (l : L) → Drained max_attempts e (visit adapter max_attempts now e l).0.1
  visit-Drained e l = record {
    advances = visit-Advances adapter max_attempts now e l;
    terminal = visit-terminal e l;
    created_kept = visit-created e l;
    submitted_kept = visit-submitted e l;
    exhausted = visit-exhausted e l;
  }

-- The entries of two outboxes, one by one.
abbrev pub AllDrained : ℕ → List OutboxEntry → List OutboxEntry → Type 0
AllDrained max_attempts [] [] = Unit
AllDrained max_attempts (e ∷ es) (f ∷ fs) = Drained max_attempts e f × AllDrained max_attempts es fs
AllDrained max_attempts _ _ = ⊥

AllDrained-refl : (max_attempts : ℕ) (es : List OutboxEntry) → AllDrained max_attempts es es
AllDrained-refl max_attempts [] = tt
AllDrained-refl max_attempts (e ∷ es) =
    (Drained-refl max_attempts e, AllDrained-refl max_attempts es)

module _ {L : Type 0} (adapter : Adapter L) (max_attempts : ℕ) (now : String) where
  drain_rest-Drained :
      (e : OutboxEntry) (es : List OutboxEntry) (v : Outcome × L)
      (next : L → (Option Failure × List OutboxEntry) × L)
      → Drained max_attempts e v.0.1
      → ((l : L) → AllDrained max_attempts es (next l).0.1)
      → AllDrained max_attempts (e ∷ es) (drain_rest adapter max_attempts now v es next).0.1
  drain_rest-Drained e es ((some x, f), l) next a h = (a, AllDrained-refl max_attempts es)
  drain_rest-Drained e es ((none, f), l) next a h = (a, h l)

  drain_entries-Drained :
      (es : List OutboxEntry) (l : L)
      → AllDrained max_attempts es (drain_entries adapter max_attempts now es l).0.1
  unfolding drain_entries
  drain_entries-Drained [] l = tt
  drain_entries-Drained (e ∷ es) l =
      drain_rest-Drained e es (visit adapter max_attempts now e l)
        (drain_entries adapter max_attempts now es) (visit-Drained adapter max_attempts now e l)
        (drain_entries-Drained es)

AllDrained-anchored :
    (max_attempts : ℕ) (env : Env) (s : Store) (es fs : List OutboxEntry)
    → AllDrained max_attempts es fs
    → AllAnchored env s es
    → AllAnchored env s fs
AllDrained-anchored max_attempts env s [] [] a h = tt
AllDrained-anchored max_attempts env s [] (f ∷ fs) a h = elim a [ ]
AllDrained-anchored max_attempts env s (e ∷ es) [] a h = elim a [ ]
AllDrained-anchored max_attempts env s (e ∷ es) (f ∷ fs) (a, rest) ((item, found, hash), h) = (
  (item, rw (a.advances.subject_version, a.advances.dpp_id) found, rw a.advances.digest_value hash),
  AllDrained-anchored max_attempts env s es fs rest h,
)

-- A drain of a consistent store, complete or cut short, leaves a consistent store, whatever the
-- ledger does: every outbox entry still names a kept version whose digest it carries.
pub drain-Consistent :
    {L : Type 0} (adapter : Adapter L) (max_attempts : ℕ) (now : String) (env : Env) (s : Store)
    (l : L)
    → Consistent env s
    → Consistent env (drain adapter max_attempts now s l).1
unfolding drain history_of
drain-Consistent adapter max_attempts now env s l c = record {
  numbered = c.numbered;
  current = c.current;
  anchored =
      AllAnchored-history env s (drain adapter max_attempts now s l).1 (λ j. refl) _
        (AllDrained-anchored max_attempts env s s.outbox _
          (drain_entries-Drained adapter max_attempts now s.outbox l) c.anchored);
}
