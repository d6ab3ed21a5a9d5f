-- ===== src/Evidence/Histogram.antt =====
-- `EvidenceWorker.histogram` of src/sort4circ_dpp/evidence.py.
use sort4circ.Prelude.{
  ℕ, suc, ◌+◌, ◌≡◌, ◌∙◌, refl, String, Option, none, some, List, [], ◌∷◌, Assoc, lookup, insert,
  lookup-insert, if◌then◌else◌, ◌==◌, eq_iff, Bool-cases, inl, inr, arith,
}
use sort4circ.Store.State.{
  EvidenceState, created, queued, submitted, retryable_failed, confirmed, terminal_failed,
  OutboxEntry, Store,
}

abbrev pub state_name : EvidenceState → String
state_name created = "created"
state_name queued = "queued"
state_name submitted = "submitted"
state_name retryable_failed = "retryableFailed"
state_name confirmed = "confirmed"
state_name terminal_failed = "terminalFailed"

-- `counts.get(state, 0)`
abbrev pub or_zero : Option ℕ → ℕ
or_zero none = 0
or_zero (some n) = n

-- The loop.
unfoldable pub tally : List OutboxEntry → Assoc ℕ → Assoc ℕ
tally [] counts = counts
tally (e ∷ es) counts =
    let name = state_name e.state in
    tally es (insert name (or_zero (lookup name counts) + 1) counts)

-- `histogram`
unfoldable pub histogram : Store → Assoc ℕ
histogram s = tally s.outbox []

-- The number of entries whose state has a name.
unfoldable pub entries_in : String → List OutboxEntry → ℕ
entries_in name [] = 0
entries_in name (e ∷ es) =
    let rest = entries_in name es in if state_name e.state == name then suc rest else rest

tally-count :
    (name : String) (es : List OutboxEntry) (counts : Assoc ℕ)
    → or_zero (lookup name (tally es counts)) ≡ or_zero (lookup name counts) + entries_in name es
unfolding tally entries_in
tally-count name [] counts = omega arith
tally-count name (e ∷ es) counts =
    rw
      (
        tally-count name es
            (insert (state_name e.state) (or_zero (lookup (state_name e.state) counts) + 1) counts),
        lookup-insert,
      )
      (elim (Bool-cases (state_name e.state == name)) [
        | inl p ↦ rw (p, (eq_iff (state_name e.state) name).0 p) (omega arith)
        | inr p ↦ rw p refl
      ])

-- The histogram counts the entries of the outbox by the names of their states, and a name that it
-- does not have stands for no entry.
histogram-count :
    (name : String) (s : Store) → or_zero (lookup name (histogram s)) ≡ entries_in name s.outbox
unfolding histogram lookup
histogram-count name s = tally-count name s.outbox [] ∙ omega arith
