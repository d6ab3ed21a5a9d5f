-- ===== src/Ledger.antt =====
-- src/sort4circ_dpp/ledger/base.py: the contract of a ledger adapter, and its `verify`. The
-- adapters are `Memory` and `Besu`; `Lawful` is the documented behaviour of `submit`.
use sort4circ.Prelude.{ℕ, String, Bool, Option, none, some, Result, ok, err, if◌then◌else◌, ◌==◌}
use sort4circ.Reasons.{Code, Error}
use sort4circ.Json.{Dict}
pub mod Memory
pub mod Besu
pub mod Verdicts

pub record Receipt : Type 0 where
  pub evidence_id : String
  pub transaction_ref : String
  pub network_id : String
  pub state : String
  pub confirmed_at : Option String
  pub block_ref : Option String
  pub raw : Option Dict

-- What an adapter may raise: a `LedgerError`, with its reason code and whether a retry may help, or
-- an error of the code that it calls.
pub data Failure : Type 0 where
  ledger_error : Code → Bool → Failure
  other_error : Error → Failure

-- The methods of an adapter whose state is an `L`.
pub record Adapter (L : Type 0) : Type 0 where
  pub submit : String → Dict → L → Result Failure Receipt × L
  pub status : String → L → Result Failure (Option Receipt) × L
  pub anchored_digest : String → L → Option String

pub data Verdict : Type 0 where
  matches mismatches unanchored unverifiable : Verdict

abbrev pub compared : Option String → String → Verdict
compared none recomputed = unverifiable
compared (some anchored) recomputed = if anchored == recomputed then matches else mismatches

abbrev pub judged : Option Receipt → Option String → String → Verdict
judged none anchored recomputed = unverifiable
judged (some receipt) anchored recomputed =
    if receipt.state == "confirmed" then compared anchored recomputed else unanchored

abbrev pub verdict_of :
    {L : Type 0}
    → Adapter L
    → String
    → String
    → Result Failure (Option Receipt) × L
    → Result Failure Verdict × L
verdict_of adapter id recomputed (err e, l) = (err e, l)
verdict_of adapter id recomputed (ok receipt, l) =
    (ok (judged receipt (adapter.anchored_digest id l) recomputed), l)

-- `LedgerAdapter.verify`
unfoldable pub verify : {L : Type 0} → Adapter L → String → String → L → Result Failure Verdict × L
verify adapter id recomputed l = verdict_of adapter id recomputed (adapter.status id l)
