-- ===== src/Store.antt =====
-- src/sort4circ_dpp/store.py: the passport store. Each operation is a function of the state that it
-- finds; `State` has the state, the others the methods and what holds of them.
pub mod State
pub mod Create
pub mod Patch
pub mod Append
pub mod Carriers
pub mod Reads
pub mod Idempotency
pub mod Commits
pub mod Consistent
pub mod Commissions
pub mod Bindings
pub mod Commissioning
pub mod Steps
pub mod Reachable
pub mod Retries
pub mod AppendOnly
pub mod Etags
pub mod Runs
pub mod LostUpdates
pub mod Ownership
