-- ===== src/Tests.antt =====
-- Runs of the definitions at concrete inputs, and instances of the theorems.
mod Sample
mod Store
mod Patches
mod Ledger
mod Canonical
mod Access
mod Auth
mod ReadZone
mod Api
mod Exchange
mod Graphs
mod Rdf
mod Governance
mod Composition
mod Vocab
mod ReadIndex
