-- ===== src/Canonical.antt =====
-- src/sort4circ_dpp/canonical.py: the canonical JSON text, the integrity projection and the digest.
pub mod Text
pub mod Keys
pub mod Serialise
pub mod Projection
pub mod Digest
pub mod Order
pub mod Reorder
pub mod Coverage
