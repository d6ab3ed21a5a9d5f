-- ===== src/Tests/Api.antt =====
-- Callers of the handlers.
use sort4circ.Prelude.{none, some}
use sort4circ.Access.{Principal, brand, authority}
mod Searches
mod Replays
mod Verifications

abbrev pub maker : Principal
maker = record { subject = "ana"; role = brand; organisation_id = some "org 1" }

abbrev pub auditor : Principal
auditor = record { subject = "eva"; role = authority; organisation_id = none }
