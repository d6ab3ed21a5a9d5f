-- ===== src/Tests/Governance.antt =====
-- An instance of the theorem on environmental selections.
use sort4circ.Prelude.{◌≡◌, refl, true, false, some, [], ◌∷◌, ◌==◌}
use sort4circ.Prelude.Int.{pos}
use sort4circ.Json.{finite}
use sort4circ.Governance.{PlanItem, Candidate, Selection}
use sort4circ.Governance.Selecting.{Justified, here, validate_selection-Justified}
use sort4circ.Governance.{
  plan_for, check_candidate, check_candidates, has_eligible, validate_selection,
}
use sort4circ.Composition.{float_gt}

abbrev energy : PlanItem
energy = record {
  evidence_path = "bench";
  environmental_metric = "kWh";
  system_boundary = "node";
  maximum_acceptable_result = finite (pos 5) 0;
}

abbrev candidate : Candidate
candidate = record {
  candidate_id = "c1";
  evidence_path = "bench";
  environmental_metric = "kWh";
  system_boundary = "node";
  measured_result = some (finite (pos 9) 1);
  pass_against_frozen_maximum = some true;
  selected = true;
  evidence_sufficiency = "sufficient";
  project_operated = true;
}

abbrev choice : Selection
choice = record {
  preparer = "ana";
  reporter = "ben";
  approver = "cleo";
  acceptance_plan = energy ∷ [];
  candidates = candidate ∷ [];
  deployment_authorization = "pilot";
}

no_messages : validate_selection choice ≡ []
unfolding plan_for check_candidate check_candidates has_eligible validate_selection float_gt
no_messages = refl

validate_selection-Justified_example :
    ((choice.approver == choice.preparer) ≡ false)
    × ((choice.approver == choice.reporter) ≡ false)
    × Justified choice.acceptance_plan candidate
validate_selection-Justified_example =
    validate_selection-Justified choice candidate no_messages here refl
