-- ===== src/Governance.antt =====
-- src/sort4circ_dpp/governance.py, `validate_environmental_selection`, for a document that its JSON
-- Schema accepts: the records are that schema's. A number of a JSON document is never NaN.
use sort4circ.Prelude.{
  String, Bool, true, false, not, ◌&&◌, ◌||◌, ◌==◌, Option, none, some, List, [], ◌∷◌, ◌++◌,
  if◌then◌else◌,
}
use sort4circ.Json.{Float}
use sort4circ.Composition.{float_gt}
pub mod Deviation
pub mod Selecting

pub record PlanItem : Type 0 where
  pub evidence_path : String
  pub environmental_metric : String
  pub system_boundary : String
  pub maximum_acceptable_result : Float

pub record Candidate : Type 0 where
  pub candidate_id : String
  pub evidence_path : String
  pub environmental_metric : String
  pub system_boundary : String
  pub measured_result : Option Float
  pub pass_against_frozen_maximum : Option Bool
  pub selected : Bool
  pub evidence_sufficiency : String
  pub project_operated : Bool

pub record Selection : Type 0 where
  pub preparer : String
  pub reporter : String
  pub approver : String
  pub acceptance_plan : List PlanItem
  pub candidates : List Candidate
  pub deployment_authorization : String

-- The messages of the check.
pub data Message : Type 0 where
  same_individual not_authorised : Message
  no_plan_item boundaries_differ wrong_verdict cannot_be_selected : String → Message

abbrev pub or_else : Option PlanItem → Option PlanItem → Option PlanItem
or_else (some item) other = some item
or_else none other = other

-- `plans.get(key)`, where a later item replaces an earlier one of the same key.
unfoldable pub plan_for : String → String → List PlanItem → Option PlanItem
plan_for path metric [] = none
plan_for path metric (item ∷ items) = or_else (plan_for path metric items) (
    if (item.evidence_path == path) && (item.environmental_metric == metric)
    then some item
    else none)

abbrev pub is_true : Option Bool → Bool
is_true (some b) = b
is_true none = false

-- `passed is expected`
abbrev pub is_bool : Option Bool → Bool → Bool
is_bool (some true) b = b
is_bool (some false) b = not b
is_bool none b = false

abbrev pub is_within : Option Float → Float → Bool
is_within none limit = true
is_within (some result) limit = not (float_gt result limit)

abbrev pub verdict_agrees : Option Bool → Option Float → Float → Bool
verdict_agrees passed none limit = true
verdict_agrees passed (some result) limit = is_bool passed (not (float_gt result limit))

abbrev pub unless : Bool → Message → List Message
unless true m = []
unless false m = m ∷ []

-- May the candidate be selected?
abbrev pub is_selectable : Candidate → PlanItem → Bool
is_selectable c item =
    (c.evidence_sufficiency == "sufficient")
    && (is_true c.pass_against_frozen_maximum
        && is_within c.measured_result item.maximum_acceptable_result)

-- The body of the loop.
abbrev pub check_with : Candidate → Option PlanItem → List Message
check_with c none = no_plan_item c.candidate_id ∷ []
check_with c (some item) =
    unless (c.system_boundary == item.system_boundary) (boundaries_differ c.candidate_id)
    ++ (unless
          (verdict_agrees c.pass_against_frozen_maximum c.measured_result
            item.maximum_acceptable_result)
          (wrong_verdict c.candidate_id)
        ++ unless (not c.selected || is_selectable c item) (cannot_be_selected c.candidate_id))

unfoldable pub check_candidate : List PlanItem → Candidate → List Message
check_candidate plan c = check_with c (plan_for c.evidence_path c.environmental_metric plan)

unfoldable pub check_candidates : List PlanItem → List Candidate → List Message
check_candidates plan [] = []
check_candidates plan (c ∷ cs) = check_candidate plan c ++ check_candidates plan cs

abbrev pub is_planned : Option PlanItem → Bool
is_planned none = false
is_planned (some item) = true

-- `eligible_project_candidate`
unfoldable pub has_eligible : List PlanItem → List Candidate → Bool
has_eligible plan [] = false
has_eligible plan (c ∷ cs) =
    (is_planned (plan_for c.evidence_path c.environmental_metric plan)
      && (c.project_operated
          && ((c.evidence_sufficiency == "sufficient") && is_true c.pass_against_frozen_maximum)))
    || has_eligible plan cs

-- `validate_environmental_selection`
unfoldable pub validate_selection : Selection → List Message
validate_selection d =
    unless (not ((d.approver == d.preparer) || (d.approver == d.reporter))) same_individual
    ++ (check_candidates d.acceptance_plan d.candidates
        ++ unless
            (has_eligible d.acceptance_plan d.candidates
              || (d.deployment_authorization == "architectureAndMigrationPlanningOnly"))
            not_authorised)
