-- ===== src/Governance/Selecting.antt =====
-- What a selection without messages guarantees.
use sort4circ.Prelude.{
  ◌≡◌, refl, and_parts, Bool, true, false, not, ◌||◌, ◌==◌, Option, none, some, List, [], ◌∷◌, ◌++◌,
}
use sort4circ.Governance.{
  PlanItem, Candidate, Selection, Message, plan_for, is_true, is_within, verdict_agrees, unless,
  is_selectable, check_with, check_candidate, check_candidates, validate_selection,
  cannot_be_selected, boundaries_differ, wrong_verdict, same_individual,
}

pub data IsIn (c : Candidate) : List Candidate → Type 0 where
  here : {cs : List Candidate} → IsIn c (c ∷ cs)
  there : {d : Candidate} {cs : List Candidate} → IsIn c cs → IsIn c (d ∷ cs)

pub append-nil-parts : {A : Type 0} (xs ys : List A) → xs ++ ys ≡ [] → (xs ≡ []) × (ys ≡ [])
append-nil-parts [] ys h = (refl, h)
append-nil-parts (x ∷ xs) ys h = absurd (cc)

unless-nil : (b : Bool) (m : Message) → unless b m ≡ [] → b ≡ true
unless-nil true m h = refl
unless-nil false m h = absurd (cc)

check_candidates-in :
    (plan : List PlanItem) (c : Candidate) (cs : List Candidate)
    → check_candidates plan cs ≡ []
    → IsIn c cs
    → check_candidate plan c ≡ []
unfolding check_candidates
check_candidates-in plan c _ h (here {cs}) =
    (append-nil-parts (check_candidate plan c) (check_candidates plan cs) h).0
check_candidates-in plan c _ h (there {d} {cs} i) =
    check_candidates-in plan c cs
      (append-nil-parts (check_candidate plan d) (check_candidates plan cs) h).1 i

-- A selected candidate of the plan: sufficient evidence, passed, within the frozen maximum, in the
-- frozen boundary.
pub record Justified (plan : List PlanItem) (c : Candidate) : Type 0 where
  pub item : PlanItem
  pub planned : plan_for c.evidence_path c.environmental_metric plan ≡ some item
  pub boundary : (c.system_boundary == item.system_boundary) ≡ true
  pub sufficient : (c.evidence_sufficiency == "sufficient") ≡ true
  pub passed : is_true c.pass_against_frozen_maximum ≡ true
  pub within : is_within c.measured_result item.maximum_acceptable_result ≡ true

chosen : (a b : Bool) → a ≡ true → (not a || b) ≡ true → b ≡ true
chosen true b e h = h
chosen false b e h = absurd (cc)

check_with-Justified :
    (plan : List PlanItem) (c : Candidate) (o : Option PlanItem)
    → plan_for c.evidence_path c.environmental_metric plan ≡ o
    → c.selected ≡ true
    → check_with c o ≡ []
    → Justified plan c
check_with-Justified plan c none p s h = absurd (cc)
check_with-Justified plan c (some item) p s h =
    let (a, r) =
      append-nil-parts
        (unless (c.system_boundary == item.system_boundary) (boundaries_differ c.candidate_id)) _
        h in
    let (_, t) =
      append-nil-parts
        (unless
          (verdict_agrees c.pass_against_frozen_maximum c.measured_result
            item.maximum_acceptable_result)
          (wrong_verdict c.candidate_id))
        _ r in
    let (u, v) = and_parts (c.evidence_sufficiency == "sufficient") _ (
      chosen c.selected (is_selectable c item) s
        (unless-nil _ (cannot_be_selected c.candidate_id) t)) in
    let (w, x) = and_parts (is_true c.pass_against_frozen_maximum) _ v in
    record {
      item = item;
      planned = p;
      boundary = unless-nil _ (boundaries_differ c.candidate_id) a;
      sufficient = u;
      passed = w;
      within = x;
    }

-- In a document without messages, the approver is neither the preparer nor the reporter, and every
-- selected candidate has an item of the frozen plan, its boundary, sufficient evidence, a passed
-- verdict, and a result, if it was measured, within the frozen maximum.
pub validate_selection-Justified :
    (d : Selection) (c : Candidate)
    → validate_selection d ≡ []
    → IsIn c d.candidates
    → c.selected ≡ true
    → ((d.approver == d.preparer) ≡ false)
      × ((d.approver == d.reporter) ≡ false)
      × Justified d.acceptance_plan c
unfolding validate_selection check_candidate
validate_selection-Justified d c h i s =
    let (a, r) =
      append-nil-parts
        (unless (not ((d.approver == d.preparer) || (d.approver == d.reporter))) same_individual) _
        h in
    let (b, _) = append-nil-parts (check_candidates d.acceptance_plan d.candidates) _ r in
    let (p, q) =
      neither (d.approver == d.preparer) (d.approver == d.reporter)
        (unless-nil _ same_individual a) in
    (
      p,
      q,
      check_with-Justified d.acceptance_plan c _ refl s
          (check_candidates-in d.acceptance_plan c d.candidates b i),
    )
  where
    neither : (x y : Bool) → not (x || y) ≡ true → (x ≡ false) × (y ≡ false)
    neither false false e = (refl, refl)
    neither true y e = absurd (cc)
    neither false true e = absurd (cc)
