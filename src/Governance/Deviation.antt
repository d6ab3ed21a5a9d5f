-- ===== src/Governance/Deviation.antt =====
-- src/sort4circ_dpp/governance.py, `validate_en18223_deviation`, for a document that its JSON Schema accepts.
use sort4circ.Prelude.{
  ◌≡◌, refl, sym, and_parts, String, Bool, true, false, not, ◌&&◌, ◌==◌, Option, none, some, List,
  [], ◌∷◌, ◌++◌, elem,
}
use sort4circ.Json.{Dict}
use sort4circ.Governance.Selecting.{append-nil-parts}

pub record Deviation : Type 0 where
  pub affected_clauses : List String
  pub prepared_by : String
  pub approved_by : Option String
  pub status : String
  pub field_level_mapping : List Dict

pub data DeviationMessage : Type 0 where
  clauses_missing same_individual mapping_missing : DeviationMessage

abbrev required_clauses : List String
required_clauses = "Clause 5" ∷ "Annex A" ∷ "Annex B" ∷ []

unfoldable subset : List String → List String → Bool
subset [] ys = true
subset (x ∷ xs) ys = elem x ys && subset xs ys

abbrev is_approver : Option String → String → Bool
is_approver none preparer = false
is_approver (some approver) preparer = approver == preparer

abbrev is_empty_list : List Dict → Bool
is_empty_list [] = true
is_empty_list (d ∷ ds) = false

abbrev message_unless : Bool → DeviationMessage → List DeviationMessage
message_unless true m = []
message_unless false m = m ∷ []

-- `validate_en18223_deviation`
unfoldable pub validate_en_18223_deviation : Deviation → List DeviationMessage
unfolding subset
validate_en_18223_deviation d =
    message_unless
      (subset d.affected_clauses required_clauses && subset required_clauses d.affected_clauses)
      clauses_missing
    ++ (message_unless (not (is_approver d.approved_by d.prepared_by)) same_individual
        ++ message_unless (not ((d.status == "closed") && is_empty_list d.field_level_mapping))
            mapping_missing)

message_unless-nil : (b : Bool) (m : DeviationMessage) → message_unless b m ≡ [] → b ≡ true
message_unless-nil true m h = refl
message_unless-nil false m h = absurd (cc)

not-eq-true : (b : Bool) → not b ≡ true → b ≡ false
not-eq-true true h = sym h
not-eq-true false h = refl

-- A deviation without messages names the three clauses, is not approved by its preparer, and is not closed without
-- a mapping.
validate_en_18223_deviation-nil :
    (d : Deviation)
    → validate_en_18223_deviation d ≡ []
    → (elem "Clause 5" d.affected_clauses ≡ true)
      × (elem "Annex A" d.affected_clauses ≡ true)
      × (elem "Annex B" d.affected_clauses ≡ true)
      × (is_approver d.approved_by d.prepared_by ≡ false)
      × (((d.status == "closed") && is_empty_list d.field_level_mapping) ≡ false)
unfolding validate_en_18223_deviation subset
validate_en_18223_deviation-nil d h =
    let (a, r) = append-nil-parts (message_unless _ clauses_missing) _ h in
    let (b, c) = append-nil-parts (message_unless _ same_individual) _ r in
    let (_, named) =
      and_parts (subset d.affected_clauses required_clauses) _
        (message_unless-nil _ clauses_missing a) in
    let (five, annexes) = and_parts (elem "Clause 5" d.affected_clauses) _ named in
    let (annex_a, rest) = and_parts (elem "Annex A" d.affected_clauses) _ annexes in
    let (annex_b, _) = and_parts (elem "Annex B" d.affected_clauses) _ rest in
    (
      five,
      annex_a,
      annex_b,
      not-eq-true _ (message_unless-nil _ same_individual b),
      not-eq-true _ (message_unless-nil _ mapping_missing c),
    )
