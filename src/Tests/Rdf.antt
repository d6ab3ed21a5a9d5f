-- ===== src/Tests/Rdf.antt =====
-- The graph of a small passport, read back.
use sort4circ.Prelude.{◌≡◌, refl, Result, ok, err, String, none, some, [], ◌∷◌, List}
use sort4circ.Prelude.Int.{pos}
use sort4circ.Reasons.{Error, value_error}
use sort4circ.Json.{Json, Dict, int, str, arr, obj, nil, cons, empty, entry}
use sort4circ.Rdf.{Triple, iri}
use sort4circ.Rdf.{rdf_type}
use sort4circ.Rdf.Plain.{passport_type}
use sort4circ.Rdf.Single.{to_rdf-single}
use sort4circ.Rdf.Reversal.{rdf_to_json-json_to_rdf}
use sort4circ.Tests.Graphs.{listed, listed-Lawful}
use sort4circ.Tests.Sample.{sample_env, shirt}
use sort4circ.Json.{
  get?, set, remove, set_default, merge, items_append, items_length, keys, select, is_truthy,
  without,
}
use sort4circ.Json.Shape.{dict_or_empty, items_or_empty, text_at, nat_at, as_dict}
use sort4circ.Prelude.{lookup, insert, erase}
use sort4circ.Prelude.{digits, decimal, utf_8_length}
use sort4circ.Canonical.Projection.{
  pick_present, pick, pick_observations, add_dict, add_items, integrity_projection,
}
use sort4circ.Vocab.{validate, check_value, each, validate_record}
use sort4circ.Composition.{
  same_set, text_or_empty, set_key, add_to_group, group_all, observation_sets, is_supplied_mass,
  percentage, percentages, float_gt, check_set, check_sets, check_composition,
}
use sort4circ.Composition.Grouping.{members, with_key}
use sort4circ.Validation.{validate_schema, validate_payload}
use sort4circ.Rdf.{term_eq, add_all}
use sort4circ.Rdf.Mapping.{
  identity_id, observation_triples, observations_triples, semantic_triples, json_to_rdf,
  rdf_to_json,
}
use sort4circ.Rdf.Projection.{
  each_dict, passport_triples, garment_triples, carrier_triples, measured_triples,
  component_triples, event_triples, basis_triples, decision_triples, environmental_triples,
  core_triples, to_rdf,
}
use sort4circ.Tests.Graphs.{add, subjects, value}

abbrev text_of_value : Json → String
text_of_value (str t) = t
text_of_value v = "1"

abbrev cotton : Dict
cotton = entry "observationId" (str "urn:o1") (
    entry "fibreType" (str "shirt") (
      entry "valueStatus" (str "active") (
        entry "method" (str "epc") (
          entry "sourceOrganisationId" (str "urn:org")
            (entry "observedAt" (str "2025-01-01T00:00:00Z") empty)))))

abbrev passport : Dict
passport = entry "dppId" (str "urn:d") (
    entry "schemaVersion" (str "1.0.0") (
      entry "recordVersion" (int (pos 1))
        (entry "materialObservations" (arr (cons (obj cotton) nil)) shirt)))

abbrev sold : Dict
sold = entry "eventId" (str "urn:v1") (
    entry "eventType" (str "replaced") (
      entry "recordedAt" (str "2025-01-02T00:00:00Z")
        (entry "actorOrganisationId" (str "urn:org") empty)))

abbrev resale : Dict
resale = entry "decisionId" (str "urn:s1") (
    entry "sortingCategory" (str "active")
      (entry "basedOnObservations" (arr (cons (str "urn:o1") nil)) empty))

abbrev water : Dict
water = entry "metricType" (str "water") (entry "systemBoundary" (str "cradle") empty)

abbrev dumps : Dict → String
dumps d = "snapshot"

abbrev loads : String → Result Error Json
loads t = ok (obj passport)

abbrev graph_of : Result Error (List Triple) → List Triple
graph_of (ok graph) = graph
graph_of (err e) = []

abbrev graph : List Triple
graph = graph_of (json_to_rdf text_of_value listed sample_env dumps passport)

maps : json_to_rdf text_of_value listed sample_env dumps passport ≡ ok graph
unfolding get? set remove set_default merge items_append items_length keys select is_truthy without
    dict_or_empty items_or_empty text_at nat_at as_dict lookup insert erase digits decimal
    utf_8_length pick_present pick pick_observations add_dict add_items integrity_projection
    validate check_value each validate_record same_set text_or_empty set_key add_to_group group_all
    observation_sets is_supplied_mass percentage percentages float_gt check_set check_sets
    check_composition members with_key validate_schema validate_payload term_eq add_all identity_id
    observation_triples observations_triples semantic_triples json_to_rdf rdf_to_json each_dict
    passport_triples garment_triples carrier_triples measured_triples component_triples
    event_triples basis_triples decision_triples environmental_triples core_triples to_rdf add
    subjects value
maps = refl

has_id : text_at "dppId" passport ≡ ok "urn:d"
unfolding get? set remove set_default merge items_append items_length keys select is_truthy without
    dict_or_empty items_or_empty text_at nat_at as_dict lookup insert erase digits decimal
    utf_8_length pick_present pick pick_observations add_dict add_items integrity_projection
    validate check_value each validate_record same_set text_or_empty set_key add_to_group group_all
    observation_sets is_supplied_mass percentage percentages float_gt check_set check_sets
    check_composition members with_key validate_schema validate_payload term_eq add_all identity_id
    observation_triples observations_triples semantic_triples json_to_rdf rdf_to_json each_dict
    passport_triples garment_triples carrier_triples measured_triples component_triples
    event_triples basis_triples decision_triples environmental_triples core_triples to_rdf add
    subjects value
has_id = refl

loads-passport : loads (dumps passport) ≡ ok (obj passport)
loads-passport = refl

passport_accepted : validate_payload sample_env passport ≡ ok tt
unfolding get? set remove set_default merge items_append items_length keys select is_truthy without
    dict_or_empty items_or_empty text_at nat_at as_dict lookup insert erase digits decimal
    utf_8_length pick_present pick pick_observations add_dict add_items integrity_projection
    validate check_value each validate_record same_set text_or_empty set_key add_to_group group_all
    observation_sets is_supplied_mass percentage percentages float_gt check_set check_sets
    check_composition members with_key validate_schema validate_payload term_eq add_all identity_id
    observation_triples observations_triples semantic_triples json_to_rdf rdf_to_json each_dict
    passport_triples garment_triples carrier_triples measured_triples component_triples
    event_triples basis_triples decision_triples environmental_triples core_triples to_rdf add
    subjects value
passport_accepted = refl

-- A graph without a passport is refused.
no_subject : rdf_to_json listed sample_env loads [] none ≡ err value_error
unfolding get? set remove set_default merge items_append items_length keys select is_truthy without
    dict_or_empty items_or_empty text_at nat_at as_dict lookup insert erase digits decimal
    utf_8_length pick_present pick pick_observations add_dict add_items integrity_projection
    validate check_value each validate_record same_set text_or_empty set_key add_to_group group_all
    observation_sets is_supplied_mass percentage percentages float_gt check_set check_sets
    check_composition members with_key validate_schema validate_payload term_eq add_all identity_id
    observation_triples observations_triples semantic_triples json_to_rdf rdf_to_json each_dict
    passport_triples garment_triples carrier_triples measured_triples component_triples
    event_triples basis_triples decision_triples environmental_triples core_triples to_rdf add
    subjects value
no_subject = refl

rdf_to_json-json_to_rdf_example :
    (rdf_to_json listed sample_env loads graph none ≡ ok passport)
    × (rdf_to_json listed sample_env loads graph (some "urn:d") ≡ ok passport)
rdf_to_json-json_to_rdf_example =
    rdf_to_json-json_to_rdf listed listed-Lawful text_of_value sample_env dumps loads passport
      passport "urn:d" graph maps has_id loads-passport passport_accepted

abbrev full : Dict
full = entry "status" (str "active") (
    entry "createdAt" (str "2025-01-01T00:00:00Z") (
      entry "updatedAt" (str "2025-01-02T00:00:00Z") (
        entry "responsibleOperatorId" (str "urn:org") (
          entry "lifecycleEvents" (arr (cons (obj sold) nil)) (
            entry "sortingDecisions" (arr (cons (obj resale) nil))
              (entry "environmentalValues" (arr (cons (obj water) nil)) passport))))))

abbrev core : List Triple
core = graph_of (to_rdf text_of_value text_of_value listed sample_env full)

projects : to_rdf text_of_value text_of_value listed sample_env full ≡ ok core
unfolding get? set remove set_default merge items_append items_length keys select is_truthy without
    dict_or_empty items_or_empty text_at nat_at as_dict lookup insert erase digits decimal
    utf_8_length pick_present pick pick_observations add_dict add_items integrity_projection
    validate check_value each validate_record same_set text_or_empty set_key add_to_group group_all
    observation_sets is_supplied_mass percentage percentages float_gt check_set check_sets
    check_composition members with_key validate_schema validate_payload term_eq add_all identity_id
    observation_triples observations_triples semantic_triples json_to_rdf rdf_to_json each_dict
    passport_triples garment_triples carrier_triples measured_triples component_triples
    event_triples basis_triples decision_triples environmental_triples core_triples to_rdf add
    subjects value
projects = refl

full_id : text_at "dppId" full ≡ ok "urn:d"
unfolding get? set remove set_default merge items_append items_length keys select is_truthy without
    dict_or_empty items_or_empty text_at nat_at as_dict lookup insert erase digits decimal
    utf_8_length pick_present pick pick_observations add_dict add_items integrity_projection
    validate check_value each validate_record same_set text_or_empty set_key add_to_group group_all
    observation_sets is_supplied_mass percentage percentages float_gt check_set check_sets
    check_composition members with_key validate_schema validate_payload term_eq add_all identity_id
    observation_triples observations_triples semantic_triples json_to_rdf rdf_to_json each_dict
    passport_triples garment_triples carrier_triples measured_triples component_triples
    event_triples basis_triples decision_triples environmental_triples core_triples to_rdf add
    subjects value
full_id = refl

to_rdf-single_example :
    (subjects core rdf_type passport_type ≡ iri "urn:d" ∷ [])
    × (rdf_to_json listed sample_env loads core none ≡ err value_error)
    × (rdf_to_json listed sample_env loads core (some "urn:d") ≡ err value_error)
to_rdf-single_example =
    to_rdf-single listed listed-Lawful text_of_value text_of_value sample_env loads full "urn:d"
      core projects full_id
