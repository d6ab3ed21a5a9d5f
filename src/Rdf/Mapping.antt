-- ===== src/Rdf/Mapping.antt =====
-- `json_to_rdf` and `rdf_to_json` of src/sort4circ_dpp/mapping.py. `json.dumps` with sorted keys, `json.loads` and
-- `str` are given.
use sort4circ.Prelude.{
  String, Option, none, some, List, [], ◌∷◌, ◌++◌, Result, ok, err, ◌>>=◌, ◌>>◌, ◌==◌,
  if◌then◌else◌,
}
use sort4circ.Reasons.{Error, type_error, value_error}
use sort4circ.Json.{Json, Items, Dict, str, arr, obj, nil, cons, get?, is_truthy}
use sort4circ.Json.Shape.{text_at, json_at, as_dict}
use sort4circ.Env.{Env}
use sort4circ.Validation.{validate_payload}
use sort4circ.Rdf.{
  Term, iri, literal, Triple, triple, s4c, rdf_type, rdf_value, rdf_json, xsd_integer, xsd_decimal,
  xsd_string, xsd_date_time, Graphs, add_all,
}

-- `_uri`
abbrev pub term_uri : String → String → Term
term_uri kind token = s4c (Prim.Native.String.◌++◌ kind (Prim.Native.String.◌++◌ "/" token))

-- `d.get(k)`, a text if it is truthy
abbrev pub text_if : Option Json → Result Error (Option String)
text_if none = ok none
text_if (some (str t)) = ok (if t == "" then none else some t)
text_if (some v) = if is_truthy v then err type_error else ok none

-- `d.get(k)`, a dict if it is truthy
abbrev pub dict_if : Option Json → Result Error (Option Dict)
dict_if none = ok none
dict_if (some (obj d)) = ok (if is_truthy (obj d) then some d else none)
dict_if (some v) = if is_truthy v then err type_error else ok none

abbrev pub first_of : Option String → Result Error (Option String) → Result Error (Option String)
first_of none next = next
first_of (some t) next = ok (some t)

-- `identity.get("itemId") or identity.get("batchId") or identity.get("modelId")`
unfoldable pub identity_id : Dict → Result Error (Option String)
identity_id identity = do
  item ← text_if (get? "itemId" identity)
  rest ← first_of item (do
    batch ← text_if (get? "batchId" identity)
    first_of batch (text_if (get? "modelId" identity)))
  ok rest

abbrev pub entity_of : String → Option String → Term
entity_of dpp_id none = term_uri "entity" dpp_id
entity_of dpp_id (some t) = iri t

abbrev pub items_of : Json → Result Error Items
items_of (arr xs) = ok xs
items_of v = err type_error

module _ (str_of : Json → String) where
  -- A literal of a member, with a datatype.
  abbrev pub literal_at : String → String → Dict → Result Error Term
  literal_at k datatype d = json_at k d >>= λ v. ok (literal (str_of v) (some datatype))

  abbrev pub superseding : Term → Option Json → Result Error (List Triple)
  superseding subject none = ok []
  superseding subject (some (str t)) = ok (triple subject (s4c "supersededBy") (iri t) ∷ [])
  superseding subject (some v) = err type_error

  abbrev pub mass_triples : Term → Option Dict → Result Error (List Triple)
  mass_triples entity none = ok []
  mass_triples entity (some mass) = do
    amount ← literal_at "value" xsd_decimal mass
    measure ← literal_at "unit" xsd_string mass
    ok (triple entity (s4c "massValue") amount ∷ triple entity (s4c "massUnit") measure ∷ [])

  abbrev pub system_triples : Term → Option Json → Result Error (List Triple)
  system_triples node none = ok []
  system_triples node (some (str t)) = ok (triple node (s4c "producedBySystem") (iri t) ∷ [])
  system_triples node (some v) = err type_error

  abbrev pub percentage_triples : Term → Dict → Option Json → Result Error (List Triple)
  percentage_triples node observation none = ok []
  percentage_triples node observation (some v) = do
    basis ← literal_at "percentageBasis" xsd_string observation
    ok (
        triple node (s4c "percentage") (literal (str_of v) (some xsd_decimal))
        ∷ triple node (s4c "percentageBasis") basis
        ∷ [])

  abbrev pub confidence_triples : Term → Option Dict → Result Error (List Triple)
  confidence_triples node none = ok []
  confidence_triples node (some confidence) = do
    amount ← literal_at "value" xsd_decimal confidence
    scale ← literal_at "scale" xsd_string confidence
    ok (triple node (s4c "confidenceValue") amount ∷ triple node (s4c "confidenceScale") scale ∷ [])

  -- The body of the loop over the observations.
  unfoldable pub observation_triples : Term → Dict → Result Error (List Triple)
  observation_triples entity observation = do
    id ← text_at "observationId" observation
    fibre ← text_at "fibreType" observation
    status ← literal_at "valueStatus" xsd_string observation
    method ← text_at "method" observation
    organisation ← text_at "sourceOrganisationId" observation
    time ← literal_at "observedAt" xsd_date_time observation
    system ← system_triples (iri id) (get? "sourceSystemId" observation)
    percentage ← percentage_triples (iri id) observation (get? "percentage" observation)
    confidence ← dict_if (get? "confidence" observation)
    confident ← confidence_triples (iri id) confidence
    ok (
        triple entity (s4c "hasObservation") (iri id)
        ∷ triple (iri id) rdf_type (s4c "MaterialObservation")
        ∷ triple (iri id) (s4c "fibreType") (term_uri "fibre-type" fibre)
        ∷ triple (iri id) (s4c "valueStatus") status
        ∷ triple (iri id) (s4c "usedMethod") (term_uri "method" method)
        ∷ triple (iri id) (s4c "observedBy") (iri organisation)
        ∷ triple (iri id) (s4c "observedAt") time
        ∷ (system ++ (percentage ++ confident)))

  unfoldable pub observations_triples : Term → Items → Result Error (List Triple)
  observations_triples entity nil = ok []
  observations_triples entity (cons x xs) = do
    observation ← as_dict x
    first ← observation_triples entity observation
    rest ← observations_triples entity xs
    ok (first ++ rest)

  -- The triples that follow the snapshot, in the order in which they are added.
  unfoldable pub semantic_triples : String → Dict → Result Error (List Triple)
  semantic_triples dpp_id payload = do
    schema ← literal_at "schemaVersion" xsd_string payload
    version ← literal_at "recordVersion" xsd_integer payload
    superseded ← superseding (iri dpp_id) (get? "supersededBy" payload)
    identity ← json_at "identity" payload
    identity_dict ← as_dict identity
    found ← identity_id identity_dict
    product ← json_at "product" payload
    product_dict ← as_dict product
    article ← text_at "articleClass" product_dict
    mass ← dict_if (get? "mass" product_dict)
    weighed ← mass_triples (entity_of dpp_id found) mass
    observations ← json_at "materialObservations" payload
    listed ← items_of observations
    observed ← observations_triples (entity_of dpp_id found) listed
    ok (
        triple (iri dpp_id) (s4c "schemaVersion") schema
        ∷ triple (iri dpp_id) (s4c "recordVersion") version
        ∷ (superseded
            ++ triple (iri dpp_id) (s4c "describes") (entity_of dpp_id found)
              ∷ triple (entity_of dpp_id found) rdf_type (s4c "TextileEntity")
              ∷ triple (entity_of dpp_id found) (s4c "articleClass")
                  (term_uri "article-class" article)
              ∷ (weighed ++ observed)))

  -- `json_to_rdf`
  unfoldable pub json_to_rdf :
      {G : Type 0} → Graphs G → Env → (Dict → String) → Dict → Result Error G
  json_to_rdf graphs env dumps payload = do
    validate_payload env payload
    dpp_id ← text_at "dppId" payload
    triples ← semantic_triples dpp_id payload
    ok (
        add_all graphs graphs.empty_graph (
          triple (iri dpp_id) rdf_type (s4c "DigitalProductPassport")
          ∷ triple (iri dpp_id) rdf_value (literal (dumps payload) (some rdf_json))
          ∷ triples))

-- The subject that is meant: the one that is asked for, or the only passport of the graph.
abbrev pub only_one : List Term → Result Error Term
only_one (subject ∷ []) = ok subject
only_one _ = err value_error

abbrev pub subject_for : {G : Type 0} → Graphs G → Option String → G → Result Error Term
subject_for graphs none graph =
    only_one (graphs.subjects graph rdf_type (s4c "DigitalProductPassport"))
subject_for graphs (some dpp_id) graph = ok (iri dpp_id)

abbrev pub snapshot_text : Option Term → Result Error String
snapshot_text (some (literal text (some datatype))) =
    if datatype == rdf_json then ok text else err value_error
snapshot_text _ = err value_error

-- `rdf_to_json`
unfoldable pub rdf_to_json :
    {G : Type 0}
    → Graphs G
    → Env
    → (String → Result Error Json)
    → G
    → Option String
    → Result Error Dict
rdf_to_json graphs env loads graph dpp_id = do
  subject ← subject_for graphs dpp_id graph
  text ← snapshot_text (graphs.value graph subject rdf_value)
  loaded ← loads text
  result ← as_dict loaded
  validate_payload env result
  ok result
