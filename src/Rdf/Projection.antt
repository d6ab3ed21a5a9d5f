-- ===== src/Rdf/Projection.antt =====
-- `to_rdf` of src/sort4circ_dpp/exchange.py: the core graph of an accepted passport. The
-- texts of a value and of `Decimal(str(value))` are given; a literal without a datatype is of a text.
use sort4circ.Prelude.{
  ℕ, suc, String, Option, none, some, List, [], ◌∷◌, ◌++◌, Result, ok, err, ◌>>=◌, ◌>>◌, decimal,
}
use sort4circ.Reasons.{Error, type_error}
use sort4circ.Json.{Json, Items, Dict, str, nil, cons, get?}
use sort4circ.Json.Shape.{text_at, json_at, as_dict}
use sort4circ.Store.Append.{collection_of}
use sort4circ.Env.{Env}
use sort4circ.Validation.{validate_payload}
use sort4circ.Rdf.{
  Term, iri, literal, Triple, triple, s4c, rdf_type, xsd_integer, xsd_decimal, xsd_date_time,
  Graphs, add_all,
}
use sort4circ.Rdf.Mapping.{text_if, identity_id, items_of}

abbrev pub found_text : Option String → Result Error String
found_text none = err type_error
found_text (some t) = ok t

-- A loop over the dicts of a list, with the position of each.
unfoldable pub each_dict :
    (ℕ → Dict → Result Error (List Triple)) → ℕ → Items → Result Error (List Triple)
each_dict body i nil = ok []
each_dict body i (cons x xs) = do
  d ← as_dict x
  first ← body i d
  rest ← each_dict body (suc i) xs
  ok (first ++ rest)

module _ (str_of decimal_of : Json → String) where
  -- `Literal(d[k])`
  abbrev pub plain_literal : String → Dict → Result Error Term
  plain_literal k d = json_at k d >>= λ v. ok (literal (str_of v) none)

  -- `Literal(d[k], datatype=…)`
  abbrev pub typed_literal : String → String → Dict → Result Error Term
  typed_literal k datatype d = json_at k d >>= λ v. ok (literal (str_of v) (some datatype))

  unfoldable pub passport_triples : Term → Dict → Result Error (List Triple)
  passport_triples dpp source = do
    schema ← plain_literal "schemaVersion" source
    version ← typed_literal "recordVersion" xsd_integer source
    status ← plain_literal "status" source
    created ← typed_literal "createdAt" xsd_date_time source
    updated ← typed_literal "updatedAt" xsd_date_time source
    operator ← text_at "responsibleOperatorId" source
    ok (
        triple dpp rdf_type (s4c "DigitalProductPassport")
        ∷ triple dpp (s4c "schemaVersion") schema
        ∷ triple dpp (s4c "recordVersion") version
        ∷ triple dpp (s4c "status") status
        ∷ triple dpp (s4c "createdAt") created
        ∷ triple dpp (s4c "updatedAt") updated
        ∷ triple dpp (s4c "responsibleOperator") (iri operator)
        ∷ [])

  unfoldable pub garment_triples : Term → String → Dict → Dict → Result Error (List Triple)
  garment_triples dpp subject_id identity product = do
    granularity ← plain_literal "granularity" identity
    article ← text_at "articleClass" product
    ok (
        triple dpp (s4c "describes") (iri subject_id)
        ∷ triple (iri subject_id) rdf_type (s4c "Garment")
        ∷ triple (iri subject_id) (s4c "granularity") granularity
        ∷ triple (iri subject_id) (s4c "productIdentifier") (literal subject_id none)
        ∷ triple (iri subject_id) (s4c "articleClass") (s4c article)
        ∷ [])

  unfoldable pub carrier_triples : Term → ℕ → Dict → Result Error (List Triple)
  carrier_triples dpp i carrier = do
    id ← text_at "carrierId" carrier
    status ← plain_literal "bindingStatus" carrier
    encoded ← plain_literal "encodedIdentifier" carrier
    let tag = iri (Prim.Native.String.◌++◌ id ":carrier")
    ok (
        triple dpp (s4c "hasCarrierBinding") (iri id)
        ∷ triple (iri id) rdf_type (s4c "CarrierBinding")
        ∷ triple (iri id) (s4c "bindsCarrier") tag
        ∷ triple (iri id) (s4c "bindingStatus") status
        ∷ triple tag rdf_type (s4c "DataCarrier")
        ∷ triple tag (s4c "encodedIdentifier") encoded
        ∷ [])

  abbrev pub share_triples : Term → Dict → Option Json → Result Error (List Triple)
  share_triples node observation none = ok []
  share_triples node observation (some v) = do
    basis ← plain_literal "percentageBasis" observation
    ok (
        triple node (s4c "percentage") (literal (decimal_of v) (some xsd_decimal))
        ∷ triple node (s4c "percentageBasis") basis
        ∷ [])

  unfoldable pub measured_triples : Term → ℕ → Dict → Result Error (List Triple)
  measured_triples garment i observation = do
    id ← text_at "observationId" observation
    fibre ← text_at "fibreType" observation
    status ← plain_literal "valueStatus" observation
    method ← text_at "method" observation
    organisation ← text_at "sourceOrganisationId" observation
    time ← typed_literal "observedAt" xsd_date_time observation
    share ← share_triples (iri id) observation (get? "percentage" observation)
    ok (
        triple garment (s4c "hasObservation") (iri id)
        ∷ triple (iri id) rdf_type (s4c "MaterialObservation")
        ∷ triple (iri id) (s4c "fibreType") (s4c fibre)
        ∷ triple (iri id) (s4c "valueStatus") status
        ∷ triple (iri id) (s4c "usedMethod") (s4c method)
        ∷ triple (iri id) (s4c "observedBy") (iri organisation)
        ∷ triple (iri id) (s4c "observedAt") time
        ∷ share)

  abbrev pub part_of : Term → Option String → List Triple
  part_of node none = []
  part_of node (some parent) = triple node (s4c "partOf") (iri parent) ∷ []

  unfoldable pub component_triples : Term → ℕ → Dict → Result Error (List Triple)
  component_triples garment i component = do
    id ← text_at "componentId" component
    kind ← plain_literal "componentType" component
    parent ← text_if (get? "parentComponentId" component)
    ok (
        triple garment (s4c "hasComponent") (iri id)
        ∷ triple (iri id) rdf_type (s4c "Component")
        ∷ triple (iri id) (s4c "componentType") kind
        ∷ part_of (iri id) parent)

  unfoldable pub event_triples : Term → ℕ → Dict → Result Error (List Triple)
  event_triples dpp i event = do
    id ← text_at "eventId" event
    kind ← plain_literal "eventType" event
    time ← typed_literal "recordedAt" xsd_date_time event
    actor ← text_at "actorOrganisationId" event
    ok (
        triple dpp (s4c "hasLifecycleEvent") (iri id)
        ∷ triple (iri id) rdf_type (s4c "LifecycleEvent")
        ∷ triple (iri id) (s4c "eventType") kind
        ∷ triple (iri id) (s4c "recordedAt") time
        ∷ triple (iri id) (s4c "performedBy") (iri actor)
        ∷ [])

  -- `for observation_ref in decision["basedOnObservations"]`
  unfoldable pub basis_triples : Term → Items → Result Error (List Triple)
  basis_triples node nil = ok []
  basis_triples node (cons (str t) xs) =
      basis_triples node xs >>= λ rest. ok (triple node (s4c "basedOnObservation") (iri t) ∷ rest)
  basis_triples node (cons v xs) = err type_error

  unfoldable pub decision_triples : Term → ℕ → Dict → Result Error (List Triple)
  decision_triples dpp i decision = do
    id ← text_at "decisionId" decision
    category ← plain_literal "sortingCategory" decision
    observations ← json_at "basedOnObservations" decision
    listed ← items_of observations
    basis ← basis_triples (iri id) listed
    ok (
        triple dpp (s4c "hasSortingDecision") (iri id)
        ∷ triple (iri id) rdf_type (s4c "SortingDecision")
        ∷ triple (iri id) (s4c "sortingCategoryValue") category
        ∷ basis)

  -- The node is `f"{record['dppId']}:environmental:{index}"`, counted from one.
  unfoldable pub environmental_triples : String → Term → ℕ → Dict → Result Error (List Triple)
  environmental_triples dpp_id garment i entry_dict = do
    metric ← plain_literal "metricType" entry_dict
    boundary ← plain_literal "systemBoundary" entry_dict
    let node = iri (
        Prim.Native.String.◌++◌ dpp_id
          (Prim.Native.String.◌++◌ ":environmental:" (decimal (suc i) i)))
    ok (
        triple garment (s4c "hasObservation") node
        ∷ triple node rdf_type (s4c "EnvironmentalValue")
        ∷ triple node (s4c "metricType") metric
        ∷ triple node (s4c "systemBoundary") boundary
        ∷ [])

  -- The additions of `to_rdf`, in order.
  unfoldable pub core_triples : Dict → Result Error (List Triple)
  core_triples source = do
    dpp_id ← text_at "dppId" source
    passport ← passport_triples (iri dpp_id) source
    identity ← json_at "identity" source
    identity_dict ← as_dict identity
    found ← identity_id identity_dict
    subject_id ← found_text found
    product ← json_at "product" source
    product_dict ← as_dict product
    garment ← garment_triples (iri dpp_id) subject_id identity_dict product_dict
    carriers ← collection_of (get? "carriers" source)
    bound ← each_dict (carrier_triples (iri dpp_id)) 0 carriers
    observations ← json_at "materialObservations" source
    listed ← items_of observations
    measured ← each_dict (measured_triples (iri subject_id)) 0 listed
    components ← collection_of (get? "components" source)
    composed ← each_dict (component_triples (iri subject_id)) 0 components
    events ← collection_of (get? "lifecycleEvents" source)
    happened ← each_dict (event_triples (iri dpp_id)) 0 events
    decisions ← collection_of (get? "sortingDecisions" source)
    decided ← each_dict (decision_triples (iri dpp_id)) 0 decisions
    values ← collection_of (get? "environmentalValues" source)
    valued ← each_dict (environmental_triples dpp_id (iri subject_id)) 1 values
    ok (
        passport
        ++ (garment ++ (bound ++ (measured ++ (composed ++ (happened ++ (decided ++ valued)))))))

  -- `to_rdf`
  unfoldable pub to_rdf : {G : Type 0} → Graphs G → Env → Dict → Result Error G
  to_rdf graphs env source = do
    validate_payload env source
    triples ← core_triples source
    ok (add_all graphs graphs.empty_graph triples)
