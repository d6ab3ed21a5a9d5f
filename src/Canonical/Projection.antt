-- ===== src/Canonical/Projection.antt =====
-- The integrity projection: `_pick` and `integrity_projection` of src/sort4circ_dpp/canonical.py.
use sort4circ.Prelude.{
  String, Option, none, some, List, [], ◌∷◌, Result, ok, err, ◌>>=◌, if◌then◌else◌,
}
use sort4circ.Reasons.{Error, type_error}
use sort4circ.Json.{
  Json, Items, Dict, null, arr, obj, nil, cons, empty, entry, get?, set, is_truthy,
}

abbrev pub projection_top_level : List String
projection_top_level = "dppId" ∷ "recordVersion" ∷ "updatedAt" ∷ []

abbrev pub projection_identity : List String
projection_identity = "granularity" ∷ "itemId" ∷ "epc" ∷ []

abbrev pub projection_product : List String
projection_product = "articleClass" ∷ "fabricConstruction" ∷ "technicalFlags" ∷ []

abbrev pub projection_observation : List String
projection_observation =
    "observationId" ∷ "fibreType" ∷ "percentage" ∷ "percentageBasis" ∷ "valueStatus" ∷ "method"
    ∷ "sourceOrganisationId" ∷ "observedAt" ∷ []

-- `key in source and source[key] is not None`
abbrev pub present : Option Json → Option Json
present none = none
present (some null) = none
present (some v) = some v

-- `{key: source[key] for key in keys if …}`
unfoldable pub pick_present : List String → Dict → Dict
unfolding get?
pick_present [] d = empty
pick_present (k ∷ ks) d =
    let rest = pick_present ks d in
    elim (present (get? k d)) [ none ↦ rest | some v ↦ entry k v rest ]

-- `_pick`: a falsy source gives {}; the profile's sources are dicts, and another value raises.
unfoldable pub pick : List String → Option Json → Result Error Dict
unfolding pick_present is_truthy
pick keys none = ok empty
pick keys (some (obj d)) = ok (pick_present keys d)
pick keys (some v) = if is_truthy v then err type_error else ok empty

pick_each : Items → Result Error Items
unfolding pick
pick_each nil = ok nil
pick_each (cons x xs) = do
  d ← pick projection_observation (some x)
  rest ← pick_each xs
  ok (cons (obj d) rest)

-- `record.get("materialObservations") or []`, each projected.
unfoldable pub pick_observations : Option Json → Result Error Items
unfolding pick_each is_truthy
pick_observations none = ok nil
pick_observations (some (arr xs)) = pick_each xs
pick_observations (some v) = if is_truthy v then err type_error else ok nil

-- `if part: projection[key] = part`
unfoldable pub add_dict : String → Dict → Dict → Dict
unfolding set
add_dict key empty projection = projection
add_dict key (entry k v d) projection = set key (obj (entry k v d)) projection

unfoldable pub add_items : String → Items → Dict → Dict
unfolding set
add_items key nil projection = projection
add_items key (cons x xs) projection = set key (arr (cons x xs)) projection

unfoldable pub integrity_projection : Dict → Result Error Dict
unfolding pick_present pick pick_observations add_dict add_items get?
integrity_projection source = do
  identity ← pick projection_identity (get? "identity" source)
  product ← pick projection_product (get? "product" source)
  observations ← pick_observations (get? "materialObservations" source)
  ok (
      add_items "materialObservations" observations (
        add_dict "product" product
          (add_dict "identity" identity (pick_present projection_top_level source))))
