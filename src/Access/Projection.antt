-- ===== src/Access/Projection.antt =====
-- `project` of src/sort4circ_dpp/access.py, with `_observation_for`. A step for each part of the view.
use sort4circ.Prelude.{
  String, Bool, Option, none, some, List, [], ◌∷◌, ◌++◌, Result, ok, ◌>>=◌, if◌then◌else◌,
}
use sort4circ.Reasons.{Error}
use sort4circ.Json.{
  Json, Items, Dict, null, str, arr, obj, nil, cons, empty, entry, get?, set, remove, select,
}
use sort4circ.Json.Equality.{equal}
use sort4circ.Json.Shape.{as_dict, json_at, get_or, value_or}
use sort4circ.Store.Append.{collection_of}
use sort4circ.Store.Carriers.{is_commissioned}
use sort4circ.Access.{
  View, integrity_only, public_view, partner_view, sorting_view, recycler_view, authority_view,
  full_view, view_name, Principal,
}

-- `_PUBLIC_PRODUCT`
abbrev pub public_product : List String
public_product = "articleClass" ∷ "fabricConstruction" ∷ "technicalFlags" ∷ []

-- `_SORTING_PRODUCT`
abbrev pub sorting_product : List String
sorting_product = public_product ++ "colourPrimary" ∷ "condition" ∷ "mass" ∷ []

abbrev pub product_fields : View → List String
product_fields public_view = public_product
product_fields _ = sorting_product

abbrev pub basic_keys : List String
basic_keys = "observationId" ∷ "fibreType" ∷ "valueStatus" ∷ "method" ∷ "observedAt" ∷ []

-- The keys that `_observation_for` keeps.
abbrev pub observation_keys : View → List String
observation_keys public_view = basic_keys ++ "percentage" ∷ "percentageBasis" ∷ []
observation_keys partner_view = basic_keys ++ "percentage" ∷ "percentageBasis" ∷ []
observation_keys integrity_only = basic_keys ++ "percentage" ∷ "percentageBasis" ∷ []
observation_keys _ =
    basic_keys
    ++ "percentage" ∷ "percentageBasis" ∷ "confidence" ∷ "sourceOrganisationId" ∷ "sourceSystemId"
      ∷ "evidenceRef" ∷ []

abbrev pub marked : View → Dict → Dict
marked public_view d = remove "sourceOrganisationId" (
    set "sourceOrganisationStatus" (str "withheld") (set "sourceOrganisationId" (str "withheld") d))
marked _ d = d

-- `_observation_for`
unfoldable pub observation_for : View → Dict → Dict
observation_for view observation = marked view (select (observation_keys view) observation)

unfoldable pub observations_for : View → Items → Result Error Items
observations_for view nil = ok nil
observations_for view (cons x xs) = do
  d ← as_dict x
  rest ← observations_for view xs
  ok (cons (obj (observation_for view d)) rest)

-- `[copy.deepcopy(x) for x in xs if test(x)]`
unfoldable pub those : (Dict → Bool) → Items → Result Error Items
those test nil = ok nil
those test (cons x xs) = do
  d ← as_dict x
  rest ← those test xs
  ok (if test d then cons (obj d) rest else rest)

abbrev pub of_organisation : String → Dict → Bool
of_organisation organisation event =
    equal (value_or null (get? "actorOrganisationId" event)) (str organisation)

-- The members that every view but the full one starts with.
unfoldable pub heading : View → Dict → Result Error Dict
heading view source = do
  id ← json_at "dppId" source
  schema ← json_at "schemaVersion" source
  version ← json_at "recordVersion" source
  ok (
      entry "dppId" id (
        entry "schemaVersion" schema (
          entry "recordVersion" version (
            entry "accessPolicyVersion" (get_or "accessPolicyVersion" (str "1.0.0") source)
              (entry "view" (str (view_name view)) empty)))))

-- `for key in keys: if key in identity: out["identity"][key] = identity[key]`
abbrev pub copied : List String → Dict → Dict → Dict
copied [] identity out = out
copied (k ∷ ks) identity out = copied ks identity (copied_one k (get? k identity) out)
  where
    copied_one : String → Option Json → Dict → Dict
    copied_one k none out = out
    copied_one k (some v) out = set k v out

abbrev pub identity_keys : View → List String
identity_keys partner_view = "modelId" ∷ "batchId" ∷ []
identity_keys sorting_view = "itemId" ∷ "epc" ∷ []
identity_keys recycler_view = "itemId" ∷ "epc" ∷ []
identity_keys authority_view = "itemId" ∷ "epc" ∷ []
identity_keys _ = []

-- The status, the identity, the product and the observations.
unfoldable pub body : View → Dict → Dict → Result Error Dict
body view source out = do
  status ← json_at "status" source
  identity ← as_dict (get_or "identity" (obj empty) source)
  product ← as_dict (get_or "product" (obj empty) source)
  observations ← collection_of (get? "materialObservations" source)
  seen ← observations_for view observations
  let granularity = entry "granularity" (value_or null (get? "granularity" identity)) empty
  ok (
      set "materialObservations" (arr seen) (
        set "product" (obj (select (product_fields view) product)) (
          set "identity" (obj (copied (identity_keys view) identity granularity))
            (set "status" status out))))

unfoldable pub own_events : Option String → Dict → Dict → Result Error Dict
own_events none source out = ok (set "lifecycleEvents" (arr nil) out)
own_events (some organisation) source out = do
  events ← collection_of (get? "lifecycleEvents" source)
  own ← those (of_organisation organisation) events
  ok (set "lifecycleEvents" (arr own) out)

unfoldable pub sorting_part : Dict → Dict → Result Error Dict
sorting_part source out = do
  carriers ← collection_of (get? "carriers" source)
  active ← those is_commissioned carriers
  ok (
      set "carriers" (arr active)
        (set "sortingDecisions" (get_or "sortingDecisions" (arr nil) source) out))

abbrev pub copy_member : String → Dict → Dict → Dict
copy_member k source out = set k (get_or k (arr nil) source) out

abbrev pub authority_part : Dict → Dict → Dict
authority_part source out = copy_member "environmentalValues" source (
    set "identity" (get_or "identity" (obj empty) source)
      (copy_member "integrity" source (copy_member "lifecycleEvents" source out)))

abbrev pub extra : View → Principal → Dict → Dict → Result Error Dict
extra partner_view p source out = own_events p.organisation_id source out
extra sorting_view p source out = sorting_part source out
extra recycler_view p source out = do
  sorted ← sorting_part source out
  ok (copy_member "components" source sorted)
extra authority_view p source out = do
  sorted ← sorting_part source out
  ok (authority_part source (copy_member "components" source sorted))
extra _ p source out = ok out

-- `project`
unfoldable pub project : Dict → View → Principal → Result Error Dict
project source full_view p = ok source
project source integrity_only p = do
  out ← heading integrity_only source
  ok (copy_member "integrity" source out)
project source view p = do
  out ← heading view source
  seen ← body view source out
  extra view p source seen
