-- ===== src/Vocab.antt =====
-- Controlled vocabularies: src/sort4circ_dpp/vocab.py. The published documents are `Env.tokens`.
pub mod Documents
pub mod Fields
pub mod Coded
pub mod Entries
pub mod Coverage
use sort4circ.Prelude.{
  ℕ, suc, ◌+◌, String, Option, none, some, [], ◌∷◌, ◌++◌, Result, ok, err, ◌>>=◌, ◌>>◌, Text, codes,
  digits, if◌then◌else◌, elem,
}
use sort4circ.Reasons.{Error, dpp_error, type_error, payload_vocab_invalid}
use sort4circ.Json.{Json, Items, Dict, null, str, arr, obj, nil, cons, get?}
use sort4circ.Json.Shape.{dict_or_empty, items_or_empty, as_dict}
use sort4circ.Env.{Env}

-- `Vocabulary.validate`; a token that is no text is in no vocabulary, and a list or a dict cannot
-- be looked up in a set.
unfoldable pub validate : Env → String → Json → Text → Result Error (Unit {0})
validate env vocabulary (str token) path =
    if elem token (env.tokens vocabulary)
    then ok tt
    else err (dpp_error payload_vocab_invalid (path ∷ []))
validate env vocabulary (arr xs) path = err type_error
validate env vocabulary (obj d) path = err type_error
validate env vocabulary _ path = err (dpp_error payload_vocab_invalid (path ∷ []))

-- `_check`
unfoldable pub check_value : Env → String → Option Json → Text → Result Error (Unit {0})
unfolding validate
check_value env vocabulary none path = ok tt
check_value env vocabulary (some null) path = ok tt
check_value env vocabulary (some v) path = validate env vocabulary v path

abbrev check : Env → Dict → String → String → Text → Result Error (Unit {0})
check env container key vocabulary path = check_value env vocabulary (get? key container) path

-- `name[index]`
abbrev pub indexed : String → ℕ → Text
indexed name i = codes name ++ 91 ∷ digits (suc i) i ++ 93 ∷ []

abbrev under : Text → String → Text
under base key = base ++ 46 ∷ codes key

-- `for index, item in enumerate(xs): body(index, item)`
unfoldable pub each : (ℕ → Json → Result Error (Unit {0})) → ℕ → Items → Result Error (Unit {0})
each body i nil = ok tt
each body i (cons x xs) = body i x >> each body (i + 1) xs

pub check_product : Env → Dict → Result Error (Unit {0})
unfolding get? check_value items_or_empty each validate
check_product env product = do
  check env product "articleClass" "article-class" (codes "product.articleClass")
  check env product "fabricConstruction" "fabric-construction" (codes "product.fabricConstruction")
  check env product "colourPrimary" "colour-family" (codes "product.colourPrimary")
  check env product "condition" "condition" (codes "product.condition")
  flags ← items_or_empty (get? "technicalFlags" product)
  each (λ i flag. validate env "technical-flag" flag (indexed "product.technicalFlags" i)) 0 flags

-- `if confidence: _check(confidence, "scale", …)`
check_confidence : Env → Text → Option Json → Result Error (Unit {0})
unfolding get? check_value dict_or_empty
check_confidence env base confidence = do
  d ← dict_or_empty confidence
  check env d "scale" "confidence-scale" (under base "confidence.scale")

pub check_observation : Env → ℕ → Json → Result Error (Unit {0})
unfolding get? check_value as_dict check_confidence
check_observation env i item = do
  observation ← as_dict item
  let base = indexed "materialObservations" i
  check env observation "fibreType" "fibre-type" (under base "fibreType")
  check env observation "method" "method" (under base "method")
  check env observation "valueStatus" "value-status" (under base "valueStatus")
  check env observation "percentageBasis" "percentage-basis" (under base "percentageBasis")
  check_confidence env base (get? "confidence" observation)

-- The loops that check one member of each entry.
pub check_member : Env → String → String → String → ℕ → Json → Result Error (Unit {0})
unfolding get? check_value as_dict
check_member env collection key vocabulary i item = do
  d ← as_dict item
  check env d key vocabulary (under (indexed collection i) key)

pub check_carrier : Env → ℕ → Json → Result Error (Unit {0})
unfolding get? check_value as_dict
check_carrier env i item = do
  carrier ← as_dict item
  let base = indexed "carriers" i
  check env carrier "carrierType" "carrier-type" (under base "carrierType")
  check env carrier "encodingScheme" "encoding-scheme" (under base "encodingScheme")
  check env carrier "bindingStatus" "binding-status" (under base "bindingStatus")

unfoldable pub validate_record : Env → Dict → Result Error (Unit {0})
unfolding get? check_value dict_or_empty items_or_empty each check_product check_observation
    check_member check_carrier
validate_record env source = do
  check env source "status" "passport-status" (codes "status")
  product ← dict_or_empty (get? "product" source)
  check_product env product
  observations ← items_or_empty (get? "materialObservations" source)
  each (check_observation env) 0 observations
  components ← items_or_empty (get? "components" source)
  each (check_member env "components" "componentType" "component-type") 0 components
  events ← items_or_empty (get? "lifecycleEvents" source)
  each (check_member env "lifecycleEvents" "eventType" "event-type") 0 events
  decisions ← items_or_empty (get? "sortingDecisions" source)
  each (check_member env "sortingDecisions" "sortingCategory" "sorting-category") 0 decisions
  carriers ← items_or_empty (get? "carriers" source)
  each (check_carrier env) 0 carriers
  integrity ← items_or_empty (get? "integrity" source)
  each (check_member env "integrity" "evidenceState" "evidence-state") 0 integrity
