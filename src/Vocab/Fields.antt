-- ===== src/Vocab/Fields.antt =====
-- The table FIELD_VOCABULARIES of src/sort4circ_dpp/vocab.py, and what it says of a record.
use sort4circ.Prelude.{
  String, Bool, true, false, ◌&&◌, Option, none, some, List, [], ◌∷◌, ◌++◌, ◌==◌, elem,
  if◌then◌else◌,
}
use sort4circ.Json.{Json, Items, Dict, null, str, arr, obj, nil, cons, get?}
use sort4circ.Env.{Env}

-- A step of a field path: `name`, or `name[]` for each entry of a list.
pub data FieldStep : Type 0 where
  member : String → FieldStep
  entries : String → FieldStep

abbrev pub FieldPath : Type 0
FieldPath = List FieldStep

-- The fields with their vocabularies; the granularity has none.
abbrev pub field_vocabularies : List (FieldPath × String)
field_vocabularies =
    (member "status" ∷ [], "passport-status")
    ∷ (member "identity" ∷ member "granularity" ∷ [], "")
    ∷ (member "product" ∷ member "articleClass" ∷ [], "article-class")
    ∷ (member "product" ∷ member "fabricConstruction" ∷ [], "fabric-construction")
    ∷ (member "product" ∷ member "colourPrimary" ∷ [], "colour-family")
    ∷ (member "product" ∷ member "condition" ∷ [], "condition")
    ∷ (member "product" ∷ entries "technicalFlags" ∷ [], "technical-flag")
    ∷ (entries "materialObservations" ∷ member "fibreType" ∷ [], "fibre-type")
    ∷ (entries "materialObservations" ∷ member "method" ∷ [], "method")
    ∷ (entries "materialObservations" ∷ member "valueStatus" ∷ [], "value-status")
    ∷ (entries "materialObservations" ∷ member "percentageBasis" ∷ [], "percentage-basis")
    ∷ (
      entries "materialObservations" ∷ member "confidence" ∷ member "scale" ∷ [],
      "confidence-scale",
    )
    ∷ (entries "components" ∷ member "componentType" ∷ [], "component-type")
    ∷ (entries "lifecycleEvents" ∷ member "eventType" ∷ [], "event-type")
    ∷ (entries "sortingDecisions" ∷ member "sortingCategory" ∷ [], "sorting-category")
    ∷ (entries "carriers" ∷ member "carrierType" ∷ [], "carrier-type")
    ∷ (entries "carriers" ∷ member "encodingScheme" ∷ [], "encoding-scheme")
    ∷ (entries "carriers" ∷ member "bindingStatus" ∷ [], "binding-status")
    ∷ (entries "integrity" ∷ member "evidenceState" ∷ [], "evidence-state")
    ∷ []

abbrev pub member_of : String → Json → Option Json
member_of k (obj d) = get? k d
member_of k v = none

abbrev pub entries_of : Option Json → Items
entries_of (some (arr xs)) = xs
entries_of _ = nil

unfoldable pub gather : (Json → List Json) → Items → List Json
gather f nil = []
gather f (cons x xs) = f x ++ gather f xs

abbrev pub on_some : (Json → List Json) → Option Json → List Json
on_some f none = []
on_some f (some v) = f v

-- The values of a record at a field path.
unfoldable pub values_at : FieldPath → Json → List Json
unfolding get? gather
values_at [] v = v ∷ []
values_at (member k ∷ path) v = on_some (values_at path) (member_of k v)
values_at (entries k ∷ path) v = gather (values_at path) (entries_of (member_of k v))

-- A value that is absent, or a token of the vocabulary.
abbrev pub is_coded : Env → String → Json → Bool
is_coded env vocabulary null = true
is_coded env vocabulary (str token) = elem token (env.tokens vocabulary)
is_coded env vocabulary v = false

unfoldable pub all_coded : Env → String → List Json → Bool
all_coded env vocabulary [] = true
all_coded env vocabulary (v ∷ vs) = is_coded env vocabulary v && all_coded env vocabulary vs

abbrev pub is_covered : Env → Dict → FieldPath × String → Bool
is_covered env source (path, vocabulary) =
    if vocabulary == "" then true else all_coded env vocabulary (values_at path (obj source))

unfoldable pub is_covered_by : Env → Dict → List (FieldPath × String) → Bool
unfolding values_at all_coded
is_covered_by env source [] = true
is_covered_by env source (field ∷ fields) =
    is_covered env source field && is_covered_by env source fields
