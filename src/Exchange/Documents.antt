-- ===== src/Exchange/Documents.antt =====
-- `to_xml` and `from_xml` of src/sort4circ_dpp/exchange.py: the root of a document, and its elements in
-- the order of the profile.
use sort4circ.Prelude.{
  String, Option, none, some, List, [], ◌∷◌, ◌++◌, Result, ok, err, ◌>>=◌, ◌>>◌, if◌then◌else◌,
  ◌==◌, Assoc, lookup,
}
use sort4circ.Reasons.{Error, type_error}
use sort4circ.Json.{
  Json, Items, Dict, null, int, str, arr, obj, nil, cons, empty, entry, get?, set, is_truthy,
}
use sort4circ.Json.Shape.{text_at, json_at, as_dict, value_or}
use sort4circ.Env.{Env}
use sort4circ.Validation.{validate_payload}
use sort4circ.Exchange.{
  Node, Nodes, node, none_left, child, tag_of, Numerals, write_members, read_members,
}

-- The root element: its two attributes and its children.
pub record Document : Type 0 where
  pub schema_version : String
  pub dpp_id : String
  pub children : List Node

-- `ROOT_SCALARS`, without the conversions: `recordVersion` is an int, the others are texts.
abbrev pub root_scalars : Assoc String
root_scalars =
    ("RecordVersion", "recordVersion")
    ∷ ("Status", "status")
    ∷ ("SupersededBy", "supersededBy")
    ∷ ("CreatedAt", "createdAt")
    ∷ ("UpdatedAt", "updatedAt")
    ∷ ("ResponsibleOperatorId", "responsibleOperatorId")
    ∷ ("RegistryIdentifier", "registryIdentifier")
    ∷ ("AccessPolicyVersion", "accessPolicyVersion")
    ∷ []

-- `OBJECTS`, by the names of the elements
abbrev pub root_objects : Assoc String
root_objects = ("Identity", "identity") ∷ ("Product", "product") ∷ []

-- `ARRAYS`, by the names of the wrappers
abbrev pub root_arrays : Assoc String
root_arrays =
    ("Carriers", "carriers")
    ∷ ("MaterialObservations", "materialObservations")
    ∷ ("Components", "components")
    ∷ ("LifecycleEvents", "lifecycleEvents")
    ∷ ("SortingDecisions", "sortingDecisions")
    ∷ ("EnvironmentalValues", "environmentalValues")
    ∷ ("Integrity", "integrity")
    ∷ []

module _ (n : Numerals) where
  abbrev pub scalar_node : String → Option Json → List Node
  scalar_node tag none = []
  scalar_node tag (some v) = node tag (n.str_of v) none_left ∷ []

  -- The loop over `ROOT_SCALARS`.
  unfoldable pub scalar_nodes : Assoc String → Dict → List Node
  scalar_nodes [] source = []
  scalar_nodes ((tag, name) ∷ table) source =
      scalar_node tag (get? name source) ++ scalar_nodes table source

  -- `write_object`
  unfoldable pub object_node : String → String → Dict → Result Error (List Node)
  object_node tag name source = do
    v ← json_at name source
    d ← as_dict v
    ok (node tag "" (write_members n d) ∷ [])

  -- The items of an array, each a dict.
  unfoldable pub item_nodes : String → Items → Result Error Nodes
  item_nodes tag nil = ok none_left
  item_nodes tag (cons x xs) = do
    d ← as_dict x
    rest ← item_nodes tag xs
    ok (child (node tag "" (write_members n d)) rest)

  abbrev pub array_of : String → String → Json → Result Error (List Node)
  array_of tag item_tag (arr nil) = ok []
  array_of tag item_tag (arr (cons x xs)) =
      item_nodes item_tag (cons x xs) >>= λ items. ok (node tag "" items ∷ [])
  array_of tag item_tag v = if is_truthy v then err type_error else ok []

  -- `write_array`: an array that is absent or empty has no element.
  unfoldable pub array_node : String → String → String → Dict → Result Error (List Node)
  array_node tag item_tag name source = array_of tag item_tag (value_or null (get? name source))

  -- The tree that `to_xml` prints.
  unfoldable pub write_document : Dict → Result Error Document
  write_document source = do
    schema_version ← text_at "schemaVersion" source
    dpp_id ← text_at "dppId" source
    identity ← object_node "Identity" "identity" source
    carriers ← array_node "Carriers" "Carrier" "carriers" source
    product ← object_node "Product" "product" source
    observations ←
        array_node "MaterialObservations" "MaterialObservation" "materialObservations" source
    components ← array_node "Components" "Component" "components" source
    events ← array_node "LifecycleEvents" "LifecycleEvent" "lifecycleEvents" source
    decisions ← array_node "SortingDecisions" "SortingDecision" "sortingDecisions" source
    values ← array_node "EnvironmentalValues" "EnvironmentalValue" "environmentalValues" source
    integrity ← array_node "Integrity" "IntegrityEntry" "integrity" source
    let document : Document = record {
      schema_version = schema_version;
      dpp_id = dpp_id;
      children =
          scalar_nodes root_scalars source
          ++ (identity
              ++ (carriers
                  ++ (product
                      ++ (observations
                          ++ (components ++ (events ++ (decisions ++ (values ++ integrity))))))));
    }
    ok document

  -- `to_xml`, up to the printing of the tree
  unfoldable pub to_xml : Env → Dict → Result Error Document
  to_xml env source = do validate_payload env source; write_document source

  -- The conversion of `ROOT_SCALARS`.
  abbrev pub coerce : String → String → Result Error Json
  coerce name text =
      if name == "recordVersion" then (n.read_int text >>= λ i. ok (int i)) else ok (str text)

  -- The dicts of a wrapper.
  unfoldable pub read_entries : Nodes → Result Error Items
  read_entries none_left = ok nil
  read_entries (child (node tag text inner) more) = do
    d ← read_members n empty inner
    rest ← read_entries more
    ok (cons (obj d) rest)

  -- An element by what its name stands for: a scalar, an object, an array, or nothing.
  abbrev pub element_as :
      Option String → Option String → Option String → Node → Dict → Result Error Dict
  element_as (some name) _ _ (node tag text inner) out =
      coerce name text >>= λ v. ok (set name v out)
  element_as none (some name) _ (node tag text inner) out =
      read_members n empty inner >>= λ d. ok (set name (obj d) out)
  element_as none none (some name) (node tag text inner) out =
      read_entries inner >>= λ xs. ok (set name (arr xs) out)
  element_as none none none x out = ok out

  -- The loop over the children of the root.
  unfoldable pub read_elements : Dict → List Node → Result Error Dict
  read_elements out [] = ok out
  read_elements out (x ∷ xs) =
      element_as (lookup (tag_of x) root_scalars) (lookup (tag_of x) root_objects)
        (lookup (tag_of x) root_arrays) x out
      >>= λ next. read_elements next xs

  unfoldable pub read_document : Document → Result Error Dict
  read_document document =
      read_elements
        (entry "dppId" (str document.dpp_id)
          (entry "schemaVersion" (str document.schema_version) empty))
        document.children

  -- `from_xml`, from the parsed tree
  unfoldable pub from_xml : Env → Document → Result Error Dict
  from_xml env document = do source ← read_document document; validate_payload env source; ok source
