-- ===== src/Exchange.antt =====
-- src/sort4circ_dpp/exchange.py: a passport as an XML document and back, and as RDF triples. The XSD
-- validator and the printing and parsing of XML text are outside: a document is its tree of elements.
use Prim.Native.Char.{code}
pub mod Survival
pub mod Members
pub mod RoundTrip
pub mod Documents
pub mod Copying
pub mod Parts
pub mod Conversion
use sort4circ.Prelude.{
  ℕ, ◌+◌, ◌-◌, String, Bool, true, false, ◌&&◌, Option, none, some, List, [], ◌∷◌, Result, ok, err,
  ◌>>=◌, if◌then◌else◌, ◌==◌, elem, ltb, char_at, Assoc, lookup,
}
use sort4circ.Prelude.Int.{ℤ}
use sort4circ.Reasons.{Error}
use sort4circ.Json.{
  Json, Items, Dict, null, bool, int, float, str, arr, obj, nil, cons, empty, entry, set, Float,
}

-- An element by its local name, its text and its children; the names are of the namespace `NS`.
mutual
  pub data Node : Type 0 where
    node : String → String → Nodes → Node

  pub data Nodes : Type 0 where
    none_left : Nodes
    child : Node → Nodes → Nodes

-- What the code calls on numbers: `str` of a value that is no bool, `int` of a text, and
-- `_parse_scalar`'s reading of a `Decimal`, an int if it is integral and a float otherwise.
pub record Numerals : Type 0 where
  pub str_of : Json → String
  pub read_int : String → Result Error ℤ
  pub read_decimal : String → Result Error Json

-- `LIST_ITEMS`
abbrev pub list_items : Assoc String
list_items =
    ("technicalFlags", "TechnicalFlag")
    ∷ ("materialObservationRefs", "MaterialObservationRef")
    ∷ ("basedOnObservations", "ObservationRef")
    ∷ ("inputRefs", "InputRef")
    ∷ ("outputRefs", "OutputRef")
    ∷ []

abbrev pub list_keys : List String
list_keys =
    "technicalFlags" ∷ "materialObservationRefs" ∷ "basedOnObservations" ∷ "inputRefs"
    ∷ "outputRefs" ∷ []

-- `INTEGER_FIELDS`, `DECIMAL_FIELDS` and `BOOLEAN_FIELDS`
abbrev pub integer_fields : List String
integer_fields = "recordVersion" ∷ "basedOnRecordVersion" ∷ "subjectVersion" ∷ "attempts" ∷ []

abbrev pub decimal_fields : List String
decimal_fields = "percentage" ∷ "value" ∷ []

abbrev pub boolean_fields : List String
boolean_fields = "separable" ∷ []

-- `c.upper()` and `c.lower()` of a letter of ASCII, with which the members of the profile begin; any other
-- character stays.
abbrev upper_first : ℕ → String → String
upper_first c plain =
    if ltb 96 c && ltb c 123 then char_at (c - 97) "ABCDEFGHIJKLMNOPQRSTUVWXYZ" else plain

abbrev lower_first : ℕ → String → String
lower_first c plain =
    if ltb 64 c && ltb c 91 then char_at (c - 65) "abcdefghijklmnopqrstuvwxyz" else plain

-- `_pascal`
unfoldable pub pascal : String → String
pascal String.[] = ""
pascal (String.◌∷◌ c s) = Prim.Native.String.◌++◌ (upper_first (code c) (String.◌∷◌ c String.[])) s

-- `_camel`
unfoldable pub camel : String → String
camel String.[] = ""
camel (String.◌∷◌ c s) = Prim.Native.String.◌++◌ (lower_first (code c) (String.◌∷◌ c String.[])) s

abbrev or_value : Option String → String
or_value none = "Value"
or_value (some name) = name

-- `LIST_ITEMS.get(key, "Value")`
unfoldable pub item_name : String → String
item_name key = or_value (lookup key list_items)

-- The text of a value that is no dict and no list.
abbrev pub scalar_text : Numerals → Json → String
scalar_text n (bool true) = "true"
scalar_text n (bool false) = "false"
scalar_text n v = n.str_of v

module _ (n : Numerals) where
  -- `_write_value`, with its loops over the members of a dict and the items of a list.
  unfoldable mutual
    pub write_value : String → Json → Node
    write_value key (obj d) = node (pascal key) "" (write_members d)
    write_value key (arr xs) = node (pascal key) "" (write_items (item_name key) xs)
    write_value key v = node (pascal key) (scalar_text n v) none_left

    pub write_members : Dict → Nodes
    write_members empty = none_left
    write_members (entry k v d) = child (write_value k v) (write_members d)

    pub write_items : String → Items → Nodes
    write_items name nil = none_left
    write_items name (cons (obj d) xs) =
        child (node name "" (write_members d)) (write_items name xs)
    write_items name (cons v xs) =
        child (node name (scalar_text n v) none_left) (write_items name xs)

  -- `_parse_scalar`
  unfoldable pub parse_scalar : String → String → Result Error Json
  parse_scalar key text =
      if elem key integer_fields
      then (n.read_int text >>= λ i. ok (int i))
      else if elem key decimal_fields
      then n.read_decimal text
      else if elem key boolean_fields
      then ok (bool (text == "true"))
      else ok (str text)

-- `child.tag.rsplit("}", 1)[-1]`
unfoldable pub tag_of : Node → String
tag_of (node tag text inner) = tag

-- `child_names`
unfoldable pub names : Nodes → List String
names none_left = []
names (child c more) = tag_of c ∷ names more

-- `len(set(child_names)) < len(child_names)`
unfoldable pub has_duplicate : List String → Bool
has_duplicate [] = false
has_duplicate (x ∷ xs) = if elem x xs then true else has_duplicate xs

-- `key in LIST_ITEMS or len(set(child_names)) < len(child_names)`
abbrev pub is_list : String → Nodes → Bool
is_list key children = if elem key list_keys then true else has_duplicate (names children)

module _ (n : Numerals) where
  -- `_read_value`, with the loops that read the children as a list or as a dict.
  unfoldable mutual
    pub read_value : Node → Result Error Json
    read_value (node tag text none_left) =
        if elem (camel tag) list_keys then ok (arr nil) else parse_scalar n (camel tag) text
    read_value (node tag text (child c more)) =
        let listed = read_items (child c more) in
        let named = read_members empty (child c more) in
        if is_list (camel tag) (child c more)
        then (listed >>= λ xs. ok (arr xs))
        else (named >>= λ d. ok (obj d))

    pub read_items : Nodes → Result Error Items
    read_items none_left = ok nil
    read_items (child c more) = read_value c >>= λ v. read_items more >>= λ vs. ok (cons v vs)

    pub read_members : Dict → Nodes → Result Error Dict
    read_members out none_left = ok out
    read_members out (child c more) =
        read_value c >>= λ v. read_members (set (camel (tag_of c)) v out) more
