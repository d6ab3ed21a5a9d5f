-- ===== src/Store/Append.antt =====
-- `PassportStore.append`.
use sort4circ.Prelude.{
  String, Bool, true, false, Option, none, some, Result, ok, err, ◌>>=◌, if◌then◌else◌,
}
use sort4circ.Reasons.{Error, type_error}
use sort4circ.Json.{Json, Items, Dict, null, arr, obj, nil, cons, get?, set, items_append}
use sort4circ.Json.Shape.{as_dict}
use sort4circ.Json.Equality.{equal}
use sort4circ.Env.{Env}
use sort4circ.Store.State.{Store, Io, require, accept, attempt}
use sort4circ.Store.Patch.{next_version}

-- `d.get(k)`, with None for a key that is absent
abbrev pub value_of : String → Dict → Json
value_of k d = elim (get? k d) [ none ↦ null | some v ↦ v ]

-- `record.get(collection, [])`
abbrev pub collection_of : Option Json → Result Error Items
collection_of none = ok nil
collection_of (some (arr xs)) = ok xs
collection_of (some _) = err type_error

-- Does an entry of the collection carry the identifier already?
unfoldable pub has_id : String → Json → Items → Result Error Bool
has_id id_field id nil = ok false
has_id id_field id (cons x xs) =
    as_dict x >>= λ d. if equal (value_of id_field d) id then ok true else has_id id_field id xs

unfoldable pub append :
    Env → Io → String → String → Dict → String → Store → Result Error Dict × Store
append env io id collection addition id_field s = attempt s (do
  item ← require id s
  existing ← collection_of (get? collection item)
  repeated ← has_id id_field (value_of id_field addition) existing
  if repeated then ok (s, item) else (do
    next ← next_version io item (set collection (arr (items_append existing (obj addition))) item)
    accept env io next s))
