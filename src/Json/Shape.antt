-- ===== src/Json/Shape.antt =====
-- Reading a member that is a dict, a list, a text or a number. A value of another type, which the
-- schema admits nowhere, raises a TypeError or AttributeError, as in Python, except that Python also loops over a
-- text or a dict.
use sort4circ.Prelude.{ℕ, String, Option, none, some, Result, ok, err, if◌then◌else◌}
use sort4circ.Prelude.Int.{pos}
use sort4circ.Reasons.{Error, key_error, type_error}
use sort4circ.Json.{Json, Items, Dict, int, str, arr, obj, nil, empty, get?, is_truthy}

-- `d.get(k) or {}`
unfoldable pub dict_or_empty : Option Json → Result Error Dict
unfolding is_truthy
dict_or_empty none = ok empty
dict_or_empty (some (obj d)) = ok d
dict_or_empty (some v) = if is_truthy v then err type_error else ok empty

-- `d.get(k) or []`
unfoldable pub items_or_empty : Option Json → Result Error Items
unfolding is_truthy
items_or_empty none = ok nil
items_or_empty (some (arr xs)) = ok xs
items_or_empty (some v) = if is_truthy v then err type_error else ok nil

abbrev text_of : String → Option Json → Result Error String
text_of k (some (str s)) = ok s
text_of k (some _) = err type_error
text_of k none = err (key_error k)

-- `d[k]`, a text
unfoldable pub text_at : String → Dict → Result Error String
text_at k d = text_of k (get? k d)

abbrev nat_of : String → Option Json → Result Error ℕ
nat_of k (some (int (pos n))) = ok n
nat_of k (some _) = err type_error
nat_of k none = err (key_error k)

-- `d[k]`, a natural number
unfoldable pub nat_at : String → Dict → Result Error ℕ
nat_at k d = nat_of k (get? k d)

unfoldable pub as_dict : Json → Result Error Dict
as_dict (obj d) = ok d
as_dict v = err type_error

abbrev pub json_of : String → Option Json → Result Error Json
json_of k none = err (key_error k)
json_of k (some v) = ok v

-- `d[k]`
abbrev pub json_at : String → Dict → Result Error Json
json_at k d = json_of k (get? k d)

abbrev pub value_or : Json → Option Json → Json
value_or v none = v
value_or v (some w) = w

-- `d.get(k, v)`
abbrev pub get_or : String → Json → Dict → Json
get_or k v d = value_or v (get? k d)
