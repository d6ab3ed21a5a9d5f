-- ===== src/Api/Keys.antt =====
-- `_scoped_key` of src/sort4circ_dpp/api.py: the idempotency key of a request, with the caller, the
-- operation and the resource, as the text of `json.dumps` of a list.
use Prim.Native.String.{◌++◌}
use Prim.Native.Char.{code}
use sort4circ.Prelude.{
  ℕ, ◌+◌, ◌-◌, ◌/◌, ◌%◌, String, Option, none, some, char_at, if◌then◌else◌, nat_eq, ltb,
}
use sort4circ.Access.{Principal, role_name}

abbrev pub hex_text : ℕ → String
hex_text d = char_at d "0123456789abcdef"

-- `\uXXXX` of a code unit
abbrev pub unit_escape : ℕ → String
unit_escape u =
    "\\u"
    ++ hex_text (u / 4096)
    ++ hex_text (u / 256 % 16)
    ++ hex_text (u / 16 % 16)
    ++ hex_text (u % 16)

-- What is not printable ASCII is escaped by its UTF-16 code units.
unfoldable pub ascii_escape : ℕ → String → String
ascii_escape c plain =
    if nat_eq c 34
    then "\\\""
    else if nat_eq c 92
    then "\\\\"
    else if nat_eq c 10
    then "\\n"
    else if nat_eq c 13
    then "\\r"
    else if nat_eq c 9
    then "\\t"
    else if nat_eq c 8
    then "\\b"
    else if nat_eq c 12
    then "\\f"
    else if ltb c 32
    then unit_escape c
    else if ltb c 127
    then plain
    else if ltb c 0x10000
    then unit_escape c
    else unit_escape (0xd800 + (c - 0x10000) / 0x400)
      ++ unit_escape (0xdc00 + (c - 0x10000) % 0x400)

unfoldable pub ascii_escapes : String → String
unfolding ascii_escape
ascii_escapes String.[] = ""
ascii_escapes (String.◌∷◌ c s) = ascii_escape (code c) (String.◌∷◌ c String.[]) ++ ascii_escapes s

unfoldable pub quoted : String → String
unfolding ascii_escapes
quoted s = "\"" ++ ascii_escapes s ++ "\""

abbrev pub quoted_or_null : Option String → String
quoted_or_null none = "null"
quoted_or_null (some s) = quoted s

-- `_scoped_key`
unfoldable pub scoped_key : Principal → Option String → String → String → Option String
unfolding quoted
scoped_key p none operation resource = none
scoped_key p (some key) operation resource = some (
    "["
    ++ quoted p.subject
    ++ ", "
    ++ quoted_or_null p.organisation_id
    ++ ", "
    ++ quoted (role_name p.role)
    ++ ", "
    ++ quoted operation
    ++ ", "
    ++ quoted resource
    ++ ", "
    ++ quoted key
    ++ "]")
