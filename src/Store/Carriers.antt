-- ===== src/Store/Carriers.antt =====
-- `PassportStore.commission_carrier`. The carrier maps are written before the record is validated,
-- so every step hands the store on beside an error too.
use sort4circ.Prelude.{
  ℕ, ◌+◌, String, Bool, true, false, Option, none, some, Result, ok, err, ◌>>=◌, ◌>>◌, guard, not,
  if◌then◌else◌, ◌==◌, lookup, insert, erase,
}
use sort4circ.Reasons.{Error, raised, type_error, ident_duplicate_binding}
use sort4circ.Json.{
  Json, Items, Dict, str, arr, obj, nil, cons, empty, entry, get?, set, items_append, items_length,
}
use sort4circ.Json.Shape.{json_at, get_or, text_at, as_dict}
use sort4circ.Env.{Env}
use sort4circ.Store.State.{Store, Io, require, accept, attempt}
use sort4circ.Store.Patch.{next_version}
use sort4circ.Store.Append.{collection_of}

-- `owner is not None and owner != dpp_id`
abbrev pub is_foreign : Option String → String → Bool
is_foreign none id = false
is_foreign (some owner) id = if owner == id then false else true

-- The two tests that refuse an identifier of another passport.
unfoldable pub check_owner : String → String → Store → Result Error (Unit {0})
check_owner id encoded s = do
  guard (not (is_foreign (lookup encoded s.carrier_index) id)) (raised ident_duplicate_binding)
  guard (not (is_foreign (lookup encoded s.retired_carriers) id)) (raised ident_duplicate_binding)

abbrev pub says : String → Option Json → Bool
says t (some (str u)) = u == t
says t _ = false

-- `carrier.get("bindingStatus") == "commissioned"`
unfoldable pub is_commissioned : Dict → Bool
is_commissioned d = says "commissioned" (get? "bindingStatus" d)

abbrev pub closed : Io → ℕ → Dict → Dict
closed io i d = set "closedAt" (str (io.now i)) (set "bindingStatus" (str "replaced") d)

-- The two writes that retire an identifier.
unfoldable pub release : String → String → Store → Store
release id encoded s = record s {
  carrier_index = erase encoded s.carrier_index;
  retired_carriers = insert encoded id s.retired_carriers;
}

abbrev pub prepend : Json → Result Error Items × Store → Result Error Items × Store
prepend x (r, s) = ((do xs ← r; ok (cons x xs)), s)

-- One entry of the loop that replaces commissioned bindings, before the rest is treated.
unfoldable pub replace_one : Io → String → ℕ → Json → Store → Result Error Json × Store
replace_one io id i x s = elim (as_dict x) [
  | err e ↦ (err e, s)
  | ok d ↦
      if is_commissioned d
      then elim (text_at "encodedIdentifier" d) [
        | err e ↦ (err e, s)
        | ok encoded ↦ (ok (obj (closed io i d)), release id encoded s)
      ]
      else (ok x, s)
]

abbrev pub and_then :
    Result Error Json → Store → Result Error Items × Store → Result Error Items × Store
and_then (err e) s rest = (err e, s)
and_then (ok y) s rest = prepend y rest

-- The loop `for existing in updated.get("carriers", [])`.
unfoldable pub replace_all : Io → String → ℕ → Items → Store → Result Error Items × Store
replace_all io id i nil s = (ok nil, s)
replace_all io id i (cons x xs) s =
    let (r, s') = replace_one io id i x s in and_then r s' (replace_all io id (i + 1) xs s')

abbrev pub set_optional : String → Option Json → Dict → Dict
set_optional k none binding = binding
set_optional k (some v) binding = set k v binding

abbrev pub copy_optional : String → Dict → Dict → Dict
copy_optional k carrier binding = set_optional k (get? k carrier) binding

-- The new entry of `carriers`.
unfoldable pub binding_for : Io → ℕ → String → Dict → Result Error Dict
binding_for io i encoded carrier = do
  carrier_type ← json_at "carrierType" carrier
  scheme ← json_at "encodingScheme" carrier
  bound_by ← json_at "boundBy" carrier
  ok (
      copy_optional "placement" carrier (
        copy_optional "resolverUri" carrier (
          entry "carrierId" (get_or "carrierId" (str (io.urn "carrier")) carrier) (
            entry "carrierType" carrier_type (
              entry "encodingScheme" scheme (
                entry "encodedIdentifier" (str encoded) (
                  entry "bindingStatus" (str "commissioned") (
                    entry "boundAt" (get_or "boundAt" (str (io.now i)) carrier)
                      (entry "boundBy" bound_by empty)))))))))

abbrev pub with_epc : String → Dict → Option Json → Result Error Dict
with_epc encoded d none = ok (set "identity" (obj (entry "epc" (str encoded) empty)) d)
with_epc encoded d (some (obj e)) = ok (set "identity" (obj (set "epc" (str encoded) e)) d)
with_epc encoded d (some _) = err type_error

-- `updated.setdefault("identity", {})["epc"] = encoded`
unfoldable pub set_epc : String → Dict → Result Error Dict
set_epc encoded d = with_epc encoded d (get? "identity" d)

abbrev pub bind_index : String → String → Store → Store
bind_index encoded id s = record s { carrier_index = insert encoded id s.carrier_index }

-- The record after the loop: the new binding, the identifier, the next version.
unfoldable pub bound_record : Io → String → Dict → Dict → Items → Result Error Dict
bound_record io encoded carrier item replaced = do
  binding ← binding_for io (items_length replaced) encoded carrier
  identified ← set_epc encoded (set "carriers" (arr (items_append replaced (obj binding))) item)
  next_version io item identified

-- From the end of the loop to the return.
unfoldable pub bind :
    Env → Io → String → String → Dict → Dict → Items → Store → Result Error (Store × Dict)
bind env io id encoded carrier item replaced s = do
  next ← bound_record io encoded carrier item replaced
  (s', stored) ← accept env io next s
  ok (bind_index encoded id s', stored)

-- The checks that come before any write.
unfoldable pub admission : String → Dict → Store → Result Error (Dict × String × Items)
admission id carrier s = do
  item ← require id s
  encoded ← text_at "encodedIdentifier" carrier
  check_owner id encoded s
  carriers ← collection_of (get? "carriers" item)
  ok (item, encoded, carriers)

abbrev pub bind_after :
    Env
    → Io
    → String
    → String
    → Dict
    → Dict
    → Result Error Items × Store
    → Result Error Dict × Store
bind_after env io id encoded carrier item (err e, s) = (err e, s)
bind_after env io id encoded carrier item (ok replaced, s) =
    attempt s (bind env io id encoded carrier item replaced s)

abbrev pub commission_admitted :
    Env
    → Io
    → String
    → Dict
    → Store
    → Result Error (Dict × String × Items)
    → Result Error Dict × Store
commission_admitted env io id carrier s (err e) = (err e, s)
commission_admitted env io id carrier s (ok (item, encoded, carriers)) =
    bind_after env io id encoded carrier item (replace_all io id 0 carriers s)

unfoldable pub commission_carrier : Env → Io → String → Dict → Store → Result Error Dict × Store
commission_carrier env io id carrier s =
    commission_admitted env io id carrier s (admission id carrier s)
