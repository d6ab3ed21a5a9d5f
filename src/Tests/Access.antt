-- ===== src/Tests/Access.antt =====
-- Instances of the theorems on access.
use sort4circ.Prelude.{◌≡◌, ◌≢◌, refl, Result, ok, err, none, some}
use sort4circ.Prelude.Int.{pos}
use sort4circ.Reasons.{Error}
use sort4circ.Json.{Json, Dict, int, empty, entry, str, obj, null, arr, nil, cons}
use sort4circ.Json.Shape.{value_or}
use sort4circ.Access.{
  brand, administrator, public_view, partner_view, full_view, sorting_view, sorting_operator,
  Principal, anonymous, rank, default_view,
}
use sort4circ.Access.Views.{project-set_unread}
use sort4circ.Access.Public.{project-public}
use sort4circ.Access.Writes.{check_patch_paths-kept}
use sort4circ.Json.{
  get?, set, remove, set_default, merge, items_append, items_length, keys, select, is_truthy,
  without,
}
use sort4circ.Json.Shape.{dict_or_empty, items_or_empty, text_at, nat_at, as_dict}
use sort4circ.Access.{
  role_named, rank, view_named, scopes, default_view, require_scope, resolve_view, check_keys,
  check_patch_paths,
}
use sort4circ.Access.Projection.{
  observation_for, observations_for, those, heading, body, own_events, sorting_part, project,
}
use sort4circ.Store.Carriers.{is_commissioned}
use sort4circ.Store.Patch.{apply_patch, patch_member}

abbrev operator : Principal
operator = record { subject = "line 4"; role = sorting_operator; organisation_id = none }

-- A request for the full view is narrowed to the default one.
narrows : resolve_view operator (some "full") ≡ ok sorting_view
unfolding get? set remove set_default merge items_append items_length keys select is_truthy without
    dict_or_empty items_or_empty text_at nat_at as_dict role_named rank view_named scopes
    default_view require_scope resolve_view check_keys check_patch_paths observation_for
    observations_for those heading body own_events sorting_part project is_commissioned apply_patch
    patch_member
narrows = refl

abbrev tagged_identity : Dict
tagged_identity =
    entry "granularity" (str "item") (entry "itemId" (str "i1") (entry "epc" (str "E1") empty))

abbrev garment : Dict
garment = entry "dppId" (str "urn:s4c:1") (
    entry "schemaVersion" (str "1.0.0") (
      entry "recordVersion" (int (pos 2)) (
        entry "status" (str "active") (
          entry "identity" (obj tagged_identity) (
            entry "carriers" (arr nil) (
              entry "materialObservations"
                (arr (cons (obj (entry "fibreType" (str "cotton") empty)) nil)) empty))))))

View-distinct : partner_view ≢ full_view
View-distinct = λ h. cc

project-set_unread_example :
    project (set "carriers" null garment) partner_view anonymous
    ≡ project garment partner_view anonymous
project-set_unread_example =
    project-set_unread partner_view anonymous "carriers" null garment View-distinct refl

identity_of : get? "identity" garment ≡ some (obj tagged_identity)
unfolding get? set remove set_default merge items_append items_length keys select is_truthy without
    dict_or_empty items_or_empty text_at nat_at as_dict role_named rank view_named scopes
    default_view require_scope resolve_view check_keys check_patch_paths observation_for
    observations_for those heading body own_events sorting_part project is_commissioned apply_patch
    patch_member
identity_of = refl

abbrev shown : Result Error Dict → Dict
shown (ok d) = d
shown (err e) = empty

abbrev public_record : Dict
public_record = shown (project garment public_view anonymous)

projects : project garment public_view anonymous ≡ ok public_record
unfolding get? set remove set_default merge items_append items_length keys select is_truthy without
    dict_or_empty items_or_empty text_at nat_at as_dict role_named rank view_named scopes
    default_view require_scope resolve_view check_keys check_patch_paths observation_for
    observations_for those heading body own_events sorting_part project is_commissioned apply_patch
    patch_member
projects = refl

project-public_example :
    (get? "identity" public_record
      ≡ some (obj (entry "granularity" (value_or null (get? "granularity" tagged_identity)) empty)))
    × (get? "lifecycleEvents" public_record ≡ none)
    × (get? "carriers" public_record ≡ none)
    × (get? "sortingDecisions" public_record ≡ none)
    × (get? "components" public_record ≡ none)
    × (get? "integrity" public_record ≡ none)
project-public_example =
    project-public garment public_record tagged_identity anonymous identity_of projects

abbrev maker : Principal
maker = record { subject = "brand"; role = brand; organisation_id = none }

abbrev recolour : Dict
recolour = entry "product" (obj (entry "colourPrimary" (str "red") empty)) empty

allows : check_patch_paths maker recolour ≡ ok tt
unfolding get? set remove set_default merge items_append items_length keys select is_truthy without
    dict_or_empty items_or_empty text_at nat_at as_dict role_named rank view_named scopes
    default_view require_scope resolve_view check_keys check_patch_paths observation_for
    observations_for those heading body own_events sorting_part project is_commissioned apply_patch
    patch_member
allows = refl

Role-distinct : brand ≢ administrator
Role-distinct = λ h. cc

check_patch_paths-kept_example :
    (brand ≡ brand)
    × (get? "carriers" (apply_patch recolour garment) ≡ get? "carriers" garment)
    × ((v : Json) → check_patch_paths maker (entry "identity" v empty) ≡ ok tt)
check_patch_paths-kept_example =
    check_patch_paths-kept maker recolour garment "carriers" allows Role-distinct refl
