-- ===== src/Tests/Composition.antt =====
-- An instance of the theorem on the sets of observations.
use sort4circ.Prelude.{◌≡◌, refl, Result, ok, err, String, [], ◌∷◌}
use sort4circ.Json.{Dict, Items, str, arr, obj, nil, cons, empty, entry}
use sort4circ.Composition.{SetKey, Groups}
use sort4circ.Composition.Grouping.{observation_sets-members}
use sort4circ.Reasons.{Error}
use sort4circ.Json.{
  get?, set, remove, set_default, merge, items_append, items_length, keys, select, is_truthy,
  without,
}
use sort4circ.Json.Shape.{dict_or_empty, items_or_empty, text_at, nat_at, as_dict}
use sort4circ.Composition.{
  same_set, text_or_empty, set_key, add_to_group, group_all, observation_sets, is_supplied_mass,
  percentage, percentages, float_gt, check_set, check_sets, check_composition,
}
use sort4circ.Composition.Grouping.{members, with_key}

abbrev seen_by : String → String → Dict
seen_by organisation fibre =
    entry "sourceOrganisationId" (str organisation) (entry "fibreType" (str fibre) empty)

abbrev observed : Items
observed =
    cons (obj (seen_by "lab" "cotton"))
      (cons (obj (seen_by "line" "wool")) (cons (obj (seen_by "lab" "elastane")) nil))

abbrev garment : Dict
garment = entry "materialObservations" (arr observed) empty

abbrev lab : SetKey
lab = record { organisation = "lab"; system = ""; method = ""; observed_at = "" }

abbrev groups_or_none : Result Error Groups → Groups
groups_or_none (ok g) = g
groups_or_none (err e) = []

abbrev groups : Groups
groups = groups_or_none (observation_sets garment)

reads : items_or_empty (get? "materialObservations" garment) ≡ ok observed
unfolding get? set remove set_default merge items_append items_length keys select is_truthy without
    dict_or_empty items_or_empty text_at nat_at as_dict same_set text_or_empty set_key add_to_group
    group_all observation_sets is_supplied_mass percentage percentages float_gt check_set check_sets
    check_composition members with_key
reads = refl

sets : observation_sets garment ≡ ok groups
unfolding get? set remove set_default merge items_append items_length keys select is_truthy without
    dict_or_empty items_or_empty text_at nat_at as_dict same_set text_or_empty set_key add_to_group
    group_all observation_sets is_supplied_mass percentage percentages float_gt check_set check_sets
    check_composition members with_key
sets = refl

of_lab : with_key lab observed ≡ ok (seen_by "lab" "cotton" ∷ seen_by "lab" "elastane" ∷ [])
unfolding get? set remove set_default merge items_append items_length keys select is_truthy without
    dict_or_empty items_or_empty text_at nat_at as_dict same_set text_or_empty set_key add_to_group
    group_all observation_sets is_supplied_mass percentage percentages float_gt check_set check_sets
    check_composition members with_key
of_lab = refl

observation_sets-members_example :
    members lab groups ≡ seen_by "lab" "cotton" ∷ seen_by "lab" "elastane" ∷ []
observation_sets-members_example =
    observation_sets-members lab garment observed groups
      (seen_by "lab" "cotton" ∷ seen_by "lab" "elastane" ∷ []) reads sets of_lab
