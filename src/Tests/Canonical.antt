-- ===== src/Tests/Canonical.antt =====
-- Instances of the theorems on the canonical form and the digest.
use sort4circ.Prelude.{
  ◌≡◌, refl, Result, ok, err, none, some, if◌then◌else◌, elem, ◌==◌, ne_of_eq_false,
}
use sort4circ.Prelude.Int.{pos}
use sort4circ.Reasons.{Error}
use sort4circ.Canonical.Projection.{
  projection_top_level, projection_identity, projection_product, present,
}
use sort4circ.Json.{Dict, empty, entry, str, obj, null, int, arr, nil, cons}
use sort4circ.Canonical.Serialise.{canonicalise}
use sort4circ.Canonical.Reorder.{in_arr, both_cons, none_left, in_obj, swap, canonicalise-Reordered}
use sort4circ.Canonical.Coverage.{
  digest-Edited, unedited, top_level, of_identity, of_product, get?-integrity_projection, part,
}
use sort4circ.Tests.Sample.{sample_env, shirt}
use sort4circ.Json.{
  get?, set, remove, set_default, merge, items_append, items_length, keys, select, is_truthy,
  without,
}
use sort4circ.Canonical.Projection.{
  pick_present, pick, pick_observations, add_dict, add_items, integrity_projection,
}
use sort4circ.Canonical.Digest.{canonical_bytes, digest}

canonicalise-Reordered_example :
    canonicalise sample_env (arr (cons (obj (entry "a" null (entry "b" (int (pos 1)) empty))) nil))
    ≡ canonicalise sample_env
        (arr (cons (obj (entry "b" (int (pos 1)) (entry "a" null empty))) nil))
canonicalise-Reordered_example = canonicalise-Reordered sample_env _ _ (
    in_arr (
      both_cons (in_obj (swap "a" "b" null (int (pos 1)) empty (ne_of_eq_false "a" "b" refl)))
        none_left))

abbrev shirt_identity : Dict
shirt_identity = entry "granularity" (str "item") (entry "itemId" (str "i1") empty)

abbrev shirt_product : Dict
shirt_product = entry "articleClass" (str "shirt") empty

identity_of : get? "identity" shirt ≡ some (obj shirt_identity)
unfolding get? set remove set_default merge items_append items_length keys select is_truthy without
    pick_present pick pick_observations add_dict add_items integrity_projection canonical_bytes
    digest
identity_of = refl

product_of : get? "product" shirt ≡ some (obj shirt_product)
unfolding get? set remove set_default merge items_append items_length keys select is_truthy without
    pick_present pick pick_observations add_dict add_items integrity_projection canonical_bytes
    digest
product_of = refl

product_after :
    get? "product" (set "identity" (obj (set "sourceRecordId" (str "s") shirt_identity)) shirt)
    ≡ some (obj shirt_product)
unfolding get? set
product_after = refl

digest-Edited_example :
    digest sample_env (
      set "carriers" null (
        set "product"
          (obj (set "mass" (int (pos 3)) shirt_product))
          (set "identity" (obj (set "sourceRecordId" (str "s") shirt_identity)) shirt)))
    ≡ digest sample_env shirt
digest-Edited_example = digest-Edited sample_env shirt _ (
    top_level _ "carriers" null
      (of_product _ shirt_product "mass" (int (pos 3))
        (of_identity shirt shirt_identity "sourceRecordId" (str "s") unedited identity_of refl)
        product_after refl)
      refl)

abbrev dict_or_nothing : Result Error Dict → Dict
dict_or_nothing (ok d) = d
dict_or_nothing (err e) = empty

abbrev shirt_projection : Dict
shirt_projection = dict_or_nothing (integrity_projection shirt)

projects : integrity_projection shirt ≡ ok shirt_projection
unfolding get? set remove set_default merge items_append items_length keys select is_truthy without
    pick_present pick pick_observations add_dict add_items integrity_projection canonical_bytes
    digest
projects = refl

get?-integrity_projection_example : get? "identity" shirt_projection ≡ (
    if elem "identity" projection_top_level
    then present (get? "identity" shirt)
    else if "identity" == "identity"
    then part (pick_present projection_identity shirt_identity)
    else if "product" == "identity"
    then part (pick_present projection_product shirt_product)
    else none)
get?-integrity_projection_example =
    get?-integrity_projection shirt shirt_projection shirt_identity shirt_product identity_of
      product_of projects "identity" refl
