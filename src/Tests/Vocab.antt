-- ===== src/Tests/Vocab.antt =====
-- A record that is accepted and one that is not, against the table of the coded fields.
use sort4circ.Prelude.{◌≡◌, refl, true, false, ok, err, [], ◌∷◌, codes}
use sort4circ.Reasons.{dpp_error, payload_vocab_invalid}
use sort4circ.Json.{Dict, null, str, arr, obj, nil, cons, empty, entry}
use sort4circ.Vocab.Fields.{field_vocabularies}
use sort4circ.Vocab.Coverage.{validate_record-field_vocabularies}
use sort4circ.Tests.Sample.{sample_env, tag}
use sort4circ.Json.{
  get?, set, remove, set_default, merge, items_append, items_length, keys, select, is_truthy,
  without,
}
use sort4circ.Json.Shape.{dict_or_empty, items_or_empty, text_at, nat_at, as_dict}
use sort4circ.Prelude.{lookup, insert, erase}
use sort4circ.Prelude.{digits, decimal, utf_8_length}
use sort4circ.Vocab.{validate, check_value, each, validate_record}
use sort4circ.Vocab.Fields.{gather, values_at, all_coded, is_covered_by}

abbrev jacket : Dict
jacket = entry "status" (str "active") (
    entry "product"
      (obj (
        entry "articleClass" (str "shirt")
          (entry "technicalFlags" (arr (cons (str "epc") nil)) empty)))
      (entry "materialObservations"
        (arr (
          cons
            (obj (
              entry "method" (str "barcode")
                (entry "confidence" (obj (entry "scale" (str "epc") empty)) empty)))
            nil))
        (entry "carriers" (arr (cons (obj (tag "E1")) nil)) empty)))

-- The second observation names an unknown fibre.
abbrev unknown_fibre : Dict
unknown_fibre = entry "status" null (
    entry "materialObservations"
      (arr (cons (obj empty) (cons (obj (entry "fibreType" (str "asbestos") empty)) nil))) empty)

jacket_accepted : validate_record sample_env jacket ≡ ok tt
unfolding get? set remove set_default merge items_append items_length keys select is_truthy without
    dict_or_empty items_or_empty text_at nat_at as_dict lookup insert erase digits decimal
    utf_8_length validate check_value each validate_record gather values_at all_coded is_covered_by
jacket_accepted = refl

refuses_fibre :
    validate_record sample_env unknown_fibre
    ≡ err (dpp_error payload_vocab_invalid (codes "materialObservations[1].fibreType" ∷ []))
unfolding get? set remove set_default merge items_append items_length keys select is_truthy without
    dict_or_empty items_or_empty text_at nat_at as_dict lookup insert erase digits decimal
    utf_8_length validate check_value each validate_record gather values_at all_coded is_covered_by
refuses_fibre = refl

lacks_fibre : is_covered_by sample_env unknown_fibre field_vocabularies ≡ false
unfolding get? set remove set_default merge items_append items_length keys select is_truthy without
    dict_or_empty items_or_empty text_at nat_at as_dict lookup insert erase digits decimal
    utf_8_length validate check_value each validate_record gather values_at all_coded is_covered_by
lacks_fibre = refl

validate_record-field_vocabularies_example :
    is_covered_by sample_env jacket field_vocabularies ≡ true
validate_record-field_vocabularies_example =
    validate_record-field_vocabularies sample_env jacket jacket_accepted
