-- ===== src/Tests/ReadZone.antt =====
-- Runs of the read zone, and instances of its theorems.
use sort4circ.Prelude.{
  ℕ, ◌&&◌, ◌≡◌, refl, Result, ok, err, Bool, true, false, none, List, [], ◌∷◌, leb, codes,
  join_texts,
}
use sort4circ.Prelude.Int.{negsuc}
use sort4circ.Reasons.{Error, read_suppressed_duplicate}
use sort4circ.Json.{Dict, empty, entry, str, int}
use sort4circ.ReadZone.{ReadZone, ReadZoneResult, reject}
use sort4circ.ReadZone.Commands.{Permitted, evaluate-Permitted, evaluate-suppressed}
use sort4circ.Json.{
  get?, set, remove, set_default, merge, items_append, items_length, keys, select, is_truthy,
  without,
}
use sort4circ.ReadZone.{may_command, after_prefix, digit_run, is_epc, is_weak, evaluate}
use sort4circ.Composition.{float_gt}
use sort4circ.Reasons.{safe_action}
use sort4circ.Prelude.{lookup, insert, erase}
use sort4circ.Prelude.{digits, decimal, utf_8_length}

abbrev ascii_digit : ℕ → Bool
ascii_digit c = leb 48 c && leb c 57

abbrev zone : ReadZone
zone = record { suppression_window_ms = 60; weak_signal_dbm = negsuc 69; last_seen = [] }

abbrev reads : List Dict
reads =
    entry "epc" (str "urn:epc:id:sgtin:0614141.112345.400")
      (entry "rssiDbm" (int (negsuc 49)) empty)
    ∷ []

abbrev result_or : ReadZoneResult → Result Error ReadZoneResult → ReadZoneResult
result_or r (ok s) = s
result_or r (err e) = r

abbrev permitted : ReadZoneResult
permitted =
    result_or (reject read_suppressed_duplicate none) (evaluate ascii_digit reads 1000 zone).0

abbrev zone_after : ReadZone
zone_after = (evaluate ascii_digit reads 1000 zone).1

evaluates : evaluate ascii_digit reads 1000 zone ≡ (ok permitted, zone_after)
unfolding get? set remove set_default merge items_append items_length keys select is_truthy without
    may_command after_prefix digit_run is_epc is_weak evaluate float_gt safe_action lookup insert
    erase digits decimal utf_8_length
evaluates = refl

commands : may_command permitted ≡ true
unfolding get? set remove set_default merge items_append items_length keys select is_truthy without
    may_command after_prefix digit_run is_epc is_weak evaluate float_gt safe_action lookup insert
    erase digits decimal utf_8_length
commands = refl

evaluate-Permitted_example : Permitted ascii_digit reads 1000 zone permitted zone_after
evaluate-Permitted_example =
    evaluate-Permitted ascii_digit reads 1000 zone zone_after permitted evaluates commands

evaluate-suppressed_example :
    evaluate ascii_digit reads 1030 zone_after
    ≡ (ok (reject read_suppressed_duplicate permitted.epc), zone_after)
evaluate-suppressed_example =
    evaluate-suppressed ascii_digit reads 1000 1030 zone zone_after permitted evaluates commands
      refl

-- The pattern takes a line feed at the end.
takes_line_feed :
    is_epc ascii_digit (join_texts (codes "urn:epc:id:sgtin:0614141.112345.400") (10 ∷ [])) ≡ true
unfolding get? set remove set_default merge items_append items_length keys select is_truthy without
    may_command after_prefix digit_run is_epc is_weak evaluate float_gt safe_action lookup insert
    erase digits decimal utf_8_length
takes_line_feed = refl

refuses_short : is_epc ascii_digit (codes "urn:epc:id:sgtin:06141.112345.400") ≡ false
unfolding get? set remove set_default merge items_append items_length keys select is_truthy without
    may_command after_prefix digit_run is_epc is_weak evaluate float_gt safe_action lookup insert
    erase digits decimal utf_8_length
refuses_short = refl
