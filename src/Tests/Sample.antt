-- ===== src/Tests/Sample.antt =====
-- The data of the tests: a small passport, and stand-ins for what the service takes from outside.
use sort4circ.Prelude.{codes, String, some, [], ◌∷◌, Result, ok, err, decimal, utf_8_length, Text}
use sort4circ.Prelude.Int.{pos}
use sort4circ.Json.{cons, nil, arr, Dict, set, finite, str, obj, empty, entry}
use sort4circ.Env.{Env}
use sort4circ.Store.State.{Io, Store, new_store}
use sort4circ.Store.Create.{create}
use sort4circ.Store.Patch.{patch}
use sort4circ.Store.Carriers.{commission_carrier}
use sort4circ.Store.Idempotency.{remember}
use sort4circ.Reasons.{Error}

abbrev pub sample_env : Env
sample_env = record {
  schema_errors = λ d. [];
  tokens = λ name. "active" ∷ "barcode" ∷ "epc" ∷ "commissioned" ∷ "replaced" ∷ "shirt" ∷ [];
  sha256 = λ t. decimal 9 (utf_8_length t);
  float_repr = λ x. "1.5";
  float_of_int = λ n. finite n 0;
  float_sum = λ xs. finite (pos 0) 0;
}

abbrev pub sample_io : Io
sample_io = record {
  now = λ i. "2025-01-01T00:00:00Z";
  urn = λ kind. "urn:s4c:1";
  monotonic_ms = 7;
}

abbrev pub shirt : Dict
shirt =
    entry "identity" (obj (entry "granularity" (str "item") (entry "itemId" (str "i1") empty)))
      (entry "product" (obj (entry "articleClass" (str "shirt") empty)) empty)

abbrev pub tag : String → Dict
tag encoded = entry "carrierType" (str "barcode") (
    entry "encodingScheme" (str "epc")
      (entry "encodedIdentifier" (str encoded) (entry "boundBy" (str "line 4") empty)))

-- The store after the creation of the passport.
abbrev pub one_shirt : Store
one_shirt = (create sample_env sample_io shirt new_store).1

-- The record of an accepted write.
abbrev pub item_of : Result Error Dict × Store → Dict
item_of (ok item, s) = item
item_of (err e, s) = empty

abbrev pub shirt_item : Dict
shirt_item = item_of (create sample_env sample_io shirt new_store)

abbrev pub tagged_item : Dict
tagged_item = item_of (commission_carrier sample_env sample_io "urn:s4c:1" (tag "E1") one_shirt)

abbrev pub tagged : Store
tagged = (commission_carrier sample_env sample_io "urn:s4c:1" (tag "E1") one_shirt).1

abbrev pub second_shirt : Dict
second_shirt = entry "dppId" (str "urn:s4c:2") shirt

abbrev pub second_item : Dict
second_item = item_of (create sample_env sample_io second_shirt tagged)

-- Two passports, the first with a carrier.
abbrev pub two_shirts : Store
two_shirts = (create sample_env sample_io second_shirt tagged).1

-- A carrier whose type is in no vocabulary.
abbrev pub bad_tag : Dict
bad_tag = set "carrierType" (str "no such type") (tag "E2")

abbrev pub after_bad_tag : Store
after_bad_tag = (commission_carrier sample_env sample_io "urn:s4c:1" bad_tag tagged).1

abbrev pub text_or_nothing : Result Error Text → Text
text_or_nothing (ok t) = t
text_or_nothing (err e) = []

abbrev pub store_or : Store → Result Error Store → Store
store_or s (ok t) = t
store_or s (err e) = s

abbrev pub remembering : Store
remembering =
    store_or one_shirt (remember sample_env (some "key") (obj shirt) (str "answer") one_shirt)

-- A patch that adds an event.
abbrev pub event_patch : Dict
event_patch =
    entry "lifecycleEvents" (arr (cons (obj (entry "eventId" (str "e1") empty)) nil)) empty

abbrev pub patched_item : Dict
patched_item =
    item_of (patch sample_env sample_io "urn:s4c:1" event_patch (some (codes "dpp-1-v2")) tagged)

abbrev pub patched_store : Store
patched_store =
    (patch sample_env sample_io "urn:s4c:1" event_patch (some (codes "dpp-1-v2")) tagged).1
