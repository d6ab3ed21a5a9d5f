-- ===== src/Tests/Exchange.antt =====
-- A passport that is written as a document and read back, and instances of the theorems.
use Prim.Native.Char.{char}
use sort4circ.Prelude.{
  if◌then◌else◌, ◌==◌, ◌≡◌, refl, ap, Result, ok, err, ◌>>=◌, String, Bool, true, false, [], ℕ,
  zero, suc, elem,
}
use sort4circ.Prelude.Int.{ℤ, pos, negsuc}
use sort4circ.Reasons.{Error, value_error}
use sort4circ.Json.{
  Json, Dict, Float, finite, infinite, nan, float, int, str, arr, obj, nil, cons, empty, entry,
}
use sort4circ.Exchange.{Numerals, node, none_left, child}
use sort4circ.Exchange.Survival.{Faithful}
use sort4circ.Exchange.RoundTrip.{read_value-write_value}
use sort4circ.Exchange.Documents.{Document}
use sort4circ.Exchange.Conversion.{Exchangeable, profile_names, read_document-write_document}
use sort4circ.Json.{
  get?, set, remove, set_default, merge, items_append, items_length, keys, select, is_truthy,
  without,
}
use sort4circ.Json.Shape.{dict_or_empty, items_or_empty, text_at, nat_at, as_dict}
use sort4circ.Prelude.{lookup, insert, erase}
use sort4circ.Prelude.{digits, decimal, utf_8_length}
use sort4circ.Exchange.{pascal, camel, item_name, parse_scalar, tag_of, names, has_duplicate}
use sort4circ.Exchange.Documents.{
  scalar_nodes, object_node, item_nodes, array_node, write_document, to_xml, read_entries,
  read_elements, read_document, from_xml,
}
use sort4circ.Exchange.{
  write_value, write_members, write_items, read_value, read_items, read_members,
}
use sort4circ.Exchange.Survival.{Survives, MembersSurvive, ItemsSurvive}

-- Stand-ins for the numerals: a tally of strokes.
strokes : ℕ → String
strokes zero = ""
strokes (suc n) = String.◌∷◌ (char 49 tt) (strokes n)

tally : String → ℕ
tally String.[] = 0
tally (String.◌∷◌ c s) = suc (tally s)

tally-strokes : (n : ℕ) → tally (strokes n) ≡ n
unfolding strokes tally
tally-strokes zero = refl
tally-strokes (suc n) = ap suc (tally-strokes n)

strokes_of : Json → String
unfolding strokes
strokes_of (int (pos n)) = String.◌∷◌ (char 43 tt) (strokes n)
strokes_of (int (negsuc n)) = String.◌∷◌ (char 45 tt) (strokes n)
strokes_of (float (finite (pos n) (suc zero))) = String.◌∷◌ (char 102 tt) (strokes n)
strokes_of (str t) = t
strokes_of v = ""

signed : Bool → ℕ → ℤ
signed true n = negsuc n
signed false n = pos n

read_strokes : String → Result Error ℤ
unfolding tally signed
read_strokes String.[] = err value_error
read_strokes (String.◌∷◌ c s) = ok (signed (String.◌∷◌ c String.[] == "-") (tally s))

-- A half of a number is a tally after an f.
decimal_strokes : String → Result Error Json
unfolding read_strokes tally
decimal_strokes String.[] = err value_error
decimal_strokes (String.◌∷◌ c s) =
    if String.◌∷◌ c String.[] == "f"
    then ok (float (finite (pos (tally s)) 1))
    else (read_strokes (String.◌∷◌ c s) >>= λ i. ok (int i))

abbrev is_half : Float → Bool
is_half (finite (pos n) (suc zero)) = true
is_half x = false

abbrev numerals : Numerals
numerals = record { str_of = strokes_of; read_int = read_strokes; read_decimal = decimal_strokes }

read_strokes-strokes_of : (i : ℤ) → read_strokes (strokes_of (int i)) ≡ ok i
unfolding strokes_of read_strokes signed
read_strokes-strokes_of (pos n) = ap (λ m. ok (pos m)) (tally-strokes n)
read_strokes-strokes_of (negsuc n) = ap (λ m. ok (negsuc m)) (tally-strokes n)

text_of_text : (t : String) → strokes_of (str t) ≡ t
unfolding strokes_of
text_of_text t = refl

decimal_of_int : (i : ℤ) → decimal_strokes (strokes_of (int i)) ≡ ok (int i)
unfolding strokes_of decimal_strokes read_strokes signed
decimal_of_int (pos n) = ap (λ m. ok (int (pos m))) (tally-strokes n)
decimal_of_int (negsuc n) = ap (λ m. ok (int (negsuc m))) (tally-strokes n)

decimal_of_half :
    (x : Float) → is_half x ≡ true → decimal_strokes (strokes_of (float x)) ≡ ok (float x)
unfolding strokes_of decimal_strokes
decimal_of_half (finite (pos n) (suc zero)) h =
    ap (λ m. ok (float (finite (pos m) 1))) (tally-strokes n)
decimal_of_half (finite (pos n) zero) h = absurd (cc)
decimal_of_half (finite (pos n) (suc (suc k))) h = absurd (cc)
decimal_of_half (finite (negsuc n) k) h = absurd (cc)
decimal_of_half (infinite b) h = absurd (cc)
decimal_of_half nan h = absurd (cc)

numerals-Faithful : Faithful numerals is_half
numerals-Faithful = record {
  of_text = text_of_text;
  of_int = read_strokes-strokes_of;
  decimal_of_int = decimal_of_int;
  decimal_of_float = decimal_of_half;
}

abbrev knit : Dict
knit = entry "articleClass" (str "knit") (
    entry "technicalFlags" (arr (cons (str "stretch") nil))
      (entry "mass" (obj (entry "value" (int (pos 3)) (entry "unit" (str "g") empty))) empty))

abbrev wool : Dict
wool =
    entry "observationId" (str "o1")
      (entry "fibreType" (str "wool") (entry "percentage" (float (finite (pos 9) 1)) empty))

abbrev passport : Dict
passport = entry "dppId" (str "urn:d") (
    entry "schemaVersion" (str "1.0.0") (
      entry "recordVersion" (int (pos 2)) (
        entry "status" (str "active") (
          entry "identity" (obj (entry "granularity" (str "item") empty)) (
            entry "product" (obj knit)
              (entry "materialObservations" (arr (cons (obj wool) nil)) empty))))))

writes :
    write_value numerals "mass" (obj (entry "unit" (str "g") empty))
    ≡ node "Mass" "" (child (node "Unit" "g" none_left) none_left)
unfolding get? set remove set_default merge items_append items_length keys select is_truthy without
    dict_or_empty items_or_empty text_at nat_at as_dict lookup insert erase digits decimal
    utf_8_length pascal camel item_name parse_scalar tag_of names has_duplicate scalar_nodes
    object_node item_nodes array_node write_document to_xml read_entries read_elements read_document
    from_xml write_value write_members write_items read_value read_items read_members Survives
    MembersSurvive ItemsSurvive strokes_of
writes = refl

product_key : camel (pascal "product") ≡ "product"
unfolding get? set remove set_default merge items_append items_length keys select is_truthy without
    dict_or_empty items_or_empty text_at nat_at as_dict lookup insert erase digits decimal
    utf_8_length pascal camel item_name parse_scalar tag_of names has_duplicate scalar_nodes
    object_node item_nodes array_node write_document to_xml read_entries read_elements read_document
    from_xml write_value write_members write_items read_value read_items read_members Survives
    MembersSurvive ItemsSurvive
product_key = refl

knit-Survives : Survives is_half "product" (obj knit)
unfolding get? set remove set_default merge items_append items_length keys select is_truthy without
    dict_or_empty items_or_empty text_at nat_at as_dict lookup insert erase digits decimal
    utf_8_length pascal camel item_name parse_scalar tag_of names has_duplicate scalar_nodes
    object_node item_nodes array_node write_document to_xml read_entries read_elements read_document
    from_xml write_value write_members write_items read_value read_items read_members Survives
    MembersSurvive ItemsSurvive
knit-Survives = (
  refl,
  (
    refl,
    refl,
    (refl, (refl, refl, refl)),
    (
      refl,
      refl,
      (refl, ((refl, (refl, refl, refl)), tt)),
      (
        refl,
        refl,
        (refl, (refl, refl, (refl, refl), (refl, refl, (refl, (refl, refl, refl)), tt))),
        tt,
      ),
    ),
  ),
)

knit_returns : read_value numerals (write_value numerals "product" (obj knit)) ≡ ok (obj knit)
knit_returns =
    read_value-write_value numerals is_half numerals-Faithful "product" (obj knit) product_key
      knit-Survives

-- An empty array of the root is not written, so a record without carriers yet loses the member.
empty_lost :
    array_node numerals "Carriers" "Carrier" "carriers" (entry "carriers" (arr nil) empty) ≡ ok []
unfolding get? set remove set_default merge items_append items_length keys select is_truthy without
    dict_or_empty items_or_empty text_at nat_at as_dict lookup insert erase digits decimal
    utf_8_length pascal camel item_name parse_scalar tag_of names has_duplicate scalar_nodes
    object_node item_nodes array_node write_document to_xml read_entries read_elements read_document
    from_xml write_value write_members write_items read_value read_items read_members Survives
    MembersSurvive ItemsSurvive strokes_of
empty_lost = refl

-- An empty dict reads back as a text.
empty_object : read_value numerals (write_value numerals "mass" (obj empty)) ≡ ok (str "")
unfolding get? set remove set_default merge items_append items_length keys select is_truthy without
    dict_or_empty items_or_empty text_at nat_at as_dict lookup insert erase digits decimal
    utf_8_length pascal camel item_name parse_scalar tag_of names has_duplicate scalar_nodes
    object_node item_nodes array_node write_document to_xml read_entries read_elements read_document
    from_xml write_value write_members write_items read_value read_items read_members Survives
    MembersSurvive ItemsSurvive strokes_of
empty_object = refl

passport-Exchangeable : Exchangeable numerals is_half passport
unfolding get? set remove set_default merge items_append items_length keys select is_truthy without
    dict_or_empty items_or_empty text_at nat_at as_dict lookup insert erase digits decimal
    utf_8_length pascal camel item_name parse_scalar tag_of names has_duplicate scalar_nodes
    object_node item_nodes array_node write_document to_xml read_entries read_elements read_document
    from_xml write_value write_members write_items read_value read_items read_members Survives
    MembersSurvive ItemsSurvive
passport-Exchangeable = record {
  id = "urn:d";
  schema = "1.0.0";
  id_of = refl;
  schema_of = refl;
  scalars = (refl, (refl, (tt, (tt, (tt, (tt, (tt, (tt, tt))))))));
  identity = entry "granularity" (str "item") empty;
  identity_of = refl;
  identity_survives = (refl, refl, (refl, (refl, refl, refl)), tt);
  product = knit;
  product_of = refl;
  product_survives = (
    refl,
    refl,
    (refl, (refl, refl, refl)),
    (
      refl,
      refl,
      (refl, ((refl, (refl, refl, refl)), tt)),
      (
        refl,
        refl,
        (refl, (refl, refl, (refl, refl), (refl, refl, (refl, (refl, refl, refl)), tt))),
        tt,
      ),
    ),
  );
  carriers = tt;
  observations = (
    (
      refl,
      refl,
      (refl, (refl, refl, refl)),
      (refl, refl, (refl, (refl, refl, refl)), (refl, refl, (refl, refl, refl, refl), tt)),
    ),
    tt,
  );
  components = tt;
  events = tt;
  decisions = tt;
  environmental_values = tt;
  integrity = tt;
}

read_document-write_document_example :
    (document : Document) × (back : Dict) × (write_document numerals passport ≡ ok document)
    × (read_document numerals document ≡ ok back)
    × ((k : String) → elem k profile_names ≡ true → get? k back ≡ get? k passport)
read_document-write_document_example =
    read_document-write_document numerals is_half passport numerals-Faithful passport-Exchangeable
