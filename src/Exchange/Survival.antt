-- ===== src/Exchange/Survival.antt =====
-- Which values `_write_value` and `_read_value` of src/sort4circ_dpp/exchange.py carry over a document.
use sort4circ.Prelude.{◌≡◌, String, Bool, true, false, none, ok, if◌then◌else◌, elem}
use sort4circ.Prelude.Int.{ℤ}
use sort4circ.Json.{
  Json, Items, Dict, null, bool, int, float, str, arr, obj, nil, cons, empty, entry, get?, Float,
}
use sort4circ.Exchange.{
  Numerals, list_keys, integer_fields, decimal_fields, boolean_fields, pascal, camel, item_name,
}

-- What Python documents of `str`, `int` and `Decimal`: a text is its own `str`, the `str` of an int reads back
-- as the int in both ways, and the `repr` of a double with a fraction reads back as the double.
pub record Faithful (n : Numerals) (is_fraction : Float → Bool) : Type 0 where
  pub of_text : (t : String) → n.str_of (str t) ≡ t
  pub of_int : (i : ℤ) → n.read_int (n.str_of (int i)) ≡ ok i
  pub decimal_of_int : (i : ℤ) → n.read_decimal (n.str_of (int i)) ≡ ok (int i)
  pub decimal_of_float :
      (x : Float) → is_fraction x ≡ true → n.read_decimal (n.str_of (float x)) ≡ ok (float x)

-- A member whose values are of no number or truth type.
abbrev pub Textual : String → Type 0
Textual key =
    (elem key integer_fields ≡ false)
    × (elem key decimal_fields ≡ false)
    × (elem key boolean_fields ≡ false)

-- The key of the items of a list.
abbrev pub item_key : String → String
item_key key = camel (item_name key)

module _ (is_fraction : Float → Bool) where
  -- The values that survive under a key: texts under a textual key, ints under an integer or decimal key,
  -- fractions under a decimal key, truth values under a Boolean key, dicts that have a member and whose keys
  -- are distinct and in camel case, and lists, under a key that is known to hold one, without lists in them.
  unfoldable mutual
    pub Survives : String → Json → Type 0
    Survives key null = ⊥
    Survives key (bool b) =
        (elem key list_keys ≡ false)
        × (elem key integer_fields ≡ false)
        × (elem key decimal_fields ≡ false)
        × (elem key boolean_fields ≡ true)
    Survives key (int i) =
        (elem key list_keys ≡ false)
        × (if elem key integer_fields then Unit else (elem key decimal_fields ≡ true))
    Survives key (float x) =
        (elem key list_keys ≡ false)
        × (elem key integer_fields ≡ false)
        × (elem key decimal_fields ≡ true)
        × (is_fraction x ≡ true)
    Survives key (str t) = (elem key list_keys ≡ false) × Textual key
    Survives key (obj empty) = ⊥
    Survives key (obj (entry k v d)) = (elem key list_keys ≡ false) × MembersSurvive (entry k v d)
    Survives key (arr xs) = (elem key list_keys ≡ true) × ItemsSurvive (item_key key) xs

    pub MembersSurvive : Dict → Type 0
    MembersSurvive empty = Unit
    MembersSurvive (entry k v d) =
        (camel (pascal k) ≡ k) × (get? k d ≡ none) × Survives k v × MembersSurvive d

    pub ItemsSurvive : String → Items → Type 0
    ItemsSurvive key nil = Unit
    ItemsSurvive key (cons (arr xs) more) = ⊥
    ItemsSurvive key (cons v more) = Survives key v × ItemsSurvive key more
