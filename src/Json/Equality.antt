-- ===== src/Json/Equality.antt =====
-- Python's `==` on JSON values: numbers by value across bool, int and float, dicts whatever the
-- order of their members. Two NaNs count as equal: inside a container Python compares by identity
-- first, and copy.deepcopy keeps a float as the same object.
use sort4circ.Prelude.{
  ℕ, suc, ◌+◌, ◌*◌, ◌^◌, Bool, true, false, Option, none, some, ◌&&◌, ◌==◌, nat_eq, if◌then◌else◌,
}
use sort4circ.Prelude.Int.{pos, pos_part, neg_part}
use sort4circ.Json.{
  Json, Items, Dict, Float, null, bool, int, float, str, arr, obj, nil, cons, empty, entry, get?,
  finite, infinite, nan,
}

-- The double, or the exact value, that a number stands for.
abbrev number : Json → Option Float
number (bool b) = some (finite (pos (if b then 1 else 0)) 0)
number (int n) = some (finite n 0)
number (float x) = some x
number _ = none

abbrev same_sign : Bool → Bool → Bool
same_sign true b = b
same_sign false true = false
same_sign false false = true

unfoldable pub float_eq : Float → Float → Bool
float_eq (finite m k) (finite n j) =
    nat_eq (pos_part m * 2 ^ j + neg_part n * 2 ^ k) (pos_part n * 2 ^ k + neg_part m * 2 ^ j)
float_eq (infinite a) (infinite b) = same_sign a b
float_eq nan nan = true
float_eq _ _ = false

number_eq : Option Float → Option Float → Bool
unfolding float_eq
number_eq (some x) (some y) = float_eq x y
number_eq _ _ = false

unfoldable pub dict_length : Dict → ℕ
dict_length empty = 0
dict_length (entry k v d) = suc (dict_length d)

unfoldable mutual
  unfolding number_eq get? dict_length

  pub equal : Json → Json → Bool
  equal null null = true
  equal (str s) (str t) = s == t
  equal (arr xs) (arr ys) = equal_items xs ys
  equal (obj d) (obj e) = nat_eq (dict_length d) (dict_length e) && equal_members d e
  equal v w = number_eq (number v) (number w)

  pub equal_items : Items → Items → Bool
  equal_items nil nil = true
  equal_items (cons x xs) (cons y ys) = equal x y && equal_items xs ys
  equal_items _ _ = false

  -- every member of the first is in the second
  pub equal_members : Dict → Dict → Bool
  equal_members empty e = true
  equal_members (entry k v d) e =
      elim (get? k e) [ none ↦ false | some w ↦ equal v w ] && equal_members d e
