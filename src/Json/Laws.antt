-- ===== src/Json/Laws.antt =====
-- What a dict holds after a write, a removal, a merge and a selection.
use sort4circ.Prelude.{
  ◌+◌, ◌≡◌, refl, String, none, some, List, [], ◌∷◌, ◌==◌, eq_iff, eq_refl, if◌then◌else◌, elem,
  is_none, arith,
}
use sort4circ.Json.{
  Json, Items, Dict, empty, entry, nil, cons, get?, set, remove, set_default, select, items_append,
  items_length,
}

pub get?-set :
    (k j : String) (v : Json) (d : Dict)
    → get? j (set k v d) ≡ (if k == j then some v else get? j d)
unfolding get? set
get?-set k j v empty = refl
get?-set k j v (entry i w d) = ground (arith, eq_iff k j, eq_iff i k, eq_iff i j, get?-set k j v d)

pub get?-set_self : (k : String) (v : Json) (d : Dict) → get? k (set k v d) ≡ some v
get?-set_self k v d = simp (get?-set, eq_refl)

pub get?-remove :
    (k j : String) (d : Dict) → get? j (remove k d) ≡ (if k == j then none else get? j d)
unfolding get? remove
get?-remove k j empty = ground arith
get?-remove k j (entry i w d) =
    ground (arith, eq_iff k j, eq_iff i k, eq_iff i j, get?-remove k j d)

pub get?-set_default :
    (k j : String) (v : Json) (d : Dict)
    → get? j (set_default k v d)
      ≡ (if k == j then (if is_none (get? k d) then some v else get? k d) else get? j d)
unfolding set_default
get?-set_default k j v d = ground (arith, eq_iff k j, get?-set k j v d)

-- A selection holds the chosen keys that the dict has, and nothing else.
pub get?-select :
    (ks : List String) (j : String) (d : Dict)
    → get? j (select ks d) ≡ (if elem j ks then get? j d else none)
unfolding get? select
get?-select [] j d = refl
get?-select (k ∷ ks) j d = ground (arith, eq_iff j k, eq_iff k j, get?-select ks j d)

pub items_length-append :
    (xs : Items) (x : Json) → items_length (items_append xs x) ≡ items_length xs + 1
unfolding items_length items_append
items_length-append nil x = refl
items_length-append (cons y xs) x = omega (arith, items_length-append xs x)
