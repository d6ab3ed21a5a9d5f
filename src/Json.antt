-- ===== src/Json.antt =====
-- Values of the JSON data model as Python holds them, and the dict operations that the service uses.
-- A dict keeps its members in insertion order.
pub mod Laws
pub mod Shape
pub mod Equality
use sort4circ.Prelude.{
  ℕ, zero, suc, String, Bool, true, false, Option, none, some, List, [], ◌∷◌, ◌==◌, if◌then◌else◌,
  is_none, elem,
}
use sort4circ.Prelude.Int.{ℤ, pos, negsuc}

-- A double. `finite m k` is the number m / 2 ^ k; a negative zero is not told apart.
pub data Float : Type 0 where
  finite : ℤ → ℕ → Float
  infinite : Bool → Float
  nan : Float

mutual
  pub data Json : Type 0 where
    null : Json
    bool : Bool → Json
    int : ℤ → Json
    float : Float → Json
    str : String → Json
    arr : Items → Json
    obj : Dict → Json

  pub data Items : Type 0 where
    nil : Items
    cons : Json → Items → Items

  pub data Dict : Type 0 where
    empty : Dict
    entry : String → Json → Dict → Dict

-- `d.get(k)`, with none for a key that is absent.
unfoldable pub get? : String → Dict → Option Json
get? k empty = none
get? k (entry j v d) = if j == k then some v else get? k d

-- `k in d`
abbrev pub has : String → Dict → Bool
has k d = if is_none (get? k d) then false else true

-- `d[k] = v`: a key that is there keeps its place, a new one goes to the end.
unfoldable pub set : String → Json → Dict → Dict
set k v empty = entry k v empty
set k v (entry j w d) = if j == k then entry j v d else entry j w (set k v d)

-- `d.pop(k, None)`. The keys of a dict are distinct, so there is one at most.
unfoldable pub remove : String → Dict → Dict
remove k empty = empty
remove k (entry j w d) = let rest = remove k d in if j == k then rest else entry j w rest

-- `d.setdefault(k, v)`
unfoldable pub set_default : String → Json → Dict → Dict
unfolding get? set
set_default k v d = if is_none (get? k d) then set k v d else d

-- `{**d, **e}`
unfoldable pub merge : Dict → Dict → Dict
unfolding set
merge d empty = d
merge d (entry k v e) = merge (set k v d) e

unfoldable pub items_append : Items → Json → Items
items_append nil x = cons x nil
items_append (cons y ys) x = cons y (items_append ys x)

unfoldable pub items_length : Items → ℕ
items_length nil = 0
items_length (cons x xs) = suc (items_length xs)

-- `keys` of `d`, in order
unfoldable pub keys : Dict → List String
keys empty = []
keys (entry k v d) = k ∷ keys d

-- `{k: d[k] for k in ks if k in d}`
unfoldable pub select : List String → Dict → Dict
unfolding get?
select [] d = empty
select (k ∷ ks) d =
    let rest = select ks d in elim (get? k d) [ none ↦ rest | some v ↦ entry k v rest ]

-- `bool(v)`
unfoldable pub is_truthy : Json → Bool
is_truthy null = false
is_truthy (bool b) = b
is_truthy (int (pos zero)) = false
is_truthy (int n) = true
is_truthy (float (finite (pos zero) k)) = false
is_truthy (float x) = true
is_truthy (str s) = if s == "" then false else true
is_truthy (arr nil) = false
is_truthy (arr (cons x xs)) = true
is_truthy (obj empty) = false
is_truthy (obj (entry k v d)) = true

-- `{k: v for k, v in d.items() if k not in ks}`
unfoldable pub without : List String → Dict → Dict
without ks empty = empty
without ks (entry k v d) = let rest = without ks d in if elem k ks then rest else entry k v rest
