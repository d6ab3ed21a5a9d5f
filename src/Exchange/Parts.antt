-- ===== src/Exchange/Parts.antt =====
-- The parts of a document that `to_xml` of src/sort4circ_dpp/exchange.py writes, as `from_xml` reads them.
use sort4circ.Prelude.{
  ◌≡◌, refl, ap, ◌∙◌, String, Bool, true, false, Option, none, some, List, [], ◌∷◌, ◌++◌, Result,
  ok, ◌==◌, Assoc, lookup,
}
use mathlib.Core.List.{append_assoc}
use sort4circ.Reasons.{Error}
use sort4circ.Json.{
  Json, Items, Dict, Float, null, bool, int, float, str, arr, obj, nil, cons, get?, is_truthy,
}
use sort4circ.Json.Shape.{as_dict, value_or}
use sort4circ.Exchange.{Node, Nodes, node, none_left, child, tag_of, Numerals, write_members}
use sort4circ.Exchange.Survival.{Faithful, MembersSurvive}
use sort4circ.Exchange.RoundTrip.{read_members-write_members}
use sort4circ.Exchange.Documents.{
  root_scalars, root_objects, root_arrays, scalar_node, scalar_nodes, object_node, item_nodes,
  array_of, array_node, read_entries, read_elements,
}
use sort4circ.Exchange.Copying.{copy_one, copy_all}

abbrev pub second_names : Assoc String → List String
second_names [] = []
second_names ((tag, name) ∷ table) = name ∷ second_names table

-- An optional scalar of the root: an int for the version, a text otherwise.
abbrev pub ScalarSurvives : String → Option Json → Type 0
ScalarSurvives name none = Unit
ScalarSurvives name (some (int i)) = (name == "recordVersion") ≡ true
ScalarSurvives name (some (str t)) = (name == "recordVersion") ≡ false
ScalarSurvives name (some _) = ⊥

abbrev pub ScalarsSurvive : Assoc String → Dict → Type 0
ScalarsSurvive [] source = Unit
ScalarsSurvive ((tag, name) ∷ table) source =
    ScalarSurvives name (get? name source) × ScalarsSurvive table source

-- A table whose element names stand for its members.
abbrev pub Listed : Assoc String → Type 0
Listed [] = Unit
Listed ((tag, name) ∷ table) = (lookup tag root_scalars ≡ some name) × Listed table

module _ (n : Numerals) (is_fraction : Float → Bool) where
  -- The dicts of an array.
  abbrev pub EntriesSurvive : Items → Type 0
  EntriesSurvive nil = Unit
  EntriesSurvive (cons (obj d) xs) = MembersSurvive is_fraction d × EntriesSurvive xs
  EntriesSurvive (cons v xs) = ⊥

  -- An array of the root: absent, or with an entry at least.
  abbrev pub ArraySurvives : Option Json → Type 0
  ArraySurvives none = Unit
  ArraySurvives (some (arr (cons x xs))) = EntriesSurvive (cons x xs)
  ArraySurvives (some _) = ⊥

  module _ (faithful : Faithful n is_fraction) where
    read_scalar :
        (tag name : String) (o : Option Json) (out : Dict) (xs : List Node)
        → lookup tag root_scalars ≡ some name
        → ScalarSurvives name o
        → read_elements n out (scalar_node n tag o ++ xs) ≡ read_elements n (copy_one name o out) xs
    unfolding read_elements tag_of
    read_scalar tag name none out xs l s = refl
    read_scalar tag name (some (int i)) out xs l s = rw (l, s, faithful.of_int i) refl
    read_scalar tag name (some (str t)) out xs l s = rw (l, s, faithful.of_text t) refl
    read_scalar tag name (some null) out xs l s = absurd s
    read_scalar tag name (some (bool b)) out xs l s = absurd s
    read_scalar tag name (some (float x)) out xs l s = absurd s
    read_scalar tag name (some (arr x)) out xs l s = absurd s
    read_scalar tag name (some (obj d)) out xs l s = absurd s

    pub read_scalars :
        (table : Assoc String) (source out : Dict) (xs : List Node)
        → Listed table
        → ScalarsSurvive table source
        → read_elements n out (scalar_nodes n table source ++ xs)
          ≡ read_elements n (copy_all (second_names table) source out) xs
    unfolding scalar_nodes
    read_scalars [] source out xs l s = refl
    read_scalars ((tag, name) ∷ table) source out xs (l, ls) (s, ss) =
        ap (read_elements n out) (append_assoc (scalar_node n tag (get? name source)) _ xs)
        ∙ read_scalar tag name (get? name source) out (scalar_nodes n table source ++ xs) l s
        ∙ read_scalars table source (copy_one name (get? name source) out) xs ls ss

    -- What a part of the document adds, when it is read.
    abbrev pub Adds : Result Error (List Node) → String → Dict → Type 0
    Adds written name source =
        (ys : List Node) × (written ≡ ok ys)
        × ((out : Dict) (xs : List Node)
            → read_elements n out (ys ++ xs)
              ≡ read_elements n (copy_one name (get? name source) out) xs)

    pub read_object :
        (tag name : String) (source d : Dict)
        → lookup tag root_scalars ≡ none
        → lookup tag root_objects ≡ some name
        → get? name source ≡ some (obj d)
        → MembersSurvive is_fraction d
        → Adds (object_node n tag name source) name source
    unfolding object_node as_dict read_elements tag_of
    read_object tag name source d p q h m = (
      node tag "" (write_members n d) ∷ [],
      rw h refl,
      λ out xs. rw (p, q, read_members-write_members n is_fraction faithful d m, h) refl,
    )

    read_items_back :
        (tag : String) (xs : Items)
        → EntriesSurvive xs
        → (ys : Nodes) × (item_nodes n tag xs ≡ ok ys) × (read_entries n ys ≡ ok xs)
    unfolding item_nodes read_entries as_dict
    read_items_back tag nil s = (none_left, refl, refl)
    read_items_back tag (cons (obj d) xs) (m, s) =
        let (ys, written, read) = read_items_back tag xs s in
        (
          child (node tag "" (write_members n d)) ys,
          rw written refl,
          rw (read_members-write_members n is_fraction faithful d m, read) refl,
        )
    read_items_back tag (cons null xs) s = absurd s
    read_items_back tag (cons (bool b) xs) s = absurd s
    read_items_back tag (cons (int i) xs) s = absurd s
    read_items_back tag (cons (float x) xs) s = absurd s
    read_items_back tag (cons (str t) xs) s = absurd s
    read_items_back tag (cons (arr ys) xs) s = absurd s

    pub read_array :
        (tag item_tag name : String) (source : Dict)
        → lookup tag root_scalars ≡ none
        → lookup tag root_objects ≡ none
        → lookup tag root_arrays ≡ some name
        → ArraySurvives (get? name source)
        → Adds (array_node n tag item_tag name source) name source
    unfolding array_node read_elements tag_of is_truthy
    read_array tag item_tag name source p q r s = by_value (get? name source) refl s
      where
        by_value :
            (o : Option Json)
            → get? name source ≡ o
            → ArraySurvives o
            → (ys : List Node) × (array_of n tag item_tag (value_or null o) ≡ ok ys)
              × ((out : Dict) (xs : List Node)
                  → read_elements n out (ys ++ xs) ≡ read_elements n (copy_one name o out) xs)
        by_value none e a = ([], refl, λ out xs. refl)
        by_value (some (arr (cons x rest))) e a =
            let (ys, written, read) = read_items_back item_tag (cons x rest) a in
            (node tag "" ys ∷ [], rw written refl, λ out xs. rw (p, q, r, read) refl)
        by_value (some (arr nil)) e a = absurd a
        by_value (some null) e a = absurd a
        by_value (some (bool b)) e a = absurd a
        by_value (some (int i)) e a = absurd a
        by_value (some (float x)) e a = absurd a
        by_value (some (str t)) e a = absurd a
        by_value (some (obj d)) e a = absurd a
