-- ===== src/Canonical/Serialise.antt =====
-- `canonicalise` of src/sort4circ_dpp/canonical.py.
use sort4circ.Prelude.{Text, codes, true, false, List, [], ◌∷◌, ◌++◌, Result, ok, ◌>>=◌}
use sort4circ.Reasons.{Error}
use sort4circ.Json.{
  Json, Items, Dict, null, bool, int, float, str, arr, obj, nil, cons, empty, entry,
}
use sort4circ.Env.{Env}
use sort4circ.Canonical.Text.{int_text, float_text, string_text}
use sort4circ.Canonical.Keys.{Member, sorted}

-- `",".join(parts)`
unfoldable pub join : List Text → Text
join [] = []
join (t ∷ []) = t
join (t ∷ u ∷ l) = t ++ 44 ∷ join (u ∷ l)

unfoldable pub member_texts : List Member → List Text
unfolding string_text
member_texts [] = []
member_texts ((k, t) ∷ l) = (string_text k ++ 58 ∷ t) ∷ member_texts l

-- The members of a dict, in the order in which they are to stand.
unfoldable pub braces : List Member → Text
unfolding member_texts join
braces l = 123 ∷ join (member_texts l) ++ 125 ∷ []

unfoldable pub object_text : List Member → Text
unfolding sorted
object_text l = braces (sorted l)

unfoldable pub array_text : List Text → Text
unfolding join
array_text l = 91 ∷ join l ++ 93 ∷ []

-- Each value is serialised before the members are sorted; the order of the two makes no difference,
-- since every failure is the same exception.
unfoldable mutual
  unfolding string_text float_text int_text object_text braces array_text

  pub canonicalise : Env → Json → Result Error Text
  canonicalise env null = ok (codes "null")
  canonicalise env (bool true) = ok (codes "true")
  canonicalise env (bool false) = ok (codes "false")
  canonicalise env (int n) = ok (int_text n)
  canonicalise env (float x) = float_text env x
  canonicalise env (str s) = ok (string_text s)
  canonicalise env (arr xs) = do l ← canonicalise_items env xs; ok (array_text l)
  canonicalise env (obj d) = do l ← canonicalise_members env d; ok (object_text l)

  pub canonicalise_items : Env → Items → Result Error (List Text)
  canonicalise_items env nil = ok []
  canonicalise_items env (cons x xs) = do
    t ← canonicalise env x
    l ← canonicalise_items env xs
    ok (t ∷ l)

  pub canonicalise_members : Env → Dict → Result Error (List Member)
  canonicalise_members env empty = ok []
  canonicalise_members env (entry k v d) = do
    t ← canonicalise env v
    l ← canonicalise_members env d
    ok ((k, t) ∷ l)
