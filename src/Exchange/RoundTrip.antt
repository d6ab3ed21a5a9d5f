-- ===== src/Exchange/RoundTrip.antt =====
-- `_write_value` and `_read_value` of src/sort4circ_dpp/exchange.py: what is written reads back.
use sort4circ.Prelude.{
  ◌≡◌, refl, sym, ap, ◌∙◌, String, Bool, true, false, Result, ok, ◌>>=◌, if◌then◌else◌, ◌==◌, elem,
}
use sort4circ.Prelude.Int.{ℤ}
use sort4circ.Reasons.{Error}
use sort4circ.Json.{
  Json, Items, Dict, null, bool, int, float, str, arr, obj, nil, cons, empty, entry, Float,
}
use sort4circ.Exchange.{
  Node, Nodes, node, none_left, child, Numerals, list_keys, integer_fields, decimal_fields,
  boolean_fields, pascal, camel, item_name, scalar_text, write_value, write_members, write_items,
  parse_scalar, read_value, read_items, read_members,
}
use sort4circ.Exchange.Survival.{Faithful, item_key, Survives, MembersSurvive, ItemsSurvive}
use sort4circ.Exchange.Members.{
  extend, Apart, set_new, extend_assoc, extend-empty, Apart-extend, Apart-empty, tag_of-write_value,
  distinct_names,
}

-- The element of a value, with a tag of its own.
tagged : Numerals → String → String → Json → Node
tagged n tag key (obj d) = node tag "" (write_members n d)
tagged n tag key (arr xs) = node tag "" (write_items n (item_name key) xs)
tagged n tag key v = node tag (scalar_text n v) none_left

write_value-tagged :
    (n : Numerals) (key : String) (v : Json) → write_value n key v ≡ tagged n (pascal key) key v
unfolding write_value tagged
write_value-tagged n key null = refl
write_value-tagged n key (bool b) = refl
write_value-tagged n key (int i) = refl
write_value-tagged n key (float x) = refl
write_value-tagged n key (str t) = refl
write_value-tagged n key (arr xs) = refl
write_value-tagged n key (obj d) = refl

module _ (n : Numerals) (is_fraction : Float → Bool) (faithful : Faithful n is_fraction) where
  -- A leaf reads back if its text does.
  leaf :
      (tag key text : String) (v : Json)
      → camel tag ≡ key
      → elem key list_keys ≡ false
      → parse_scalar n key text ≡ ok v
      → read_value n (node tag text none_left) ≡ ok v
  unfolding read_value
  leaf tag key text v c l h = rw (c, l) h

  bool_text :
      (b : Bool)
      → Path (Result Error Json) (ok (bool (scalar_text n (bool b) == "true"))) (ok (bool b))
  bool_text true = refl
  bool_text false = refl

  scalar-bool :
      (key : String) (b : Bool)
      → Survives is_fraction key (bool b)
      → parse_scalar n key (scalar_text n (bool b)) ≡ ok (bool b)
  unfolding parse_scalar Survives
  scalar-bool key b (l, i, d, m) = rw (i, d, m) (bool_text b)

  scalar-int :
      (key : String) (i : ℤ)
      → Survives is_fraction key (int i)
      → parse_scalar n key (n.str_of (int i)) ≡ ok (int i)
  unfolding parse_scalar Survives
  scalar-int key i (l, s) = by_field (elem key integer_fields) s
    where
      by_field :
          (b : Bool)
          → (if b then Unit else (elem key decimal_fields ≡ true))
          → (if b
              then (n.read_int (n.str_of (int i)) >>= λ j. ok (int j))
              else if elem key decimal_fields
              then n.read_decimal (n.str_of (int i))
              else if elem key boolean_fields
              then ok (bool (n.str_of (int i) == "true"))
              else ok (str (n.str_of (int i))))
            ≡ ok (int i)
      by_field true q = rw (faithful.of_int i) refl
      by_field false q = rw q (faithful.decimal_of_int i)

  scalar-float :
      (key : String) (x : Float)
      → Survives is_fraction key (float x)
      → parse_scalar n key (n.str_of (float x)) ≡ ok (float x)
  unfolding parse_scalar Survives
  scalar-float key x (l, i, d, f) = rw (i, d) (faithful.decimal_of_float x f)

  scalar-str :
      (key t : String)
      → Survives is_fraction key (str t)
      → parse_scalar n key (n.str_of (str t)) ≡ ok (str t)
  unfolding parse_scalar Survives
  scalar-str key t (l, (i, d, b)) = rw (i, d, b) (ap (λ u. ok (str u)) (faithful.of_text t))

  read_object :
      (tag key k : String) (v : Json) (d : Dict)
      → camel tag ≡ key
      → elem key list_keys ≡ false
      → MembersSurvive is_fraction (entry k v d)
      → read_members n empty (write_members n (entry k v d)) ≡ ok (entry k v d)
      → read_value n (node tag "" (write_members n (entry k v d))) ≡ ok (obj (entry k v d))
  unfolding read_value write_members
  read_object tag key k v d c l m h =
      rw (c, l, distinct_names n is_fraction (entry k v d) m, h) refl

  read_list :
      (tag key : String) (xs : Items)
      → camel tag ≡ key
      → elem key list_keys ≡ true
      → read_items n (write_items n (item_name key) xs) ≡ ok xs
      → read_value n (node tag "" (write_items n (item_name key) xs)) ≡ ok (arr xs)
  unfolding read_value read_items
  read_list tag key xs c l h = by_children (write_items n (item_name key) xs) h
    where
      by_children :
          (children : Nodes)
          → read_items n children ≡ ok xs
          → read_value n (node tag "" children) ≡ ok (arr xs)
      by_children none_left q =
          rw (c, l) (ap (λ (r : Result Error Items). r >>= λ ys. ok (arr ys)) q)
      by_children (child x more) q =
          rw (c, l) (ap (λ (r : Result Error Items). r >>= λ ys. ok (arr ys)) q)

  mutual
    unfolding read_value read_items read_members tagged write_members write_items Survives
        MembersSurvive ItemsSurvive

    read_tagged :
        (tag key : String) (v : Json)
        → camel tag ≡ key
        → Survives is_fraction key v
        → read_value n (tagged n tag key v) ≡ ok v
    read_tagged tag key null c s = absurd s
    read_tagged tag key (bool b) c s = leaf tag key _ _ c s.0 (scalar-bool key b s)
    read_tagged tag key (int i) c s = leaf tag key _ _ c s.0 (scalar-int key i s)
    read_tagged tag key (float x) c s = leaf tag key _ _ c s.0 (scalar-float key x s)
    read_tagged tag key (str t) c s = leaf tag key _ _ c s.0 (scalar-str key t s)
    read_tagged tag key (obj empty) c s = absurd s
    read_tagged tag key (obj (entry k v d)) c s =
        read_object tag key k v d c s.0 s.1
          (read_written empty (entry k v d) (Apart-empty (entry k v d)) s.1)
    read_tagged tag key (arr xs) c s = read_list tag key xs c s.0 (read_written_items key xs s.1)

    read_written :
        (out d : Dict)
        → Apart out d
        → MembersSurvive is_fraction d
        → read_members n out (write_members n d) ≡ ok (extend out d)
    read_written out empty a m = ap ok (sym (extend-empty out))
    read_written out (entry k v d) a (c, fresh, s, m) =
        rw
          (
            ap (read_value n) (write_value-tagged n k v) ∙ read_tagged (pascal k) k v c s,
            tag_of-write_value n k v,
            c,
            set_new k v out a.0,
          )
          (read_written (extend out (entry k v empty)) d (Apart-extend k v out d a.1 fresh) m
            ∙ ap ok (extend_assoc out k v d))

    read_written_items :
        (key : String) (xs : Items)
        → ItemsSurvive is_fraction (item_key key) xs
        → read_items n (write_items n (item_name key) xs) ≡ ok xs
    read_written_items key nil s = refl
    read_written_items key (cons null xs) s = absurd s.0
    read_written_items key (cons (bool b) xs) s =
        rw
          (
            read_tagged (item_name key) (item_key key) (bool b) refl s.0,
            read_written_items key xs s.1,
          )
          refl
    read_written_items key (cons (int i) xs) s =
        rw
          (
            read_tagged (item_name key) (item_key key) (int i) refl s.0,
            read_written_items key xs s.1,
          )
          refl
    read_written_items key (cons (float x) xs) s =
        rw
          (
            read_tagged (item_name key) (item_key key) (float x) refl s.0,
            read_written_items key xs s.1,
          )
          refl
    read_written_items key (cons (str t) xs) s =
        rw
          (
            read_tagged (item_name key) (item_key key) (str t) refl s.0,
            read_written_items key xs s.1,
          )
          refl
    read_written_items key (cons (obj d) xs) s =
        rw
          (
            read_tagged (item_name key) (item_key key) (obj d) refl s.0,
            read_written_items key xs s.1,
          )
          refl
    read_written_items key (cons (arr ys) xs) s = absurd s

  pub read_members-write_members :
      (d : Dict) → MembersSurvive is_fraction d → read_members n empty (write_members n d) ≡ ok d
  read_members-write_members d m = read_written empty d (Apart-empty d) m

  -- An element that is written for a value under a key reads back as the value, for every value that
  -- survives under the key.
  pub read_value-write_value :
      (key : String) (v : Json)
      → camel (pascal key) ≡ key
      → Survives is_fraction key v
      → read_value n (write_value n key v) ≡ ok v
  read_value-write_value key v c s =
      ap (read_value n) (write_value-tagged n key v) ∙ read_tagged (pascal key) key v c s
