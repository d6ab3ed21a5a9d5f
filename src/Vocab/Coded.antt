-- ===== src/Vocab/Coded.antt =====
-- The checks of src/sort4circ_dpp/vocab.py one by one: a check that is accepted leaves only coded values.
use sort4circ.Prelude.{
  ℕ, ◌+◌, ◌≡◌, refl, and_parts, and_both, String, Bool, true, false, elem, if◌then◌else◌, Option,
  none, some, List, [], ◌∷◌, ◌++◌, Result, ok, err, on_ok, ok_inj, subst, Text, sym,
}
use sort4circ.Reasons.{Error}
use sort4circ.Json.{
  Json, Items, Dict, null, bool, int, float, str, arr, obj, nil, cons, get?, is_truthy,
}
use sort4circ.Json.Shape.{dict_or_empty, items_or_empty}
use sort4circ.Env.{Env}
use sort4circ.Vocab.{validate, check_value, each, check_product}
use sort4circ.Vocab.Fields.{
  FieldPath, FieldStep, member, entries, member_of, entries_of, on_some, gather, values_at,
  is_coded, all_coded,
}

-- What follows `d.get(k) or …` when the member is there and has another type.
of_falsy :
    {A : Type 0} {x y : A} (e : Error) (b : Bool) → (if b then err e else ok x) ≡ ok y → x ≡ y
of_falsy e true h = cc
of_falsy e false h = ok_inj h

of_test :
    (e : Error) (b : Bool)
    → Path (Result Error (Unit {0})) (if b then ok tt else err e) (ok tt)
    → b ≡ true
of_test e true h = refl
of_test e false h = cc

pub entries_of-items_or_empty :
    (o : Option Json) (xs : Items) → items_or_empty o ≡ ok xs → entries_of o ≡ xs
unfolding items_or_empty is_truthy
entries_of-items_or_empty none xs h = ok_inj h
entries_of-items_or_empty (some (arr ys)) xs h = ok_inj h
entries_of-items_or_empty (some null) xs h = ok_inj h
entries_of-items_or_empty (some (obj d)) xs h = of_falsy _ (is_truthy (obj d)) h
entries_of-items_or_empty (some (bool b)) xs h = of_falsy _ (is_truthy (bool b)) h
entries_of-items_or_empty (some (int i)) xs h = of_falsy _ (is_truthy (int i)) h
entries_of-items_or_empty (some (float x)) xs h = of_falsy _ (is_truthy (float x)) h
entries_of-items_or_empty (some (str s)) xs h = of_falsy _ (is_truthy (str s)) h

module _ (env : Env) where
  abbrev pub Coded : String → List Json → Type 0
  Coded vocabulary vs = all_coded env vocabulary vs ≡ true

  Coded-append :
      (vocabulary : String) (a b : List Json)
      → Coded vocabulary a
      → Coded vocabulary b
      → Coded vocabulary (a ++ b)
  unfolding all_coded
  Coded-append vocabulary [] b h k = k
  Coded-append vocabulary (v ∷ a) b h k =
      let (p, q) = and_parts (is_coded env vocabulary v) (all_coded env vocabulary a) h in
      and_both (is_coded env vocabulary v) (all_coded env vocabulary (a ++ b)) p
        (Coded-append vocabulary a b q k)

  validate-Coded :
      (vocabulary : String) (v : Json) (path : Text)
      → validate env vocabulary v path ≡ ok tt
      → Coded vocabulary (v ∷ [])
  unfolding validate all_coded
  validate-Coded vocabulary (str token) path h =
      rw (of_test _ (elem token (env.tokens vocabulary)) h) refl
  validate-Coded vocabulary null path h = refl
  validate-Coded vocabulary (bool b) path h = absurd (cc)
  validate-Coded vocabulary (int b) path h = absurd (cc)
  validate-Coded vocabulary (float b) path h = absurd (cc)
  validate-Coded vocabulary (arr b) path h = absurd (cc)
  validate-Coded vocabulary (obj b) path h = absurd (cc)

  pub check_value-Coded :
      (vocabulary : String) (o : Option Json) (path : Text)
      → check_value env vocabulary o path ≡ ok tt
      → Coded vocabulary (on_some (values_at []) o)
  unfolding check_value values_at all_coded
  check_value-Coded vocabulary none path h = refl
  check_value-Coded vocabulary (some null) path h = refl
  check_value-Coded vocabulary (some (str v)) path h = validate-Coded vocabulary (str v) path h
  check_value-Coded vocabulary (some (bool v)) path h = validate-Coded vocabulary (bool v) path h
  check_value-Coded vocabulary (some (int v)) path h = validate-Coded vocabulary (int v) path h
  check_value-Coded vocabulary (some (float v)) path h = validate-Coded vocabulary (float v) path h
  check_value-Coded vocabulary (some (arr v)) path h = validate-Coded vocabulary (arr v) path h
  check_value-Coded vocabulary (some (obj v)) path h = validate-Coded vocabulary (obj v) path h

  pub each-Coded :
      (vocabulary : String) (f : Json → List Json) (body : ℕ → Json → Result Error (Unit {0}))
      → ((i : ℕ) (x : Json) → body i x ≡ ok tt → Coded vocabulary (f x))
      → (i : ℕ) (xs : Items) → each body i xs ≡ ok tt
      → Coded vocabulary (gather f xs)
  unfolding each gather all_coded
  each-Coded vocabulary f body step i nil h = refl
  each-Coded vocabulary f body step i (cons x xs) h = on_ok (body i x) _ h λ u p h₁.
      Coded-append vocabulary (f x) (gather f xs) (step i x p)
        (each-Coded vocabulary f body step (i + 1) xs h₁)

  nothing-Coded :
      (vocabulary : String) (first : FieldStep) (path : FieldPath) (v : Json)
      → ((k : String) → member_of k v ≡ none)
      → Coded vocabulary (values_at (first ∷ path) v)
  unfolding values_at all_coded
  nothing-Coded vocabulary (member k) path v h = rw (h k) refl
  nothing-Coded vocabulary (entries k) path v h = rw (h k) refl

  -- A field below `d.get(k) or {}`.
  pub below-Coded :
      (vocabulary : String) (first : FieldStep) (path : FieldPath) (o : Option Json) (d : Dict)
      → dict_or_empty o ≡ ok d
      → Coded vocabulary (values_at (first ∷ path) (obj d))
      → Coded vocabulary (on_some (values_at (first ∷ path)) o)
  unfolding dict_or_empty is_truthy all_coded
  below-Coded vocabulary first path none d h k = refl
  below-Coded vocabulary first path (some (obj e)) d h k =
      subst (λ x. Coded vocabulary (values_at (first ∷ path) (obj x))) (sym (ok_inj h)) k
  below-Coded vocabulary first path (some (bool b)) d h k =
      nothing-Coded vocabulary first path (bool b) (λ n. refl)
  below-Coded vocabulary first path (some (int i)) d h k =
      nothing-Coded vocabulary first path (int i) (λ n. refl)
  below-Coded vocabulary first path (some (float x)) d h k =
      nothing-Coded vocabulary first path (float x) (λ n. refl)
  below-Coded vocabulary first path (some (str t)) d h k =
      nothing-Coded vocabulary first path (str t) (λ n. refl)
  below-Coded vocabulary first path (some (arr xs)) d h k =
      nothing-Coded vocabulary first path (arr xs) (λ n. refl)
  below-Coded vocabulary first path (some null) d h k =
      nothing-Coded vocabulary first path null (λ n. refl)

  pub product-Coded :
      (d : Dict)
      → check_product env d ≡ ok tt
      → Coded "article-class" (values_at (member "articleClass" ∷ []) (obj d))
        × Coded "fabric-construction" (values_at (member "fabricConstruction" ∷ []) (obj d))
        × Coded "colour-family" (values_at (member "colourPrimary" ∷ []) (obj d))
        × Coded "condition" (values_at (member "condition" ∷ []) (obj d))
        × Coded "technical-flag" (values_at (entries "technicalFlags" ∷ []) (obj d))
  unfolding check_product values_at
  product-Coded d h =
      on_ok (check_value env "article-class" (get? "articleClass" d) _) _ h λ u p₁ h₁.
        on_ok (check_value env "fabric-construction" (get? "fabricConstruction" d) _) _ h₁
          λ u p₂ h₂.
            on_ok (check_value env "colour-family" (get? "colourPrimary" d) _) _ h₂ λ u p₃ h₃.
              on_ok (check_value env "condition" (get? "condition" d) _) _ h₃ λ u p₄ h₄.
                on_ok (items_or_empty (get? "technicalFlags" d)) _ h₄ λ flags p₅ h₅. (
                  check_value-Coded "article-class" _ _ p₁,
                  check_value-Coded "fabric-construction" _ _ p₂,
                  check_value-Coded "colour-family" _ _ p₃,
                  check_value-Coded "condition" _ _ p₄,
                  subst (λ xs. Coded "technical-flag" (gather (values_at []) xs))
                      (sym (entries_of-items_or_empty (get? "technicalFlags" d) flags p₅))
                      (each-Coded "technical-flag" (values_at []) _
                        (λ i v q. validate-Coded "technical-flag" v _ q) 0 flags h₅),
                )
