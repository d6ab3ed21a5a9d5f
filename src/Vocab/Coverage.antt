-- ===== src/Vocab/Coverage.antt =====
-- validate_record of src/sort4circ_dpp/vocab.py against the table of the same file.
use sort4circ.Prelude.{
  ℕ, ◌≡◌, refl, and_both, String, true, List, [], ◌∷◌, ◌++◌, Result, ok, on_ok, ◌>>=◌, ◌>>◌, subst,
  sym,
}
use sort4circ.Reasons.{Error}
use sort4circ.Json.{Json, Items, Dict, obj, get?}
use sort4circ.Json.Shape.{dict_or_empty, items_or_empty}
use sort4circ.Env.{Env}
use sort4circ.Vocab.{
  check_value, each, check_product, check_observation, check_member, check_carrier, validate_record,
}
use sort4circ.Vocab.Fields.{
  FieldPath, FieldStep, member, entries, field_vocabularies, gather, values_at, is_covered_by,
}
use sort4circ.Vocab.Coded.{
  Coded, check_value-Coded, each-Coded, below-Coded, product-Coded, entries_of-items_or_empty,
}
use sort4circ.Vocab.Entries.{CodedIn, member-Coded, carrier-Coded, observation-Coded}

abbrev product_fields : List (FieldPath × String)
product_fields =
    (member "product" ∷ member "articleClass" ∷ [], "article-class")
    ∷ (member "product" ∷ member "fabricConstruction" ∷ [], "fabric-construction")
    ∷ (member "product" ∷ member "colourPrimary" ∷ [], "colour-family")
    ∷ (member "product" ∷ member "condition" ∷ [], "condition")
    ∷ (member "product" ∷ entries "technicalFlags" ∷ [], "technical-flag")
    ∷ []

abbrev observation_fields : List (FieldPath × String)
observation_fields =
    (entries "materialObservations" ∷ member "fibreType" ∷ [], "fibre-type")
    ∷ (entries "materialObservations" ∷ member "method" ∷ [], "method")
    ∷ (entries "materialObservations" ∷ member "valueStatus" ∷ [], "value-status")
    ∷ (entries "materialObservations" ∷ member "percentageBasis" ∷ [], "percentage-basis")
    ∷ (
      entries "materialObservations" ∷ member "confidence" ∷ member "scale" ∷ [],
      "confidence-scale",
    )
    ∷ []

abbrev carrier_fields : List (FieldPath × String)
carrier_fields =
    (entries "carriers" ∷ member "carrierType" ∷ [], "carrier-type")
    ∷ (entries "carriers" ∷ member "encodingScheme" ∷ [], "encoding-scheme")
    ∷ (entries "carriers" ∷ member "bindingStatus" ∷ [], "binding-status")
    ∷ []

abbrev last_fields : List (FieldPath × String)
last_fields = (entries "integrity" ∷ member "evidenceState" ∷ [], "evidence-state") ∷ []

abbrev middle_fields : List (FieldPath × String)
middle_fields =
    (entries "components" ∷ member "componentType" ∷ [], "component-type")
    ∷ (entries "lifecycleEvents" ∷ member "eventType" ∷ [], "event-type")
    ∷ (entries "sortingDecisions" ∷ member "sortingCategory" ∷ [], "sorting-category")
    ∷ (carrier_fields ++ last_fields)

module _ (env : Env) where
  abbrev Covered : Dict → List (FieldPath × String) → Type 0
  Covered source fields = is_covered_by env source fields ≡ true

  -- An accepted loop over a collection of the record.
  abbrev Looped : Dict → String → (ℕ → Json → Result Error (Unit {0})) → Type 0
  Looped source collection body =
      (xs : Items) × (items_or_empty (get? collection source) ≡ ok xs) × (each body 0 xs ≡ ok tt)

  loop_first :
      (source : Dict) (collection : String) (body : ℕ → Json → Result Error (Unit {0}))
      (rest : Result Error (Unit {0}))
      → (items_or_empty (get? collection source) >>= λ xs. each body 0 xs >> rest) ≡ ok tt
      → Looped source collection body × (rest ≡ ok tt)
  loop_first source collection body rest h =
      on_ok (items_or_empty (get? collection source)) _ h
        λ xs p h₁. on_ok (each body 0 xs) _ h₁ λ u q h₂. ((xs, p, q), h₂)

  collection-Coded :
      (source : Dict) (collection vocabulary : String) (path : FieldPath)
      (body : ℕ → Json → Result Error (Unit {0}))
      → Looped source collection body
      → ((i : ℕ) (x : Json) → body i x ≡ ok tt → CodedIn env vocabulary path x)
      → CodedIn env vocabulary (entries collection ∷ path) (obj source)
  unfolding values_at
  collection-Coded source collection vocabulary path body (xs, p, q) step =
      subst (λ ys. Coded env vocabulary (gather (values_at path) ys))
        (sym (entries_of-items_or_empty (get? collection source) xs p))
        (each-Coded env vocabulary (values_at path) body step 0 xs q)

  -- The fields of a collection with one coded member.
  member_loop-Coded :
      (source : Dict) (collection key vocabulary : String)
      → Looped source collection (check_member env collection key vocabulary)
      → CodedIn env vocabulary (entries collection ∷ member key ∷ []) (obj source)
  member_loop-Coded source collection key vocabulary looped =
      collection-Coded source collection vocabulary (member key ∷ []) _ looped
        (member-Coded env collection key vocabulary)

  product_field-Coded :
      (source product : Dict)
      → dict_or_empty (get? "product" source) ≡ ok product
      → (vocabulary : String) (first : FieldStep)
      → CodedIn env vocabulary (first ∷ []) (obj product)
      → CodedIn env vocabulary (member "product" ∷ first ∷ []) (obj source)
  unfolding values_at
  product_field-Coded source product h vocabulary first k =
      below-Coded env vocabulary first [] (get? "product" source) product h k

  product-Covered :
      (source product : Dict) (rest : List (FieldPath × String))
      → dict_or_empty (get? "product" source) ≡ ok product
      → check_product env product ≡ ok tt
      → Covered source rest
      → Covered source (product_fields ++ rest)
  unfolding is_covered_by
  product-Covered source product rest p q h =
      let fields = product-Coded env product q in
      let field = product_field-Coded source product p in
      and_both _ _ (field "article-class" (member "articleClass") fields.0) (
        and_both _ _ (field "fabric-construction" (member "fabricConstruction") fields.1) (
          and_both _ _ (field "colour-family" (member "colourPrimary") fields.2) (
            and_both _ _ (field "condition" (member "condition") fields.3)
              (and_both _ _ (field "technical-flag" (entries "technicalFlags") fields.4) (h)))))

  observations-Covered :
      (source : Dict) (rest : List (FieldPath × String))
      → Looped source "materialObservations" (check_observation env)
      → Covered source rest
      → Covered source (observation_fields ++ rest)
  unfolding is_covered_by
  observations-Covered source rest looped h =
      and_both _ _
        (collection-Coded source _ "fibre-type" (member "fibreType" ∷ []) _ looped
          λ i x q. (observation-Coded env i x q).0)
        (and_both _ _
          (collection-Coded source _ "method" (member "method" ∷ []) _ looped
            λ i x q. (observation-Coded env i x q).1)
          (and_both _ _
            (collection-Coded source _ "value-status" (member "valueStatus" ∷ []) _ looped
              λ i x q. (observation-Coded env i x q).2)
            (and_both _ _
              (collection-Coded source _ "percentage-basis" (member "percentageBasis" ∷ []) _ looped
                λ i x q. (observation-Coded env i x q).3)
              (and_both _ _
                (collection-Coded source _ "confidence-scale"
                  (member "confidence" ∷ member "scale" ∷ []) _ looped
                  λ i x q. (observation-Coded env i x q).4)
                (h)))))

  carriers-Covered :
      (source : Dict) (rest : List (FieldPath × String))
      → Looped source "carriers" (check_carrier env)
      → Covered source rest
      → Covered source (carrier_fields ++ rest)
  unfolding is_covered_by
  carriers-Covered source rest looped h =
      and_both _ _
        (collection-Coded source _ "carrier-type" (member "carrierType" ∷ []) _ looped
          λ i x q. (carrier-Coded env i x q).0)
        (and_both _ _
          (collection-Coded source _ "encoding-scheme" (member "encodingScheme" ∷ []) _ looped
            λ i x q. (carrier-Coded env i x q).1)
          (and_both _ _
            (collection-Coded source _ "binding-status" (member "bindingStatus" ∷ []) _ looped
              λ i x q. (carrier-Coded env i x q).2)
            (h)))

-- An accepted record is covered by the table FIELD_VOCABULARIES: at every field of the table, at every entry of a
-- list on the way, the value is absent or a token of the vocabulary that the table names.
pub validate_record-field_vocabularies :
    (env : Env) (source : Dict)
    → validate_record env source ≡ ok tt
    → is_covered_by env source field_vocabularies ≡ true
unfolding validate_record is_covered_by values_at
validate_record-field_vocabularies env source h =
    on_ok (check_value env "passport-status" (get? "status" source) _) _ h λ u p₁ h₁.
      on_ok (dict_or_empty (get? "product" source)) _ h₁ λ product p₂ h₂.
        on_ok (check_product env product) _ h₂ λ u p₃ h₃.
          let (observed, h₄) =
            loop_first env source "materialObservations" (check_observation env) _ h₃ in
          let (composed, h₅) =
            loop_first env source "components"
              (check_member env "components" "componentType" "component-type") _ h₄ in
          let (happened, h₆) =
            loop_first env source "lifecycleEvents"
              (check_member env "lifecycleEvents" "eventType" "event-type") _ h₅ in
          let (decided, h₇) =
            loop_first env source "sortingDecisions"
              (check_member env "sortingDecisions" "sortingCategory" "sorting-category") _ h₆ in
          let (carried, h₈) = loop_first env source "carriers" (check_carrier env) _ h₇ in
          let anchored : Looped env source "integrity"
              (check_member env "integrity" "evidenceState" "evidence-state") =
            on_ok (items_or_empty (get? "integrity" source)) _ h₈ λ xs p q. (xs, p, q) in
          and_both _ _ (check_value-Coded env "passport-status" (get? "status" source) _ p₁) (
            product-Covered env source product (observation_fields ++ middle_fields) p₂ p₃ (
              observations-Covered env source middle_fields observed (
                and_both _ _
                  (member_loop-Coded env source "components" "componentType" "component-type"
                    composed)
                  (and_both _ _
                    (member_loop-Coded env source "lifecycleEvents" "eventType" "event-type"
                      happened)
                    (and_both _ _
                      (member_loop-Coded env source "sortingDecisions" "sortingCategory"
                        "sorting-category" decided)
                      (carriers-Covered env source last_fields carried (
                        and_both _ _
                          (member_loop-Coded env source "integrity" "evidenceState" "evidence-state"
                            anchored)
                          refl)))))))
