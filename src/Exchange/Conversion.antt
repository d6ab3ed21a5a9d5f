-- ===== src/Exchange/Conversion.antt =====
-- `from_xml` after `to_xml` of src/sort4circ_dpp/exchange.py: every member of a passport comes back.
use sort4circ.Prelude.{
  ◌≡◌, refl, subst, sym, ap, ◌∙◌, String, Bool, true, some, List, [], ◌∷◌, ◌++◌, ok, ◌==◌, lookup,
  elem, eq_iff, arith, Bool-cases, inl, inr,
}
use mathlib.Core.List.{append-nil}
use sort4circ.Json.{Dict, Float, str, obj, empty, entry, get?}
use sort4circ.Json.Shape.{text_at}
use sort4circ.Exchange.{Numerals}
use sort4circ.Exchange.Survival.{Faithful, MembersSurvive}
use sort4circ.Exchange.Documents.{
  Document, root_scalars, scalar_nodes, write_document, read_elements, read_document,
}
use sort4circ.Exchange.Copying.{copy_all, copy_all-kept, copy_all-copied}
use sort4circ.Exchange.Parts.{
  second_names, ScalarsSurvive, ArraySurvives, read_scalars, read_object, read_array,
}

-- The names of the parts that follow the scalars, in the order of the document.
abbrev part_names : List String
part_names =
    "identity" ∷ "carriers" ∷ "product" ∷ "materialObservations" ∷ "components" ∷ "lifecycleEvents"
    ∷ "sortingDecisions" ∷ "environmentalValues" ∷ "integrity" ∷ []

abbrev exchanged_names : List String
exchanged_names = second_names root_scalars ++ part_names

-- The members of the profile.
abbrev pub profile_names : List String
profile_names = "dppId" ∷ "schemaVersion" ∷ exchanged_names

-- A passport of the profile: the two attributes are texts, the scalars of their types, the identity and the
-- product dicts, the arrays absent or not empty, and what is in them survives.
pub record Exchangeable (n : Numerals) (is_fraction : Float → Bool) (source : Dict) : Type 0 where
  pub id : String
  pub schema : String
  pub id_of : get? "dppId" source ≡ some (str id)
  pub schema_of : get? "schemaVersion" source ≡ some (str schema)
  pub scalars : ScalarsSurvive root_scalars source
  pub identity : Dict
  pub identity_of : get? "identity" source ≡ some (obj identity)
  pub identity_survives : MembersSurvive is_fraction identity
  pub product : Dict
  pub product_of : get? "product" source ≡ some (obj product)
  pub product_survives : MembersSurvive is_fraction product
  pub carriers : ArraySurvives n is_fraction (get? "carriers" source)
  pub observations : ArraySurvives n is_fraction (get? "materialObservations" source)
  pub components : ArraySurvives n is_fraction (get? "components" source)
  pub events : ArraySurvives n is_fraction (get? "lifecycleEvents" source)
  pub decisions : ArraySurvives n is_fraction (get? "sortingDecisions" source)
  pub environmental_values : ArraySurvives n is_fraction (get? "environmentalValues" source)
  pub integrity : ArraySurvives n is_fraction (get? "integrity" source)

abbrev base : String → String → Dict
base id schema = entry "dppId" (str id) (entry "schemaVersion" (str schema) empty)

get?-base :
    (k id schema : String) (source : Dict)
    → get? "dppId" source ≡ some (str id)
    → get? "schemaVersion" source ≡ some (str schema)
    → elem k profile_names ≡ true
    → get? k (copy_all exchanged_names source (base id schema)) ≡ get? k source
unfolding get?
get?-base k id schema source p q m = elim (Bool-cases (k == "dppId")) [
  | inl a ↦ copy_all-kept k exchanged_names source (base id schema) (
      subst (λ (j : String). get? j (base id schema) ≡ get? j source) (sym ((eq_iff k "dppId").0 a))
        (sym p))
  | inr a ↦ elim (Bool-cases (k == "schemaVersion")) [
    | inl b ↦ copy_all-kept k exchanged_names source (base id schema) (
        subst (λ (j : String). get? j (base id schema) ≡ get? j source)
          (sym ((eq_iff k "schemaVersion").0 b)) (sym q))
    | inr b ↦
        copy_all-copied k exchanged_names source (base id schema)
          (ground (
            arith,
            a,
            b,
            eq_iff k "dppId",
            eq_iff k "schemaVersion",
            eq_iff "dppId" k,
            eq_iff "schemaVersion" k,
          ))
          (rw (a, b) at m)
  ]
]

module _ (n : Numerals) (is_fraction : Float → Bool) (faithful : Faithful n is_fraction)
    (source : Dict) (e : Exchangeable n is_fraction source) where
  -- What is written, and what it reads back as.
  document_read :
      (document : Document) × (write_document n source ≡ ok document)
      × (read_document n document ≡ ok (copy_all exchanged_names source (base e.id e.schema)))
  unfolding write_document read_document text_at lookup read_elements
  document_read =
      let (identity, w₁, r₁) =
        read_object n is_fraction faithful "Identity" "identity" source e.identity refl refl
          e.identity_of e.identity_survives in
      let (product, w₂, r₂) =
        read_object n is_fraction faithful "Product" "product" source e.product refl refl
          e.product_of e.product_survives in
      let (carriers, w₃, r₃) =
        read_array n is_fraction faithful "Carriers" "Carrier" "carriers" source refl refl refl
          e.carriers in
      let (observations, w₄, r₄) =
        read_array n is_fraction faithful "MaterialObservations" "MaterialObservation"
          "materialObservations" source refl refl refl e.observations in
      let (components, w₅, r₅) =
        read_array n is_fraction faithful "Components" "Component" "components" source refl refl
          refl e.components in
      let (events, w₆, r₆) =
        read_array n is_fraction faithful "LifecycleEvents" "LifecycleEvent" "lifecycleEvents"
          source refl refl refl e.events in
      let (decisions, w₇, r₇) =
        read_array n is_fraction faithful "SortingDecisions" "SortingDecision" "sortingDecisions"
          source refl refl refl e.decisions in
      let (values, w₈, r₈) =
        read_array n is_fraction faithful "EnvironmentalValues" "EnvironmentalValue"
          "environmentalValues" source refl refl refl e.environmental_values in
      let (integrity, w₉, r₉) =
        read_array n is_fraction faithful "Integrity" "IntegrityEntry" "integrity" source refl refl
          refl e.integrity in
      (
        record {
          schema_version = e.schema;
          dpp_id = e.id;
          children =
              scalar_nodes n root_scalars source
              ++ (identity
                  ++ (carriers
                      ++ (product
                          ++ (observations
                              ++ (components
                                  ++ (events ++ (decisions ++ (values ++ integrity))))))));
        },
        rw (e.schema_of, e.id_of, w₁, w₃, w₂, w₄, w₅, w₆, w₇, w₈, w₉) refl,
        read_scalars n is_fraction faithful root_scalars source (base e.id e.schema) _
              (refl, (refl, (refl, (refl, (refl, (refl, (refl, (refl, tt)))))))) e.scalars
            ∙ r₁ _ _
            ∙ r₃ _ _
            ∙ r₂ _ _
            ∙ r₄ _ _
            ∙ r₅ _ _
            ∙ r₆ _ _
            ∙ r₇ _ _
            ∙ r₈ _ _
            ∙ ap (read_elements n _) (sym (append-nil integrity))
            ∙ r₉ _ [],
      )

-- A passport of the profile whose members survive is written to a document and read back: `to_xml` finds
-- every part of it, and `from_xml` gives a record with the same value under every member of the profile, or
-- with no value where there was none.
pub read_document-write_document :
    (n : Numerals) (is_fraction : Float → Bool) (source : Dict)
    → Faithful n is_fraction
    → Exchangeable n is_fraction source
    → (document : Document) × (back : Dict) × (write_document n source ≡ ok document)
      × (read_document n document ≡ ok back)
      × ((k : String) → elem k profile_names ≡ true → get? k back ≡ get? k source)
read_document-write_document n is_fraction source faithful e =
    let (document, written, read) = document_read n is_fraction faithful source e in
    (
      document,
      copy_all exchanged_names source (base e.id e.schema),
      written,
      read,
      λ k m. get?-base k e.id e.schema source e.id_of e.schema_of m,
    )
