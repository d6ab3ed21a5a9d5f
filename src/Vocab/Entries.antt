-- ===== src/Vocab/Entries.antt =====
-- The checks of src/sort4circ_dpp/vocab.py on the entries of a collection.
use sort4circ.Prelude.{ℕ, ◌≡◌, String, [], ◌∷◌, ok, on_ok, subst, Text}
use sort4circ.Json.{Json, Dict, obj, arr, str, null, bool, int, float, get?}
use sort4circ.Json.Shape.{dict_or_empty, as_dict}
use sort4circ.Env.{Env}
use sort4circ.Vocab.{
  check_value, check_confidence, check_observation, check_member, check_carrier, indexed,
}
use sort4circ.Vocab.Fields.{FieldPath, member, values_at}
use sort4circ.Vocab.Coded.{Coded, check_value-Coded, below-Coded}

as_dict-eq-ok : (v : Json) (d : Dict) → as_dict v ≡ ok d → obj d ≡ v
unfolding as_dict
as_dict-eq-ok (obj e) d h = cc
as_dict-eq-ok null d h = absurd (cc)
as_dict-eq-ok (bool b) d h = absurd (cc)
as_dict-eq-ok (int i) d h = absurd (cc)
as_dict-eq-ok (float x) d h = absurd (cc)
as_dict-eq-ok (str s) d h = absurd (cc)
as_dict-eq-ok (arr xs) d h = absurd (cc)

module _ (env : Env) where
  -- A coded field of an entry that is a dict.
  abbrev pub CodedIn : String → FieldPath → Json → Type 0
  CodedIn vocabulary path v = Coded env vocabulary (values_at path v)

  entry-Coded :
      (vocabulary key : String) (item : Json) (d : Dict) (path : Text)
      → as_dict item ≡ ok d
      → check_value env vocabulary (get? key d) path ≡ ok tt
      → CodedIn vocabulary (member key ∷ []) item
  unfolding values_at
  entry-Coded vocabulary key item d path h k =
      subst (CodedIn vocabulary (member key ∷ [])) (as_dict-eq-ok item d h)
        (check_value-Coded env vocabulary (get? key d) path k)

  pub member-Coded :
      (collection key vocabulary : String) (i : ℕ) (item : Json)
      → check_member env collection key vocabulary i item ≡ ok tt
      → CodedIn vocabulary (member key ∷ []) item
  unfolding check_member
  member-Coded collection key vocabulary i item h =
      on_ok (as_dict item) _ h λ d p h₁. entry-Coded vocabulary key item d _ p h₁

  pub carrier-Coded :
      (i : ℕ) (item : Json)
      → check_carrier env i item ≡ ok tt
      → CodedIn "carrier-type" (member "carrierType" ∷ []) item
        × CodedIn "encoding-scheme" (member "encodingScheme" ∷ []) item
        × CodedIn "binding-status" (member "bindingStatus" ∷ []) item
  unfolding check_carrier
  carrier-Coded i item h = on_ok (as_dict item) _ h λ d p h₁.
      on_ok (check_value env "carrier-type" (get? "carrierType" d) _) _ h₁ λ u p₁ h₂.
        on_ok (check_value env "encoding-scheme" (get? "encodingScheme" d) _) _ h₂ λ u p₂ h₃. (
          entry-Coded "carrier-type" "carrierType" item d _ p p₁,
          entry-Coded "encoding-scheme" "encodingScheme" item d _ p p₂,
          entry-Coded "binding-status" "bindingStatus" item d _ p h₃,
        )

  confidence-Coded :
      (base : Text) (item : Json) (d : Dict)
      → as_dict item ≡ ok d
      → check_confidence env base (get? "confidence" d) ≡ ok tt
      → CodedIn "confidence-scale" (member "confidence" ∷ member "scale" ∷ []) item
  unfolding check_confidence values_at
  confidence-Coded base item d p h = on_ok (dict_or_empty (get? "confidence" d)) _ h λ e q h₁.
      subst (CodedIn "confidence-scale" (member "confidence" ∷ member "scale" ∷ []))
        (as_dict-eq-ok item d p)
        (below-Coded env "confidence-scale" (member "scale") [] (get? "confidence" d) e q
          (check_value-Coded env "confidence-scale" (get? "scale" e) _ h₁))

  pub observation-Coded :
      (i : ℕ) (item : Json)
      → check_observation env i item ≡ ok tt
      → CodedIn "fibre-type" (member "fibreType" ∷ []) item
        × CodedIn "method" (member "method" ∷ []) item
        × CodedIn "value-status" (member "valueStatus" ∷ []) item
        × CodedIn "percentage-basis" (member "percentageBasis" ∷ []) item
        × CodedIn "confidence-scale" (member "confidence" ∷ member "scale" ∷ []) item
  unfolding check_observation
  observation-Coded i item h = on_ok (as_dict item) _ h λ d p h₁.
      on_ok (check_value env "fibre-type" (get? "fibreType" d) _) _ h₁ λ u p₁ h₂.
        on_ok (check_value env "method" (get? "method" d) _) _ h₂ λ u p₂ h₃.
          on_ok (check_value env "value-status" (get? "valueStatus" d) _) _ h₃ λ u p₃ h₄.
            on_ok (check_value env "percentage-basis" (get? "percentageBasis" d) _) _ h₄ λ u p₄ h₅.
              (
                entry-Coded "fibre-type" "fibreType" item d _ p p₁,
                entry-Coded "method" "method" item d _ p p₂,
                entry-Coded "value-status" "valueStatus" item d _ p p₃,
                entry-Coded "percentage-basis" "percentageBasis" item d _ p p₄,
                confidence-Coded (indexed "materialObservations" i) item d p h₅,
              )
