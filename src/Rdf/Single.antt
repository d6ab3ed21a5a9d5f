-- ===== src/Rdf/Single.antt =====
-- `to_rdf` of src/sort4circ_dpp/exchange.py and `rdf_to_json` of mapping.py.
use sort4circ.Prelude.{
  ◌≡◌, refl, ap, sym, ◌∙◌, ◌==◌, String, none, some, [], ◌∷◌, Result, ok, err, on_ok, ok_inj, subst,
  List,
}
use sort4circ.Reasons.{Error, value_error}
use sort4circ.Json.{Json, Dict}
use sort4circ.Json.Shape.{text_at}
use sort4circ.Env.{Env}
use sort4circ.Validation.{validate_payload}
use sort4circ.Rdf.{iri, Triple, triple, rdf_type, rdf_value, term_eq, Graphs, Lawful, add_all}
use sort4circ.Rdf.Mapping.{rdf_to_json}
use sort4circ.Rdf.Projection.{core_triples, to_rdf}
use sort4circ.Rdf.Plain.{passport_type, AllPlain, and_false, subjects-add_all, value-add_all}
use sort4circ.Rdf.Core.{core_first}

module _ {G : Type 0} (graphs : Graphs G) (lawful : Lawful graphs) (id : String) where
  -- The graph of a passport and of plain triples.
  built : List Triple → G
  built rest = add_all graphs graphs.empty_graph (triple (iri id) rdf_type passport_type ∷ rest)

  built-subjects :
      (rest : List Triple)
      → AllPlain rest
      → graphs.subjects (built rest) rdf_type passport_type ≡ iri id ∷ []
  unfolding built add_all
  built-subjects rest plain =
      subjects-add_all graphs lawful rest _ plain
      ∙ lawful.subjects_first (iri id) rdf_type passport_type

  built-value :
      (rest : List Triple) → AllPlain rest → graphs.value (built rest) (iri id) rdf_value ≡ none
  unfolding built add_all term_eq
  built-value rest plain =
      value-add_all graphs lawful (iri id) rest _ plain
      ∙ (lawful.value_other graphs.empty_graph _ (iri id) rdf_value (and_false (id == id))
          ∙ lawful.value_empty (iri id) rdf_value)

  refused :
      (env : Env) (loads : String → Result Error Json) (graph : G)
      → graphs.subjects graph rdf_type passport_type ≡ iri id ∷ []
      → graphs.value graph (iri id) rdf_value ≡ none
      → (rdf_to_json graphs env loads graph none ≡ err value_error)
        × (rdf_to_json graphs env loads graph (some id) ≡ err value_error)
  unfolding rdf_to_json
  refused env loads graph h k = (rw (h, k) refl, rw k refl)

-- The core graph of an accepted record names one passport, the one of the record, whatever its carriers, observations,
-- components, events, decisions and environmental values are; and it carries no snapshot, so `rdf_to_json` refuses it
-- with a ValueError, asked for the passport or not.
pub to_rdf-single :
    {G : Type 0}
    → (graphs : Graphs G) → Lawful graphs
    → (str_of decimal_of : Json → String) (env : Env) (loads : String → Result Error Json)
      (source : Dict) (id : String) (graph : G)
    → to_rdf str_of decimal_of graphs env source ≡ ok graph
    → text_at "dppId" source ≡ ok id
    → (graphs.subjects graph rdf_type passport_type ≡ iri id ∷ [])
      × (rdf_to_json graphs env loads graph none ≡ err value_error)
      × (rdf_to_json graphs env loads graph (some id) ≡ err value_error)
unfolding to_rdf built
to_rdf-single graphs lawful str_of decimal_of env loads source id graph h i =
    on_ok (validate_payload env source) _ h λ u p h₁.
      on_ok (core_triples str_of decimal_of source) _ h₁ λ ts q h₂.
        let (found, found_id, rest, e, plain) = core_first str_of decimal_of source ts q in
        let same : found ≡ id = ok_inj (sym found_id ∙ i) in
        let start : triple (iri id) rdf_type passport_type ∷ rest ≡ ts =
          subst (λ (j : String). triple (iri j) rdf_type passport_type ∷ rest ≡ ts) same e in
        let g : graph ≡ built graphs lawful id rest =
          sym (ok_inj h₂) ∙ ap (add_all graphs graphs.empty_graph) (sym start) in
        let only =
          ap (λ x. graphs.subjects x rdf_type passport_type) g
          ∙ built-subjects graphs lawful id rest plain in
        let nothing =
          ap (λ x. graphs.value x (iri id) rdf_value) g ∙ built-value graphs lawful id rest plain in
        let (r, s) = refused graphs lawful id env loads graph only nothing in (only, r, s)
