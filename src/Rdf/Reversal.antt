-- ===== src/Rdf/Reversal.antt =====
-- `rdf_to_json` after `json_to_rdf` of src/sort4circ_dpp/mapping.py.
use sort4circ.Prelude.{
  ◌≡◌, refl, ap, sym, ◌∙◌, String, none, some, [], ◌∷◌, Result, ok, on_ok, ok_inj, ◌==◌, subst,
}
use sort4circ.Reasons.{Error}
use sort4circ.Json.{Json, Dict, obj}
use sort4circ.Json.Shape.{text_at, as_dict}
use sort4circ.Env.{Env}
use sort4circ.Validation.{validate_payload}
use sort4circ.Rdf.{
  iri, literal, triple, rdf_type, rdf_value, rdf_json, term_eq, Graphs, Lawful, add_all,
}
use sort4circ.Rdf.Mapping.{semantic_triples, json_to_rdf, rdf_to_json}
use sort4circ.Rdf.Plain.{passport_type, and_false, subjects-add_all, value-add_all, semantic-Plain}

module _ {G : Type 0} (graphs : Graphs G) (lawful : Lawful graphs) where
  -- The graph before the semantic triples.
  opening : String → String → G
  opening dpp_id text =
      graphs.add (graphs.add graphs.empty_graph (triple (iri dpp_id) rdf_type passport_type))
        (triple (iri dpp_id) rdf_value (literal text (some rdf_json)))

  opening-subjects :
      (dpp_id text : String)
      → graphs.subjects (opening dpp_id text) rdf_type passport_type ≡ iri dpp_id ∷ []
  unfolding opening term_eq
  opening-subjects dpp_id text =
      lawful.subjects_other _ _ rdf_type passport_type refl
      ∙ lawful.subjects_first (iri dpp_id) rdf_type passport_type

  opening-value :
      (dpp_id text : String)
      → graphs.value (opening dpp_id text) (iri dpp_id) rdf_value
        ≡ some (literal text (some rdf_json))
  unfolding opening term_eq
  opening-value dpp_id text = lawful.value_first _ (iri dpp_id) rdf_value _ (
      lawful.value_other graphs.empty_graph _ (iri dpp_id) rdf_value (and_false (dpp_id == dpp_id))
      ∙ lawful.value_empty (iri dpp_id) rdf_value)

module _ {G : Type 0} (graphs : Graphs G) (env : Env) (loads : String → Result Error Json)
    (graph : G) (dpp_id text : String) (back : Dict) (loaded : loads text ≡ ok (obj back))
    (accepted : validate_payload env back ≡ ok tt)
    (held : graphs.value graph (iri dpp_id) rdf_value ≡ some (literal text (some rdf_json))) where
  recovered : rdf_to_json graphs env loads graph (some dpp_id) ≡ ok back
  unfolding rdf_to_json as_dict
  recovered = rw (held, loaded, accepted) refl

  recovered_only :
      graphs.subjects graph rdf_type passport_type ≡ iri dpp_id ∷ []
      → rdf_to_json graphs env loads graph none ≡ ok back
  unfolding rdf_to_json as_dict
  recovered_only only = rw (only, held, loaded, accepted) refl

-- The graph of an accepted passport gives its snapshot back, asked for by its identifier or as the only passport
-- of the graph: whatever the observations, the identifiers and the other members are, the semantic triples
-- add no second passport and no second snapshot. What `json.loads` makes of the snapshot is returned once the
-- payload rules accept it.
pub rdf_to_json-json_to_rdf :
    {G : Type 0}
    → (graphs : Graphs G) → Lawful graphs
    → (str_of : Json → String) (env : Env) (dumps : Dict → String)
      (loads : String → Result Error Json) (payload back : Dict) (dpp_id : String) (graph : G)
    → json_to_rdf str_of graphs env dumps payload ≡ ok graph
    → text_at "dppId" payload ≡ ok dpp_id
    → loads (dumps payload) ≡ ok (obj back)
    → validate_payload env back ≡ ok tt
    → (rdf_to_json graphs env loads graph none ≡ ok back)
      × (rdf_to_json graphs env loads graph (some dpp_id) ≡ ok back)
unfolding json_to_rdf add_all opening
rdf_to_json-json_to_rdf graphs lawful str_of env dumps loads payload back dpp_id graph h i l v =
    on_ok (validate_payload env payload) _ h λ u p h₁.
      on_ok (text_at "dppId" payload) _ h₁ λ id q h₂.
        on_ok (semantic_triples str_of id payload) _ h₂ λ ts r h₃.
          let plain = semantic-Plain str_of id payload ts r in
          let start = opening graphs lawful id (dumps payload) in
          let e : graph ≡ add_all graphs start ts = sym (ok_inj h₃) in
          let only =
            ap (λ g. graphs.subjects g rdf_type passport_type) e
            ∙ subjects-add_all graphs lawful ts start plain
            ∙ opening-subjects graphs lawful id (dumps payload) in
          let held =
            ap (λ g. graphs.value g (iri id) rdf_value) e
            ∙ value-add_all graphs lawful (iri id) ts start plain
            ∙ opening-value graphs lawful id (dumps payload) in
          (
            recovered_only graphs env loads graph id (dumps payload) back l v held only,
            subst (λ (j : String). rdf_to_json graphs env loads graph (some j) ≡ ok back)
                (ok_inj (sym q ∙ i))
                (recovered graphs env loads graph id (dumps payload) back l v held),
          )
