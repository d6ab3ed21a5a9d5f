-- ===== src/Rdf/Plain.antt =====
-- The triples that `json_to_rdf` of src/sort4circ_dpp/mapping.py adds after the snapshot: none is a passport
-- and none is a snapshot.
use sort4circ.Prelude.{
  ◌≡◌, refl, ap, ◌∙◌, String, Bool, true, false, ◌&&◌, Option, none, some, List, [], ◌∷◌, ◌++◌, ok,
  on_ok, ok_inj, subst,
}
use sort4circ.Json.{Json, Items, Dict, str, null, arr, obj, nil, cons, get?, bool, int, float}
use sort4circ.Json.Shape.{text_at, json_at, as_dict}
use sort4circ.Rdf.{
  Term, iri, Triple, s4c, rdf_type, rdf_value, term_eq, Graphs, Lawful, add_all, xsd_decimal,
  xsd_string, xsd_integer, xsd_date_time,
}
use sort4circ.Rdf.Mapping.{
  entity_of, literal_at, superseding, mass_triples, system_triples, percentage_triples,
  confidence_triples, observation_triples, observations_triples, semantic_triples, dict_if,
  items_of, identity_id,
}

abbrev pub passport_type : Term
passport_type = s4c "DigitalProductPassport"

-- A triple that is no passport's type and no snapshot.
abbrev pub Plain : Triple → Type 0
Plain t =
    ((term_eq t.predicate rdf_type && term_eq t.object passport_type) ≡ false)
    × (term_eq t.predicate rdf_value ≡ false)

abbrev pub AllPlain : List Triple → Type 0
AllPlain [] = Unit
AllPlain (t ∷ ts) = Plain t × AllPlain ts

pub AllPlain-append : (a b : List Triple) → AllPlain a → AllPlain b → AllPlain (a ++ b)
AllPlain-append [] b h k = k
AllPlain-append (t ∷ a) b h k = (h.0, AllPlain-append a b h.1 k)

pub and_false : (b : Bool) → (b && false) ≡ false
and_false true = refl
and_false false = refl

module _ {G : Type 0} (graphs : Graphs G) (lawful : Lawful graphs) where
  -- Adding plain triples changes neither the passports of a graph nor the snapshots.
  pub subjects-add_all :
      (ts : List Triple) (graph : G)
      → AllPlain ts
      → graphs.subjects (add_all graphs graph ts) rdf_type passport_type
        ≡ graphs.subjects graph rdf_type passport_type
  unfolding add_all
  subjects-add_all [] graph h = refl
  subjects-add_all (t ∷ ts) graph (p, h) =
      subjects-add_all ts (graphs.add graph t) h
      ∙ lawful.subjects_other graph t rdf_type passport_type p.0

  pub value-add_all :
      (subject : Term) (ts : List Triple) (graph : G)
      → AllPlain ts
      → graphs.value (add_all graphs graph ts) subject rdf_value
        ≡ graphs.value graph subject rdf_value
  unfolding add_all
  value-add_all subject [] graph h = refl
  value-add_all subject (t ∷ ts) graph (p, h) =
      value-add_all subject ts (graphs.add graph t) h
      ∙ lawful.value_other graph t subject rdf_value
          (ap (λ b. term_eq t.subject subject && b) p.1 ∙ and_false (term_eq t.subject subject))

module _ (str_of : Json → String) where
  superseding-Plain :
      (subject : Term) (o : Option Json) (ts : List Triple)
      → superseding str_of subject o ≡ ok ts
      → AllPlain ts
  unfolding term_eq
  superseding-Plain subject none ts h = subst AllPlain (ok_inj h) tt
  superseding-Plain subject (some (str t)) ts h = subst AllPlain (ok_inj h) ((refl, refl), tt)
  superseding-Plain subject (some null) ts h = absurd (cc)
  superseding-Plain subject (some (bool b)) ts h = absurd (cc)
  superseding-Plain subject (some (int b)) ts h = absurd (cc)
  superseding-Plain subject (some (float b)) ts h = absurd (cc)
  superseding-Plain subject (some (arr b)) ts h = absurd (cc)
  superseding-Plain subject (some (obj b)) ts h = absurd (cc)

  system-Plain :
      (subject : Term) (o : Option Json) (ts : List Triple)
      → system_triples str_of subject o ≡ ok ts
      → AllPlain ts
  unfolding term_eq
  system-Plain subject none ts h = subst AllPlain (ok_inj h) tt
  system-Plain subject (some (str t)) ts h = subst AllPlain (ok_inj h) ((refl, refl), tt)
  system-Plain subject (some null) ts h = absurd (cc)
  system-Plain subject (some (bool b)) ts h = absurd (cc)
  system-Plain subject (some (int b)) ts h = absurd (cc)
  system-Plain subject (some (float b)) ts h = absurd (cc)
  system-Plain subject (some (arr b)) ts h = absurd (cc)
  system-Plain subject (some (obj b)) ts h = absurd (cc)

  mass-Plain :
      (entity : Term) (o : Option Dict) (ts : List Triple)
      → mass_triples str_of entity o ≡ ok ts
      → AllPlain ts
  unfolding term_eq
  mass-Plain entity none ts h = subst AllPlain (ok_inj h) tt
  mass-Plain entity (some mass) ts h =
      on_ok (literal_at str_of "value" xsd_decimal mass) _ h λ a p h₁.
        on_ok (literal_at str_of "unit" xsd_string mass) _ h₁
          λ b q h₂. subst AllPlain (ok_inj h₂) ((refl, refl), ((refl, refl), tt))

  percentage-Plain :
      (node : Term) (observation : Dict) (o : Option Json) (ts : List Triple)
      → percentage_triples str_of node observation o ≡ ok ts
      → AllPlain ts
  unfolding term_eq
  percentage-Plain node observation none ts h = subst AllPlain (ok_inj h) tt
  percentage-Plain node observation (some v) ts h =
      on_ok (literal_at str_of "percentageBasis" xsd_string observation) _ h
        λ a p h₁. subst AllPlain (ok_inj h₁) ((refl, refl), ((refl, refl), tt))

  confidence-Plain :
      (node : Term) (o : Option Dict) (ts : List Triple)
      → confidence_triples str_of node o ≡ ok ts
      → AllPlain ts
  unfolding term_eq
  confidence-Plain node none ts h = subst AllPlain (ok_inj h) tt
  confidence-Plain node (some confidence) ts h =
      on_ok (literal_at str_of "value" xsd_decimal confidence) _ h λ a p h₁.
        on_ok (literal_at str_of "scale" xsd_string confidence) _ h₁
          λ b q h₂. subst AllPlain (ok_inj h₂) ((refl, refl), ((refl, refl), tt))

  observation-Plain :
      (entity : Term) (observation : Dict) (ts : List Triple)
      → observation_triples str_of entity observation ≡ ok ts
      → AllPlain ts
  unfolding observation_triples term_eq
  observation-Plain entity observation ts h =
      on_ok (text_at "observationId" observation) _ h λ id p₁ h₁.
        on_ok (text_at "fibreType" observation) _ h₁ λ fibre p₂ h₂.
          on_ok (literal_at str_of "valueStatus" xsd_string observation) _ h₂ λ status p₃ h₃.
            on_ok (text_at "method" observation) _ h₃ λ method p₄ h₄.
              on_ok (text_at "sourceOrganisationId" observation) _ h₄ λ organisation p₅ h₅.
                on_ok (literal_at str_of "observedAt" xsd_date_time observation) _ h₅ λ time p₆ h₆.
                  on_ok (system_triples str_of (iri id) (get? "sourceSystemId" observation)) _ h₆
                    λ system p₇ h₇.
                      on_ok
                        (percentage_triples str_of (iri id) observation
                          (get? "percentage" observation))
                        _ h₇
                        λ percentage p₈ h₈.
                          on_ok (dict_if (get? "confidence" observation)) _ h₈ λ confidence p₉ h₉.
                            on_ok (confidence_triples str_of (iri id) confidence) _ h₉
                              λ confident p₀ h₀. subst AllPlain (ok_inj h₀) (
                                (refl, refl),
                                (
                                  (refl, refl),
                                  (
                                    (refl, refl),
                                    (
                                      (refl, refl),
                                      (
                                        (refl, refl),
                                        (
                                          (refl, refl),
                                          (
                                            (refl, refl),
                                            AllPlain-append system (percentage ++ confident)
                                                (system-Plain (iri id)
                                                  (get? "sourceSystemId" observation) system p₇)
                                                (AllPlain-append percentage confident
                                                  (percentage-Plain (iri id) observation
                                                    (get? "percentage" observation) percentage p₈)
                                                  (confidence-Plain (iri id) confidence confident
                                                    p₀)),
                                          ),
                                        ),
                                      ),
                                    ),
                                  ),
                                ),
                              )

  observations-Plain :
      (entity : Term) (xs : Items) (ts : List Triple)
      → observations_triples str_of entity xs ≡ ok ts
      → AllPlain ts
  unfolding observations_triples
  observations-Plain entity nil ts h = subst AllPlain (ok_inj h) tt
  observations-Plain entity (cons x xs) ts h = on_ok (as_dict x) _ h λ observation p h₁.
      on_ok (observation_triples str_of entity observation) _ h₁ λ first q h₂.
        on_ok (observations_triples str_of entity xs) _ h₂ λ rest r h₃. subst AllPlain (ok_inj h₃) (
          AllPlain-append first rest (observation-Plain entity observation first q)
            (observations-Plain entity xs rest r))

  pub semantic-Plain :
      (dpp_id : String) (payload : Dict) (ts : List Triple)
      → semantic_triples str_of dpp_id payload ≡ ok ts
      → AllPlain ts
  unfolding semantic_triples term_eq
  semantic-Plain dpp_id payload ts h =
      on_ok (literal_at str_of "schemaVersion" xsd_string payload) _ h λ schema p₁ h₁.
        on_ok (literal_at str_of "recordVersion" xsd_integer payload) _ h₁ λ version p₂ h₂.
          on_ok (superseding str_of (iri dpp_id) (get? "supersededBy" payload)) _ h₂
            λ superseded p₃ h₃. on_ok (json_at "identity" payload) _ h₃ λ identity p₄ h₄.
              on_ok (as_dict identity) _ h₄ λ identity_dict p₅ h₅.
                on_ok (identity_id identity_dict) _ h₅ λ found p₆ h₆.
                  on_ok (json_at "product" payload) _ h₆ λ product p₇ h₇.
                    on_ok (as_dict product) _ h₇ λ product_dict p₈ h₈.
                      on_ok (text_at "articleClass" product_dict) _ h₈ λ article p₉ h₉.
                        on_ok (dict_if (get? "mass" product_dict)) _ h₉ λ mass q₁ k₁.
                          on_ok (mass_triples str_of (entity_of dpp_id found) mass) _ k₁
                            λ weighed q₂ k₂.
                              on_ok (json_at "materialObservations" payload) _ k₂
                                λ observations q₃ k₃.
                                  on_ok (items_of observations) _ k₃ λ listed q₄ k₄.
                                    on_ok
                                      (observations_triples str_of (entity_of dpp_id found) listed)
                                      _ k₄
                                      λ observed q₅ k₅. subst AllPlain (ok_inj k₅) (
                                        (refl, refl),
                                        (
                                          (refl, refl),
                                          AllPlain-append superseded _
                                              (superseding-Plain (iri dpp_id)
                                                (get? "supersededBy" payload) superseded p₃)
                                              (
                                                (refl, refl),
                                                (
                                                  (refl, refl),
                                                  (
                                                    (refl, refl),
                                                    AllPlain-append weighed observed
                                                        (mass-Plain (entity_of dpp_id found) mass
                                                          weighed q₂)
                                                        (observations-Plain (entity_of dpp_id found)
                                                          listed observed q₅),
                                                  ),
                                                ),
                                              ),
                                        ),
                                      )
