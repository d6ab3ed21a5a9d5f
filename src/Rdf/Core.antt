-- ===== src/Rdf/Core.antt =====
-- The triples of `to_rdf` of src/sort4circ_dpp/exchange.py.
use sort4circ.Prelude.{
  ℕ, suc, ◌≡◌, ◌>>=◌, refl, ap, ◌∙◌, String, Option, none, some, List, ◌∷◌, ◌++◌, Result, ok, on_ok,
  ok_inj, subst,
}
use sort4circ.Reasons.{Error}
use sort4circ.Json.{Json, Items, Dict, null, bool, int, float, str, arr, obj, nil, cons, get?}
use sort4circ.Json.Shape.{text_at, json_at, as_dict}
use sort4circ.Store.Append.{collection_of}
use sort4circ.Rdf.{Term, iri, Triple, triple, rdf_type, term_eq, xsd_integer, xsd_date_time}
use sort4circ.Rdf.Mapping.{text_if, identity_id, items_of}
use sort4circ.Rdf.Projection.{
  found_text, each_dict, plain_literal, typed_literal, passport_triples, garment_triples,
  carrier_triples, share_triples, measured_triples, part_of, component_triples, event_triples,
  basis_triples, decision_triples, environmental_triples, core_triples,
}
use sort4circ.Rdf.Plain.{passport_type, AllPlain, AllPlain-append}

each_dict-AllPlain :
    (body : ℕ → Dict → Result Error (List Triple))
    → ((i : ℕ) (d : Dict) (ts : List Triple) → body i d ≡ ok ts → AllPlain ts)
    → (i : ℕ) (xs : Items) (ts : List Triple) → each_dict body i xs ≡ ok ts
    → AllPlain ts
unfolding each_dict
each_dict-AllPlain body plain i nil ts h = subst AllPlain (ok_inj h) tt
each_dict-AllPlain body plain i (cons x xs) ts h = on_ok (as_dict x) _ h λ d p h₁.
    on_ok (body i d) _ h₁ λ first q h₂. on_ok (each_dict body (suc i) xs) _ h₂ λ rest r h₃.
      subst AllPlain (ok_inj h₃) (
        AllPlain-append first rest (plain i d first q)
          (each_dict-AllPlain body plain (suc i) xs rest r))

-- A loop of `to_rdf` over a collection of the passport, and what follows it.
on_loop :
    {C : Type 0} {ts : List Triple} (o : Option Json) (body : ℕ → Dict → Result Error (List Triple))
    (i : ℕ) (next : List Triple → Result Error (List Triple))
    → ((i : ℕ) (d : Dict) (ts : List Triple) → body i d ≡ ok ts → AllPlain ts)
    → (collection_of o >>= λ xs. each_dict body i xs >>= next) ≡ ok ts
    → ((found : List Triple) → AllPlain found → next found ≡ ok ts → C)
    → C
on_loop o body i next plain h k = on_ok (collection_of o) _ h λ xs p h₁.
    on_ok (each_dict body i xs) _ h₁
      λ found q h₂. k found (each_dict-AllPlain body plain i xs found q) h₂

module _ (str_of decimal_of : Json → String) where
  -- The passport, and plain triples after it.
  passport_first :
      (dpp : Term) (source : Dict) (ts : List Triple)
      → passport_triples str_of decimal_of dpp source ≡ ok ts
      → (rest : List Triple) × (triple dpp rdf_type passport_type ∷ rest ≡ ts) × AllPlain rest
  unfolding passport_triples term_eq
  passport_first dpp source ts h =
      on_ok (plain_literal str_of decimal_of "schemaVersion" source) _ h λ schema p₁ h₁.
        on_ok (typed_literal str_of decimal_of "recordVersion" xsd_integer source) _ h₁
          λ version p₂ h₂.
            on_ok (plain_literal str_of decimal_of "status" source) _ h₂ λ status p₃ h₃.
              on_ok (typed_literal str_of decimal_of "createdAt" xsd_date_time source) _ h₃
                λ created p₄ h₄.
                  on_ok (typed_literal str_of decimal_of "updatedAt" xsd_date_time source) _ h₄
                    λ updated p₅ h₅.
                      on_ok (text_at "responsibleOperatorId" source) _ h₅ λ operator p₆ h₆. (
                        _,
                        ok_inj h₆,
                        (
                          (refl, refl),
                          (
                            (refl, refl),
                            ((refl, refl), ((refl, refl), ((refl, refl), ((refl, refl), tt)))),
                          ),
                        ),
                      )

  garment-Plain :
      (dpp : Term) (subject_id : String) (identity product : Dict) (ts : List Triple)
      → garment_triples str_of decimal_of dpp subject_id identity product ≡ ok ts
      → AllPlain ts
  unfolding garment_triples term_eq
  garment-Plain dpp subject_id identity product ts h =
      on_ok (plain_literal str_of decimal_of "granularity" identity) _ h λ granularity p₁ h₁.
        on_ok (text_at "articleClass" product) _ h₁ λ article p₂ h₂.
          subst AllPlain (ok_inj h₂)
            (((refl, refl), ((refl, refl), ((refl, refl), ((refl, refl), ((refl, refl), tt))))))

  carrier-Plain :
      (dpp : Term) (i : ℕ) (carrier : Dict) (ts : List Triple)
      → carrier_triples str_of decimal_of dpp i carrier ≡ ok ts
      → AllPlain ts
  unfolding carrier_triples term_eq
  carrier-Plain dpp i carrier ts h = on_ok (text_at "carrierId" carrier) _ h λ id p₁ h₁.
      on_ok (plain_literal str_of decimal_of "bindingStatus" carrier) _ h₁ λ status p₂ h₂.
        on_ok (plain_literal str_of decimal_of "encodedIdentifier" carrier) _ h₂ λ encoded p₃ h₃.
          subst AllPlain (ok_inj h₃) (
            (
              (refl, refl),
              ((refl, refl), ((refl, refl), ((refl, refl), ((refl, refl), ((refl, refl), tt))))),
            ))

  share-Plain :
      (node : Term) (observation : Dict) (o : Option Json) (ts : List Triple)
      → share_triples str_of decimal_of node observation o ≡ ok ts
      → AllPlain ts
  unfolding term_eq
  share-Plain node observation none ts h = subst AllPlain (ok_inj h) tt
  share-Plain node observation (some v) ts h =
      on_ok (plain_literal str_of decimal_of "percentageBasis" observation) _ h
        λ basis p h₁. subst AllPlain (ok_inj h₁) ((refl, refl), ((refl, refl), tt))

  measured-Plain :
      (garment : Term) (i : ℕ) (observation : Dict) (ts : List Triple)
      → measured_triples str_of decimal_of garment i observation ≡ ok ts
      → AllPlain ts
  unfolding measured_triples term_eq
  measured-Plain garment i observation ts h =
      on_ok (text_at "observationId" observation) _ h λ id p₁ h₁.
        on_ok (text_at "fibreType" observation) _ h₁ λ fibre p₂ h₂.
          on_ok (plain_literal str_of decimal_of "valueStatus" observation) _ h₂ λ status p₃ h₃.
            on_ok (text_at "method" observation) _ h₃ λ method p₄ h₄.
              on_ok (text_at "sourceOrganisationId" observation) _ h₄ λ organisation p₅ h₅.
                on_ok (typed_literal str_of decimal_of "observedAt" xsd_date_time observation) _ h₅
                  λ time p₆ h₆.
                    on_ok
                      (share_triples str_of decimal_of (iri id) observation
                        (get? "percentage" observation))
                      _ h₆
                      λ share p₇ h₇. subst AllPlain (ok_inj h₇) (
                        (
                          (refl, refl),
                          (
                            (refl, refl),
                            (
                              (refl, refl),
                              (
                                (refl, refl),
                                (
                                  (refl, refl),
                                  (
                                    (refl, refl),
                                    (
                                      (refl, refl),
                                      share-Plain (iri id) observation
                                          (get? "percentage" observation) share p₇,
                                    ),
                                  ),
                                ),
                              ),
                            ),
                          ),
                        ))

  part_of-Plain : (node : Term) (o : Option String) → AllPlain (part_of str_of decimal_of node o)
  unfolding term_eq
  part_of-Plain node none = tt
  part_of-Plain node (some parent) = ((refl, refl), tt)

  component-Plain :
      (garment : Term) (i : ℕ) (component : Dict) (ts : List Triple)
      → component_triples str_of decimal_of garment i component ≡ ok ts
      → AllPlain ts
  unfolding component_triples term_eq
  component-Plain garment i component ts h = on_ok (text_at "componentId" component) _ h λ id p₁ h₁.
      on_ok (plain_literal str_of decimal_of "componentType" component) _ h₁ λ kind p₂ h₂.
        on_ok (text_if (get? "parentComponentId" component)) _ h₂ λ parent p₃ h₃.
          subst AllPlain (ok_inj h₃)
            (((refl, refl), ((refl, refl), ((refl, refl), part_of-Plain (iri id) parent))))

  event-Plain :
      (dpp : Term) (i : ℕ) (event : Dict) (ts : List Triple)
      → event_triples str_of decimal_of dpp i event ≡ ok ts
      → AllPlain ts
  unfolding event_triples term_eq
  event-Plain dpp i event ts h = on_ok (text_at "eventId" event) _ h λ id p₁ h₁.
      on_ok (plain_literal str_of decimal_of "eventType" event) _ h₁ λ kind p₂ h₂.
        on_ok (typed_literal str_of decimal_of "recordedAt" xsd_date_time event) _ h₂ λ time p₃ h₃.
          on_ok (text_at "actorOrganisationId" event) _ h₃ λ actor p₄ h₄.
            subst AllPlain (ok_inj h₄)
              (((refl, refl), ((refl, refl), ((refl, refl), ((refl, refl), ((refl, refl), tt))))))

  basis-Plain :
      (node : Term) (xs : Items) (ts : List Triple)
      → basis_triples str_of decimal_of node xs ≡ ok ts
      → AllPlain ts
  unfolding basis_triples term_eq
  basis-Plain node nil ts h = subst AllPlain (ok_inj h) tt
  basis-Plain node (cons (str t) xs) ts h =
      on_ok (basis_triples str_of decimal_of node xs) _ h
        λ rest p h₁. subst AllPlain (ok_inj h₁) ((refl, refl), basis-Plain node xs rest p)
  basis-Plain node (cons null xs) ts h = absurd (cc)
  basis-Plain node (cons (bool b) xs) ts h = absurd (cc)
  basis-Plain node (cons (int b) xs) ts h = absurd (cc)
  basis-Plain node (cons (float b) xs) ts h = absurd (cc)
  basis-Plain node (cons (arr b) xs) ts h = absurd (cc)
  basis-Plain node (cons (obj b) xs) ts h = absurd (cc)

  decision-Plain :
      (dpp : Term) (i : ℕ) (decision : Dict) (ts : List Triple)
      → decision_triples str_of decimal_of dpp i decision ≡ ok ts
      → AllPlain ts
  unfolding decision_triples term_eq
  decision-Plain dpp i decision ts h = on_ok (text_at "decisionId" decision) _ h λ id p₁ h₁.
      on_ok (plain_literal str_of decimal_of "sortingCategory" decision) _ h₁ λ category p₂ h₂.
        on_ok (json_at "basedOnObservations" decision) _ h₂ λ observations p₃ h₃.
          on_ok (items_of observations) _ h₃ λ listed p₄ h₄.
            on_ok (basis_triples str_of decimal_of (iri id) listed) _ h₄ λ basis p₅ h₅.
              subst AllPlain (ok_inj h₅) (
                (
                  (refl, refl),
                  ((refl, refl), ((refl, refl), basis-Plain (iri id) listed basis p₅)),
                ))

  environmental-Plain :
      (dpp_id : String) (garment : Term) (i : ℕ) (d : Dict) (ts : List Triple)
      → environmental_triples str_of decimal_of dpp_id garment i d ≡ ok ts
      → AllPlain ts
  unfolding environmental_triples term_eq
  environmental-Plain dpp_id garment i d ts h =
      on_ok (plain_literal str_of decimal_of "metricType" d) _ h λ metric p₁ h₁.
        on_ok (plain_literal str_of decimal_of "systemBoundary" d) _ h₁ λ boundary p₂ h₂.
          subst AllPlain (ok_inj h₂)
            (((refl, refl), ((refl, refl), ((refl, refl), ((refl, refl), tt)))))

  -- The additions of `to_rdf` are the passport and plain triples.
  pub core_first :
      (source : Dict) (ts : List Triple)
      → core_triples str_of decimal_of source ≡ ok ts
      → (dpp_id : String) × (text_at "dppId" source ≡ ok dpp_id)
        × (rest : List Triple) × (triple (iri dpp_id) rdf_type passport_type ∷ rest ≡ ts)
        × AllPlain rest
  unfolding core_triples
  core_first source ts h = on_ok (text_at "dppId" source) _ h λ dpp_id p₁ h₁.
      on_ok (passport_triples str_of decimal_of (iri dpp_id) source) _ h₁ λ passport p₂ h₂.
        on_ok (json_at "identity" source) _ h₂ λ identity p₃ h₃.
          on_ok (as_dict identity) _ h₃ λ identity_dict p₄ h₄.
            on_ok (identity_id identity_dict) _ h₄ λ found p₅ h₅.
              on_ok (found_text found) _ h₅ λ subject_id p₆ h₆.
                on_ok (json_at "product" source) _ h₆ λ product p₇ h₇.
                  on_ok (as_dict product) _ h₇ λ product_dict p₈ h₈.
                    on_ok
                      (garment_triples str_of decimal_of (iri dpp_id) subject_id identity_dict
                        product_dict)
                      _ h₈
                      λ garment p₉ h₉.
                        on_loop (get? "carriers" source) _ 0 _ (carrier-Plain (iri dpp_id)) h₉
                          λ bound a₁ k₁.
                            on_ok (json_at "materialObservations" source) _ k₁ λ observations q₁ k₂.
                              on_ok (items_of observations) _ k₂ λ listed q₂ k₃.
                                on_ok
                                  (each_dict (measured_triples str_of decimal_of (iri subject_id)) 0
                                    listed)
                                  _ k₃
                                  λ measured q₃ k₄.
                                    on_loop (get? "components" source) _ 0 _
                                      (component-Plain (iri subject_id)) k₄
                                      λ composed a₂ k₅.
                                        on_loop (get? "lifecycleEvents" source) _ 0 _
                                          (event-Plain (iri dpp_id)) k₅
                                          λ happened a₃ k₆.
                                            on_loop (get? "sortingDecisions" source) _ 0 _
                                              (decision-Plain (iri dpp_id)) k₆
                                              λ decided a₄ k₇.
                                                on_loop (get? "environmentalValues" source) _ 1 _
                                                  (environmental-Plain dpp_id (iri subject_id)) k₇
                                                  λ valued a₅ k₈.
                                                    let (rest, e, plain) =
                                                      passport_first (iri dpp_id) source passport
                                                        p₂ in
                                                    let a₀ =
                                                      garment-Plain (iri dpp_id) subject_id
                                                        identity_dict product_dict garment p₉ in
                                                    let b₀ =
                                                      each_dict-AllPlain _
                                                        (measured-Plain (iri subject_id)) 0 listed
                                                        measured q₃ in
                                                    let tail =
                                                      garment
                                                      ++ (bound
                                                          ++ (measured
                                                            ++ (composed
                                                            ++ (happened
                                                            ++ (decided ++ valued))))) in
                                                    (
                                                      dpp_id,
                                                      p₁,
                                                      rest ++ tail,
                                                      ap (λ x. x ++ tail) e ∙ ok_inj k₈,
                                                      AllPlain-append rest tail plain (
                                                          AllPlain-append garment _ a₀ (
                                                            AllPlain-append bound _ a₁ (
                                                            AllPlain-append measured _ b₀ (
                                                            AllPlain-append composed _ a₂ (
                                                            AllPlain-append happened _ a₃ (
                                                            AllPlain-append decided valued a₄
                                                            a₅)))))),
                                                    )
