-- ===== src/Access/Public.antt =====
-- What the public view holds.
use sort4circ.Prelude.{
  ◌≡◌, refl, ◌∙◌, String, false, none, some, [], ◌∷◌, ok, elem, eq_iff, arith, on_ok, ok_inj,
}
use sort4circ.Json.{Dict, entry, null, obj, empty, get?}
use sort4circ.Json.Laws.{get?-set}
use sort4circ.Json.Shape.{json_at, get_or, value_or, as_dict}
use sort4circ.Store.Append.{collection_of}
use sort4circ.Access.{View, public_view, Principal}
use sort4circ.Access.Projection.{heading, body, project, observations_for}

pub heading-other :
    (view : View) (source out : Dict) (k : String)
    → heading view source ≡ ok out
    → elem k ("dppId" ∷ "schemaVersion" ∷ "recordVersion" ∷ "accessPolicyVersion" ∷ "view" ∷ [])
      ≡ false
    → get? k out ≡ none
unfolding heading get?
heading-other view source out k h n = on_ok (json_at "dppId" source) _ h λ id p h₁.
    on_ok (json_at "schemaVersion" source) _ h₁ λ schema q h₂.
      on_ok (json_at "recordVersion" source) _ h₂ λ version r h₃. rw (← ok_inj h₃) (
        ground (
          arith,
          eq_iff k "dppId",
          eq_iff k "schemaVersion",
          eq_iff k "recordVersion",
          eq_iff k "accessPolicyVersion",
          eq_iff k "view",
          eq_iff "dppId" k,
          eq_iff "schemaVersion" k,
          eq_iff "recordVersion" k,
          eq_iff "accessPolicyVersion" k,
          eq_iff "view" k,
        ))

body-members :
    (source before out identity : Dict) (k : String)
    → get? "identity" source ≡ some (obj identity)
    → body public_view source before ≡ ok out
    → elem k ("status" ∷ "identity" ∷ "product" ∷ "materialObservations" ∷ []) ≡ false
    → (get? "identity" out
        ≡ some (obj (entry "granularity" (value_or null (get? "granularity" identity)) empty)))
      × (get? k out ≡ get? k before)
unfolding body as_dict
body-members source before out identity k i h n =
    let h' = rw i at h in
    on_ok (json_at "status" source) _ h' λ status p h₁.
      on_ok (as_dict (get_or "product" (obj empty) source)) _ h₁ λ product r h₃.
        on_ok (collection_of (get? "materialObservations" source)) _ h₃ λ observations t h₄.
          on_ok (observations_for public_view observations) _ h₄ λ seen u h₅. (
            rw (← ok_inj h₅, get?-set, get?-set, get?-set) refl,
            rw (← ok_inj h₅, get?-set, get?-set, get?-set, get?-set)
                (ground (
                  arith,
                  eq_iff k "status",
                  eq_iff k "identity",
                  eq_iff k "product",
                  eq_iff k "materialObservations",
                  eq_iff "status" k,
                  eq_iff "identity" k,
                  eq_iff "product" k,
                  eq_iff "materialObservations" k,
                )),
          )

-- The public view shows of the identity nothing but the granularity, and no events, carriers,
-- decisions, components or integrity entries.
pub project-public :
    (source out identity : Dict) (p : Principal)
    → get? "identity" source ≡ some (obj identity)
    → project source public_view p ≡ ok out
    → (get? "identity" out
        ≡ some (obj (entry "granularity" (value_or null (get? "granularity" identity)) empty)))
      × (get? "lifecycleEvents" out ≡ none)
      × (get? "carriers" out ≡ none)
      × (get? "sortingDecisions" out ≡ none)
      × (get? "components" out ≡ none)
      × (get? "integrity" out ≡ none)
unfolding project
project-public source out identity p i e = on_ok (heading public_view source) _ e λ before h e₁.
    on_ok (body public_view source before) _ e₁ λ seen b e₂. rw (← ok_inj e₂) (
      (body-members source before seen identity "lifecycleEvents" i b refl).0,
      hidden before seen "lifecycleEvents" h b refl refl,
      hidden before seen "carriers" h b refl refl,
      hidden before seen "sortingDecisions" h b refl refl,
      hidden before seen "components" h b refl refl,
      hidden before seen "integrity" h b refl refl,
    )
  where
    hidden :
        (before seen : Dict) (k : String)
        → heading public_view source ≡ ok before
        → body public_view source before ≡ ok seen
        → elem k ("status" ∷ "identity" ∷ "product" ∷ "materialObservations" ∷ []) ≡ false
        → elem k ("dppId" ∷ "schemaVersion" ∷ "recordVersion" ∷ "accessPolicyVersion" ∷ "view" ∷ [])
          ≡ false
        → get? k seen ≡ none
    hidden before seen k h b m n =
        (body-members source before seen identity k i b m).1
        ∙ heading-other public_view source before k h n
