-- ===== src/Api/Formats.antt =====
-- Which responses the middleware of src/sort4circ_dpp/api.py turns into XML.
use sort4circ.Prelude.{
  ◌≡◌, ◌≢◌, refl, ◌∙◌, String, Bool, true, false, ◌&&◌, none, some, List, [], ◌∷◌, Option, ok, elem,
  eq_iff, arith, on_ok, ok_inj, ◌>>=◌, Bool-cases, inl, inr, ℕ,
}
use sort4circ.Json.{Dict, obj, entry, empty, get?, keys}
use sort4circ.Json.Laws.{get?-set}
use sort4circ.Json.Shape.{json_at, get_or, as_dict}
use sort4circ.Env.{Env}
use sort4circ.Exchange.{Numerals}
use sort4circ.Store.Append.{collection_of}
use sort4circ.Store.Carriers.{is_commissioned}
use sort4circ.Access.{
  View, integrity_only, public_view, partner_view, sorting_view, recycler_view, authority_view,
  full_view, Principal,
}
use sort4circ.Access.Projection.{
  heading, body, own_events, sorting_part, extra, project, observations_for, those, of_organisation,
}
use sort4circ.Access.Public.{heading-other}
use sort4circ.Api.Middleware.{required, all_in, is_whole, respond_as, as_json, is_success}

-- A dict without a member of the name does not list it.
keys-absent : (k : String) (d : Dict) → get? k d ≡ none → elem k (keys d) ≡ false
unfolding get? keys
keys-absent k empty h = refl
keys-absent k (entry j v d) h = ground (arith, eq_iff j k, eq_iff k j, keys-absent k d)

all_in-absent :
    (k : String) (names ks : List String)
    → elem k names ≡ true
    → elem k ks ≡ false
    → all_in names ks ≡ false
unfolding all_in
all_in-absent k [] ks m a = absurd (cc)
all_in-absent k (x ∷ xs) ks m a = ground (arith, eq_iff k x, all_in-absent k xs ks)

abbrev stamp : String
stamp = "createdAt"

body-stamp :
    (view : View) (source before out : Dict)
    → body view source before ≡ ok out
    → get? stamp out ≡ get? stamp before
unfolding body
body-stamp view source before out h = on_ok (json_at "status" source) _ h λ status p h₁.
    on_ok (as_dict (get_or "identity" (obj empty) source)) _ h₁ λ identity q h₂.
      on_ok (as_dict (get_or "product" (obj empty) source)) _ h₂ λ product r h₃.
        on_ok (collection_of (get? "materialObservations" source)) _ h₃ λ observations t h₄.
          on_ok (observations_for view observations) _ h₄
            λ seen u h₅. rw (← ok_inj h₅, get?-set, get?-set, get?-set, get?-set) refl

own_events-stamp :
    (organisation : Option String) (source before out : Dict)
    → own_events organisation source before ≡ ok out
    → get? stamp out ≡ get? stamp before
unfolding own_events
own_events-stamp none source before out h = rw (← ok_inj h, get?-set) refl
own_events-stamp (some organisation) source before out h =
    on_ok (collection_of (get? "lifecycleEvents" source)) _ h λ events p h₁.
      on_ok (those (of_organisation organisation) events) _ h₁
        λ own q h₂. rw (← ok_inj h₂, get?-set) refl

sorting_part-stamp :
    (source before out : Dict)
    → sorting_part source before ≡ ok out
    → get? stamp out ≡ get? stamp before
unfolding sorting_part
sorting_part-stamp source before out h =
    on_ok (collection_of (get? "carriers" source)) _ h λ carriers p h₁.
      on_ok (those is_commissioned carriers) _ h₁
        λ active q h₂. rw (← ok_inj h₂, get?-set, get?-set) refl

extra-stamp :
    (view : View) (p : Principal) (source before out : Dict)
    → extra view p source before ≡ ok out
    → get? stamp out ≡ get? stamp before
extra-stamp integrity_only p source before out h = rw (← ok_inj h) refl
extra-stamp public_view p source before out h = rw (← ok_inj h) refl
extra-stamp full_view p source before out h = rw (← ok_inj h) refl
extra-stamp partner_view p source before out h =
    own_events-stamp p.organisation_id source before out h
extra-stamp sorting_view p source before out h = sorting_part-stamp source before out h
extra-stamp recycler_view p source before out h =
    on_ok (sorting_part source before) _ h
      λ sorted q h₁. rw (← ok_inj h₁, get?-set) (sorting_part-stamp source before sorted q)
extra-stamp authority_view p source before out h =
    on_ok (sorting_part source before) _ h λ sorted q h₁.
      rw (← ok_inj h₁, get?-set, get?-set, get?-set, get?-set, get?-set)
        (sorting_part-stamp source before sorted q)

parts-stamp :
    (view : View) (p : Principal) (source out : Dict)
    → (heading view source >>= λ before.
        body view source before >>= λ seen. extra view p source seen)
      ≡ ok out
    → get? stamp out ≡ none
parts-stamp view p source out h = on_ok (heading view source) _ h λ before a h₁.
    on_ok (body view source before) _ h₁ λ seen b h₂.
      extra-stamp view p source seen out h₂
      ∙ body-stamp view source before seen b
      ∙ heading-other view source before stamp a refl

project-stamp :
    (view : View) (p : Principal) (source out : Dict)
    → view ≢ full_view
    → project source view p ≡ ok out
    → get? stamp out ≡ none
unfolding project
project-stamp full_view p source out n h = absurd (n refl)
project-stamp integrity_only p source out n h =
    on_ok (heading integrity_only source) _ h λ before a h₁.
      rw (← ok_inj h₁, get?-set) (heading-other integrity_only source before stamp a refl)
project-stamp public_view p source out n h = parts-stamp public_view p source out h
project-stamp partner_view p source out n h = parts-stamp partner_view p source out h
project-stamp sorting_view p source out n h = parts-stamp sorting_view p source out h
project-stamp recycler_view p source out n h = parts-stamp recycler_view p source out h
project-stamp authority_view p source out n h = parts-stamp authority_view p source out h

-- A projection onto a view other than the full one is always sent as JSON, whatever the client accepts
-- and whatever the status: no narrower view is turned into an XML document of a whole passport.
pub respond_as-projection :
    (env : Env) (n : Numerals) (accepts_xml : Bool) (status : ℕ) (view : View) (p : Principal)
    (source seen : Dict)
    → view ≢ full_view
    → project source view p ≡ ok seen
    → respond_as env n accepts_xml status seen ≡ ok (as_json seen)
unfolding respond_as is_whole
respond_as-projection env n accepts_xml status view p source seen narrower h =
    elim (Bool-cases (accepts_xml && is_success status)) [
      | inl a ↦ rw (a, missing) refl
      | inr a ↦ rw a refl
    ]
  where
    missing : all_in required (keys seen) ≡ false
    missing =
        all_in-absent stamp required (keys seen) refl
          (keys-absent stamp seen (project-stamp view p source seen narrower h))
