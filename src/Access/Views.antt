-- ===== src/Access/Views.antt =====
-- A view is never wider than the role's, and shows nothing of the members that it does not read.
use sort4circ.Prelude.{
  ◌≤◌, ◌≡◌, ◌≢◌, refl, String, true, false, Option, none, some, List, [], ◌∷◌, ◌++◌, Result, ok,
  err, ◌>>=◌, guard, elem, ◌==◌, eq_iff, arith, on_ok, ok_inj,
}
use sort4circ.Reasons.{Error, raised, authz_view_forbidden}
use sort4circ.Json.{Json, Dict, get?, set}
use sort4circ.Json.Laws.{get?-set}
use sort4circ.Access.{
  Role, View, integrity_only, public_view, partner_view, sorting_view, recycler_view,
  authority_view, full_view, rank, view_named, default_view, Principal, may_request, narrowed,
  resolve_named, resolve_view,
}
use sort4circ.Access.Projection.{heading, body, own_events, sorting_part, extra, project}

narrowed-bound : (default requested : View) → rank (narrowed default requested) ≤ rank default
narrowed-bound default requested = ground arith

resolve_named-bound :
    (role : Role) (requested : Option View) (view : View)
    → resolve_named role requested ≡ ok view
    → rank view ≤ rank (default_view role)
resolve_named-bound role none view h = absurd (cc)
resolve_named-bound role (some requested) view h =
    on_ok (guard (may_request role requested) (raised authz_view_forbidden)) _ h
      λ u p h₁. rw (← ok_inj h₁) (narrowed-bound (default_view role) requested)

-- The view that a caller receives is never wider than the default view of the caller's role,
-- whatever the caller asks for.
pub resolve_view-bound :
    (p : Principal) (requested : Option String) (view : View)
    → resolve_view p requested ≡ ok view
    → rank view ≤ rank (default_view p.role)
unfolding resolve_view
resolve_view-bound p none view h = rw (← ok_inj h) (ground arith)
resolve_view-bound p (some requested) view h =
    resolve_named-bound p.role (view_named requested) view h

abbrev heading_keys : List String
heading_keys = "dppId" ∷ "schemaVersion" ∷ "recordVersion" ∷ "accessPolicyVersion" ∷ []

abbrev body_keys : List String
body_keys = "status" ∷ "identity" ∷ "product" ∷ "materialObservations" ∷ []

-- The members of a record that a view reads.
abbrev pub read_keys : View → List String
read_keys integrity_only = heading_keys ++ "integrity" ∷ []
read_keys public_view = heading_keys ++ body_keys
read_keys partner_view = heading_keys ++ body_keys ++ "lifecycleEvents" ∷ []
read_keys sorting_view = heading_keys ++ body_keys ++ "carriers" ∷ "sortingDecisions" ∷ []
read_keys recycler_view =
    heading_keys ++ body_keys ++ "carriers" ∷ "sortingDecisions" ∷ "components" ∷ []
read_keys authority_view =
    heading_keys
    ++ body_keys
    ++ "carriers" ∷ "sortingDecisions" ∷ "components" ∷ "lifecycleEvents" ∷ "integrity"
      ∷ "environmentalValues" ∷ []
read_keys full_view = []

unread :
    (ks : List String) (j k : String) (v : Json) (source : Dict)
    → elem j ks ≡ true
    → elem k ks ≡ false
    → get? j (set k v source) ≡ get? j source
unread ks j k v source m n = rw (get?-set, other ks m n) refl
  where
    other : (l : List String) → elem j l ≡ true → elem k l ≡ false → (k == j) ≡ false
    other [] a b = absurd (cc)
    other (x ∷ l) a b = ground (arith, eq_iff k j, eq_iff k x, eq_iff j x, other l)

elem_left : (j : String) (xs ys : List String) → elem j xs ≡ true → elem j (xs ++ ys) ≡ true
elem_left j [] ys m = absurd (cc)
elem_left j (x ∷ xs) ys m = ground (arith, elem_left j xs ys)

elem_right : (j : String) (xs ys : List String) → elem j ys ≡ true → elem j (xs ++ ys) ≡ true
elem_right j [] ys m = m
elem_right j (x ∷ xs) ys m = ground (arith, elem_right j xs ys m)

module _ (r s : Dict) where
  -- The two records hold the same under these keys.
  abbrev Agree : List String → Type 0
  Agree ks = (j : String) → elem j ks ≡ true → get? j r ≡ get? j s

  heading-Agree : (view : View) → Agree heading_keys → heading view r ≡ heading view s
  unfolding heading
  heading-Agree view h =
      rw
        (
          h "dppId" refl,
          h "schemaVersion" refl,
          h "recordVersion" refl,
          h "accessPolicyVersion" refl,
        )
        refl

  body-Agree : (view : View) (out : Dict) → Agree body_keys → body view r out ≡ body view s out
  unfolding body
  body-Agree view out h =
      rw (h "status" refl, h "identity" refl, h "product" refl, h "materialObservations" refl) refl

  own_events-Agree :
      (organisation : Option String) (out : Dict)
      → get? "lifecycleEvents" r ≡ get? "lifecycleEvents" s
      → own_events organisation r out ≡ own_events organisation s out
  unfolding own_events
  own_events-Agree none out a = refl
  own_events-Agree (some organisation) out a = rw a refl

  sorting_part-Agree :
      (out : Dict)
      → get? "carriers" r ≡ get? "carriers" s
      → get? "sortingDecisions" r ≡ get? "sortingDecisions" s
      → sorting_part r out ≡ sorting_part s out
  unfolding sorting_part
  sorting_part-Agree out a b = rw (a, b) refl

  -- The parts of `extra`, by the view.
  extra-Agree :
      (view : View) (p : Principal) (out : Dict)
      → Agree (read_keys view)
      → extra view p r out ≡ extra view p s out
  extra-Agree integrity_only p out h = refl
  extra-Agree public_view p out h = refl
  extra-Agree full_view p out h = refl
  extra-Agree partner_view p out h =
      own_events-Agree p.organisation_id out (h "lifecycleEvents" refl)
  extra-Agree sorting_view p out h =
      sorting_part-Agree out (h "carriers" refl) (h "sortingDecisions" refl)
  extra-Agree recycler_view p out h =
      rw
        (
          sorting_part-Agree out (h "carriers" refl) (h "sortingDecisions" refl),
          h "components" refl,
        )
        refl
  extra-Agree authority_view p out h =
      rw
        (
          sorting_part-Agree out (h "carriers" refl) (h "sortingDecisions" refl),
          h "components" refl,
          h "lifecycleEvents" refl,
          h "integrity" refl,
          h "environmentalValues" refl,
          h "identity" refl,
        )
        refl

  parts-Agree :
      (view : View) (p : Principal)
      → Agree heading_keys
      → Agree body_keys
      → Agree (read_keys view)
      → (heading view r >>= λ out. body view r out >>= λ seen. extra view p r seen)
        ≡ (heading view s >>= λ out. body view s out >>= λ seen. extra view p s seen)
  parts-Agree view p a b h = rw (heading-Agree view a) (after (heading view s))
    where
      bodies :
          (x : Result Error Dict)
          → (x >>= λ seen. extra view p r seen) ≡ (x >>= λ seen. extra view p s seen)
      bodies (ok seen) = extra-Agree view p seen h
      bodies (err e) = refl

      after :
          (x : Result Error Dict)
          → (x >>= λ out. body view r out >>= λ seen. extra view p r seen)
            ≡ (x >>= λ out. body view s out >>= λ seen. extra view p s seen)
      after (ok out) = rw (body-Agree view out b) (bodies (body view s out))
      after (err e) = refl

  Agree-left : (xs ys : List String) → Agree (xs ++ ys) → Agree xs
  Agree-left xs ys h j m = h j (elem_left j xs ys m)

  Agree-right : (xs ys : List String) → Agree (xs ++ ys) → Agree ys
  Agree-right xs ys h j m = h j (elem_right j xs ys m)

  split-Agree :
      (view : View) (p : Principal) (more : List String)
      → Agree (heading_keys ++ (body_keys ++ more))
      → Agree (read_keys view)
      → (heading view r >>= λ out. body view r out >>= λ seen. extra view p r seen)
        ≡ (heading view s >>= λ out. body view s out >>= λ seen. extra view p s seen)
  split-Agree view p more h h' =
      parts-Agree view p (Agree-left heading_keys (body_keys ++ more) h)
        (Agree-left body_keys more (Agree-right heading_keys (body_keys ++ more) h)) h'

  project-Agree :
      (view : View) (p : Principal)
      → view ≢ full_view
      → Agree (read_keys view)
      → project r view p ≡ project s view p
  unfolding project
  project-Agree full_view p n h = absurd (n refl)
  project-Agree integrity_only p n h =
      rw
        (
          heading-Agree integrity_only (Agree-left heading_keys ("integrity" ∷ []) h),
          h "integrity" refl,
        )
        refl
  project-Agree public_view p n h =
      parts-Agree public_view p (Agree-left heading_keys body_keys h)
        (Agree-right heading_keys body_keys h) h
  project-Agree partner_view p n h = split-Agree partner_view p ("lifecycleEvents" ∷ []) h h
  project-Agree sorting_view p n h =
      split-Agree sorting_view p ("carriers" ∷ "sortingDecisions" ∷ []) h h
  project-Agree recycler_view p n h =
      split-Agree recycler_view p ("carriers" ∷ "sortingDecisions" ∷ "components" ∷ []) h h
  project-Agree authority_view p n h =
      split-Agree authority_view p
        ("carriers" ∷ "sortingDecisions" ∷ "components" ∷ "lifecycleEvents" ∷ "integrity"
          ∷ "environmentalValues" ∷ [])
        h h

-- A view other than the full one does not depend on the members of the record that it does not
-- read: writing such a member, whatever its value, changes nothing that a caller of the view sees.
-- The public view reads neither the events nor the carriers, the decisions or the integrity array;
-- the partner view reads the events, and so on.
pub project-set_unread :
    (view : View) (p : Principal) (k : String) (v : Json) (source : Dict)
    → view ≢ full_view
    → elem k (read_keys view) ≡ false
    → project (set k v source) view p ≡ project source view p
project-set_unread view p k v source n free =
    project-Agree (set k v source) source view p n
      (λ j m. unread (read_keys view) j k v source m free)
