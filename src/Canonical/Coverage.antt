-- ===== src/Canonical/Coverage.antt =====
-- Which fields the digest covers.
use sort4circ.Prelude.{
  ◌∙◌, ◌≡◌, refl, ap, String, Bool, true, false, Option, none, some, List, [], ◌∷◌, ◌==◌, eq_iff,
  if◌then◌else◌, elem, is_none, ok, >>=-eq-ok, arith, ◌++◌, ◌≢◌, sym, eq_false_of_ne, Bool-cases,
  inl, inr,
}
use sort4circ.Json.{Json, Items, Dict, obj, arr, empty, entry, nil, cons, get?, set}
use sort4circ.Json.Laws.{get?-set, get?-set_self}
use sort4circ.Env.{Env}
use sort4circ.Canonical.Projection.{
  projection_top_level, projection_identity, projection_product, present, pick_present, pick,
  pick_observations, add_dict, add_items, integrity_projection,
}
use sort4circ.Canonical.Digest.{canonical_bytes, digest}

pick_present-set :
    (ks : List String) (k : String) (v : Json) (d : Dict)
    → elem k ks ≡ false
    → pick_present ks (set k v d) ≡ pick_present ks d
unfolding pick_present
pick_present-set [] k v d h = refl
pick_present-set (j ∷ ks) k v d h = ground (arith, get?-set k j v d, pick_present-set ks k v d)

-- A pick holds the chosen keys whose values are not null, and nothing else.
pub get?-pick_present :
    (ks : List String) (j : String) (d : Dict)
    → get? j (pick_present ks d) ≡ (if elem j ks then present (get? j d) else none)
unfolding get? pick_present
get?-pick_present [] j d = refl
get?-pick_present (k ∷ ks) j d = ground (arith, eq_iff j k, eq_iff k j, get?-pick_present ks j d)

-- A part of the projection, left out where it is empty.
abbrev pub part : Dict → Option Json
part empty = none
part (entry k v d) = some (obj (entry k v d))

-- The keys of a record that the projection reads.
abbrev pub covered : List String
covered = projection_top_level ++ "identity" ∷ "product" ∷ "materialObservations" ∷ []

integrity_projection_congr :
    (r s : Dict)
    → pick_present projection_top_level r ≡ pick_present projection_top_level s
    → pick projection_identity (get? "identity" r) ≡ pick projection_identity (get? "identity" s)
    → pick projection_product (get? "product" r) ≡ pick projection_product (get? "product" s)
    → get? "materialObservations" r ≡ get? "materialObservations" s
    → integrity_projection r ≡ integrity_projection s
unfolding integrity_projection
integrity_projection_congr r s a b c d = rw (a, b, c, d) refl

digest_congr :
    (env : Env) (r s : Dict)
    → integrity_projection r ≡ integrity_projection s
    → digest env r ≡ digest env s
unfolding digest canonical_bytes
digest_congr env r s h = rw h refl

digest-set_uncovered :
    (env : Env) (k : String) (v : Json) (source : Dict)
    → elem k covered ≡ false
    → digest env (set k v source) ≡ digest env source
digest-set_uncovered env k v source h = digest_congr env (set k v source) source (
    integrity_projection_congr (set k v source) source
      (pick_present-set projection_top_level k v source (ground arith))
      (ap (pick projection_identity) (ground (arith, get?-set k "identity" v source)))
      (ap (pick projection_product) (ground (arith, get?-set k "product" v source)))
      (ground (arith, get?-set k "materialObservations" v source)))

digest-set_identity_uncovered :
    (env : Env) (k : String) (v : Json) (identity source : Dict)
    → get? "identity" source ≡ some (obj identity)
    → elem k projection_identity ≡ false
    → digest env (set "identity" (obj (set k v identity)) source) ≡ digest env source
unfolding pick
digest-set_identity_uncovered env k v identity source hi h =
    digest_congr env (set "identity" (obj (set k v identity)) source) source (
      integrity_projection_congr (set "identity" (obj (set k v identity)) source) source
        (pick_present-set projection_top_level "identity" _ source refl)
        (rw (get?-set_self, hi, pick_present-set projection_identity k v identity h) refl)
        (rw get?-set refl) (rw get?-set refl))

digest-set_product_uncovered :
    (env : Env) (k : String) (v : Json) (product source : Dict)
    → get? "product" source ≡ some (obj product)
    → elem k projection_product ≡ false
    → digest env (set "product" (obj (set k v product)) source) ≡ digest env source
unfolding pick
digest-set_product_uncovered env k v product source hp h =
    digest_congr env (set "product" (obj (set k v product)) source) source (
      integrity_projection_congr (set "product" (obj (set k v product)) source) source
        (pick_present-set projection_top_level "product" _ source refl) (rw get?-set refl)
        (rw (get?-set_self, hp, pick_present-set projection_product k v product h) refl)
        (rw get?-set refl))

-- The edits of a record that the profile does not cover, one after another: of a top-level member
-- (carriers, lifecycle events, sorting decisions, components, the integrity array, the status, the access
-- policy, ...), of a member of the identity (the model, the batch, the sample, the source record),
-- of a member of the product (colour, size, mass, condition, grade).
pub data Edited : Dict → Dict → Type 0 where
  unedited : {source : Dict} → Edited source source
  top_level :
      {source : Dict} (changed : Dict) (k : String) (v : Json)
      → Edited source changed
      → elem k covered ≡ false
      → Edited source (set k v changed)
  of_identity :
      {source : Dict} (changed identity : Dict) (k : String) (v : Json)
      → Edited source changed
      → get? "identity" changed ≡ some (obj identity)
      → elem k projection_identity ≡ false
      → Edited source (set "identity" (obj (set k v identity)) changed)
  of_product :
      {source : Dict} (changed product : Dict) (k : String) (v : Json)
      → Edited source changed
      → get? "product" changed ≡ some (obj product)
      → elem k projection_product ≡ false
      → Edited source (set "product" (obj (set k v product)) changed)

-- Any sequence of writes of a value to members that the profile does not cover, at the top level, in the identity or in
-- the product, leaves the digest of a record as it was.
pub digest-Edited :
    (env : Env) (source changed : Dict)
    → Edited source changed
    → digest env changed ≡ digest env source
digest-Edited env source _ unedited = refl
digest-Edited env source _ (top_level changed k v before free) =
    digest-set_uncovered env k v changed free ∙ digest-Edited env source changed before
digest-Edited env source _ (of_identity changed identity k v before held free) =
    digest-set_identity_uncovered env k v identity changed held free
    ∙ digest-Edited env source changed before
digest-Edited env source _ (of_product changed product k v before held free) =
    digest-set_product_uncovered env k v product changed held free
    ∙ digest-Edited env source changed before

get?-add_dict :
    (k j : String) (d projection : Dict)
    → get? j (add_dict k d projection) ≡ (
        if k == j
        then (if is_none (part d) then get? j projection else part d)
        else get? j projection)
unfolding add_dict
get?-add_dict k j empty projection = ground arith
get?-add_dict k j (entry i v d) projection = get?-set k j (obj (entry i v d)) projection

get?-add_items :
    (k j : String) (part : Items) (projection : Dict)
    → (k == j) ≡ false
    → get? j (add_items k part projection) ≡ get? j projection
unfolding add_items
get?-add_items k j nil projection h = refl
get?-add_items k j (cons x xs) projection h =
    ground (arith, get?-set k j (arr (cons x xs)) projection)

projection_parts :
    (source projection identity product : Dict)
    → get? "identity" source ≡ some (obj identity)
    → get? "product" source ≡ some (obj product)
    → integrity_projection source ≡ ok projection
    → (observations : Items) × (projection
        ≡ add_items "materialObservations" observations (
            add_dict "product" (pick_present projection_product product) (
              add_dict "identity"
                (pick_present projection_identity identity)
                (pick_present projection_top_level source))))
unfolding integrity_projection pick
projection_parts source projection identity product hi hp h =
    let k = rw (hi, hp) at h in
    let (observations, e, f) =
      >>=-eq-ok (pick_observations (get? "materialObservations" source)) _ k in
    (observations, cc f)

or_part : (d : Dict) → (if is_none (part d) then none else part d) ≡ part d
or_part empty = refl
or_part (entry k v d) = refl

or_none :
    (b : Bool) (d : Dict)
    → (if b then (if is_none (part d) then none else part d) else none)
      ≡ (if b then part d else none)
or_none true d = or_part d
or_none false d = refl

eq_sym : (s t : String) → (s == t) ≡ (t == s)
eq_sym s t = ground (arith, eq_iff s t, eq_iff t s)

-- A list that has one of two texts and not the other tells them apart.
elem_ne : (j k : String) (ks : List String) → elem j ks ≢ elem k ks → (k == j) ≡ false
elem_ne j k ks h = eq_false_of_ne k j (λ e. h (ap (λ (t : String). elem t ks) (sym e)))

module _ (source projection identity product : Dict)
    (hi : get? "identity" source ≡ some (obj identity))
    (hp : get? "product" source ≡ some (obj product))
    (h : integrity_projection source ≡ ok projection) where
  -- The members of the projection other than the observations.
  get?-projection :
      (j : String)
      → ("materialObservations" == j) ≡ false
      → get? j projection
        ≡ get? j (
            add_dict "product" (pick_present projection_product product) (
              add_dict "identity"
                (pick_present projection_identity identity)
                (pick_present projection_top_level source)))
  get?-projection j n =
      let (observations, e) = projection_parts source projection identity product hi hp h in
      rw e (get?-add_items "materialObservations" j observations _ n)

  -- The projection of a record that has an identity and a product holds each covered top-level
  -- member as the record has it (a null counts as absent), the covered members of the identity
  -- and of the product, each left out if there are none, and no other key but the observations.
  pub get?-integrity_projection :
      (j : String)
      → ("materialObservations" == j) ≡ false
      → get? j projection ≡ (
          if elem j projection_top_level
          then present (get? j source)
          else if "identity" == j
          then part (pick_present projection_identity identity)
          else if "product" == j
          then part (pick_present projection_product product)
          else none)
  get?-integrity_projection j n = elim (Bool-cases (elem j projection_top_level)) [
    | inl m ↦
        rw
          (
            get?-projection j n,
            get?-add_dict,
            elem_ne j "product" projection_top_level (λ e. cc),
            get?-add_dict,
            elem_ne j "identity" projection_top_level (λ e. cc),
            get?-pick_present,
            m,
          )
          refl
    | inr m ↦ elim (Bool-cases ("identity" == j)) [
      | inl i ↦
          rw
            (
              get?-projection j n,
              get?-add_dict,
              elem_ne j "product" ("identity" ∷ []) (λ e. cc (eq_sym j "identity", i)),
              get?-add_dict,
              i,
              get?-pick_present,
              m,
            )
            (or_part _)
      | inr i ↦
          rw (get?-projection j n, get?-add_dict, get?-add_dict, i, get?-pick_present, m)
            (or_none ("product" == j) _)
    ]
  ]
