-- ===== src/Access/Writes.antt =====
-- What a patch that access control lets through may touch.
use sort4circ.Prelude.{
  ◌≡◌, refl, String, true, false, not, none, some, List, [], ◌∷◌, ok, on_ok, guard, guard-eq-ok,
  ◌⊎◌, ◌≢◌, inl, inr, elem, ◌==◌, eq_iff, arith, if◌then◌else◌, codes,
}
use sort4circ.Reasons.{dpp_error, state_append_only_violation, authz_operation_forbidden}
use sort4circ.Json.{Json, Dict, empty, entry, get?}
use sort4circ.Store.Patch.{apply_patch}
use sort4circ.Store.Steps.{get?-apply_patch}
use sort4circ.Access.{
  Role, brand, administrator, Principal, brand_keys, append_only_keys, check_keys,
  check_patch_paths, check_for, public, consumer, collector, sorting_operator, pssr_system,
  recycler, authority, integrity_verifier,
}

-- A patch whose keys are allowed names no other key.
check_keys-other :
    (allowed : List String) (j : String) (patch : Dict)
    → check_keys allowed patch ≡ ok tt
    → elem j allowed ≡ false
    → get? j patch ≡ none
unfolding check_keys get?
check_keys-other allowed j empty h n = refl
check_keys-other allowed j (entry k v patch) h n =
    on_ok
      (guard (not (elem k append_only_keys)) (dpp_error state_append_only_violation (codes k ∷ [])))
      _ h
      λ u p h₁.
        on_ok (guard (elem k allowed) (dpp_error authz_operation_forbidden (codes k ∷ []))) _ h₁
          λ w q h₂. named (guard-eq-ok (elem k allowed) _ q) (check_keys-other allowed j patch h₂ n)
  where
    named :
        elem k allowed ≡ true
        → get? j patch ≡ none
        → (if k == j then some v else get? j patch) ≡ none
    named q r = ground (arith, eq_iff k j)

check_for-brand :
    (role : Role) (patch : Dict)
    → check_for role patch ≡ ok tt
    → (role ≡ administrator) ⊎ ((role ≡ brand) × (check_keys brand_keys patch ≡ ok tt))
check_for-brand administrator patch h = inl refl
check_for-brand brand patch h = inr (refl, h)
check_for-brand public patch h = absurd (cc)
check_for-brand consumer patch h = absurd (cc)
check_for-brand collector patch h = absurd (cc)
check_for-brand sorting_operator patch h = absurd (cc)
check_for-brand pssr_system patch h = absurd (cc)
check_for-brand recycler patch h = absurd (cc)
check_for-brand authority patch h = absurd (cc)
check_for-brand integrity_verifier patch h = absurd (cc)

-- A patch of the identity alone is let through for a brand, whatever it changes there.
identity_admitted :
    (p : Principal) (v : Json)
    → p.role ≡ brand
    → check_patch_paths p (entry "identity" v empty) ≡ ok tt
unfolding check_patch_paths check_keys
identity_admitted p v e = rw e refl

-- A patch that access control lets through for a caller who is no administrator comes from a brand,
-- and applying it to a record leaves every top-level member other than product, identity, registryIdentifier and
-- environmentalValues. Below these four nothing is checked: a patch of the identity alone is let through for such a
-- caller whatever it changes there, the epc and the itemId included, although WRITABLE_PATHS names
-- identity.sourceRecordId only.
pub check_patch_paths-kept :
    (p : Principal) (patch record_before : Dict) (k : String)
    → check_patch_paths p patch ≡ ok tt
    → p.role ≢ administrator
    → elem k brand_keys ≡ false
    → (p.role ≡ brand)
      × (get? k (apply_patch patch record_before) ≡ get? k record_before)
      × ((v : Json) → check_patch_paths p (entry "identity" v empty) ≡ ok tt)
unfolding check_patch_paths
check_patch_paths-kept p patch record_before k h n free = elim (check_for-brand p.role patch h) [
  | inl e ↦ absurd (n e)
  | inr (e, c) ↦ (
    e,
    get?-apply_patch k patch record_before (check_keys-other brand_keys k patch c free),
    λ v. identity_admitted p v e,
  )
]
