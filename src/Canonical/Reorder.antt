-- ===== src/Canonical/Reorder.antt =====
-- The canonical text does not depend on the order in which the members of an object were inserted,
-- at any depth.
use sort4circ.Prelude.{
  ◌≡◌, refl, sym, ap, ◌≢◌, ◌∙◌, String, true, false, List, [], ◌∷◌, Result, ok, err, ◌>>=◌, inl,
  inr, arith, Result-cases,
}
use sort4circ.Json.{
  Json, Items, Dict, null, bool, int, float, str, finite, infinite, nan, arr, obj, nil, cons, empty,
  entry,
}
use sort4circ.Env.{Env}
use sort4circ.Reasons.{Error, canonicalisation_error}
use sort4circ.Canonical.Keys.{Member, sort_key, insert_member, sorted}
use sort4circ.Canonical.Order.{bytes_le_total, bytes_le_antisymm, bytes_le_trans, sort_key_inj}
use sort4circ.Canonical.Text.{float_text}
use sort4circ.Canonical.Serialise.{
  braces, object_text, canonicalise, canonicalise_items, canonicalise_members,
}

insert_member_comm :
    (m n : Member) (l : List Member)
    → sort_key m ≢ sort_key n
    → insert_member m (insert_member n l) ≡ insert_member n (insert_member m l)
unfolding insert_member
insert_member_comm m n [] h =
    ground
      (arith, bytes_le_total (sort_key m) (sort_key n), bytes_le_antisymm (sort_key m) (sort_key n))
insert_member_comm m n (x ∷ l) h = ground (
  arith,
  insert_member_comm m n l h,
  bytes_le_total (sort_key m) (sort_key n),
  bytes_le_antisymm (sort_key m) (sort_key n),
  bytes_le_trans (sort_key m) (sort_key n) (sort_key x),
  bytes_le_trans (sort_key n) (sort_key m) (sort_key x),
  bytes_le_total (sort_key m) (sort_key x),
  bytes_le_total (sort_key n) (sort_key x),
  bytes_le_trans (sort_key m) (sort_key x) (sort_key n),
  bytes_le_trans (sort_key n) (sort_key x) (sort_key m),
)

-- Two values that differ in the insertion order of their objects' members only.
mutual
  pub data Reordered : Json → Json → Type 0 where
    same : (v : Json) → Reordered v v
    in_arr : {xs ys : Items} → ReorderedItems xs ys → Reordered (arr xs) (arr ys)
    in_obj : {d e : Dict} → ReorderedDict d e → Reordered (obj d) (obj e)

  pub data ReorderedItems : Items → Items → Type 0 where
    none_left : ReorderedItems nil nil
    both_cons :
        {x y : Json} {xs ys : Items}
        → Reordered x y
        → ReorderedItems xs ys
        → ReorderedItems (cons x xs) (cons y ys)

  pub data ReorderedDict : Dict → Dict → Type 0 where
    ended : ReorderedDict empty empty
    keep :
        (k : String) {v w : Json} {d e : Dict}
        → Reordered v w
        → ReorderedDict d e
        → ReorderedDict (entry k v d) (entry k w e)
    swap :
        (j k : String) (v w : Json) (d : Dict)
        → j ≢ k
        → ReorderedDict (entry j v (entry k w d)) (entry k w (entry j v d))
    chain : {d e f : Dict} → ReorderedDict d e → ReorderedDict e f → ReorderedDict d f

-- A failure is always the same exception.
mutual
  unfolding canonicalise float_text

  canonicalise_error :
      (env : Env) (v : Json) (e : Error) → canonicalise env v ≡ err e → e ≡ canonicalisation_error
  canonicalise_error env null e h = cc
  canonicalise_error env (bool true) e h = cc
  canonicalise_error env (bool false) e h = cc
  canonicalise_error env (int n) e h = cc
  canonicalise_error env (float (finite m k)) e h = ground arith
  canonicalise_error env (float nan) e h = cc
  canonicalise_error env (float (infinite b)) e h = cc
  canonicalise_error env (str s) e h = cc
  canonicalise_error env (arr xs) e h = ground (arith, items_error env xs e)
  canonicalise_error env (obj d) e h = ground (arith, members_error env d e)

  items_error :
      (env : Env) (xs : Items) (e : Error)
      → canonicalise_items env xs ≡ err e
      → e ≡ canonicalisation_error
  items_error env nil e h = cc
  items_error env (cons x xs) e h = ground (arith, canonicalise_error env x e, items_error env xs e)

  members_error :
      (env : Env) (d : Dict) (e : Error)
      → canonicalise_members env d ≡ err e
      → e ≡ canonicalisation_error
  members_error env empty e h = cc
  members_error env (entry k v d) e h =
      ground (arith, canonicalise_error env v e, members_error env d e)

-- The members of a dict, serialised and sorted.
sorted_members : Env → Dict → Result Error (List Member)
sorted_members env d = do l ← canonicalise_members env d; ok (sorted l)

sorted_members-swap :
    (env : Env) (j k : String) (v w : Json) (d : Dict)
    → j ≢ k
    → sorted_members env (entry j v (entry k w d)) ≡ sorted_members env (entry k w (entry j v d))
unfolding sorted_members canonicalise_members sorted
sorted_members-swap env j k v w d h = elim (Result-cases (canonicalise env v)) [
  | inl (t, p) ↦ elim (Result-cases (canonicalise env w)) [
    | inl (u, q) ↦ elim (Result-cases (canonicalise_members env d)) [
      | inl (l, r) ↦
          rw (p, q, r)
            (ap ok
              (insert_member_comm (j, t) (k, u) (sorted l) (λ e. h (sort_key_inj (j, t) (k, u) e))))
      | inr (e, r) ↦ rw (p, q, r) refl
    ]
    | inr (e, q) ↦ rw (p, q) refl
  ]
  | inr (e, p) ↦ elim (Result-cases (canonicalise env w)) [
    | inl (u, q) ↦ rw (p, q) refl
    | inr (f, q) ↦
        rw (p, q) (ap err (canonicalise_error env v e p ∙ sym (canonicalise_error env w f q)))
  ]
]

sorted_members-entry :
    (env : Env) (k : String) (v : Json) (d : Dict)
    → sorted_members env (entry k v d)
      ≡ (canonicalise env v >>= λ t. sorted_members env d >>= λ l. ok (insert_member (k, t) l))
unfolding sorted_members canonicalise_members sorted
sorted_members-entry env k v d = elim (Result-cases (canonicalise env v)) [
  | inl (t, p) ↦ elim (Result-cases (canonicalise_members env d)) [
    | inl (l, r) ↦ rw (p, r) refl
    | inr (e, r) ↦ rw (p, r) refl
  ]
  | inr (e, p) ↦ rw p refl
]

canonicalise-obj :
    (env : Env) (d : Dict)
    → canonicalise env (obj d) ≡ (sorted_members env d >>= λ l. ok (braces l))
unfolding sorted_members canonicalise object_text
canonicalise-obj env d = elim (Result-cases (canonicalise_members env d)) [
  | inl (l, r) ↦ rw r refl
  | inr (e, r) ↦ rw r refl
]

mutual
  unfolding canonicalise

  reordered : (env : Env) {v w : Json} → Reordered v w → canonicalise env v ≡ canonicalise env w
  reordered env (same _) = refl
  reordered env (in_arr r) = rw (reordered_items env r) refl
  reordered env (in_obj {d = d} {e = e} r) =
      rw (canonicalise-obj env d, canonicalise-obj env e, reordered_dict env r) refl

  reordered_items :
      (env : Env) {xs ys : Items}
      → ReorderedItems xs ys
      → canonicalise_items env xs ≡ canonicalise_items env ys
  reordered_items env none_left = refl
  reordered_items env (both_cons p r) = rw (reordered env p, reordered_items env r) refl

  reordered_dict :
      (env : Env) {d e : Dict} → ReorderedDict d e → sorted_members env d ≡ sorted_members env e
  reordered_dict env ended = refl
  reordered_dict env (keep k {v = v} {w = w} {d = d} {e = e} p r) =
      rw (sorted_members-entry env k v d, reordered env p, reordered_dict env r)
        (sym (sorted_members-entry env k w e))
  reordered_dict env (swap j k v w d h) = sorted_members-swap env j k v w d h
  reordered_dict env (chain r s) = reordered_dict env r ∙ reordered_dict env s

-- Two values that differ in the insertion order of their objects' members only, at any depth, have
-- the same canonical text, or fail in the same way.
pub canonicalise-Reordered :
    (env : Env) (v w : Json) → Reordered v w → canonicalise env v ≡ canonicalise env w
canonicalise-Reordered env v w r = reordered env r
