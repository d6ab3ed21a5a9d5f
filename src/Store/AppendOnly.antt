-- ===== src/Store/AppendOnly.antt =====
-- The append-only collections across an accepted patch.
use sort4circ.Prelude.{
  ℕ, ◌≤◌, ◌≡◌, refl, sym, ap, subst, ◌∙◌, String, true, false, not, Option, List, [], ◌∷◌, ok,
  on_ok, guard, guard-eq-ok, elem, ◌==◌, eq_iff, arith, ltb, Text, Bool-cases, inl, inr,
}
use sort4circ.Json.{Items, Dict, get?, items_length}
use sort4circ.Json.Laws.{get?-set}
use sort4circ.Json.Equality.{equal_items}
use sort4circ.Env.{Env}
use sort4circ.Store.State.{Store, Io, require}
use sort4circ.Store.Patch.{
  apply_patch, items_take, old_items, new_items, violation, guard_collection, guard_append_only,
  next_version, patch,
}
use sort4circ.Store.Commits.{patch-eq-ok, next_version-eq-ok}

-- The collections that `_guard_append_only` guards.
abbrev pub guarded : List String
guarded = "materialObservations" ∷ "lifecycleEvents" ∷ "sortingDecisions" ∷ "integrity" ∷ []

-- What holds of the four collections holds of each guarded one.
each_guarded {ℓ} :
    (P : String → Type ℓ) (c : String)
    → elem c guarded ≡ true
    → P "materialObservations"
    → P "lifecycleEvents"
    → P "sortingDecisions"
    → P "integrity"
    → P c
each_guarded P c m a b d e = elim (Bool-cases (c == "materialObservations")) [
  | inl p ↦ subst P (sym ((eq_iff c "materialObservations").0 p)) a
  | inr p ↦ elim (Bool-cases (c == "lifecycleEvents")) [
    | inl q ↦ subst P (sym ((eq_iff c "lifecycleEvents").0 q)) b
    | inr q ↦ elim (Bool-cases (c == "sortingDecisions")) [
      | inl r ↦ subst P (sym ((eq_iff c "sortingDecisions").0 r)) d
      | inr r ↦ elim (Bool-cases (c == "integrity")) [
        | inl t ↦ subst P (sym ((eq_iff c "integrity").0 t)) e
        | inr t ↦ absurd (none_left p q r t)
      ]
    ]
  ]
]
  where
    none_left :
        (c == "materialObservations") ≡ false
        → (c == "lifecycleEvents") ≡ false
        → (c == "sortingDecisions") ≡ false
        → (c == "integrity") ≡ false
        → ⊥
    none_left p q r t = let m' = rw (p, q, r, t) at m in cc m'

-- The collection of the later record starts with the entries of the earlier one.
pub record Extends (collection : String) (before after : Dict) : Type 0 where
  pub old : Items
  pub new : Items
  pub old_of : old_items (get? collection before) ≡ ok old
  pub new_of : new_items collection (items_length old) (get? collection after) ≡ ok new
  pub longer : items_length old ≤ items_length new
  pub same : equal_items (items_take (items_length old) new) old ≡ true

guard_collection-Extends :
    (before after : Dict) (collection : String) {u : Unit {0}}
    → guard_collection before after collection ≡ ok u
    → Extends collection before after
unfolding guard_collection
guard_collection-Extends before after collection h =
    on_ok (old_items (get? collection before)) _ h λ old p h₁.
      on_ok (new_items collection (items_length old) (get? collection after)) _ h₁ λ new q h₂.
        on_ok (guard (not (ltb (items_length new) (items_length old))) (violation collection)) _ h₂
          λ u r h₃. record {
            old = old;
            new = new;
            old_of = p;
            new_of = q;
            longer = at_least (guard-eq-ok _ _ r);
            same = guard-eq-ok _ _ h₃;
          }
  where
    at_least : {m n : ℕ} → not (ltb m n) ≡ true → n ≤ m
    at_least h = ground arith

guard_append_only-Extends :
    (before after : Dict) (collection : String) {u : Unit {0}}
    → guard_append_only before after ≡ ok u
    → elem collection guarded ≡ true
    → Extends collection before after
unfolding guard_append_only
guard_append_only-Extends before after collection h m =
    on_ok (guard_collection before after "materialObservations") _ h λ u p h₁.
      on_ok (guard_collection before after "lifecycleEvents") _ h₁ λ v q h₂.
        on_ok (guard_collection before after "sortingDecisions") _ h₂ λ w r h₃.
          each_guarded (λ c. Extends c before after) collection m
            (guard_collection-Extends before after "materialObservations" p)
            (guard_collection-Extends before after "lifecycleEvents" q)
            (guard_collection-Extends before after "sortingDecisions" r)
            (guard_collection-Extends before after "integrity" h₃)

-- A write of the version and of the time leaves the guarded collections.
next_version-kept :
    (io : Io) (old updated item : Dict) (collection : String)
    → next_version io old updated ≡ ok item
    → elem collection guarded ≡ true
    → get? collection item ≡ get? collection updated
next_version-kept io old updated item collection h m =
    let (n, _, e) = next_version-eq-ok io old updated item h in
    let p = each_guarded (λ c. ("updatedAt" == c) ≡ false) collection m refl refl refl refl in
    let q = each_guarded (λ c. ("recordVersion" == c) ≡ false) collection m refl refl refl refl in
    rw (e, get?-set, get?-set, p, q) refl

-- An accepted patch, whatever it names, keeps the entries of the four append-only collections: in
-- the stored record each collection is at least as long as before, and starts with entries that are
-- equal to the former ones.
pub patch-Extends :
    (env : Env) (io : Io) (id : String) (changes : Dict) (if_match : Option Text) (s s' : Store)
    (item : Dict) (collection : String)
    → patch env io id changes if_match s ≡ (ok item, s')
    → elem collection guarded ≡ true
    → (old : Dict) × (require id s ≡ ok old) × Extends collection old item
patch-Extends env io id changes if_match s s' item collection h m =
    let (old, found, _, guards, next, _, _) = patch-eq-ok env io s s' item id changes if_match h in
    let kept = guard_append_only-Extends old (apply_patch changes old) collection guards m in
    (
      old,
      found,
      record {
        old = kept.old;
        new = kept.new;
        old_of = kept.old_of;
        new_of =
            ap (new_items collection (items_length kept.old))
              (next_version-kept io old (apply_patch changes old) item collection next m)
            ∙ kept.new_of;
        longer = kept.longer;
        same = kept.same;
      },
    )
