-- ===== src/Store/Steps.antt =====
-- The writes as a step relation, and what holds of every store that they reach.
use sort4circ.Prelude.{
  suc, ◌≡◌, refl, sym, subst, ap, ◌∙◌, String, false, Option, none, some, List, [], ◌∷◌, Result, ok,
  err, Text, arith, ◌==◌, lookup, length, inl, inr,
}
use sort4circ.Reasons.{Error}
use sort4circ.Json.{Json, Dict, empty, entry, null, bool, int, float, str, arr, obj, get?}
use sort4circ.Json.Laws.{get?-set, get?-set_default, get?-remove}
use sort4circ.Json.Shape.{text_at, nat_at}
use sort4circ.Env.{Env}
use sort4circ.Store.State.{Store, Io, require, history_of}
use sort4circ.Store.Patch.{patch_member, apply_patch, next_version, patch}
use sort4circ.Store.Append.{append}
use sort4circ.Store.Create.{with_defaults, is_registered, create}
use sort4circ.Store.Commits.{
  create-eq-err, patch-eq-err, append-eq-err, next_version-eq-ok, nat_at-next, text_at-next,
  create-eq-ok, patch-eq-ok, append-eq-ok,
}
use sort4circ.Store.Consistent.{Consistent, latest, latest-number, commit-Consistent}

-- The current record of a consistent store is its latest version.
pub require-latest :
    (env : Env) (s : Store) (id : String) (item : Dict)
    → Consistent env s
    → require id s ≡ ok item
    → (text_at "dppId" item ≡ ok id) × (nat_at "recordVersion" item ≡ ok (length (history_of id s)))
unfolding require
require-latest env s id item c h =
    let (a, b) =
      latest-number id 1 (history_of id s) item (c.numbered id) (ground (arith, c.current id)) in
    (a, b ∙ ap ok (omega arith))

patch_member_ne :
    (j k : String) (v : Json) (d : Dict) → (k == j) ≡ false → get? j (patch_member k v d) ≡ get? j d
unfolding patch_member
patch_member_ne j k null d h = rw (get?-remove, h) refl
patch_member_ne j k (obj v) d h = rw (get?-set, h) refl
patch_member_ne j k (bool b) d h = rw (get?-set, h) refl
patch_member_ne j k (int n) d h = rw (get?-set, h) refl
patch_member_ne j k (float x) d h = rw (get?-set, h) refl
patch_member_ne j k (str t) d h = rw (get?-set, h) refl
patch_member_ne j k (arr xs) d h = rw (get?-set, h) refl

-- A patch that does not name a key leaves its member.
pub get?-apply_patch :
    (j : String) (p d : Dict) → get? j p ≡ none → get? j (apply_patch p d) ≡ get? j d
unfolding get? apply_patch
get?-apply_patch j empty d h = refl
get?-apply_patch j (entry k v p) d h =
    ground (arith, get?-apply_patch j p (patch_member k v d), patch_member_ne j k v d)

-- The record that `next_version` gives carries the next number, and the identifier of its source.
pub next_version-number :
    (env : Env) (io : Io) (s : Store) (id : String) (old updated item : Dict)
    → Consistent env s
    → require id s ≡ ok old
    → get? "dppId" updated ≡ get? "dppId" old
    → next_version io old updated ≡ ok item
    → (text_at "dppId" item ≡ ok id)
      × (nat_at "recordVersion" item ≡ ok (suc (length (history_of id s))))
unfolding text_at
next_version-number env io s id old updated item c r same h =
    let (a, b) = require-latest env s id old c r in
    let (version, p, e) = next_version-eq-ok io old updated item h in
    let number : version ≡ length (history_of id s) = cc (p, b) in
    (rw (e, text_at-next) (rw same a), rw (e, nat_at-next) (ap ok (omega (arith, number))))

-- What a member read as a text is.
text_at-eq-ok : (k : String) (d : Dict) (t : String) → text_at k d ≡ ok t → get? k d ≡ some (str t)
unfolding text_at
text_at-eq-ok k d t h = ground arith

free_of_false :
    (s : Store) (id : String)
    → is_registered s (some (str id)) ≡ ok false
    → lookup id s.records ≡ none
unfolding is_registered
free_of_false s id h = ground arith

latest-eq-none : (versions : List Dict) → latest versions ≡ none → versions ≡ []
latest-eq-none [] h = refl
latest-eq-none (x ∷ []) h = cc
latest-eq-none (x ∷ y ∷ l) h = absurd (latest-cons_ne x y l h)
  where
    latest-cons_ne : (x y : Dict) (l : List Dict) → latest (y ∷ l) ≡ none → ⊥
    latest-cons_ne x y [] h = cc
    latest-cons_ne x y (z ∷ l) h = latest-cons_ne y z l h

nat_at-with_defaults :
    (io : Io) (payload : Dict) → nat_at "recordVersion" (with_defaults io payload) ≡ ok 1
unfolding nat_at with_defaults
nat_at-with_defaults io payload = rw (get?-set, get?-set_default, get?-set) refl

-- A free identifier has no history, so a creation has the first number.
created_number :
    (env : Env) (io : Io) (s : Store) (payload : Dict) (id : String)
    → Consistent env s
    → text_at "dppId" (with_defaults io payload) ≡ ok id
    → is_registered s (get? "dppId" (with_defaults io payload)) ≡ ok false
    → nat_at "recordVersion" (with_defaults io payload) ≡ ok (suc (length (history_of id s)))
created_number env io s payload id c named free =
    let taken = rw (text_at-eq-ok "dppId" (with_defaults io payload) id named) at free in
    let fresh = latest-eq-none (history_of id s) (sym (c.current id) ∙ free_of_false s id taken) in
    rw (fresh, nat_at-with_defaults) refl

module _ (env : Env) (io : Io) (s : Store) (c : Consistent env s) where
  pub create-Consistent : (payload : Dict) → Consistent env (create env io payload s).1
  create-Consistent payload = go (create env io payload s) refl
    where
      go : (r : Result Error Dict × Store) → create env io payload s ≡ r → Consistent env r.1
      go (ok item, s') e =
          let (same, free, _, k) = create-eq-ok env io s s' item payload e in
          commit-Consistent env io s s' (with_defaults io payload) k.id c k k.id_of
            (created_number env io s payload k.id c k.id_of free)
      go (err x, s') e = subst (Consistent env) (sym (create-eq-err env io s s' payload e)) c

  pub patch-Consistent :
      (id : String) (changes : Dict) (if_match : Option Text)
      → get? "dppId" changes ≡ none
      → Consistent env (patch env io id changes if_match s).1
  patch-Consistent id changes if_match free = go (patch env io id changes if_match s) refl
    where
      go :
          (r : Result Error Dict × Store)
          → patch env io id changes if_match s ≡ r
          → Consistent env r.1
      go (ok item, s') e =
          let (old, r, _, _, n, _, k) = patch-eq-ok env io s s' item id changes if_match e in
          let (a, b) =
            next_version-number env io s id old _ item c r
              (get?-apply_patch "dppId" changes old free) n in
          commit-Consistent env io s s' item id c k a b
      go (err x, s') e =
          subst (Consistent env) (sym (patch-eq-err env io s s' id changes if_match e)) c

  pub append-Consistent :
      (id collection id_field : String) (addition : Dict)
      → (collection == "dppId") ≡ false
      → Consistent env (append env io id collection addition id_field s).1
  append-Consistent id collection id_field addition other =
      go (append env io id collection addition id_field s) refl
    where
      go :
          (r : Result Error Dict × Store)
          → append env io id collection addition id_field s ≡ r
          → Consistent env r.1
      go (ok item, s') e =
          let (old, existing, r, _, outcome) =
            append-eq-ok env io s s' item id collection id_field addition e in
          elim outcome [
            | inl (_, _, same) ↦ subst (Consistent env) (sym same) c
            | inr (_, n, k) ↦
                let (a, b) =
                  next_version-number env io s id old _ item c r (rw (get?-set, other) refl) n in
                commit-Consistent env io s s' item id c k a b
          ]
      go (err x, s') e =
          subst (Consistent env) (sym (append-eq-err env io s s' id collection id_field addition e))
            c
