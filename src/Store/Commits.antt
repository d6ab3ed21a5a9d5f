-- ===== src/Store/Commits.antt =====
-- What an accepted operation has done: each one ends in a single `_commit`.
use sort4circ.Prelude.{
  ℕ, ◌+◌, ◌≡◌, refl, String, Bool, true, false, Option, Result, ok, err, ◌>>=◌, >>=-eq-ok, arith,
  Text, inl, inr, not, guard, guard-eq-ok, on_ok, ◌∙◌, ap, sym, ◌⊎◌, if◌then◌else◌,
}
use sort4circ.Prelude.Int.{pos}
use sort4circ.Reasons.{Error, raised, ident_duplicate_binding}
use sort4circ.Json.{Json, Items, Dict, int, str, arr, obj, get?, set, items_append}
use sort4circ.Json.Laws.{get?-set}
use sort4circ.Json.Shape.{text_at, nat_at}
use sort4circ.Env.{Env}
use sort4circ.Canonical.Digest.{digest}
use sort4circ.Validation.{validate_payload}
use sort4circ.Store.State.{Store, Io, require, committed, commit, accept, attempt}
use sort4circ.Store.Create.{with_defaults, is_registered, create}
use sort4circ.Store.Append.{value_of, collection_of, has_id, append}
use sort4circ.Store.Patch.{apply_patch, check_precondition, guard_append_only, next_version, patch}

-- `item` was committed under the key and the number that it carries.
pub record Committed (env : Env) (io : Io) (item : Dict) (s s' : Store) : Type 0 where
  pub id : String
  pub version : ℕ
  pub hash : String
  pub id_of : text_at "dppId" item ≡ ok id
  pub version_of : nat_at "recordVersion" item ≡ ok version
  pub hash_of : digest env item ≡ ok hash
  pub after : s' ≡ committed io id version hash item s

pub commit-eq-ok :
    (env : Env) (io : Io) (item : Dict) (s s' : Store)
    → commit env io item s ≡ ok s'
    → Committed env io item s s'
unfolding commit
commit-eq-ok env io item s s' h =
    let (id, p, h₁) = >>=-eq-ok (text_at "dppId" item) _ h in
    let (version, q, h₂) = >>=-eq-ok (nat_at "recordVersion" item) _ h₁ in
    let (hash, r, h₃) = >>=-eq-ok (digest env item) _ h₂ in
    record {
      id = id;
      version = version;
      hash = hash;
      id_of = p;
      version_of = q;
      hash_of = r;
      after = cc h₃;
    }

pub attempt-eq-ok {ℓ} :
    {A : Type ℓ} (s : Store) (r : Result Error (Store × A)) {a : A} {s' : Store}
    → attempt s r ≡ (ok a, s')
    → r ≡ ok (s', a)
attempt-eq-ok s (ok (t, b)) h = ground arith
attempt-eq-ok s (err e) h = ground arith

-- An operation that raises leaves the store as it was.
pub attempt-eq-err {ℓ} :
    {A : Type ℓ} (s : Store) (r : Result Error (Store × A)) {e : Error} {s' : Store}
    → attempt s r ≡ (err e, s')
    → s' ≡ s
attempt-eq-err s (ok (t, b)) h = ground arith
attempt-eq-err s (err e) h = ground arith

-- The record that `next_version` gives.
pub next_version-eq-ok :
    (io : Io) (item updated next : Dict)
    → next_version io item updated ≡ ok next
    → (version : ℕ) × (nat_at "recordVersion" item ≡ ok version)
      × (next
          ≡ set "updatedAt"
              (str (io.now 1))
              (set "recordVersion" (int (pos (version + 1))) updated))
unfolding next_version
next_version-eq-ok io item updated next h =
    let (version, p, h₁) = >>=-eq-ok (nat_at "recordVersion" item) _ h in (version, p, cc h₁)

pub nat_at-next :
    (time : Json) (n : ℕ) (updated : Dict)
    → nat_at "recordVersion" (set "updatedAt" time (set "recordVersion" (int (pos n)) updated))
      ≡ ok n
unfolding nat_at
nat_at-next time n updated = rw (get?-set, get?-set) refl

pub text_at-next :
    (time : Json) (n : ℕ) (updated : Dict)
    → text_at "dppId" (set "updatedAt" time (set "recordVersion" (int (pos n)) updated))
      ≡ text_at "dppId" updated
unfolding text_at
text_at-next time n updated = rw (get?-set, get?-set) refl

pub accept-eq-ok :
    (env : Env) (io : Io) (item stored : Dict) (s s' : Store)
    → accept env io item s ≡ ok (s', stored)
    → (stored ≡ item) × (validate_payload env item ≡ ok tt) × Committed env io item s s'
unfolding accept
accept-eq-ok env io item stored s s' h = on_ok (validate_payload env item) _ h λ u p h₁.
    on_ok (commit env io item s) _ h₁
      λ t q h₂. (cc h₂, p, commit-eq-ok env io item s s' (q ∙ cc h₂))

not-true : (b : Bool) → not b ≡ true → b ≡ false
not-true true h = cc
not-true false h = refl

module _ (env : Env) (io : Io) (s s' : Store) (item : Dict) where
  -- An accepted creation commits the completed payload under an identifier that was free.
  pub create-eq-ok :
      (payload : Dict)
      → create env io payload s ≡ (ok item, s')
      → (item ≡ with_defaults io payload)
        × (is_registered s (get? "dppId" (with_defaults io payload)) ≡ ok false)
        × (validate_payload env (with_defaults io payload) ≡ ok tt)
        × Committed env io (with_defaults io payload) s s'
  unfolding create
  create-eq-ok payload h =
      on_ok (is_registered s (get? "dppId" (with_defaults io payload))) _ (attempt-eq-ok s _ h)
        λ taken p h₁. on_ok (guard (not taken) (raised ident_duplicate_binding)) _ h₁ λ u q h₂.
          let (e, v, c) = accept-eq-ok env io (with_defaults io payload) item s s' h₂ in
          (e, p ∙ ap ok (not-true taken (guard-eq-ok _ _ q)), v, c)

  -- An accepted patch commits the patched record with the next version.
  pub patch-eq-ok :
      (id : String) (changes : Dict) (if_match : Option Text)
      → patch env io id changes if_match s ≡ (ok item, s')
      → (old : Dict) × (require id s ≡ ok old)
        × (check_precondition old if_match ≡ ok tt)
        × (guard_append_only old (apply_patch changes old) ≡ ok tt)
        × (next_version io old (apply_patch changes old) ≡ ok item)
        × (validate_payload env item ≡ ok tt)
        × Committed env io item s s'
  unfolding patch
  patch-eq-ok id changes if_match h = on_ok (require id s) _ (attempt-eq-ok s _ h) λ old p h₁.
      on_ok (check_precondition old if_match) _ h₁ λ u q h₂.
        on_ok (guard_append_only old (apply_patch changes old)) _ h₂ λ v r h₃.
          on_ok (next_version io old (apply_patch changes old)) _ h₃ λ next n h₄.
            let (e, w, c) = accept-eq-ok env io next item s s' h₄ in
            (old, p, q, r, n ∙ ap ok (sym e), rw e w, rw e c)

  -- An accepted append repeats an entry and changes nothing, or commits the extended record.
  pub append-eq-ok :
      (id collection id_field : String) (addition : Dict)
      → append env io id collection addition id_field s ≡ (ok item, s')
      → (old : Dict) × (existing : Items) × (require id s ≡ ok old)
        × (collection_of (get? collection old) ≡ ok existing)
        × (((has_id id_field (value_of id_field addition) existing ≡ ok true)
              × (item ≡ old)
              × (s' ≡ s))
            ⊎ ((has_id id_field (value_of id_field addition) existing ≡ ok false)
                × (next_version io old
                      (set collection (arr (items_append existing (obj addition))) old)
                    ≡ ok item)
                × Committed env io item s s'))
  unfolding append
  append-eq-ok id collection id_field addition h =
      on_ok (require id s) _ (attempt-eq-ok s _ h) λ old p h₁.
        on_ok (collection_of (get? collection old)) _ h₁ λ existing q h₂.
          on_ok (has_id id_field (value_of id_field addition) existing) _ h₂
            λ repeated r h₃. (old, existing, p, q, branch old existing repeated r h₃)
    where
      branch :
          (old : Dict) (existing : Items) (repeated : Bool)
          → has_id id_field (value_of id_field addition) existing ≡ ok repeated
          → (if repeated
              then ok (s, old)
              else (next_version io old
                    (set collection (arr (items_append existing (obj addition))) old)
                  >>= λ next. accept env io next s))
            ≡ ok (s', item)
          → ((has_id id_field (value_of id_field addition) existing ≡ ok true)
              × (item ≡ old)
              × (s' ≡ s))
            ⊎ ((has_id id_field (value_of id_field addition) existing ≡ ok false)
                × (next_version io old
                      (set collection (arr (items_append existing (obj addition))) old)
                    ≡ ok item)
                × Committed env io item s s')
      branch old existing true r h = inl (r, cc h, cc h)
      branch old existing false r h =
          on_ok
            (next_version io old (set collection (arr (items_append existing (obj addition))) old))
            _ h
            λ next n h₁.
              let (e, w, c) = accept-eq-ok env io next item s s' h₁ in
              inr (r, n ∙ ap ok (sym e), rw e c)

module _ (env : Env) (io : Io) (s s' : Store) where
  pub create-eq-err : (payload : Dict) {e : Error} → create env io payload s ≡ (err e, s') → s' ≡ s
  unfolding create
  create-eq-err payload h = attempt-eq-err s _ h

  pub patch-eq-err :
      (id : String) (changes : Dict) (if_match : Option Text) {e : Error}
      → patch env io id changes if_match s ≡ (err e, s')
      → s' ≡ s
  unfolding patch
  patch-eq-err id changes if_match h = attempt-eq-err s _ h

  pub append-eq-err :
      (id collection id_field : String) (addition : Dict) {e : Error}
      → append env io id collection addition id_field s ≡ (err e, s')
      → s' ≡ s
  unfolding append
  append-eq-err id collection id_field addition h = attempt-eq-err s _ h
