-- ===== src/Store/Commissioning.antt =====
-- The contract of a commissioning: consistency, one commissioned carrier, and who may be resolved.
use sort4circ.Prelude.{
  suc, ◌≡◌, refl, sym, subst, ap, ◌∙◌, String, false, some, Result, ok, err, ◌==◌, lookup,
  lookup-insert, eq_refl, length, ◌⊎◌, on_ok, Bool-cases, ok_inj, inl, inr,
}
use sort4circ.Reasons.{Error, raised, ident_duplicate_binding}
use sort4circ.Json.{Items, Dict, arr, obj, get?, items_append}
use sort4circ.Json.Laws.{get?-set}
use sort4circ.Json.Shape.{text_at, nat_at}
use sort4circ.Env.{Env}
use sort4circ.Store.State.{Store, Io, require, history_of, committed}
use sort4circ.Store.Reads.{get, resolve_carrier}
use sort4circ.Store.Carriers.{
  replace_all, bind_index, is_foreign, check_owner, admission, commission_carrier,
}
use sort4circ.Store.Append.{collection_of}
use sort4circ.Store.Commits.{Committed, next_version-eq-ok}
use sort4circ.Store.Consistent.{Consistent, AllAnchored, AllAnchored-history, commit-Consistent}
use sort4circ.Store.Commissions.{
  SameBooks, count_commissioned, replace_all-SameBooks, replace_all-count,
}
use sort4circ.Store.Bindings.{
  Commissioned, commission-eq-ok, commission-eq-err, count_commissioned-append,
  binding_for-commissioned,
}
use sort4circ.Store.Steps.{next_version-number}

pub history_of-SameBooks :
    {s t : Store} (j : String) → SameBooks s t → history_of j t ≡ history_of j s
unfolding history_of
history_of-SameBooks j b = rw b.history refl

-- Consistency is about the records, the histories and the outbox only.
pub Consistent-SameBooks :
    {env : Env} {s t : Store} → SameBooks s t → Consistent env s → Consistent env t
Consistent-SameBooks {env} {s} {t} b c = record {
  numbered = λ id. rw (history_of-SameBooks id b) (c.numbered id);
  current = λ id. rw (history_of-SameBooks id b, b.records) (c.current id);
  anchored =
      subst (AllAnchored env t) (sym b.outbox)
        (AllAnchored-history env s t (λ id. history_of-SameBooks id b) s.outbox c.anchored);
}

bind_index-SameBooks : (encoded id : String) (s : Store) → SameBooks s (bind_index encoded id s)
bind_index-SameBooks encoded id s = record { records = refl; history = refl; outbox = refl }

-- The record that an admission reads.
pub admission-eq-ok :
    (id : String) (carrier : Dict) (s : Store) (old : Dict) (encoded : String) (carriers : Items)
    → admission id carrier s ≡ ok (old, encoded, carriers)
    → (require id s ≡ ok old)
      × (text_at "encodedIdentifier" carrier ≡ ok encoded)
      × (check_owner id encoded s ≡ ok tt)
unfolding admission
admission-eq-ok id carrier s old encoded carriers h = on_ok (require id s) _ h λ item p h₁.
    on_ok (text_at "encodedIdentifier" carrier) _ h₁ λ t q h₂.
      on_ok (check_owner id t s) _ h₂ λ u r h₃.
        on_ok (collection_of (get? "carriers" item)) _ h₃ λ found m h₄.
          let same : (item, t, found) ≡ (old, encoded, carriers) = ok_inj h₄ in
          (
            p ∙ ap ok (ap (λ (x : Dict × String × Items). x.0) same),
            q ∙ ap ok (ap (λ (x : Dict × String × Items). x.1) same),
            ap (λ (x : Dict × String × Items). check_owner id x.1 s) (sym same) ∙ r,
          )

record-Committed :
    (env : Env) (io : Io) (s s' : Store) (item : Dict) (id : String)
    → Committed env io item s s'
    → text_at "dppId" item ≡ ok id
    → lookup id s'.records ≡ some item
unfolding committed
record-Committed env io s s' item id c owned =
    let same : c.id ≡ id = cc (owned, c.id_of) in rw (c.after, same, lookup-insert, eq_refl id) refl

module _ (env : Env) (io : Io) (id : String) (carrier : Dict) (s : Store) (item : Dict) (s' : Store)
    (k : Commissioned env io id carrier s item s') where
  pub loop_books : SameBooks s k.released
  loop_books = ap-books k.loop
    where
      ap-books :
          replace_all io id 0 k.carriers s ≡ (ok k.replaced, k.released) → SameBooks s k.released
      ap-books e =
          subst (λ (r : Result Error Items × Store). SameBooks s r.1) e
            (replace_all-SameBooks io id 0 k.carriers s)

  current_record : require id s ≡ ok k.old
  current_record = (admission-eq-ok id carrier s k.old k.encoded k.carriers k.admitted).0

  bound_number :
      Consistent env s
      → (text_at "dppId" item ≡ ok id)
        × (nat_at "recordVersion" item ≡ ok (suc (length (history_of id k.released))))
  bound_number c = rw (history_of-SameBooks id loop_books) (
      next_version-number env io s id k.old k.bound.updated item c current_record k.bound.id_of
        k.bound.next_of)

  Commissioned-Consistent : Consistent env s → Consistent env s'
  Commissioned-Consistent c =
      let (a, b) = bound_number c in
      rw k.result (
        Consistent-SameBooks (bind_index-SameBooks k.encoded id k.after) (
          commit-Consistent env io k.released k.after item id (Consistent-SameBooks loop_books c)
            k.commits a b))

  Commissioned-carriers : get? "carriers" item ≡ get? "carriers" k.bound.updated
  Commissioned-carriers =
      let (n, p, e) = next_version-eq-ok io k.old k.bound.updated item k.bound.next_of in
      rw (e, get?-set, get?-set) refl

  Commissioned-count : count_commissioned (items_append k.replaced (obj k.bound.binding)) ≡ 1
  Commissioned-count =
      count_commissioned-append k.replaced k.bound.binding
        (binding_for-commissioned io _ k.encoded carrier k.bound.binding k.bound.binding_of)
      ∙ ap suc (
          replace_all-count io id 0 k.carriers k.replaced s
            (ap (λ (r : Result Error Items × Store). r.0) k.loop))

-- What `resolve_carrier` answers for the identifier that was commissioned.
resolve-bound :
    (encoded id : String) (s : Store)
    → lookup encoded s.carrier_index ≡ some id
    → resolve_carrier encoded s ≡ get id s
unfolding resolve_carrier
resolve-bound encoded id s h = rw h refl

-- On a consistent store, an accepted commissioning leaves a record with one commissioned carrier; that record is the
-- current one of the passport, and the identifier resolves to it.
pub commission_unique :
    (env : Env) (io : Io) (id : String) (carrier : Dict) (encoded : String) (s : Store)
    (item : Dict) (s' : Store)
    → text_at "encodedIdentifier" carrier ≡ ok encoded
    → Consistent env s
    → commission_carrier env io id carrier s ≡ (ok item, s')
    → (carriers : Items) × (get? "carriers" item ≡ some (arr carriers))
      × (count_commissioned carriers ≡ 1)
      × (lookup id s'.records ≡ some item)
      × (lookup encoded s'.carrier_index ≡ some id)
      × (resolve_carrier encoded s' ≡ get id s')
commission_unique env io id carrier encoded s item s' named c h =
    let k = commission-eq-ok env io id carrier s item s' h in
    let same : k.encoded ≡ encoded =
      cc ((admission-eq-ok id carrier s k.old k.encoded k.carriers k.admitted).1, named) in
    (
      items_append k.replaced (obj k.bound.binding),
      Commissioned-carriers env io id carrier s item s' k ∙ k.bound.carriers_of,
      Commissioned-count env io id carrier s item s' k,
      rw k.result (
          record-Committed env io k.released k.after item id k.commits
            (bound_number env io id carrier s item s' k c).0),
      entry_bound k same,
      resolve-bound encoded id s' (entry_bound k same),
    )
  where
    entry_bound :
        (k : Commissioned env io id carrier s item s')
        → k.encoded ≡ encoded
        → lookup encoded s'.carrier_index ≡ some id
    entry_bound k same = rw (k.result, same, lookup-insert, eq_refl encoded) refl

-- Whatever a commissioning answers, the store it leaves is consistent.
pub commission-Consistent :
    (env : Env) (io : Io) (id : String) (carrier : Dict) (s : Store)
    → Consistent env s
    → Consistent env (commission_carrier env io id carrier s).1
commission-Consistent env io id carrier s c = go (commission_carrier env io id carrier s) refl
  where
    go :
        (r : Result Error Dict × Store)
        → commission_carrier env io id carrier s ≡ r
        → Consistent env r.1
    go (ok item, s') e =
        Commissioned-Consistent env io id carrier s item s'
          (commission-eq-ok env io id carrier s item s' e) c
    go (err x, s') e = Consistent-SameBooks (commission-eq-err env io id carrier s x s' e) c

check_owner-foreign :
    (id other encoded : String) (s : Store)
    → (lookup encoded s.carrier_index ≡ some other)
      ⊎ (lookup encoded s.retired_carriers ≡ some other)
    → (other == id) ≡ false
    → check_owner id encoded s ≡ err (raised ident_duplicate_binding)
unfolding check_owner
check_owner-foreign id other encoded s (inl p) n = rw (p, n) refl
check_owner-foreign id other encoded s (inr p) n =
    elim (Bool-cases (is_foreign (lookup encoded s.carrier_index) id)) [
      | inl q ↦ rw q refl
      | inr q ↦ rw (q, p, n) refl
    ]

-- A commissioning, for a passport that exists, of an identifier that is bound to another passport,
-- now or before, is refused and nothing changes.
pub commission-foreign :
    (env : Env) (io : Io) (id other encoded : String) (carrier old : Dict) (s : Store)
    → require id s ≡ ok old
    → text_at "encodedIdentifier" carrier ≡ ok encoded
    → (lookup encoded s.carrier_index ≡ some other)
      ⊎ (lookup encoded s.retired_carriers ≡ some other)
    → (other == id) ≡ false
    → commission_carrier env io id carrier s ≡ (err (raised ident_duplicate_binding), s)
unfolding commission_carrier admission
commission-foreign env io id other encoded carrier old s found named bound other_ne =
    rw (found, named, check_owner-foreign id other encoded s bound other_ne) refl
