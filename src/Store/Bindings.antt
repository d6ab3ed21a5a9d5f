-- ===== src/Store/Bindings.antt =====
-- The record that a commissioning stores: the new binding, the identifier and the next version.
use sort4circ.Prelude.{
  ℕ, suc, ◌≡◌, refl, sym, ap, subst, ◌∙◌, String, true, false, Option, none, some, Result, ok, err,
  on_ok, ok_inj, arith, ◌==◌,
}
use sort4circ.Reasons.{Error}
use sort4circ.Json.{
  Json, Items, Dict, nil, cons, str, arr, obj, get?, set, items_append, items_length, null, bool,
  int, float,
}
use sort4circ.Json.Laws.{get?-set}
use sort4circ.Json.Shape.{json_at}
use sort4circ.Env.{Env}
use sort4circ.Store.State.{Store, Io, accept}
use sort4circ.Store.Patch.{next_version}
use sort4circ.Store.Carriers.{
  is_commissioned, replace_all, binding_for, set_epc, with_epc, set_optional, says, bound_record,
  bind_index, bind, admission, commission_carrier, bind_after, commission_admitted,
}
use sort4circ.Store.Commits.{Committed, accept-eq-ok, attempt-eq-ok, attempt-eq-err}
use sort4circ.Store.Commissions.{
  count_commissioned, SameBooks, SameBooks-refl, replace_all-SameBooks,
}

pub count_commissioned-append :
    (xs : Items) (d : Dict)
    → is_commissioned d ≡ true
    → count_commissioned (items_append xs (obj d)) ≡ suc (count_commissioned xs)
unfolding count_commissioned items_append
count_commissioned-append nil d h = rw h refl
count_commissioned-append (cons (obj e) xs) d h =
    rw (count_commissioned-append xs d h) (ground arith)
count_commissioned-append (cons null xs) d h = count_commissioned-append xs d h
count_commissioned-append (cons (bool b) xs) d h = count_commissioned-append xs d h
count_commissioned-append (cons (int n) xs) d h = count_commissioned-append xs d h
count_commissioned-append (cons (float x) xs) d h = count_commissioned-append xs d h
count_commissioned-append (cons (str t) xs) d h = count_commissioned-append xs d h
count_commissioned-append (cons (arr ys) xs) d h = count_commissioned-append xs d h

get?-set_optional :
    (j k : String) (o : Option Json) (binding : Dict)
    → (k == j) ≡ false
    → get? j (set_optional k o binding) ≡ get? j binding
get?-set_optional j k none binding h = refl
get?-set_optional j k (some v) binding h = rw (get?-set, h) refl

-- The new binding is commissioned.
pub binding_for-commissioned :
    (io : Io) (i : ℕ) (encoded : String) (carrier binding : Dict)
    → binding_for io i encoded carrier ≡ ok binding
    → is_commissioned binding ≡ true
unfolding binding_for is_commissioned get?
binding_for-commissioned io i encoded carrier binding h =
    on_ok (json_at "carrierType" carrier) _ h λ carrier_type p h₁.
      on_ok (json_at "encodingScheme" carrier) _ h₁ λ scheme q h₂.
        on_ok (json_at "boundBy" carrier) _ h₂ λ bound_by r h₃. ap (says "commissioned") (
          ap (get? "bindingStatus") (sym (ok_inj h₃))
          ∙ get?-set_optional "bindingStatus" "placement" (get? "placement" carrier) _ refl
          ∙ get?-set_optional "bindingStatus" "resolverUri" (get? "resolverUri" carrier) _ refl)

with_epc-other :
    (encoded j : String) (d e : Dict) (o : Option Json)
    → ("identity" == j) ≡ false
    → with_epc encoded d o ≡ ok e
    → get? j e ≡ get? j d
with_epc-other encoded j d e none n h = rw (← ok_inj h, get?-set, n) refl
with_epc-other encoded j d e (some (obj x)) n h = rw (← ok_inj h, get?-set, n) refl
with_epc-other encoded j d e (some null) n h = absurd (cc)
with_epc-other encoded j d e (some (bool x)) n h = absurd (cc)
with_epc-other encoded j d e (some (int x)) n h = absurd (cc)
with_epc-other encoded j d e (some (float x)) n h = absurd (cc)
with_epc-other encoded j d e (some (str x)) n h = absurd (cc)
with_epc-other encoded j d e (some (arr x)) n h = absurd (cc)

-- The parts of a bound record.
pub record Bound (io : Io) (encoded : String) (carrier old : Dict) (replaced : Items) (item : Dict)
    : Type 0 where
  pub binding : Dict
  pub updated : Dict
  pub binding_of : binding_for io (items_length replaced) encoded carrier ≡ ok binding
  pub carriers_of : get? "carriers" updated ≡ some (arr (items_append replaced (obj binding)))
  pub id_of : get? "dppId" updated ≡ get? "dppId" old
  pub next_of : next_version io old updated ≡ ok item

pub bound_record-eq-ok :
    (io : Io) (encoded : String) (carrier old : Dict) (replaced : Items) (item : Dict)
    → bound_record io encoded carrier old replaced ≡ ok item
    → Bound io encoded carrier old replaced item
unfolding bound_record set_epc
bound_record-eq-ok io encoded carrier old replaced item h =
    on_ok (binding_for io (items_length replaced) encoded carrier) _ h λ binding p h₁.
      let placed = set "carriers" (arr (items_append replaced (obj binding))) old in
      on_ok (set_epc encoded placed) _ h₁ λ updated q next. record {
        binding = binding;
        updated = updated;
        binding_of = p;
        carriers_of =
            with_epc-other encoded "carriers" placed updated (get? "identity" placed) refl q
            ∙ rw get?-set refl;
        id_of =
            with_epc-other encoded "dppId" placed updated (get? "identity" placed) refl q
            ∙ rw get?-set refl;
        next_of = next;
      }

-- What an accepted commissioning has done.
pub record Commissioned (env : Env) (io : Io) (id : String) (carrier : Dict) (s : Store)
    (item : Dict) (s' : Store) : Type 0 where
  pub old : Dict
  pub encoded : String
  pub carriers : Items
  pub replaced : Items
  pub released : Store
  pub after : Store
  pub admitted : admission id carrier s ≡ ok (old, encoded, carriers)
  pub loop : replace_all io id 0 carriers s ≡ (ok replaced, released)
  pub bound : Bound io encoded carrier old replaced item
  pub commits : Committed env io item released after
  pub result : s' ≡ bind_index encoded id after

bind_after-eq-ok :
    (env : Env) (io : Io) (id encoded : String) (carrier old : Dict)
    (r : Result Error Items × Store) (item : Dict) (s' : Store)
    → bind_after env io id encoded carrier old r ≡ (ok item, s')
    → (replaced : Items) × (released : Store) × (r ≡ (ok replaced, released))
      × (bind env io id encoded carrier old replaced released ≡ ok (s', item))
bind_after-eq-ok env io id encoded carrier old (err e, t) item s' h = absurd (cc)
bind_after-eq-ok env io id encoded carrier old (ok replaced, t) item s' h =
    (replaced, t, refl, attempt-eq-ok t _ h)

commission_admitted-eq-ok :
    (env : Env) (io : Io) (id : String) (carrier : Dict) (s : Store)
    (r : Result Error (Dict × String × Items)) (item : Dict) (s' : Store)
    → admission id carrier s ≡ r
    → commission_admitted env io id carrier s r ≡ (ok item, s')
    → Commissioned env io id carrier s item s'
unfolding bind
commission_admitted-eq-ok env io id carrier s (err e) item s' a h = absurd (cc)
commission_admitted-eq-ok env io id carrier s (ok (old, encoded, carriers)) item s' a h =
    let (replaced, released, l, b) = bind_after-eq-ok env io id encoded carrier old _ item s' h in
    on_ok (bound_record io encoded carrier old replaced) _ b λ next p b₁.
      on_ok (accept env io next released) _ b₁ λ (t, stored) q b₂.
        let (e, _, c) = accept-eq-ok env io next stored released t q in
        let same : item ≡ next = cc (b₂, e) in
        record {
          old = old;
          encoded = encoded;
          carriers = carriers;
          replaced = replaced;
          released = released;
          after = t;
          admitted = a;
          loop = l;
          bound = rw same (bound_record-eq-ok io encoded carrier old replaced next p);
          commits = rw same c;
          result = cc b₂;
        }

pub commission-eq-ok :
    (env : Env) (io : Io) (id : String) (carrier : Dict) (s : Store) (item : Dict) (s' : Store)
    → commission_carrier env io id carrier s ≡ (ok item, s')
    → Commissioned env io id carrier s item s'
unfolding commission_carrier
commission-eq-ok env io id carrier s item s' h =
    commission_admitted-eq-ok env io id carrier s (admission id carrier s) item s' refl h

bind_after-SameBooks :
    (env : Env) (io : Io) (id encoded : String) (carrier old : Dict)
    (r : Result Error Items × Store) (e : Error) (s s' : Store)
    → SameBooks s r.1
    → bind_after env io id encoded carrier old r ≡ (err e, s')
    → SameBooks s s'
bind_after-SameBooks env io id encoded carrier old (err x, t) e s s' a h =
    subst (SameBooks s) (cc h) a
bind_after-SameBooks env io id encoded carrier old (ok replaced, t) e s s' a h =
    subst (SameBooks s) (sym (attempt-eq-err t _ h)) a

commission_admitted-SameBooks :
    (env : Env) (io : Io) (id : String) (carrier : Dict) (s : Store)
    (r : Result Error (Dict × String × Items)) (e : Error) (s' : Store)
    → commission_admitted env io id carrier s r ≡ (err e, s')
    → SameBooks s s'
commission_admitted-SameBooks env io id carrier s (err x) e s' h =
    subst (SameBooks s) (cc h) (SameBooks-refl s)
commission_admitted-SameBooks env io id carrier s (ok (old, encoded, carriers)) e s' h =
    bind_after-SameBooks env io id encoded carrier old (replace_all io id 0 carriers s) e s s'
      (replace_all-SameBooks io id 0 carriers s) h

-- A commissioning that raises leaves the records, their histories and the outbox as they
-- were; it may change the carrier maps.
pub commission-eq-err :
    (env : Env) (io : Io) (id : String) (carrier : Dict) (s : Store) (e : Error) (s' : Store)
    → commission_carrier env io id carrier s ≡ (err e, s')
    → SameBooks s s'
unfolding commission_carrier
commission-eq-err env io id carrier s e s' h =
    commission_admitted-SameBooks env io id carrier s (admission id carrier s) e s' h
