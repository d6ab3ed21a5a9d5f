-- ===== src/Store/Ownership.antt =====
-- Who owns the identifier of a carrier, after it was commissioned.
use sort4circ.Prelude.{
  ℕ, ◌+◌, ◌≡◌, refl, sym, ap, subst, String, false, Option, some, Result, ok, err, Text, ◌==◌,
  Bool-cases, inl, inr, ◌⊎◌, Result-cases, lookup, lookup-insert, lookup-erase, on_ok, ok_inj,
}
use sort4circ.Reasons.{Error, raised, ident_duplicate_binding}
use sort4circ.Json.{Json, Items, Dict, nil, cons}
use sort4circ.Json.Shape.{text_at, as_dict}
use sort4circ.Env.{Env}
use sort4circ.Store.State.{Store, Io, require, committed, accept, attempt}
use sort4circ.Store.Create.{create}
use sort4circ.Store.Patch.{patch}
use sort4circ.Store.Append.{append}
use sort4circ.Store.Carriers.{
  is_commissioned, release, replace_one, replace_all, and_then, bind_index, bound_record, bind,
  bind_after, admission, commission_admitted, commission_carrier,
}
use sort4circ.Store.Commits.{
  Committed, accept-eq-ok, create-eq-ok, patch-eq-ok, append-eq-ok, create-eq-err, patch-eq-err,
  append-eq-err,
}
use sort4circ.Store.Consistent.{Consistent}
use sort4circ.Store.Commissioning.{commission_unique, commission-foreign}

-- The identifier is bound to the passport, or was released from it.
abbrev pub Owned : String → String → Store → Type 0
Owned encoded owner s =
    (lookup encoded s.carrier_index ≡ some owner) ⊎ (lookup encoded s.retired_carriers ≡ some owner)

-- A write that is no commissioning of another passport.
pub data OwnStep (env : Env) (owner : String) : Store → Store → Type 0 where
  created : (io : Io) (payload : Dict) {s : Store} → OwnStep env owner s (create env io payload s).1
  patched :
      (io : Io) (id : String) (changes : Dict) (if_match : Option Text) {s : Store}
      → OwnStep env owner s (patch env io id changes if_match s).1
  appended :
      (io : Io) (id collection id_field : String) (addition : Dict) {s : Store}
      → OwnStep env owner s (append env io id collection addition id_field s).1
  commissioned :
      (io : Io) (carrier : Dict) {s : Store}
      → OwnStep env owner s (commission_carrier env io owner carrier s).1

pub data OwnRun (env : Env) (owner : String) : Store → Store → Type 0 where
  stop : {s : Store} → OwnRun env owner s s
  more : {s t u : Store} → OwnStep env owner s t → OwnRun env owner t u → OwnRun env owner s u

module _ (encoded owner : String) where
  Owned-Committed :
      {env : Env} {io : Io} {item : Dict} {s s' : Store}
      → Committed env io item s s'
      → Owned encoded owner s
      → Owned encoded owner s'
  unfolding committed
  Owned-Committed c o = rw c.after o

  Owned-same : {s t : Store} → t ≡ s → Owned encoded owner s → Owned encoded owner t
  Owned-same e o = subst (Owned encoded owner) (sym e) o

  -- A release by the owner of this or of another identifier.
  Owned-release :
      (other : String) (s : Store)
      → Owned encoded owner s
      → Owned encoded owner (release owner other s)
  unfolding release
  Owned-release other s o = elim (Bool-cases (other == encoded)) [
    | inl p ↦ inr (rw (lookup-insert, p) refl)
    | inr p ↦ elim o [
      | inl q ↦ inl (rw (lookup-erase, p) q)
      | inr q ↦ inr (rw (lookup-insert, p) q)
    ]
  ]

  Owned-bind_index :
      (other : String) (s : Store)
      → Owned encoded owner s
      → Owned encoded owner (bind_index other owner s)
  Owned-bind_index other s o = elim (Bool-cases (other == encoded)) [
    | inl p ↦ inl (rw (lookup-insert, p) refl)
    | inr p ↦ elim o [ inl q ↦ inl (rw (lookup-insert, p) q) | inr q ↦ inr q ]
  ]

  replace_one-store :
      (io : Io) (i : ℕ) (x : Json) (s : Store)
      → ((replace_one io owner i x s).1 ≡ s)
        ⊎ ((other : String) × ((replace_one io owner i x s).1 ≡ release owner other s))
  unfolding replace_one
  replace_one-store io i x s = elim (Result-cases (as_dict x)) [
    | inr (e, p) ↦ inl (rw (replace_one, p) refl)
    | inl (d, p) ↦ elim (Bool-cases (is_commissioned d)) [
      | inr q ↦ inl (rw (replace_one, p, q) refl)
      | inl q ↦ elim (Result-cases (text_at "encodedIdentifier" d)) [
        | inr (e, r) ↦ inl (rw (replace_one, p, q, r) refl)
        | inl (other, r) ↦ inr (other, rw (replace_one, p, q, r) refl)
      ]
    ]
  ]

  Owned-replace_one :
      (io : Io) (i : ℕ) (x : Json) (s : Store)
      → Owned encoded owner s
      → Owned encoded owner (replace_one io owner i x s).1
  Owned-replace_one io i x s o = elim (replace_one-store io i x s) [
    | inl e ↦ Owned-same e o
    | inr (other, e) ↦ Owned-same e (Owned-release other s o)
  ]

  and_then-Owned :
      (r : Result Error Json) (s : Store) (rest : Result Error Items × Store)
      → Owned encoded owner s
      → Owned encoded owner rest.1
      → Owned encoded owner (and_then r s rest).1
  and_then-Owned (ok y) s (x, u) a b = b
  and_then-Owned (err e) s (x, u) a b = a

  Owned-replace_all :
      (io : Io) (i : ℕ) (xs : Items) (s : Store)
      → Owned encoded owner s
      → Owned encoded owner (replace_all io owner i xs s).1
  unfolding replace_all
  Owned-replace_all io i nil s o = o
  Owned-replace_all io i (cons x xs) s o =
      let one = Owned-replace_one io i x s o in
      let t = (replace_one io owner i x s).1 in
      and_then-Owned (replace_one io owner i x s).0 t (replace_all io owner (i + 1) xs t) one
        (Owned-replace_all io (i + 1) xs t one)

  Owned-bind :
      (env : Env) (io : Io) (other : String) (carrier item : Dict) (replaced : Items) (s s' : Store)
      (stored : Dict)
      → bind env io owner other carrier item replaced s ≡ ok (s', stored)
      → Owned encoded owner s
      → Owned encoded owner s'
  unfolding bind
  Owned-bind env io other carrier item replaced s s' stored h o =
      on_ok (bound_record io other carrier item replaced) _ h λ next p h₁.
        on_ok (accept env io next s) _ h₁ λ (t, kept) q h₂.
          let (_, _, c) = accept-eq-ok env io next kept s t q in
          Owned-same (sym (ap (λ (x : Store × Dict). x.0) (ok_inj h₂)))
            (Owned-bind_index other t (Owned-Committed c o))

  attempt-Owned :
      (s : Store) (r : Result Error (Store × Dict))
      → Owned encoded owner s
      → ((t : Store) (a : Dict) → r ≡ ok (t, a) → Owned encoded owner t)
      → Owned encoded owner (attempt s r).1
  attempt-Owned s (ok (t, a)) o k = k t a refl
  attempt-Owned s (err e) o k = o

  bind_after-Owned :
      (env : Env) (io : Io) (other : String) (carrier item : Dict) (r : Result Error Items × Store)
      → Owned encoded owner r.1
      → Owned encoded owner (bind_after env io owner other carrier item r).1
  bind_after-Owned env io other carrier item (err e, s) o = o
  bind_after-Owned env io other carrier item (ok replaced, s) o =
      attempt-Owned s _ o λ t stored h. Owned-bind env io other carrier item replaced s t stored h o

  admitted-Owned :
      (env : Env) (io : Io) (carrier : Dict) (s : Store) (r : Result Error (Dict × String × Items))
      → Owned encoded owner s
      → Owned encoded owner (commission_admitted env io owner carrier s r).1
  admitted-Owned env io carrier s (err e) o = o
  admitted-Owned env io carrier s (ok (item, other, carriers)) o =
      bind_after-Owned env io other carrier item (replace_all io owner 0 carriers s)
        (Owned-replace_all io 0 carriers s o)

  created-Owned :
      (env : Env) (io : Io) (payload : Dict) (s : Store) (r : Result Error Dict × Store)
      → create env io payload s ≡ r
      → Owned encoded owner s
      → Owned encoded owner r.1
  created-Owned env io payload s (ok item, s') e =
      Owned-Committed (create-eq-ok env io s s' item payload e).3
  created-Owned env io payload s (err x, s') e = Owned-same (create-eq-err env io s s' payload e)

  patched-Owned :
      (env : Env) (io : Io) (id : String) (changes : Dict) (if_match : Option Text) (s : Store)
      (r : Result Error Dict × Store)
      → patch env io id changes if_match s ≡ r
      → Owned encoded owner s
      → Owned encoded owner r.1
  patched-Owned env io id changes if_match s (ok item, s') e =
      Owned-Committed (patch-eq-ok env io s s' item id changes if_match e).6
  patched-Owned env io id changes if_match s (err x, s') e =
      Owned-same (patch-eq-err env io s s' id changes if_match e)

  appended-Owned :
      (env : Env) (io : Io) (id collection id_field : String) (addition : Dict) (s : Store)
      (r : Result Error Dict × Store)
      → append env io id collection addition id_field s ≡ r
      → Owned encoded owner s
      → Owned encoded owner r.1
  appended-Owned env io id collection id_field addition s (ok item, s') e =
      let (_, _, _, _, outcome) = append-eq-ok env io s s' item id collection id_field addition e in
      elim outcome [ inl (_, _, same) ↦ Owned-same same | inr (_, _, c) ↦ Owned-Committed c ]
  appended-Owned env io id collection id_field addition s (err x, s') e =
      Owned-same (append-eq-err env io s s' id collection id_field addition e)

  OwnStep-Owned :
      (env : Env) {s t : Store}
      → OwnStep env owner s t
      → Owned encoded owner s
      → Owned encoded owner t
  unfolding commission_carrier
  OwnStep-Owned env (created io payload {s}) = created-Owned env io payload s _ refl
  OwnStep-Owned env (patched io id changes if_match {s}) =
      patched-Owned env io id changes if_match s _ refl
  OwnStep-Owned env (appended io id collection id_field addition {s}) =
      appended-Owned env io id collection id_field addition s _ refl
  OwnStep-Owned env (commissioned io carrier {s}) =
      admitted-Owned env io carrier s (admission owner carrier s)

  OwnRun-Owned :
      (env : Env) {s t : Store}
      → OwnRun env owner s t
      → Owned encoded owner s
      → Owned encoded owner t
  OwnRun-Owned env stop o = o
  OwnRun-Owned env (more w r) o = OwnRun-Owned env r (OwnStep-Owned env w o)

-- An identifier that was commissioned for a passport on a consistent store stays with it: after any creations,
-- patches and appends, of any passport, and any commissionings of the same passport, which may replace the carrier,
-- accepted or refused, a commissioning of the identifier for another passport that exists is refused as a duplicate
-- binding and changes nothing.
pub commission-owned :
    (env : Env) (io io' : Io) (owner id encoded : String) (carrier carrier' item old : Dict)
    (s s' t : Store)
    → Consistent env s
    → commission_carrier env io owner carrier s ≡ (ok item, s')
    → text_at "encodedIdentifier" carrier ≡ ok encoded
    → OwnRun env owner s' t
    → require id t ≡ ok old
    → text_at "encodedIdentifier" carrier' ≡ ok encoded
    → (owner == id) ≡ false
    → commission_carrier env io' id carrier' t ≡ (err (raised ident_duplicate_binding), t)
commission-owned env io io' owner id encoded carrier carrier' item old s s' t c h named run found
      named' other =
    let bound = commission_unique env io owner carrier encoded s item s' named c h in
    commission-foreign env io' id owner encoded carrier' old t found named'
      (OwnRun-Owned encoded owner env run (inl bound.4)) other
