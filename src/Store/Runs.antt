-- ===== src/Store/Runs.antt =====
-- Runs of the writes of the store, and the histories that they only extend.
use sort4circ.Prelude.{
  ◌≤◌, ◌≡◌, refl, ap, String, Option, [], ◌∷◌, ◌++◌, Result, ok, err, Text, arith, length,
  length-append, lookup-insert, ◌==◌, eq_iff, Bool-cases, inl, inr,
}
use sort4circ.Reasons.{Error}
use sort4circ.Json.{Dict}
use sort4circ.Env.{Env}
use sort4circ.Store.State.{Store, Io, history_of, committed}
use sort4circ.Store.Create.{create}
use sort4circ.Store.Patch.{patch}
use sort4circ.Store.Append.{append}
use sort4circ.Store.Carriers.{commission_carrier}
use sort4circ.Store.Commits.{
  Committed, create-eq-ok, patch-eq-ok, append-eq-ok, create-eq-err, patch-eq-err, append-eq-err,
}
use sort4circ.Store.Commissions.{SameBooks}
use sort4circ.Store.Bindings.{commission-eq-ok, commission-eq-err}
use sort4circ.Store.Commissioning.{history_of-SameBooks, loop_books}
use sort4circ.Store.Consistent.{Consistent}
use sort4circ.Store.Reachable.{Step, created, patched, appended, commissioned, Step-Consistent}

-- A finite run of writes, from one store to another.
pub data Run (env : Env) : Store → Store → Type 0 where
  stop : {s : Store} → Run env s s
  more : {s t u : Store} → Step env s t → Run env t u → Run env s u

-- Every history of the second store is at least as long.
abbrev pub Extended : Store → Store → Type 0
Extended s t = (id : String) → length (history_of id s) ≤ length (history_of id t)

Extended-same : {s t : Store} → t ≡ s → Extended s t
Extended-same {s} e id = rw e (omega arith)

Committed-Extended :
    {env : Env} {io : Io} {item : Dict} {s s' : Store} → Committed env io item s s' → Extended s s'
unfolding history_of committed
Committed-Extended {env} {io} {item} {s} {s'} c id = elim (Bool-cases (c.id == id)) [
  | inl p ↦
      let same : history_of id s' ≡ history_of c.id s ++ item ∷ [] =
        rw (c.after, lookup-insert, p) refl in
      rw (same, length-append, ap (λ (j : String). history_of j s) ((eq_iff c.id id).0 p))
        (omega arith)
  | inr p ↦
      let same : history_of id s' ≡ history_of id s = rw (c.after, lookup-insert, p) refl in
      rw same (omega arith)
]

SameBooks-Extended : {s t : Store} → SameBooks s t → Extended s t
SameBooks-Extended b id = rw (history_of-SameBooks id b) (omega arith)

commissioned-Extended :
    (env : Env) (io : Io) (id : String) (carrier : Dict) (s : Store) (r : Result Error Dict × Store)
    → commission_carrier env io id carrier s ≡ r
    → Extended s r.1
unfolding history_of
commissioned-Extended env io id carrier s (ok item, s') e = λ j.
    let k = commission-eq-ok env io id carrier s item s' e in
    let first = SameBooks-Extended (loop_books env io id carrier s item s' k) j in
    let second = Committed-Extended k.commits j in
    let last : history_of j s' ≡ history_of j k.after = rw k.result refl in
    rw last (omega (arith, first, second))
commissioned-Extended env io id carrier s (err x, s') e =
    SameBooks-Extended (commission-eq-err env io id carrier s x s' e)

created-Extended :
    (env : Env) (io : Io) (payload : Dict) (s : Store) (r : Result Error Dict × Store)
    → create env io payload s ≡ r
    → Extended s r.1
created-Extended env io payload s (ok item, s') e =
    Committed-Extended (create-eq-ok env io s s' item payload e).3
created-Extended env io payload s (err x, s') e =
    Extended-same (create-eq-err env io s s' payload e)

patched-Extended :
    (env : Env) (io : Io) (id : String) (changes : Dict) (if_match : Option Text) (s : Store)
    (r : Result Error Dict × Store)
    → patch env io id changes if_match s ≡ r
    → Extended s r.1
patched-Extended env io id changes if_match s (ok item, s') e =
    Committed-Extended (patch-eq-ok env io s s' item id changes if_match e).6
patched-Extended env io id changes if_match s (err x, s') e =
    Extended-same (patch-eq-err env io s s' id changes if_match e)

appended-Extended :
    (env : Env) (io : Io) (id collection id_field : String) (addition : Dict) (s : Store)
    (r : Result Error Dict × Store)
    → append env io id collection addition id_field s ≡ r
    → Extended s r.1
appended-Extended env io id collection id_field addition s (ok item, s') e =
    let (_, _, _, _, outcome) = append-eq-ok env io s s' item id collection id_field addition e in
    elim outcome [ inl (_, _, same) ↦ Extended-same same | inr (_, _, c) ↦ Committed-Extended c ]
appended-Extended env io id collection id_field addition s (err x, s') e =
    Extended-same (append-eq-err env io s s' id collection id_field addition e)

Step-Extended : (env : Env) {s t : Store} → Step env s t → Extended s t
Step-Extended env (created io payload {s}) = created-Extended env io payload s _ refl
Step-Extended env (patched io id changes if_match free {s}) =
    patched-Extended env io id changes if_match s _ refl
Step-Extended env (appended io id collection id_field addition other {s}) =
    appended-Extended env io id collection id_field addition s _ refl
Step-Extended env (commissioned io id carrier {s}) =
    commissioned-Extended env io id carrier s _ refl

-- A run keeps a store consistent, and extends its histories.
pub Run-Consistent : (env : Env) {s t : Store} → Run env s t → Consistent env s → Consistent env t
Run-Consistent env stop c = c
Run-Consistent env (more w r) c = Run-Consistent env r (Step-Consistent env w c)

pub Run-Extended : (env : Env) {s t : Store} → Run env s t → Extended s t
Run-Extended env stop id = omega arith
Run-Extended env (more w r) id = omega (arith, Step-Extended env w id, Run-Extended env r id)
