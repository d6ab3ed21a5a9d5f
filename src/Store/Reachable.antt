-- ===== src/Store/Reachable.antt =====
-- The writes of the store as a step relation, and what holds of every store that they reach.
use sort4circ.Prelude.{
  ℕ, suc, ◌≡◌, refl, String, false, Option, none, List, [], ◌∷◌, Result, ok, err, if◌then◌else◌,
  nat_eq, Text, ◌==◌,
}
use sort4circ.Reasons.{Error, raised, state_not_found}
use sort4circ.Json.{Dict, get?}
use sort4circ.Env.{Env}
use sort4circ.Store.State.{Store, Io, new_store, history_of}
use sort4circ.Store.Create.{create}
use sort4circ.Store.Patch.{patch}
use sort4circ.Store.Append.{append}
use sort4circ.Store.Carriers.{commission_carrier}
use sort4circ.Store.Reads.{find_version, get_version}
use sort4circ.Store.Consistent.{Consistent, Numbered, Consistent-new}
use sort4circ.Store.Steps.{create-Consistent, patch-Consistent, append-Consistent}
use sort4circ.Store.Commissioning.{commission-Consistent}

-- One call of a write, whether it is accepted or raises. A patch leaves the record's key alone, and
-- so does an append.
pub data Step (env : Env) : Store → Store → Type 0 where
  created : (io : Io) (payload : Dict) {s : Store} → Step env s (create env io payload s).1
  patched :
      (io : Io) (id : String) (changes : Dict) (if_match : Option Text)
      → get? "dppId" changes ≡ none
      → {s : Store} → Step env s (patch env io id changes if_match s).1
  appended :
      (io : Io) (id collection id_field : String) (addition : Dict)
      → (collection == "dppId") ≡ false
      → {s : Store} → Step env s (append env io id collection addition id_field s).1
  commissioned :
      (io : Io) (id : String) (carrier : Dict) {s : Store}
      → Step env s (commission_carrier env io id carrier s).1

pub data Reachable (env : Env) : Store → Type 0 where
  start : Reachable env new_store
  step : {s t : Store} → Reachable env s → Step env s t → Reachable env t

pub Step-Consistent : (env : Env) {s t : Store} → Step env s t → Consistent env s → Consistent env t
Step-Consistent env (created io payload {s}) c = create-Consistent env io s c payload
Step-Consistent env (patched io id changes if_match free {s}) c =
    patch-Consistent env io s c id changes if_match free
Step-Consistent env (appended io id collection id_field addition other {s}) c =
    append-Consistent env io s c id collection id_field addition other
Step-Consistent env (commissioned io id carrier {s}) c = commission-Consistent env io id carrier s c

-- Every store that creations, patches without a dppId, appends to other members than dppId and
-- commissionings reach, accepted or refused, is consistent: for each identifier the versions of its history
-- are numbered from one without gaps and carry the identifier, the current record is the latest
-- version, and each outbox entry names a kept version whose digest is the one that it carries.
pub Reachable-Consistent : (env : Env) (s : Store) → Reachable env s → Consistent env s
Reachable-Consistent env _ start = Consistent-new env
Reachable-Consistent env t (step r w) = Step-Consistent env w (Reachable-Consistent env _ r)

-- The version with a number, of a history that starts at number `n`.
unfoldable pub version_at : ℕ → ℕ → List Dict → Result Error Dict
version_at n version [] = err (raised state_not_found)
version_at n version (item ∷ rest) =
    let later = version_at (suc n) version rest in if nat_eq n version then ok item else later

find_version-position :
    (id : String) (n version : ℕ) (versions : List Dict)
    → Numbered id n versions
    → find_version version versions ≡ version_at n version versions
unfolding find_version version_at
find_version-position id n version [] h = refl
find_version-position id n version (item ∷ rest) h =
    rw (h.1, find_version-position id (suc n) version rest h.2) refl

-- In a store that those writes reach, a version is found by its position in the history alone.
pub get_version-position :
    (env : Env) (id : String) (version : ℕ) (s : Store)
    → Reachable env s
    → get_version id version s ≡ version_at 1 version (history_of id s)
unfolding get_version
get_version-position env id version s r =
    find_version-position id 1 version (history_of id s)
      ((Reachable-Consistent env s r).numbered id)
