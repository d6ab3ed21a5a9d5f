-- ===== src/Api.antt =====
-- src/sort4circ_dpp/api.py: the handlers of the /v1 interface. A handler is a step on the store: it
-- gives a reply or raises, and hands the store on in both cases. The routing, the parsing of the
-- request and the checks of the query parameters belong to FastAPI.
use sort4circ.Prelude.{
  ℕ, ◌+◌, String, Bool, true, false, Option, none, some, List, [], ◌∷◌, ◌++◌, Result, ok, err, Text,
  codes,
}
use sort4circ.Reasons.{Error}
use sort4circ.Json.{Json, Dict}
use sort4circ.Store.State.{Store}
pub mod Keys
pub mod Hex
pub mod Escapes
pub mod Scopes
pub mod Writes
pub mod Reads
pub mod Pages
pub mod Integrity
pub mod Verification
pub mod Stepping
pub mod Remembering
pub mod Replays
pub mod Refusals
pub mod Middleware
pub mod Formats
pub mod Search
pub mod Sorting
pub mod Paging
pub mod Pagination

-- A step on the store.
abbrev pub Step : Type 0 → Type 0
Step A = Store → Result Error A × Store

abbrev pub continue :
    {A B : Type 0} → (A → Step B) → Result Error A × Store → Result Error B × Store
continue next (err e, s) = (err e, s)
continue next (ok a, s) = next a s

-- A step, then another on the store that it left.
infixl 5 ◌>>=◌ ◌>>◌
abbrev pub ◌>>=◌ : {A B : Type 0} → Step A → (A → Step B) → Step B
step >>= next = λ s. continue next (step s)

abbrev pub ◌>>◌ : {B : Type 0} → Step (Unit {0}) → Step B → Step B
step >> next = step >>= λ _. next

-- What reads nothing of the store.
abbrev pub lift : {A : Type 0} → Result Error A → Step A
lift r = λ s. (r, s)

-- A read of the store.
abbrev pub query : {A : Type 0} → (Store → Result Error A) → Step A
query read = λ s. (read s, s)

abbrev pub updated : Store → Result Error Store → Result Error (Unit {0}) × Store
updated s (ok s') = (ok tt, s')
updated s (err e) = (err e, s)

-- A write that gives nothing but the store.
abbrev pub update : (Store → Result Error Store) → Step (Unit {0})
update write = λ s. updated s (write s)

-- `f"{prefix}{last}"`, with the value before it is formatted.
pub record Location : Type 0 where
  pub prefix : Text
  pub last : Json

-- The status, the headers `ETag`, `Location` and `Cache-Control: no-store`, and the body, if any.
pub record Reply : Type 0 where
  pub status : ℕ
  pub entity_tag : Option Text
  pub location : Option Location
  pub no_store : Bool
  pub body : Option Dict

-- `f"{BASE}/dpps/"`
abbrev pub dpps_path : Text
dpps_path = codes "/v1/dpps/"
