-- ===== src/Store/State.antt =====
-- The state of `PassportStore`, and `_require`, `_commit` and `etag` of src/sort4circ_dpp/store.py.
-- The lock makes each operation one step, so an operation is a function of the state.
use sort4circ.Prelude.{
  ℕ, suc, String, Option, none, some, List, [], ◌∷◌, ◌++◌, Result, ok, err, ◌>>=◌, ◌>>◌, Assoc,
  lookup, insert, Text, codes, digits, if◌then◌else◌, nat_eq,
}
use sort4circ.Reasons.{Code, Error, raised, state_not_found}
use sort4circ.Json.{Json, Dict}
use sort4circ.Json.Shape.{text_at, nat_at}
use sort4circ.Env.{Env}
use sort4circ.Canonical.Digest.{digest}
use sort4circ.Validation.{validate_payload}

pub data EvidenceState : Type 0 where
  created queued submitted retryable_failed confirmed terminal_failed : EvidenceState

pub record OutboxEntry : Type 0 where
  pub evidence_id : String
  pub dpp_id : String
  pub subject_version : ℕ
  pub digest_value : String
  pub created_at : String
  pub state : EvidenceState
  pub attempts : ℕ
  pub transaction_ref : Option String
  pub ledger_network_id : Option String
  pub confirmed_at : Option String
  pub last_reason_code : Option Code

pub record IdempotencyRecord : Type 0 where
  pub request_digest : Text
  pub response : Json

-- `notices` are the calls of `on_commit`, which is set when a read index is attached.
pub record Store : Type 0 where
  pub records : Assoc Dict
  pub history : Assoc (List Dict)
  pub carrier_index : Assoc String
  pub retired_carriers : Assoc String
  pub idempotency : Assoc IdempotencyRecord
  pub outbox : List OutboxEntry
  pub notices : List (String × ℕ)
  pub last_commit_ms : ℕ

abbrev pub new_store : Store
new_store = record {
  records = [];
  history = [];
  carrier_index = [];
  retired_carriers = [];
  idempotency = [];
  outbox = [];
  notices = [];
  last_commit_ms = 0;
}

-- What an operation reads from outside while it runs: the clock, at each point of the operation
-- that reads it, the identifier that `new_urn` makes for a kind, and the monotonic milliseconds.
pub record Io : Type 0 where
  pub now : ℕ → String
  pub urn : String → String
  pub monotonic_ms : ℕ

abbrev pub found_or_raise : Option Dict → Result Error Dict
found_or_raise none = err (raised state_not_found)
found_or_raise (some item) = ok item

-- `_require`
unfoldable pub require : String → Store → Result Error Dict
require id s = found_or_raise (lookup id s.records)

abbrev pub versions_or_empty : Option (List Dict) → List Dict
versions_or_empty none = []
versions_or_empty (some versions) = versions

-- `self._history.get(id, [])`
unfoldable pub history_of : String → Store → List Dict
history_of id s = versions_or_empty (lookup id s.history)

abbrev pub outbox_entry : Io → String → ℕ → String → OutboxEntry
outbox_entry io id version hash = record {
  evidence_id = io.urn "evidence";
  dpp_id = id;
  subject_version = version;
  digest_value = hash;
  created_at = io.now 0;
  state = queued;
  attempts = 0;
  transaction_ref = none;
  ledger_network_id = none;
  confirmed_at = none;
  last_reason_code = none;
}

-- The writes of `_commit`, once the entry is built.
unfoldable pub committed : Io → String → ℕ → String → Dict → Store → Store
committed io id version hash item s = record s {
  records = insert id item s.records;
  history = insert id (history_of id s ++ item ∷ []) s.history;
  outbox = s.outbox ++ outbox_entry io id version hash ∷ [];
  notices = s.notices ++ (id, version) ∷ [];
  last_commit_ms = io.monotonic_ms;
}

-- `_commit`: the entry is built, digest included, before anything is written.
unfoldable pub commit : Env → Io → Dict → Store → Result Error Store
commit env io item s = do
  id ← text_at "dppId" item
  version ← nat_at "recordVersion" item
  hash ← digest env item
  ok (committed io id version hash item s)

-- An operation that writes nothing before it can raise: on a raise the store is as it was.
abbrev pub attempt {ℓ} : {A : Type ℓ} → Store → Result Error (Store × A) → Result Error A × Store
attempt s (ok (s', a)) = (ok a, s')
attempt s (err e) = (err e, s)

-- `validate_payload(record)`, `self._commit(record)` and the return, the end of every write.
unfoldable pub accept : Env → Io → Dict → Store → Result Error (Store × Dict)
accept env io item s = do validate_payload env item; s' ← commit env io item s; ok (s', item)

-- `text.rsplit(":", 1)[-1]`
unfoldable pub after_last_colon : Text → Text → Text
after_last_colon [] found = found
after_last_colon (c ∷ t) found = after_last_colon t (if nat_eq c 58 then t else found)

-- `etag`
unfoldable pub etag : Dict → Result Error Text
etag item = do
  id ← text_at "dppId" item
  version ← nat_at "recordVersion" item
  ok (
      codes "\"dpp-"
      ++ (after_last_colon (codes id) (codes id)
          ++ (codes "-v" ++ (digits (suc version) version ++ codes "\""))))
