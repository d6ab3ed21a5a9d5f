-- ===== src/Store/Idempotency.antt =====
-- `PassportStore.idempotent` and `remember`.
use sort4circ.Prelude.{
  String, Option, none, some, Result, ok, err, ◌>>=◌, if◌then◌else◌, lookup, insert, Text,
}
use sort4circ.Reasons.{Error, raised, state_idempotency_conflict}
use sort4circ.Json.{Json}
use sort4circ.Env.{Env}
use sort4circ.Canonical.Serialise.{canonicalise}
use sort4circ.Store.State.{Store, IdempotencyRecord}
use sort4circ.Store.Patch.{text_eq}

-- The stored response, if the key was used for the same request.
abbrev pub replay : Text → Option IdempotencyRecord → Result Error (Option Json)
replay request none = ok none
replay request (some existing) =
    if text_eq existing.request_digest request
    then ok (some existing.response)
    else err (raised state_idempotency_conflict)

unfoldable pub idempotent : Env → Option String → Json → Store → Result Error (Option Json)
idempotent env none payload s = ok none
idempotent env (some key) payload s =
    canonicalise env payload >>= λ request. replay request (lookup key s.idempotency)

unfoldable pub remember : Env → Option String → Json → Json → Store → Result Error Store
remember env none payload response s = ok s
remember env (some key) payload response s = do
  request ← canonicalise env payload
  ok (record s {
    idempotency =
        insert key (record { request_digest = request; response = response }) s.idempotency;
  })
