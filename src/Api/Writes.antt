-- ===== src/Api/Writes.antt =====
-- The handlers of src/sort4circ_dpp/api.py that write: `create_dpp`, `add_event`, `add_observation`,
-- `commission` and `patch_dpp`, with `_respond`.
use sort4circ.Prelude.{
  Result, err, ◌++◌, String, true, false, Option, none, some, List, [], ◌∷◌, ok, Text, codes,
  if◌then◌else◌, ◌==◌,
}
use sort4circ.Reasons.{Error}
use sort4circ.Json.{Json, Dict, str, obj, entry, empty, set_default, without}
use sort4circ.Json.Shape.{as_dict, json_at}
use sort4circ.Env.{Env}
use sort4circ.Store.State.{Io, etag}
use sort4circ.Store.Create.{create}
use sort4circ.Store.Patch.{patch}
use sort4circ.Store.Append.{append}
use sort4circ.Store.Carriers.{commission_carrier}
use sort4circ.Store.Idempotency.{idempotent, remember}
use sort4circ.Access.{View, full_view, Principal, role_name, require_scope, check_patch_paths}
use sort4circ.Access.Projection.{project}
use sort4circ.Api.{Step, ◌>>=◌, ◌>>◌, lift, query, update, Reply, Location, dpps_path}
use sort4circ.Api.Keys.{scoped_key}

abbrev pub location : Text → Json → Location
location prefix last = record { prefix = prefix; last = last }

abbrev pub created : Option Text → Option Location → Dict → Reply
created entity_tag target body = record {
  status = 201;
  entity_tag = entity_tag;
  location = target;
  no_store = false;
  body = some body;
}

-- `_respond`
unfoldable pub respond : View → Principal → Dict → Step Reply
respond view p item = do
  entity_tag ← lift (etag item)
  seen ← lift (project item view p)
  lift (
      ok (record {
        status = 200;
        entity_tag = some entity_tag;
        location = none;
        no_store = true;
        body = some seen;
      }))

abbrev located : Dict → Result Error Json → Result Error Reply
located body (err e) = err e
located body (ok id) = ok (created none (some (location dpps_path id)) body)

abbrev located_body : Result Error Dict → Result Error Reply
located_body (err e) = err e
located_body (ok body) = located body (json_at "dppId" body)

-- The stored response of a creation, with its `Location`.
unfoldable pub replayed_creation : Json → Result Error Reply
replayed_creation cached = located_body (as_dict cached)

abbrev bare_body : Result Error Dict → Result Error Reply
bare_body (err e) = err e
bare_body (ok body) = ok (created none none body)

-- The stored response of the other writes.
unfoldable pub replayed : Json → Result Error Reply
replayed cached = bare_body (as_dict cached)

-- `if cached is not None: return cached`
abbrev pub unless_cached : (Json → Result Error Reply) → Step Reply → Option Json → Step Reply
unless_cached replay run (some cached) = lift (replay cached)
unless_cached replay run none = run

-- The look at the idempotency key, before the write.
unfoldable pub once :
    Env → Option String → Dict → (Json → Result Error Reply) → Step Reply → Step Reply
once env key payload replay run = do
  cached ← query (idempotent env key (obj payload))
  unless_cached replay run cached

-- The creation itself.
unfoldable pub create_new : Env → Io → Principal → Option String → Dict → Step Reply
create_new env io p key payload = do
  item ← create env io payload
  result ← lift (project item full_view p)
  update (remember env key (obj payload) (obj result))
  id ← lift (json_at "dppId" item)
  entity_tag ← lift (etag item)
  lift (ok (created (some entity_tag) (some (location dpps_path id)) result))

-- `create_dpp`
unfoldable pub create_dpp : Env → Io → Principal → Option String → Dict → Step Reply
create_dpp env io p idempotency_key payload = do
  lift (require_scope p "dpp.write")
  let key = scoped_key p idempotency_key "create" ""
  once env key payload replayed_creation (create_new env io p key payload)

-- `principal.organisation_id or f"urn:example:org:{principal.role}"`
abbrev pub organisation_of : Principal → Option String → String
organisation_of p none = Prim.Native.String.◌++◌ "urn:example:org:" (role_name p.role)
organisation_of p (some organisation) =
    if organisation == ""
    then Prim.Native.String.◌++◌ "urn:example:org:" (role_name p.role)
    else organisation

-- The event with its defaults; `received_at` is the clock when the handler builds it.
unfoldable pub event_of : Io → String → Principal → Dict → Dict
event_of io received_at p payload =
    set_default "actorOrganisationId" (str (organisation_of p p.organisation_id)) (
      set_default "recordedAt" (str received_at)
        (set_default "eventId" (str (io.urn "event")) payload))

-- `payload` without the members that name the contract of the message.
abbrev pub envelope_keys : List String
envelope_keys = "observationType" ∷ "basedOnRecordVersion" ∷ "schemaVersion" ∷ []

unfoldable pub observation_of : Io → Dict → Dict
observation_of io payload =
    set_default "observationId" (str (io.urn "obs")) (without envelope_keys payload)

-- The append of `add_event` and `add_observation`, what they remember and what they answer.
unfoldable pub append_new :
    Env → Io → String → String → String → Text → Option String → Dict → Dict → Step Reply
append_new env io id collection id_field path key payload addition = do
  item ← append env io id collection addition id_field
  added ← lift (json_at id_field addition)
  version ← lift (json_at "recordVersion" item)
  let result = entry id_field added (entry "dppId" (str id) (entry "recordVersion" version empty))
  update (remember env key (obj payload) (obj result))
  entity_tag ← lift (etag item)
  let target = location (dpps_path ++ codes id ++ path) added
  lift (ok (created (some entity_tag) (some target) result))

-- `add_event`
unfoldable pub add_event :
    Env → Io → String → String → Principal → Option String → Dict → Step Reply
add_event env io received_at id p idempotency_key payload = do
  lift (require_scope p "dpp.event")
  let key = scoped_key p idempotency_key "event" id
  once env key payload replayed (
      append_new env io id "lifecycleEvents" "eventId" (codes "/events/") key payload
        (event_of io received_at p payload))

-- `add_observation`
unfoldable pub add_observation : Env → Io → String → Principal → Option String → Dict → Step Reply
add_observation env io id p idempotency_key payload = do
  lift (require_scope p "observation.write")
  let key = scoped_key p idempotency_key "observation" id
  once env key payload replayed (
      append_new env io id "materialObservations" "observationId" (codes "/observations/") key
        payload (observation_of io payload))

-- The commissioning itself.
unfoldable pub commission_new : Env → Io → String → Option String → Dict → Step Reply
commission_new env io id key payload = do
  item ← commission_carrier env io id payload
  version ← lift (json_at "recordVersion" item)
  carriers ← lift (json_at "carriers" item)
  let result =
      entry "dppId" (str id) (entry "recordVersion" version (entry "carriers" carriers empty))
  update (remember env key (obj payload) (obj result))
  entity_tag ← lift (etag item)
  lift (ok (created (some entity_tag) none result))

-- `commission`
unfoldable pub commission : Env → Io → String → Principal → Option String → Dict → Step Reply
commission env io id p idempotency_key payload = do
  lift (require_scope p "dpp.write")
  let key = scoped_key p idempotency_key "carrier" id
  once env key payload replayed (commission_new env io id key payload)

-- `patch_dpp`
unfoldable pub patch_dpp : Env → Io → String → Principal → Option Text → Dict → Step Reply
patch_dpp env io id p if_match payload = do
  lift (require_scope p "dpp.write")
  lift (check_patch_paths p payload)
  item ← patch env io id payload if_match
  respond full_view p item

-- The requests that carry an idempotency key, by their routes.
pub data Request : Type 0 where
  creation : Dict → Request
  event : String → Dict → Request
  observation : String → Dict → Request
  carrier : String → Dict → Request

-- The handler of the route; `received_at` is the clock that `add_event` reads.
abbrev pub post : Env → Io → String → Principal → Option String → Request → Step Reply
post env io received_at p key (creation payload) = create_dpp env io p key payload
post env io received_at p key (event id payload) = add_event env io received_at id p key payload
post env io received_at p key (observation id payload) = add_observation env io id p key payload
post env io received_at p key (carrier id payload) = commission env io id p key payload
