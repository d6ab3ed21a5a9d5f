-- ===== src/Api/Replays.antt =====
-- The handlers of src/sort4circ_dpp/api.py that carry an idempotency key, called again by a client that
-- repeats its request.
use sort4circ.Prelude.{◌≡◌, String, some, ok, codes}
use sort4circ.Json.{Dict}
use sort4circ.Env.{Env}
use sort4circ.Store.State.{Store, Io}
use sort4circ.Access.{Principal, require_scope}
use sort4circ.Api.{Reply}
use sort4circ.Api.Keys.{scoped_key}
use sort4circ.Api.Writes.{
  replayed_creation, replayed, create_new, create_dpp, append_new, add_event, add_observation,
  commission_new, commission, event_of, observation_of, Request, creation, event, observation,
  carrier, post,
}
use sort4circ.Api.Stepping.{on_lift}
use sort4circ.Api.Remembering.{
  once-replay, create_new-Remembers, append_new-Remembers, commission_new-Remembers,
}

module _ (env : Env) (io io_after : Io) (received_at received_after : String) (p : Principal)
    (key : String) (s t : Store) (reply : Reply) where
  -- What holds of a request that is repeated after its reply.
  abbrev Repeats : Request → Type 0
  Repeats request =
      (again : Reply) × (post env io_after received_after p (some key) request t ≡ (ok again, t))
      × (again.status ≡ reply.status)
      × (again.body ≡ reply.body)

  creation-Repeats :
      (payload : Dict)
      → create_dpp env io p (some key) payload s ≡ (ok reply, t)
      → Repeats (creation payload)
  unfolding create_dpp scoped_key
  creation-Repeats payload h = on_lift (require_scope p "dpp.write") _ s h λ _ allowed h₁.
      let (again, a, same) =
        once-replay env _ payload replayed_creation _
          (create_new env io_after p (scoped_key p (some key) "create" "") payload) s t reply
          (create_new-Remembers env io p _ payload) h₁ in
      (again, rw allowed a, same.0, same.1)

  event-Repeats :
      (id : String) (payload : Dict)
      → add_event env io received_at id p (some key) payload s ≡ (ok reply, t)
      → Repeats (event id payload)
  unfolding add_event scoped_key
  event-Repeats id payload h = on_lift (require_scope p "dpp.event") _ s h λ _ allowed h₁.
      let (again, a, same) =
        once-replay env _ payload replayed _
          (append_new env io_after id "lifecycleEvents" "eventId" (codes "/events/")
            (scoped_key p (some key) "event" id) payload
            (event_of io_after received_after p payload))
          s t reply (append_new-Remembers env io id _ _ _ _ payload _) h₁ in
      (again, rw allowed a, same.0, same.1)

  observation-Repeats :
      (id : String) (payload : Dict)
      → add_observation env io id p (some key) payload s ≡ (ok reply, t)
      → Repeats (observation id payload)
  unfolding add_observation scoped_key
  observation-Repeats id payload h =
      on_lift (require_scope p "observation.write") _ s h λ _ allowed h₁.
        let (again, a, same) =
          once-replay env _ payload replayed _
            (append_new env io_after id "materialObservations" "observationId"
              (codes "/observations/") (scoped_key p (some key) "observation" id) payload
              (observation_of io_after payload))
            s t reply (append_new-Remembers env io id _ _ _ _ payload _) h₁ in
        (again, rw allowed a, same.0, same.1)

  carrier-Repeats :
      (id : String) (payload : Dict)
      → commission env io id p (some key) payload s ≡ (ok reply, t)
      → Repeats (carrier id payload)
  unfolding commission scoped_key
  carrier-Repeats id payload h = on_lift (require_scope p "dpp.write") _ s h λ _ allowed h₁.
      let (again, a, same) =
        once-replay env _ payload replayed _
          (commission_new env io_after id (scoped_key p (some key) "carrier" id) payload) s t reply
          (commission_new-Remembers env io id _ payload) h₁ in
      (again, rw allowed a, same.0, same.1)

-- A client that repeats a request which was answered, with the same idempotency key and the same body, gets the
-- same status and body again, whatever the clock and the generated identifiers are by then, and the
-- store stays as the first request left it: the passport, event, observation or binding is written once.
pub post-replay :
    (env : Env) (io io_after : Io) (received_at received_after : String) (p : Principal)
    (key : String) (request : Request) (s t : Store) (reply : Reply)
    → post env io received_at p (some key) request s ≡ (ok reply, t)
    → (again : Reply) × (post env io_after received_after p (some key) request t ≡ (ok again, t))
      × (again.status ≡ reply.status)
      × (again.body ≡ reply.body)
post-replay env io io_after received_at received_after p key (creation payload) s t reply h =
    creation-Repeats env io io_after received_at received_after p key s t reply payload h
post-replay env io io_after received_at received_after p key (event id payload) s t reply h =
    event-Repeats env io io_after received_at received_after p key s t reply id payload h
post-replay env io io_after received_at received_after p key (observation id payload) s t reply h =
    observation-Repeats env io io_after received_at received_after p key s t reply id payload h
post-replay env io io_after received_at received_after p key (carrier id payload) s t reply h =
    carrier-Repeats env io io_after received_at received_after p key s t reply id payload h
