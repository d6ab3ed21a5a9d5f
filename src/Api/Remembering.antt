-- ===== src/Api/Remembering.antt =====
-- What the writes of src/sort4circ_dpp/api.py remember under an idempotency key answers as they did.
use sort4circ.Prelude.{
  ◌≡◌, refl, sym, ap, subst, ◌∙◌, String, Option, none, some, Result, ok, on_ok, ok_inj, Text,
}
use sort4circ.Reasons.{Error}
use sort4circ.Json.{Json, Dict, str, obj, entry, empty}
use sort4circ.Json.Shape.{as_dict, json_at}
use sort4circ.Env.{Env}
use sort4circ.Canonical.Serialise.{canonicalise}
use sort4circ.Store.State.{Store, Io, etag}
use sort4circ.Store.Create.{create}
use sort4circ.Store.Append.{append}
use sort4circ.Store.Carriers.{commission_carrier}
use sort4circ.Store.Idempotency.{idempotent, remember}
use sort4circ.Store.Retries.{idempotent-remember}
use sort4circ.Access.{full_view, Principal}
use sort4circ.Access.Projection.{project}
use sort4circ.Api.{Step, ◌>>=◌, query, Reply, dpps_path}
use sort4circ.Api.Writes.{
  created, location, replayed_creation, replayed, unless_cached, once, create_new, append_new,
  commission_new,
}
use sort4circ.Api.Stepping.{on_step, on_lift, on_update}

-- The same status and body.
abbrev pub Same : Reply → Reply → Type 0
Same again reply = (again.status ≡ reply.status) × (again.body ≡ reply.body)

stored_again :
    (env : Env) (key : String) (payload : Dict) (response : Json) (s t : Store)
    → remember env (some key) (obj payload) response s ≡ ok t
    → idempotent env (some key) (obj payload) t ≡ ok (some response)
unfolding remember
stored_again env key payload response s t r =
    on_ok (canonicalise env (obj payload)) _ r λ request c _.
      idempotent-remember env key (obj payload) response s t request c r (obj payload) c

module _ (env : Env) (key : String) (payload : Dict)
    (replay_stored : Json → Result Error Reply) where
  -- A write that replied has remembered, last, a response that answers as it did.
  abbrev pub Remembers : Step Reply → Type 0
  Remembers run =
      (s t : Store) (reply : Reply)
      → run s ≡ (ok reply, t)
      → (response : Json) × (u : Store) × (again : Reply) × (remember env (some key) (obj payload)
            response u
          ≡ ok t)
        × (replay_stored response ≡ ok again)
        × Same again reply

  pub once-replay :
      (run other : Step Reply) (s t : Store) (reply : Reply)
      → Remembers run
      → once env (some key) payload replay_stored run s ≡ (ok reply, t)
      → (again : Reply) × (once env (some key) payload replay_stored other t ≡ (ok again, t))
        × Same again reply
  unfolding once
  once-replay run other s t reply remembers h =
      on_lift (idempotent env (some key) (obj payload) s) (unless_cached replay_stored run) s h
        λ cached e q. by_cache cached e q
    where
      by_cache :
          (cached : Option Json)
          → idempotent env (some key) (obj payload) s ≡ ok cached
          → unless_cached replay_stored run cached s ≡ (ok reply, t)
          → (again : Reply) × ((query (idempotent env (some key) (obj payload))
                  >>= unless_cached replay_stored other)
                t
              ≡ (ok again, t))
            × Same again reply
      by_cache (some cached) e q =
          let found : replay_stored cached ≡ ok reply =
            ap (λ (x : Result Error Reply × Store). x.0) q in
          let kept : s ≡ t = ap (λ (x : Result Error Reply × Store). x.1) q in
          let again : (query (idempotent env (some key) (obj payload))
                  >>= unless_cached replay_stored other)
                s
              ≡ (ok reply, s) =
            rw (e, found) refl in
          (
            reply,
            subst
                (λ w.
                  (query (idempotent env (some key) (obj payload))
                      >>= unless_cached replay_stored other)
                    w
                  ≡ (ok reply, w))
                kept again,
            (refl, refl),
          )
      by_cache none e q =
          let (response, u, again, r, a, same) = remembers s t reply q in
          (again, rw (stored_again env key payload response u t r, a) refl, same)

  -- The end of a write.
  remembered :
      (response : Json) (s u t : Store) (answer again reply : Reply)
      → remember env (some key) (obj payload) response s ≡ ok u
      → replay_stored response ≡ ok again
      → Same again answer
      → Path (Result Error Reply × Store) (ok answer, u) (ok reply, t)
      → (stored : Json) × (v : Store) × (second : Reply) × (remember env
            (some key)
            (obj payload)
            stored
            v
          ≡ ok t)
        × (replay_stored stored ≡ ok second)
        × Same second reply
  remembered response s u t answer again reply r a same h =
      let sent : answer ≡ reply = ok_inj (ap (λ (x : Result Error Reply × Store). x.0) h) in
      (
        response,
        s,
        again,
        r ∙ ap (λ (x : Result Error Reply × Store). ok x.1) h,
        a,
        subst (Same again) sent same,
      )

project-full : (item : Dict) (p : Principal) → project item full_view p ≡ ok item
unfolding project
project-full item p = refl

replayed_creation-obj :
    (body : Dict) (id : Json)
    → json_at "dppId" body ≡ ok id
    → replayed_creation (obj body) ≡ ok (created none (some (location dpps_path id)) body)
unfolding replayed_creation as_dict
replayed_creation-obj body id h = rw h refl

replayed-obj : (body : Dict) → replayed (obj body) ≡ ok (created none none body)
unfolding replayed as_dict
replayed-obj body = refl

-- What a creation remembers is what it answers.
pub create_new-Remembers :
    (env : Env) (io : Io) (p : Principal) (key : String) (payload : Dict)
    → Remembers env key payload replayed_creation (create_new env io p (some key) payload)
unfolding create_new
create_new-Remembers env io p key payload s t reply h =
    on_step (create env io payload) _ s h λ item s₁ e₁ h₁.
      on_lift (project item full_view p) _ s₁ h₁ λ result e₂ h₂.
        on_update (remember env (some key) (obj payload) (obj result)) _ s₁ h₂ λ s₂ e₃ h₃.
          on_lift (json_at "dppId" item) _ s₂ h₃ λ id e₄ h₄.
            on_lift (etag item) _ s₂ h₄ λ entity_tag e₅ h₅.
              let same : item ≡ result = ok_inj (sym (project-full item p) ∙ e₂) in
              remembered env key payload replayed_creation (obj result) s₁ s₂ t _ _ reply e₃
                (replayed_creation-obj result id (ap (json_at "dppId") (sym same) ∙ e₄))
                (refl, refl) h₅

pub append_new-Remembers :
    (env : Env) (io : Io) (id collection id_field : String) (path : Text) (key : String)
    (payload addition : Dict)
    → Remembers env key payload replayed
        (append_new env io id collection id_field path (some key) payload addition)
unfolding append_new
append_new-Remembers env io id collection id_field path key payload addition s t reply h =
    on_step (append env io id collection addition id_field) _ s h λ item s₁ e₁ h₁.
      on_lift (json_at id_field addition) _ s₁ h₁ λ added e₂ h₂.
        on_lift (json_at "recordVersion" item) _ s₁ h₂ λ version e₃ h₃.
          let result =
            entry id_field added (entry "dppId" (str id) (entry "recordVersion" version empty)) in
          on_update (remember env (some key) (obj payload) (obj result)) _ s₁ h₃ λ s₂ e₄ h₄.
            on_lift (etag item) _ s₂ h₄ λ entity_tag e₅ h₅.
              remembered env key payload replayed (obj result) s₁ s₂ t _ _ reply e₄
                (replayed-obj result) (refl, refl) h₅

pub commission_new-Remembers :
    (env : Env) (io : Io) (id key : String) (payload : Dict)
    → Remembers env key payload replayed (commission_new env io id (some key) payload)
unfolding commission_new
commission_new-Remembers env io id key payload s t reply h =
    on_step (commission_carrier env io id payload) _ s h λ item s₁ e₁ h₁.
      on_lift (json_at "recordVersion" item) _ s₁ h₁ λ version e₂ h₂.
        on_lift (json_at "carriers" item) _ s₁ h₂ λ carriers e₃ h₃.
          let result =
            entry "dppId" (str id)
              (entry "recordVersion" version (entry "carriers" carriers empty)) in
          on_update (remember env (some key) (obj payload) (obj result)) _ s₁ h₃ λ s₂ e₄ h₄.
            on_lift (etag item) _ s₂ h₄ λ entity_tag e₅ h₅.
              remembered env key payload replayed (obj result) s₁ s₂ t _ _ reply e₄
                (replayed-obj result) (refl, refl) h₅
