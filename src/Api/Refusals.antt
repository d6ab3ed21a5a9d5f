-- ===== src/Api/Refusals.antt =====
-- The writes of src/sort4circ_dpp/api.py under the default identity provider.
use sort4circ.Prelude.{◌≡◌, refl, ap, String, Option, ok, err, Assoc, Text, ◌∙◌}
use sort4circ.Reasons.{raised, authz_operation_forbidden}
use sort4circ.Json.{Dict}
use sort4circ.Env.{Env}
use sort4circ.Store.State.{Store, Io}
use sort4circ.Access.{Principal, anonymous, require_scope, scopes}
use sort4circ.Auth.{public_only, public_only_lem}
use sort4circ.Api.Writes.{
  create_dpp, add_event, add_observation, commission, patch_dpp, Request, creation, event,
  observation, carrier, post,
}

post-anonymous :
    (env : Env) (io : Io) (received_at : String) (key : Option String) (request : Request)
    (s : Store)
    → post env io received_at anonymous key request s ≡ (err (raised authz_operation_forbidden), s)
unfolding create_dpp add_event add_observation commission require_scope scopes
post-anonymous env io received_at key (creation payload) s = refl
post-anonymous env io received_at key (event id payload) s = refl
post-anonymous env io received_at key (observation id payload) s = refl
post-anonymous env io received_at key (carrier id payload) s = refl

patch-anonymous :
    (env : Env) (io : Io) (id : String) (if_match : Option Text) (changes : Dict) (s : Store)
    → patch_dpp env io id anonymous if_match changes s ≡ (err (raised authz_operation_forbidden), s)
unfolding patch_dpp require_scope scopes
patch-anonymous env io id if_match changes s = refl

-- Under the default identity provider no request changes the store, whatever its headers and its
-- body: a caller whom the provider lets in is refused by every handler that writes, before anything is read.
pub public_only-refused :
    (env : Env) (io : Io) (headers : Assoc String) (p : Principal) (received_at : String)
    (key : Option String) (request : Request) (id : String) (if_match : Option Text)
    (changes : Dict) (s : Store)
    → public_only headers ≡ ok p
    → (post env io received_at p key request s ≡ (err (raised authz_operation_forbidden), s))
      × (patch_dpp env io id p if_match changes s ≡ (err (raised authz_operation_forbidden), s))
public_only-refused env io headers p received_at key request id if_match changes s h =
    let same : p ≡ anonymous = public_only_lem headers p h in
    (
      ap (λ (q : Principal). post env io received_at q key request s) same
          ∙ post-anonymous env io received_at key request s,
      ap (λ (q : Principal). patch_dpp env io id q if_match changes s) same
          ∙ patch-anonymous env io id if_match changes s,
    )
