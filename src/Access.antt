-- ===== src/Access.antt =====
-- src/sort4circ_dpp/access.py, with the released matrix spec/access-matrix.json: the roles, their
-- scopes and default views, the projection of a record onto a view, and the members that a patch
-- may name. A role that the matrix does not have cannot be authenticated, see `Auth`.
use sort4circ.Prelude.{
  ℕ, zero, suc, String, Bool, true, false, Option, none, some, List, [], ◌∷◌, ◌++◌, Result, ok, err,
  ◌>>=◌, ◌>>◌, guard, not, ltb, elem, if◌then◌else◌, codes, ◌==◌,
}
use sort4circ.Reasons.{
  Error, raised, dpp_error, type_error, authz_operation_forbidden, authz_view_forbidden,
  state_append_only_violation,
}
use sort4circ.Json.{
  Json, Items, Dict, null, str, arr, obj, nil, cons, empty, entry, get?, set, remove, select,
}
use sort4circ.Json.Equality.{equal}
use sort4circ.Json.Shape.{as_dict, json_at, get_or}
use sort4circ.Store.Append.{value_of}
use sort4circ.Store.Carriers.{is_commissioned}
pub mod Projection
pub mod Views
pub mod Public
pub mod Writes

pub data Role : Type 0 where
  public consumer brand collector sorting_operator pssr_system recycler authority administrator
        integrity_verifier :
      Role

-- `known_roles`, as the role that a name has.
unfoldable pub role_named : String → Option Role
role_named name =
    if name == "public"
    then some public
    else if name == "consumer"
    then some consumer
    else if name == "brand"
    then some brand
    else if name == "collector"
    then some collector
    else if name == "sortingOperator"
    then some sorting_operator
    else if name == "pssrSystem"
    then some pssr_system
    else if name == "recycler"
    then some recycler
    else if name == "authority"
    then some authority
    else if name == "administrator"
    then some administrator
    else if name == "integrityVerifier"
    then some integrity_verifier
    else none

-- `Principal.role`, the role as the source keeps it.
unfoldable pub role_name : Role → String
role_name public = "public"
role_name consumer = "consumer"
role_name brand = "brand"
role_name collector = "collector"
role_name sorting_operator = "sortingOperator"
role_name pssr_system = "pssrSystem"
role_name recycler = "recycler"
role_name authority = "authority"
role_name administrator = "administrator"
role_name integrity_verifier = "integrityVerifier"

pub data View : Type 0 where
  integrity_only public_view partner_view sorting_view recycler_view authority_view full_view : View

-- `VIEW_RANK`
unfoldable pub rank : View → ℕ
rank integrity_only = 0
rank public_view = 1
rank partner_view = 2
rank sorting_view = 3
rank recycler_view = 4
rank authority_view = 5
rank full_view = 6

unfoldable pub view_named : String → Option View
view_named name =
    if name == "integrityOnly"
    then some integrity_only
    else if name == "public"
    then some public_view
    else if name == "partner"
    then some partner_view
    else if name == "sorting"
    then some sorting_view
    else if name == "recycler"
    then some recycler_view
    else if name == "authority"
    then some authority_view
    else if name == "full"
    then some full_view
    else none

abbrev pub view_name : View → String
view_name integrity_only = "integrityOnly"
view_name public_view = "public"
view_name partner_view = "partner"
view_name sorting_view = "sorting"
view_name recycler_view = "recycler"
view_name authority_view = "authority"
view_name full_view = "full"

-- `matrix()["roles"][role]["scopes"]`
unfoldable pub scopes : Role → List String
scopes public = "dpp.read" ∷ []
scopes consumer = "dpp.read" ∷ []
scopes brand =
    "dpp.read" ∷ "dpp.write" ∷ "dpp.event" ∷ "dpp.resolve" ∷ "observation.write" ∷ "integrity.read"
    ∷ []
scopes collector = "dpp.read" ∷ "dpp.event" ∷ "dpp.resolve" ∷ []
scopes sorting_operator = "dpp.read" ∷ "dpp.event" ∷ "dpp.resolve" ∷ "sorting.read" ∷ []
scopes pssr_system =
    "dpp.read" ∷ "dpp.resolve" ∷ "sorting.read" ∷ "observation.write" ∷ "dpp.event" ∷ []
scopes recycler = "dpp.read" ∷ "dpp.event" ∷ "dpp.resolve" ∷ []
scopes authority = "dpp.read" ∷ "integrity.read" ∷ "integrity.verify" ∷ []
scopes administrator =
    "dpp.read" ∷ "dpp.write" ∷ "dpp.event" ∷ "dpp.resolve" ∷ "sorting.read" ∷ "observation.write"
    ∷ "integrity.read" ∷ "integrity.verify" ∷ "admin" ∷ []
scopes integrity_verifier = "dpp.read" ∷ "integrity.read" ∷ "integrity.verify" ∷ []

-- `matrix()["roles"][role]["defaultView"]`
unfoldable pub default_view : Role → View
default_view public = public_view
default_view consumer = public_view
default_view brand = full_view
default_view collector = partner_view
default_view sorting_operator = sorting_view
default_view pssr_system = sorting_view
default_view recycler = recycler_view
default_view authority = authority_view
default_view administrator = full_view
default_view integrity_verifier = integrity_only

pub record Principal : Type 0 where
  pub subject : String
  pub role : Role
  pub organisation_id : Option String

-- `PUBLIC`
abbrev pub anonymous : Principal
anonymous = record { subject = "anonymous"; role = public; organisation_id = none }

-- `require_scope`
unfoldable pub require_scope : Principal → String → Result Error (Unit {0})
require_scope p scope = guard (elem scope (scopes p.role)) (raised authz_operation_forbidden)

-- May the caller ask for this view at all?
abbrev pub may_request : Role → View → Bool
may_request integrity_verifier integrity_only = true
may_request integrity_verifier _ = false
may_request _ _ = true

abbrev pub narrowed : View → View → View
narrowed default requested = if ltb (rank default) (rank requested) then default else requested

abbrev pub resolve_named : Role → Option View → Result Error View
resolve_named role none = err (raised authz_view_forbidden)
resolve_named role (some view) = do
  guard (may_request role view) (raised authz_view_forbidden)
  ok (narrowed (default_view role) view)

-- `resolve_view`
unfoldable pub resolve_view : Principal → Option String → Result Error View
resolve_view p none = ok (default_view p.role)
resolve_view p (some requested) = resolve_named p.role (view_named requested)

-- `WRITABLE_PATHS["brand"]`, cut at the first dot
abbrev pub brand_keys : List String
brand_keys = "product" ∷ "identity" ∷ "registryIdentifier" ∷ "environmentalValues" ∷ []

abbrev pub append_only_keys : List String
append_only_keys =
    "materialObservations" ∷ "lifecycleEvents" ∷ "integrity" ∷ "sortingDecisions" ∷ []

-- The loop over the members of the patch.
unfoldable pub check_keys : List String → Dict → Result Error (Unit {0})
check_keys allowed empty = ok tt
check_keys allowed (entry k v patch) = do
  guard (not (elem k append_only_keys)) (dpp_error state_append_only_violation (codes k ∷ []))
  guard (elem k allowed) (dpp_error authz_operation_forbidden (codes k ∷ []))
  check_keys allowed patch

abbrev pub check_for : Role → Dict → Result Error (Unit {0})
check_for administrator patch = ok tt
check_for brand patch = check_keys brand_keys patch
check_for _ patch = err (raised authz_operation_forbidden)

-- `check_patch_paths`
unfoldable pub check_patch_paths : Principal → Dict → Result Error (Unit {0})
check_patch_paths p patch = check_for p.role patch
