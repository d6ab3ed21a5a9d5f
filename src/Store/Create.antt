-- ===== src/Store/Create.antt =====
-- `PassportStore.create`.
use sort4circ.Prelude.{
  Bool, false, Option, none, some, Result, ok, err, ◌>>=◌, ◌>>◌, guard, lookup, is_none, not,
}
use sort4circ.Prelude.Int.{pos}
use sort4circ.Reasons.{Error, raised, type_error, ident_duplicate_binding}
use sort4circ.Json.{Json, Dict, int, str, arr, obj, nil, get?, set, set_default}
use sort4circ.Env.{Env}
use sort4circ.Store.State.{Store, Io, accept, attempt}

unfoldable pub with_defaults : Io → Dict → Dict
with_defaults io payload =
    let identified = set_default "dppId" (str (io.urn "dpp")) payload in
    let versioned = set_default "schemaVersion" (str "1.0.0") identified in
    let active = set_default "status" (str "active") versioned in
    let governed = set_default "accessPolicyVersion" (str "1.0.0") active in
    let bound = set_default "carriers" (arr nil) governed in
    let followed = set_default "lifecycleEvents" (arr nil) bound in
    let sorted = set_default "sortingDecisions" (arr nil) followed in
    let anchored = set_default "integrity" (arr nil) sorted in
    set "updatedAt" (str (io.now 1))
      (set_default "createdAt" (str (io.now 1)) (set "recordVersion" (int (pos 1)) anchored))

-- `record["dppId"] in self._records`, for a value of any type
unfoldable pub is_registered : Store → Option Json → Result Error Bool
is_registered s none = ok false
is_registered s (some (str id)) = ok (not (is_none (lookup id s.records)))
is_registered s (some (arr xs)) = err type_error
is_registered s (some (obj d)) = err type_error
is_registered s (some _) = ok false

unfoldable pub create : Env → Io → Dict → Store → Result Error Dict × Store
create env io payload s =
    let item = with_defaults io payload in
    attempt s (do
      taken ← is_registered s (get? "dppId" item)
      guard (not taken) (raised ident_duplicate_binding)
      accept env io item s)
