-- ===== src/Reasons/Problems.antt =====
-- `DppError.problem` of src/sort4circ_dpp/reasons.py. The detail and the `extra` of the error, the path of the
-- request and the correlation identifier are given.
use sort4circ.Prelude.{String, List, [], ◌∷◌, if◌then◌else◌, ◌==◌, Option, some, none}
use sort4circ.Prelude.Int.{pos}
use sort4circ.Reasons.{Code, http_status, safe_action}
use sort4circ.Reasons.Catalogue.{code_name, condition, type_uri, action_name}
use sort4circ.Json.{Items, Dict, str, int, arr, obj, nil, cons, entry, empty, set, merge}

-- `[{"path": path} for path in self.fields]`
unfoldable pub path_items : List String → Items
path_items [] = nil
path_items (path ∷ fields) = cons (obj (entry "path" (str path) empty)) (path_items fields)

abbrev pub with_errors : List String → Dict → Dict
with_errors [] body = body
with_errors (path ∷ fields) body = set "errors" (arr (path_items (path ∷ fields))) body

-- `detail or self.reason.condition`
abbrev pub detail_or : Code → Option String → String
detail_or code none = condition code
detail_or code (some detail) = if detail == "" then condition code else detail

-- `problem`
unfoldable pub problem : Code → List String → Option String → Dict → String → String → Dict
problem code fields detail extra instance_path correlation =
    merge
      (with_errors fields (
        entry "type" (str (type_uri code)) (
          entry "title" (str (condition code)) (
            entry "status" (int (pos (http_status code))) (
              entry "detail" (str (detail_or code detail)) (
                entry "instance" (str instance_path) (
                  entry "reasonCode" (str (code_name code)) (
                    entry "safeAction" (str (action_name (safe_action code)))
                      (entry "correlationId" (str correlation) empty)))))))))
      extra
