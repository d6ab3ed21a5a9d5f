-- ===== src/Validation.antt =====
-- `validate_schema` and `validate_payload` of src/sort4circ_dpp/validation.py.
use sort4circ.Prelude.{List, [], ◌∷◌, Result, ok, err, ◌>>◌, Text}
use sort4circ.Reasons.{Error, dpp_error, payload_schema_invalid}
use sort4circ.Json.{Dict}
use sort4circ.Env.{Env}
use sort4circ.Vocab.{validate_record}
use sort4circ.Composition.{check_composition}

reject : List Text → Result Error (Unit {0})
reject [] = ok tt
reject (path ∷ paths) = err (dpp_error payload_schema_invalid (path ∷ paths))

unfoldable pub validate_schema : Env → Dict → Result Error (Unit {0})
unfolding reject
validate_schema env source = reject (env.schema_errors source)

-- Structure first, then vocabularies, then the composition rule.
unfoldable pub validate_payload : Env → Dict → Result Error (Unit {0})
validate_payload env source = do
  validate_schema env source
  validate_record env source
  check_composition env source
