-- ===== src/Api/Middleware.antt =====
-- The middleware and the error handlers of src/sort4circ_dpp/api.py. The identifier that `uuid4` makes
-- is given, and whether a header names application/xml.
use sort4circ.Prelude.{
  ℕ, String, Bool, true, false, ◌&&◌, Option, none, some, List, [], ◌∷◌, Result, ok, err,
  if◌then◌else◌, ◌==◌, leb, ltb, elem,
}
use sort4circ.Reasons.{Code, Error, payload_schema_invalid, http_status}
use sort4circ.Reasons.Problems.{problem}
use sort4circ.Json.{Dict, keys, empty}
use sort4circ.Exchange.{Numerals}
use sort4circ.Exchange.Documents.{Document, to_xml, from_xml}
use sort4circ.Env.{Env}

-- `_correlation`
unfoldable pub correlation : String → Option String → String
correlation minted none = minted
correlation minted (some supplied) = if supplied == "" then minted else supplied

-- `_request_correlation`: the identifier that the middleware minted, if it ran.
unfoldable pub request_correlation : String → Option String → Option String → String
request_correlation minted none header = correlation minted header
request_correlation minted (some existing) header =
    if existing == "" then correlation minted header else existing

-- A problem document with its status and its `X-Correlation-Id`.
pub record Refusal : Type 0 where
  pub status : ℕ
  pub correlation_id : String
  pub document : Dict

-- `_dpp_error_handler`, with the detail and the `extra` of the error
unfoldable pub dpp_error_handler :
    Code → List String → Option String → Dict → String → String → Refusal
dpp_error_handler code fields detail extra path correlation_id = record {
  status = http_status code;
  correlation_id = correlation_id;
  document = problem code fields detail extra path correlation_id;
}

-- `error.get("loc") and error["loc"][0] == "body"`
abbrev pub is_of_body : List String → Bool
is_of_body [] = false
is_of_body (first ∷ rest) = first == "body"

unfoldable pub all_of_body : List (List String) → Bool
all_of_body [] = true
all_of_body (loc ∷ locs) = is_of_body loc && all_of_body locs

abbrev pub body_refusal : String → String → Refusal
body_refusal path correlation_id = record {
  status = 422;
  correlation_id = correlation_id;
  document =
      problem payload_schema_invalid ("body" ∷ []) (some "request body failed schema validation")
        empty path correlation_id;
}

-- `_request_validation_error_handler`, over the places of the errors; none stands for the
-- framework's own answer.
unfoldable pub validation_error_handler : List (List String) → String → String → Option Refusal
validation_error_handler [] path correlation_id = none
validation_error_handler (loc ∷ locs) path correlation_id =
    if all_of_body (loc ∷ locs) then some (body_refusal path correlation_id) else none

-- The members that make a response a whole record.
abbrev pub required : List String
required =
    "dppId" ∷ "schemaVersion" ∷ "recordVersion" ∷ "status" ∷ "createdAt" ∷ "updatedAt"
    ∷ "responsibleOperatorId" ∷ "identity" ∷ "product" ∷ "materialObservations" ∷ []

unfoldable pub all_in : List String → List String → Bool
all_in [] ks = true
all_in (x ∷ xs) ks = if elem x ks then all_in xs ks else false

-- `required <= document.keys()`
unfoldable pub is_whole : Dict → Bool
is_whole document = all_in required (keys document)

-- What is sent for a response with a JSON body: the body, or an XML document.
pub data Sent : Type 0 where
  as_json : Dict → Sent
  as_xml : Document → Sent

abbrev pub converted : Result Error Document → Result Error Sent
converted (err e) = err e
converted (ok document) = ok (as_xml document)

-- `200 <= response.status_code < 300`
abbrev pub is_success : ℕ → Bool
is_success status = leb 200 status && ltb status 300

-- XML out
unfoldable pub respond_as : Env → Numerals → Bool → ℕ → Dict → Result Error Sent
respond_as env n accepts_xml status body =
    if accepts_xml && is_success status
    then if is_whole body then converted (to_xml n env body) else ok (as_json body)
    else ok (as_json body)

abbrev pub parsed : String → String → Result Error Dict → Result Refusal Dict
parsed path correlation_id (ok payload) = ok payload
parsed path correlation_id (err e) = err (record {
  status = 422;
  correlation_id = correlation_id;
  document =
      problem payload_schema_invalid ("body" ∷ [])
        (some "XML request failed XSD or profile validation") empty path correlation_id;
})

-- XML in: the payload that the route gets, or the refusal.
unfoldable pub read_body : Env → Numerals → Document → String → String → Result Refusal Dict
read_body env n document path correlation_id = parsed path correlation_id (from_xml n env document)
