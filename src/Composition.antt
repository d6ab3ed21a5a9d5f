-- ===== src/Composition.antt =====
-- The composition rule: `observation_sets` and `check_composition` of
-- src/sort4circ_dpp/validation.py.
use sort4circ.Prelude.{
  ◌+◌, ◌*◌, ◌^◌, String, Bool, true, false, Option, none, some, List, [], ◌∷◌, ◌++◌, ◌&&◌, ◌==◌,
  ltb, Result, ok, err, ◌>>=◌, ◌>>◌, codes, if◌then◌else◌, keep_if,
}
use sort4circ.Prelude.Int.{pos, pos_part, neg_part}
use sort4circ.Reasons.{Error, dpp_error, type_error, payload_schema_invalid}
use sort4circ.Json.{
  Json, Items, Dict, Float, str, int, bool, float, nil, cons, get?, finite, infinite, nan,
}
use sort4circ.Json.Shape.{items_or_empty, as_dict}
use sort4circ.Env.{Env}
pub mod Grouping

-- Source organisation, source system, method and observation time.
pub record SetKey : Type 0 where
  pub organisation : String
  pub system : String
  pub method : String
  pub observed_at : String

unfoldable pub same_set : SetKey → SetKey → Bool
same_set a b =
    a.organisation == b.organisation
    && (a.system == b.system && (a.method == b.method && a.observed_at == b.observed_at))

-- `observation.get(k, "")`; the schema admits texts only.
unfoldable pub text_or_empty : String → Dict → Result Error String
unfolding get?
text_or_empty k d = elim (get? k d) [
  | none ↦ ok ""
  | some v ↦ elim v [ str s ↦ ok s | _ ↦ err type_error ]
]

unfoldable pub set_key : Dict → Result Error SetKey
unfolding text_or_empty
set_key observation = do
  organisation ← text_or_empty "sourceOrganisationId" observation
  system ← text_or_empty "sourceSystemId" observation
  method ← text_or_empty "method" observation
  observed_at ← text_or_empty "observedAt" observation
  ok (record {
    organisation = organisation;
    system = system;
    method = method;
    observed_at = observed_at;
  })

abbrev pub Groups : Type 0
Groups = List (SetKey × List Dict)

-- `groups.setdefault(key, []).append(observation)`
unfoldable pub add_to_group : SetKey → Dict → Groups → Groups
unfolding same_set
add_to_group key x [] = (key, x ∷ []) ∷ []
add_to_group key x ((k, xs) ∷ groups) =
    if same_set k key then (k, xs ++ x ∷ []) ∷ groups else (k, xs) ∷ add_to_group key x groups

unfoldable pub group_all : Items → Groups → Result Error Groups
unfolding set_key add_to_group as_dict
group_all nil groups = ok groups
group_all (cons item xs) groups = do
  observation ← as_dict item
  key ← set_key observation
  group_all xs (add_to_group key observation groups)

unfoldable pub observation_sets : Dict → Result Error Groups
unfolding group_all items_or_empty get?
observation_sets source = do
  observations ← items_or_empty (get? "materialObservations" source)
  group_all observations []

abbrev is_text : String → Option Json → Bool
is_text s (some (str t)) = t == s
is_text s _ = false

-- `o.get("valueStatus") == "supplied" and o.get("percentageBasis") == "mass"`
unfoldable pub is_supplied_mass : Dict → Bool
unfolding get?
is_supplied_mass o =
    is_text "supplied" (get? "valueStatus" o) && is_text "mass" (get? "percentageBasis" o)

-- `float(o.get("percentage", 0))`; the schema admits numbers only.
unfoldable pub percentage : Env → Dict → Result Error Float
unfolding get?
percentage env o = elim (get? "percentage" o) [
  | none ↦ ok (finite (pos 0) 0)
  | some v ↦ elim v [
    | int n ↦ ok (env.float_of_int n)
    | float x ↦ ok x
    | bool b ↦ ok (finite (pos (if b then 1 else 0)) 0)
    | _ ↦ err type_error
  ]
]

unfoldable pub percentages : Env → List Dict → Result Error (List Float)
unfolding percentage
percentages env [] = ok []
percentages env (o ∷ os) = do x ← percentage env o; xs ← percentages env os; ok (x ∷ xs)

-- `a > b`, exact on the values of the doubles
unfoldable pub float_gt : Float → Float → Bool
float_gt nan b = false
float_gt a nan = false
float_gt (infinite true) (infinite b) = false
float_gt (infinite false) b = elim b [ infinite true ↦ true | finite m k ↦ true | _ ↦ false ]
float_gt (infinite true) (finite m k) = false
float_gt (finite m k) (infinite b) = b
float_gt (finite m k) (finite n j) =
    ltb (pos_part n * 2 ^ k + neg_part m * 2 ^ j) (pos_part m * 2 ^ j + neg_part n * 2 ^ k)

-- `100.0 + COMPOSITION_TOLERANCE`, with a tolerance of 0.5
abbrev pub composition_limit : Float
composition_limit = finite (pos 201) 1

-- The body of the loop, for one set.
unfoldable pub check_set : Env → List Dict → Result Error (Unit {0})
unfolding percentages float_gt is_supplied_mass
check_set env observations = elim (keep_if is_supplied_mass observations) [
  | [] ↦ ok tt
  | o ∷ os ↦ percentages env (o ∷ os) >>= λ xs.
      if float_gt (env.float_sum xs) composition_limit
      then err (dpp_error payload_schema_invalid (codes "materialObservations" ∷ []))
      else ok tt
]

unfoldable pub check_sets : Env → Groups → Result Error (Unit {0})
unfolding check_set
check_sets env [] = ok tt
check_sets env ((k, xs) ∷ groups) = check_set env xs >> check_sets env groups

unfoldable pub check_composition : Env → Dict → Result Error (Unit {0})
unfolding observation_sets check_sets
check_composition env source = do groups ← observation_sets source; check_sets env groups
