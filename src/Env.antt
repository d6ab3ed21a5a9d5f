-- ===== src/Env.antt =====
-- What the service takes from outside its own code: the JSON Schema validator of the third-party
-- package jsonschema, the SHA-256 of the standard library, the arithmetic and printing of doubles,
-- and the vocabulary documents of the configured specification directory.
use sort4circ.Prelude.{String, List, Text}
use sort4circ.Prelude.Int.{ℤ}
use sort4circ.Json.{Dict, Float}

pub record Env : Type 0 where
  -- the paths of `validator().iter_errors(record)`, in the order of `absolute_path`
  pub schema_errors : Dict → List Text
  -- `load(name).tokens`
  pub tokens : String → List String
  -- `hashlib.sha256(text.encode("utf-8")).hexdigest()`, over the code points of the text
  pub sha256 : Text → String
  -- `repr(x)`
  pub float_repr : Float → String
  -- `float(n)`, which rounds
  pub float_of_int : ℤ → Float
  -- `sum(xs)` of floats, which rounds
  pub float_sum : List Float → Float
