-- ===== src/Canonical/Digest.antt =====
-- `canonical_bytes`, `digest` and `verify_digest` of src/sort4circ_dpp/canonical.py.
use sort4circ.Prelude.{
  ◌≡◌, Text, String, Bool, true, false, [], ◌∷◌, ◌&&◌, ◌==◌, ltb, codes, Result, ok, err, ◌>>=◌,
  on_ok, ok_inj,
}
use sort4circ.Reasons.{Error, type_error}
use sort4circ.Json.{Dict, obj}
use sort4circ.Env.{Env}
use sort4circ.Canonical.Serialise.{canonicalise}
use sort4circ.Canonical.Projection.{integrity_projection}

-- The text whose UTF-8 encoding is digested.
unfoldable pub canonical_bytes : Env → Dict → Result Error Text
canonical_bytes env source = do
  projection ← integrity_projection source
  canonicalise env (obj projection)

unfoldable pub digest : Env → Dict → Result Error String
digest env source = do bytes ← canonical_bytes env source; ok (env.sha256 bytes)

unfoldable pub is_ascii : Text → Bool
is_ascii [] = true
is_ascii (c ∷ cs) = ltb c 128 && is_ascii cs

-- `hmac.compare_digest` refuses texts that are not ASCII.
abbrev compare_digest : Bool → Bool → Result Error Bool
compare_digest true same = ok same
compare_digest false same = err type_error

-- `verify_digest`; `str.lower` is given.
unfoldable pub verify_digest : Env → (String → String) → Dict → String → Result Error Bool
verify_digest env lower source expected = do
  computed ← digest env source
  let lowered = lower expected
  compare_digest (is_ascii (codes computed) && is_ascii (codes lowered)) (computed == lowered)

compare_digest-eq-ok : (ascii same : Bool) → compare_digest ascii same ≡ ok true → same ≡ true
compare_digest-eq-ok true same h = ok_inj h
compare_digest-eq-ok false same h = absurd (cc)

-- A digest that is verified is the digest of the record, in lower case.
verify_digest-digest :
    (env : Env) (lower : String → String) (source : Dict) (expected : String)
    → verify_digest env lower source expected ≡ ok true
    → (computed : String) × (digest env source ≡ ok computed)
      × ((computed == lower expected) ≡ true)
unfolding verify_digest
verify_digest-digest env lower source expected h =
    on_ok (digest env source) _ h
      λ computed p h₁. (computed, p, compare_digest-eq-ok _ (computed == lower expected) h₁)
