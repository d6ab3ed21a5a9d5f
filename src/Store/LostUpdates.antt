-- ===== src/Store/LostUpdates.antt =====
-- Optimistic concurrency: what an entity tag admits.
use sort4circ.Prelude.{
  ℕ, suc, ◌≤◌, List, [], ◌∷◌, length-append, ◌≡◌, ◌≢◌, refl, sym, ap, ◌∙◌, String, Bool, true,
  false, none, some, ok, err, on_ok, ok_inj, guard-eq-ok, ◌||◌, Text, codes, lookup, eq_refl,
  length, arith,
}
use sort4circ.Reasons.{Error, raised, state_version_conflict}
use sort4circ.Json.{Dict, get?}
use sort4circ.Json.Shape.{text_at, nat_at}
use sort4circ.Env.{Env}
use sort4circ.Store.State.{Store, Io, require, history_of, after_last_colon, etag}
use sort4circ.Store.Patch.{text_eq, strip_quotes, check_precondition, apply_patch, patch}
use sort4circ.Store.Commits.{patch-eq-ok}
use sort4circ.Store.Consistent.{Consistent, latest, history-committed, commit-Consistent}
use sort4circ.Store.Steps.{require-latest, next_version-number, get?-apply_patch}
use sort4circ.Store.Retries.{text_eq-true, text_eq-false}
use sort4circ.Store.Runs.{Run, Run-Extended, Run-Consistent}
use sort4circ.Store.Etags.{bare, quoted, strip-quoted, bare-distinct}

short_of : String → Text
short_of id = after_last_colon (codes id) (codes id)

etag-quoted :
    (item : Dict) (id : String) (version : ℕ)
    → text_at "dppId" item ≡ ok id
    → nat_at "recordVersion" item ≡ ok version
    → etag item ≡ ok (quoted (short_of id) version)
unfolding etag quoted short_of
etag-quoted item id version p q = rw (p, q) refl

-- A tag other than the star that admits a patch is the tag of the version.
admitted-bare :
    (item : Dict) (id : String) (version : ℕ) (tag : Text)
    → text_at "dppId" item ≡ ok id
    → nat_at "recordVersion" item ≡ ok version
    → text_eq (strip_quotes tag) (codes "*") ≡ false
    → check_precondition item (some tag) ≡ ok tt
    → strip_quotes tag ≡ bare (short_of id) version
unfolding check_precondition
admitted-bare item id version tag p q star h = on_ok (etag item) _ h λ expected e g.
    text_eq-true (strip_quotes tag) (bare (short_of id) version) (
      ap (text_eq (strip_quotes tag))
        (sym (strip-quoted (short_of id) version) ∙ ap strip_quotes (same expected e))
      ∙ first (text_eq (strip_quotes tag) (strip_quotes expected)) (rw star at (guard-eq-ok _ _ g)))
  where
    same : (expected : Text) → etag item ≡ ok expected → quoted (short_of id) version ≡ expected
    same expected e = ok_inj (sym (etag-quoted item id version p q) ∙ e)

    first : (b : Bool) → (b || false) ≡ true → b ≡ true
    first true h = refl
    first false h = absurd (cc)

refused-tag :
    (item : Dict) (id : String) (version : ℕ) (tag : Text)
    → text_at "dppId" item ≡ ok id
    → nat_at "recordVersion" item ≡ ok version
    → text_eq (strip_quotes tag) (codes "*") ≡ false
    → strip_quotes tag ≢ bare (short_of id) version
    → check_precondition item (some tag) ≡ err (raised state_version_conflict)
unfolding check_precondition
refused-tag item id version tag p q star n =
    rw
      (
        etag-quoted item id version p q,
        strip-quoted (short_of id) version,
        star,
        text_eq-false (strip_quotes tag) (bare (short_of id) version) n,
      )
      refl

patch-refused :
    (env : Env) (io : Io) (id : String) (changes item : Dict) (tag : Text) (s : Store) (e : Error)
    → require id s ≡ ok item
    → check_precondition item (some tag) ≡ err e
    → patch env io id changes (some tag) s ≡ (err e, s)
unfolding patch
patch-refused env io id changes item tag s e found refused = rw (found, refused) refl

require-record :
    (id : String) (item : Dict) (s : Store)
    → lookup id s.records ≡ some item
    → require id s ≡ ok item
unfolding require
require-record id item s h = rw h refl

latest-some :
    (versions : List Dict) → 1 ≤ length versions → (item : Dict) × (latest versions ≡ some item)
latest-some [] h = absurd (omega (arith, h))
latest-some (x ∷ []) h = (x, refl)
latest-some (x ∷ y ∷ l) h = latest-some (y ∷ l) (omega arith)

-- A passport with a history has a record.
current-record :
    (env : Env) (s : Store) (id : String)
    → Consistent env s
    → 1 ≤ length (history_of id s)
    → (item : Dict) × (require id s ≡ ok item)
current-record env s id c h =
    let (item, e) = latest-some (history_of id s) h in
    (item, require-record id item s (c.current id ∙ e))

-- No update is lost: when a patch that leaves the dppId alone is accepted on a consistent store
-- under an If-Match other than the star, then after any further creations, patches without a dppId, appends to other
-- members than dppId and commissionings, of any passport, accepted or refused, a patch of that passport under the same
-- If-Match is refused as a version conflict and changes nothing.
pub patch-once :
    (env : Env) (io io' : Io) (id : String) (changes changes' : Dict) (tag : Text) (s s' t : Store)
    (item : Dict)
    → Consistent env s
    → get? "dppId" changes ≡ none
    → text_eq (strip_quotes tag) (codes "*") ≡ false
    → patch env io id changes (some tag) s ≡ (ok item, s')
    → Run env s' t
    → patch env io' id changes' (some tag) t ≡ (err (raised state_version_conflict), t)
patch-once env io io' id changes changes' tag s s' t item c kept star h run =
    let (old, found, admitted, _, next, _, k) =
      patch-eq-ok env io s s' item id changes (some tag) h in
    let (a, b) = require-latest env s id old c found in
    let (a', b') =
      next_version-number env io s id old (apply_patch changes old) item c found
        (get?-apply_patch "dppId" changes old kept) next in
    let tagged = admitted-bare old id (length (history_of id s)) tag a b star admitted in
    let grown : length (history_of id s') ≡ suc (length (history_of id s)) =
      rw (history-committed env io s s' item id c k a' b' id, eq_refl id, length-append)
        (omega arith) in
    let longer = Run-Extended env run id in
    let later = Run-Consistent env run (commit-Consistent env io s s' item id c k a' b') in
    let (current, found') = current-record env t id later (omega (arith, grown, longer)) in
    let (a'', b'') = require-latest env t id current later found' in
    patch-refused env io' id changes' current tag t (raised state_version_conflict) found' (
      refused-tag current id (length (history_of id t)) tag a'' b'' star (λ e.
        bare-distinct (short_of id) (length (history_of id s)) (length (history_of id t))
          (λ x. omega (arith, x, grown, longer)) (sym tagged ∙ e)))
