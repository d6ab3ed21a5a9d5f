-- ===== src/Store/Patch.antt =====
-- `PassportStore.patch`, with `_check_precondition` and `_guard_append_only`.
use sort4circ.Prelude.{
  ℕ, zero, suc, ◌+◌, String, Bool, true, false, Option, none, some, [], ◌∷◌, Result, ok, err, ◌>>=◌,
  ◌>>◌, guard, ◌&&◌, ◌||◌, nat_eq, ltb, Text, codes, if◌then◌else◌, not,
}
use sort4circ.Prelude.Int.{pos}
use sort4circ.Reasons.{
  Error, raised, dpp_error, type_error, state_version_conflict, state_append_only_violation,
}
use sort4circ.Json.{
  Json, Items, Dict, null, int, str, arr, obj, nil, cons, empty, entry, get?, set, remove, merge,
  items_length,
}
use sort4circ.Json.Shape.{nat_at}
use sort4circ.Json.Equality.{dict_length, equal_items}
use sort4circ.Env.{Env}
use sort4circ.Store.State.{Store, Io, require, accept, attempt, etag}

unfoldable pub text_eq : Text → Text → Bool
text_eq [] [] = true
text_eq (c ∷ s) (d ∷ t) = nat_eq c d && text_eq s t
text_eq _ _ = false

-- `text.strip('"')`
unfoldable pub lstrip : Text → Text
lstrip [] = []
lstrip (c ∷ t) = let rest = lstrip t in if nat_eq c 34 then rest else c ∷ t

abbrev snoc : Text → ℕ → Text
snoc [] c = if nat_eq c 34 then [] else c ∷ []
snoc (d ∷ t) c = c ∷ d ∷ t

unfoldable pub rstrip : Text → Text
rstrip [] = []
rstrip (c ∷ t) = snoc (rstrip t) c

unfoldable pub strip_quotes : Text → Text
unfolding lstrip rstrip
strip_quotes t = rstrip (lstrip t)

-- `_check_precondition`
unfoldable pub check_precondition : Dict → Option Text → Result Error (Unit {0})
check_precondition item none = err (raised state_version_conflict)
check_precondition item (some if_match) = do
  expected ← etag item
  guard
      (text_eq (strip_quotes if_match) (strip_quotes expected)
        || text_eq (strip_quotes if_match) (codes "*"))
      (raised state_version_conflict)

-- `{**updated[key], **value}` where both are dicts, `value` otherwise.
abbrev pub merged : Dict → Option Json → Json
merged v (some (obj d)) = obj (merge d v)
merged v _ = obj v

-- The body of the loop over the members of a patch.
unfoldable pub patch_member : String → Json → Dict → Dict
patch_member k null d = remove k d
patch_member k (obj v) d = set k (merged v (get? k d)) d
patch_member k v d = set k v d

unfoldable pub apply_patch : Dict → Dict → Dict
apply_patch empty d = d
apply_patch (entry k v p) d = apply_patch p (patch_member k v d)

-- `xs[:n]`
unfoldable pub items_take : ℕ → Items → Items
items_take zero xs = nil
items_take (suc n) nil = nil
items_take (suc n) (cons x xs) = cons x (items_take n xs)

-- `before.get(collection, [])`, of a record that was accepted
abbrev pub old_items : Option Json → Result Error Items
old_items none = ok nil
old_items (some (arr xs)) = ok xs
old_items (some _) = err type_error

abbrev pub violation : String → Error
violation collection = dpp_error state_append_only_violation (codes collection ∷ [])

-- `after.get(collection, [])`, as the patch left it, beside `n` entries before: a text or a dict has a length too. The
-- slice of a text differs from every list, a dict cannot be sliced, and another value has no length.
abbrev pub new_items : String → ℕ → Option Json → Result Error Items
new_items collection n none = ok nil
new_items collection n (some (arr xs)) = ok xs
new_items collection n (some (str s)) = err (violation collection)
new_items collection n (some (obj d)) =
    if ltb (dict_length d) n then err (violation collection) else err type_error
new_items collection n (some _) = err type_error

-- The body of the loop of `_guard_append_only`.
unfoldable pub guard_collection : Dict → Dict → String → Result Error (Unit {0})
guard_collection before after collection = do
  old ← old_items (get? collection before)
  new ← new_items collection (items_length old) (get? collection after)
  guard (not (ltb (items_length new) (items_length old))) (violation collection)
  guard (equal_items (items_take (items_length old) new) old) (violation collection)

-- `_guard_append_only`
unfoldable pub guard_append_only : Dict → Dict → Result Error (Unit {0})
guard_append_only before after = do
  guard_collection before after "materialObservations"
  guard_collection before after "lifecycleEvents"
  guard_collection before after "sortingDecisions"
  guard_collection before after "integrity"

-- A record with the next version and the time of the write.
unfoldable pub next_version : Io → Dict → Dict → Result Error Dict
next_version io item updated = do
  version ← nat_at "recordVersion" item
  ok (set "updatedAt" (str (io.now 1)) (set "recordVersion" (int (pos (version + 1))) updated))

unfoldable pub patch : Env → Io → String → Dict → Option Text → Store → Result Error Dict × Store
patch env io id changes if_match s = attempt s (do
  item ← require id s
  check_precondition item if_match
  let updated = apply_patch changes item
  guard_append_only item updated
  next ← next_version io item updated
  accept env io next s)
