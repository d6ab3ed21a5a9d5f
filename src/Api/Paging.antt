-- ===== src/Api/Paging.antt =====
-- One page of `search` of src/sort4circ_dpp/api.py: the rows after a cursor, up to the limit.
use mathlib.Core.List.{append_assoc}
use sort4circ.Access.Projection.{project}
use sort4circ.Prelude.{
  length-append, elem, ℕ, zero, suc, ◌+◌, ◌≤◌, ◌<◌, ◌≡◌, refl, sym, ap, ◌∙◌, String, true, false,
  Option, none, some, List, [], ◌∷◌, ◌++◌, ok, ◌==◌, ltb, take, drop, length, arith, on_ok, ok_inj,
  eq_iff, eq_refl,
}
use sort4circ.Json.{Dict}
use sort4circ.Access.{
  View, Role, Principal, scopes, public, consumer, brand, collector, sorting_operator, pssr_system,
  recycler, authority, administrator, integrity_verifier,
}
use sort4circ.Api.Pages.{Row, position_after, start_of, project_rows, last_id, page_of}
use sort4circ.Api.Sorting.{Fresh, Identified}

-- The first rows of a list that has more of them, with the last of these apart.
pub cut_at :
    (k : ℕ) (rows : List Row)
    → k < length rows
    → (a : List Row) × (r : Row) × (b : List Row) × (rows ≡ a ++ r ∷ b) × (length a ≡ k)
cut_at k [] h = absurd (omega arith)
cut_at zero (x ∷ rows) h = ([], x, rows, refl, refl)
cut_at (suc k) (x ∷ rows) h =
    let (a, r, b, e, n) = cut_at k rows (omega arith) in (x ∷ a, r, b, ap (◌∷◌ x) e, ap suc n)

drop-append : (a b : List Row) → drop (length a) (a ++ b) ≡ b
drop-append [] b = refl
drop-append (x ∷ a) b = drop-append a b

take-append : (k : ℕ) (a b : List Row) → length a ≡ k → take k (a ++ b) ≡ a
take-append k a b e = rw (← e) (go a)
  where
    go : (a : List Row) → take (length a) (a ++ b) ≡ a
    go [] = refl
    go (x ∷ a) = ap (◌∷◌ x) (go a)

take_all : (k : ℕ) (rows : List Row) → length rows ≤ k → take k rows ≡ rows
take_all zero [] h = refl
take_all zero (x ∷ rows) h = absurd (omega arith)
take_all (suc k) [] h = refl
take_all (suc k) (x ∷ rows) h = ap (◌∷◌ x) (take_all k rows (omega arith))

last_id-append : (a : List Row) (r : Row) → last_id (a ++ r ∷ []) ≡ some r.dpp_id
unfolding last_id
last_id-append [] r = refl
last_id-append (x ∷ []) r = refl
last_id-append (x ∷ y ∷ a) r = last_id-append (y ∷ a) r

pub project_rows-append :
    (view : View) (p : Principal) (a b : List Row) (seen : List Dict)
    → project_rows view p (a ++ b) ≡ ok seen
    → (u : List Dict) × (v : List Dict) × (project_rows view p a ≡ ok u)
      × (project_rows view p b ≡ ok v)
      × (u ++ v ≡ seen)
unfolding project_rows
project_rows-append view p [] b seen h = ([], seen, refl, h, refl)
project_rows-append view p (x ∷ a) b seen h = on_ok (project x.item view p) _ h λ d e h₁.
    on_ok (project_rows view p (a ++ b)) _ h₁ λ rest e₁ h₂.
      let (u, v, f, g, same) = project_rows-append view p a b rest e₁ in
      (d ∷ u, v, rw (e, f) refl, g, ap (◌∷◌ d) same ∙ ok_inj h₂)

-- The search finds the row that carries the cursor, wherever it stands.
position_after-append :
    (a : List Row) (r : Row) (b : List Row) (n : ℕ)
    → Identified (a ++ r ∷ b)
    → position_after r.dpp_id n (a ++ r ∷ b) ≡ n + suc (length a)
unfolding position_after
position_after-append [] r b n h = rw (eq_refl r.dpp_id) (omega arith)
position_after-append (x ∷ a) r b n h =
    rw (other a h.1, position_after-append a r b (suc n) h.2) (omega arith)
  where
    other : (l : List Row) → Fresh x.dpp_id (l ++ r ∷ b) → (x.dpp_id == r.dpp_id) ≡ false
    other [] f = ground (arith, f.0, eq_iff r.dpp_id x.dpp_id, eq_iff x.dpp_id r.dpp_id)
    other (y ∷ l) f = other l f.1

named : (a : List Row) (r : Row) (b : List Row) → Identified (a ++ r ∷ b) → (r.dpp_id == "") ≡ false
named [] r b h = h.0
named (x ∷ a) r b h = named a r b h.2

pub start_of-append :
    (a : List Row) (r : Row) (b : List Row)
    → Identified (a ++ r ∷ b)
    → start_of (some r.dpp_id) (a ++ r ∷ b) ≡ suc (length a)
unfolding start_of
start_of-append a r b h = rw (named a r b h) (position_after-append a r b 0 h ∙ omega arith)

pub holds_read : (role : Role) → elem "dpp.read" (scopes role) ≡ true
unfolding scopes
holds_read public = refl
holds_read consumer = refl
holds_read brand = refl
holds_read collector = refl
holds_read sorting_operator = refl
holds_read pssr_system = refl
holds_read recycler = refl
holds_read authority = refl
holds_read administrator = refl
holds_read integrity_verifier = refl

module _ (view : View) (p : Principal) (k : ℕ) (cursor : Option String) (a : List Row) where
  pub page_of-last :
      (b : List Row) (seen : List Dict)
      → length b ≤ suc k
      → start_of cursor (a ++ b) ≡ length a
      → project_rows view p b ≡ ok seen
      → page_of view p cursor (suc k) (a ++ b) ≡ ok (record { found = seen; next_cursor = none })
  unfolding page_of
  page_of-last b seen n start h = rw (start, drop-append a b, take_all (suc k) b n, h, short) refl
    where
      short : ltb (length a + suc k) (length (a ++ b)) ≡ false
      short = ground (arith, length-append a b)

  pub page_of-more :
      (b : List Row) (r : Row) (c : List Row) (found : List Dict)
      → length b ≡ k
      → 0 < length c
      → start_of cursor (a ++ (b ++ r ∷ c)) ≡ length a
      → project_rows view p (b ++ r ∷ []) ≡ ok found
      → page_of view p cursor (suc k) (a ++ (b ++ r ∷ c))
        ≡ ok (record { found = found; next_cursor = some r.dpp_id })
  unfolding page_of
  page_of-more b r c found n m start h =
      rw (start, drop-append a (b ++ r ∷ c), cut, h, long, last_id-append b r) refl
    where
      cut : take (suc k) (b ++ r ∷ c) ≡ b ++ r ∷ []
      cut =
          ap (take (suc k)) (sym (append_assoc b (r ∷ []) c))
          ∙ take-append (suc k) (b ++ r ∷ []) c (omega (arith, n, length-append b (r ∷ [])))

      long : ltb (length a + suc k) (length (a ++ (b ++ r ∷ c))) ≡ true
      long = ground (arith, length-append a (b ++ r ∷ c), length-append b (r ∷ c))
