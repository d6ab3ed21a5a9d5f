-- ===== src/Store/Commissions.antt =====
-- What a commissioning of a carrier does on each of its ways out.
use sort4circ.Prelude.{
  ℕ, suc, ◌+◌, ◌≡◌, refl, ◌∙◌, String, false, Result, ok, err, arith, if◌then◌else◌,
}
use sort4circ.Reasons.{Error}
use sort4circ.Json.{Json, Items, Dict, nil, cons, obj}
use sort4circ.Json.Laws.{get?-set}
use sort4circ.Json.Shape.{as_dict}
use sort4circ.Store.State.{Store, Io}
use sort4circ.Store.Carriers.{is_commissioned, release, replace_one, replace_all, closed, and_then}

-- The records, their histories and the outbox are the same; only the carrier maps may differ.
pub record SameBooks (s t : Store) : Type 0 where
  pub records : t.records ≡ s.records
  pub history : t.history ≡ s.history
  pub outbox : t.outbox ≡ s.outbox

pub SameBooks-refl : (s : Store) → SameBooks s s
SameBooks-refl s = record { records = refl; history = refl; outbox = refl }

pub SameBooks-trans : {s t u : Store} → SameBooks s t → SameBooks t u → SameBooks s u
SameBooks-trans a b = record {
  records = b.records ∙ a.records;
  history = b.history ∙ a.history;
  outbox = b.outbox ∙ a.outbox;
}

replace_one-SameBooks :
    (io : Io) (id : String) (i : ℕ) (x : Json) (s : Store) → SameBooks s (replace_one io id i x s).1
unfolding replace_one release
replace_one-SameBooks io id i x s = ground arith

and_then-SameBooks :
    (r : Result Error Json) (s t : Store) (rest : Result Error Items × Store)
    → SameBooks s t
    → SameBooks s rest.1
    → SameBooks s (and_then r t rest).1
and_then-SameBooks (ok y) s t (x, u) a b = b
and_then-SameBooks (err e) s t (x, u) a b = a

pub replace_all-SameBooks :
    (io : Io) (id : String) (i : ℕ) (xs : Items) (s : Store)
    → SameBooks s (replace_all io id i xs s).1
unfolding replace_all
replace_all-SameBooks io id i nil s = SameBooks-refl s
replace_all-SameBooks io id i (cons x xs) s =
    let one = replace_one-SameBooks io id i x s in
    let t = (replace_one io id i x s).1 in
    and_then-SameBooks (replace_one io id i x s).0 s t (replace_all io id (i + 1) xs t) one
      (SameBooks-trans one (replace_all-SameBooks io id (i + 1) xs t))

-- How many entries are in the commissioned state.
unfoldable pub count_commissioned : Items → ℕ
count_commissioned nil = 0
count_commissioned (cons (obj d) xs) =
    if is_commissioned d then suc (count_commissioned xs) else count_commissioned xs
count_commissioned (cons x xs) = count_commissioned xs

closed-not_commissioned : (io : Io) (i : ℕ) (d : Dict) → is_commissioned (closed io i d) ≡ false
unfolding is_commissioned
closed-not_commissioned io i d = rw (get?-set, get?-set) refl

replace_one-count :
    (io : Io) (id : String) (i : ℕ) (x y : Json) (s : Store)
    → (replace_one io id i x s).0 ≡ ok y
    → (xs : Items) → count_commissioned (cons y xs) ≡ count_commissioned xs
unfolding replace_one count_commissioned as_dict
replace_one-count io id i (obj d) y s h xs = ground (arith, closed-not_commissioned io i d)
replace_one-count io id i x y s h xs = absurd (cc)

and_then-eq-ok :
    (r : Result Error Json) (s : Store) (rest : Result Error Items × Store) (ys : Items)
    → (and_then r s rest).0 ≡ ok ys
    → (y : Json) × (zs : Items) × (r ≡ ok y) × (rest.0 ≡ ok zs) × (ys ≡ cons y zs)
and_then-eq-ok (ok y) s (ok zs, t) ys h = (y, zs, refl, refl, cc h)
and_then-eq-ok (ok y) s (err e, t) ys h = absurd (cc)
and_then-eq-ok (err e) s rest ys h = absurd (cc)

-- The loop leaves no entry commissioned.
pub replace_all-count :
    (io : Io) (id : String) (i : ℕ) (xs ys : Items) (s : Store)
    → (replace_all io id i xs s).0 ≡ ok ys
    → count_commissioned ys ≡ 0
unfolding replace_all count_commissioned
replace_all-count io id i nil ys s h = let e : ys ≡ nil = cc h in rw e refl
replace_all-count io id i (cons x xs) ys s h =
    let t = (replace_one io id i x s).1 in
    let (y, zs, p, q, e) =
      and_then-eq-ok (replace_one io id i x s).0 t (replace_all io id (i + 1) xs t) ys h in
    rw e (replace_one-count io id i x y s p zs ∙ replace_all-count io id (i + 1) xs zs t q)
