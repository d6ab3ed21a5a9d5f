-- ===== src/Api/Stepping.antt =====
-- What a chain of steps of src/sort4circ_dpp/api.py that replied went through.
use sort4circ.Prelude.{◌≡◌, refl, Result, ok, err}
use sort4circ.Reasons.{Error}
use sort4circ.Store.State.{Store}
use sort4circ.Api.{Step, continue, ◌>>=◌, ◌>>◌, lift, update, updated}

-- A chain of steps that replied went through an accepted first step.
pub on_step :
    {A B : Type 0} {C : Type 0} (step : Step A) (next : A → Step B) (s : Store) {b : B} {t : Store}
    → (step >>= next) s ≡ (ok b, t)
    → ((a : A) (u : Store) → step s ≡ (ok a, u) → next a u ≡ (ok b, t) → C)
    → C
on_step {A} {B} {C} step next s {b} {t} h use_parts = go (step s) refl h
  where
    go : (x : Result Error A × Store) → step s ≡ x → continue next x ≡ (ok b, t) → C
    go (ok a, u) e q = use_parts a u e q
    go (err e, u) e' q = absurd (cc)

-- A first step that leaves the store alone.
pub on_lift :
    {A B : Type 0} {C : Type 0} (r : Result Error A) (next : A → Step B) (s : Store) {b : B}
    {t : Store}
    → (lift r >>= next) s ≡ (ok b, t)
    → ((a : A) → r ≡ ok a → next a s ≡ (ok b, t) → C)
    → C
on_lift (ok a) next s h use_parts = use_parts a refl h
on_lift (err e) next s h use_parts = absurd (cc)

pub on_update :
    {B : Type 0} {C : Type 0} (write : Store → Result Error Store) (next : Step B) (s : Store)
    {b : B} {t : Store}
    → (update write >> next) s ≡ (ok b, t)
    → ((u : Store) → write s ≡ ok u → next u ≡ (ok b, t) → C)
    → C
on_update {B} {C} write next s {b} {t} h use_parts = go (write s) refl h
  where
    go : (x : Result Error Store) → write s ≡ x → continue (λ _. next) (updated s x) ≡ (ok b, t) → C
    go (ok u) e q = use_parts u e q
    go (err e) e' q = absurd (cc)
