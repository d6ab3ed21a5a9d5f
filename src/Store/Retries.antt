-- ===== src/Store/Retries.antt =====
-- `idempotent` and `remember` together: what a client that repeats a request sees.
use sort4circ.Prelude.{
  ◌≡◌, refl, String, true, false, some, [], ◌∷◌, ok, err, lookup, lookup-insert, eq_refl, ◌==◌,
  Text, on_ok, ap₂, ◌≢◌, Bool-cases, inl, inr, ok_inj, nat_eq, arith, if◌then◌else◌, ℕ,
}
use sort4circ.Reasons.{raised, state_idempotency_conflict}
use sort4circ.Json.{Json}
use sort4circ.Env.{Env}
use sort4circ.Canonical.Serialise.{canonicalise}
use sort4circ.Store.State.{Store}
use sort4circ.Store.Patch.{text_eq}
use sort4circ.Store.Idempotency.{idempotent, remember}

nat_eq_refl : (n : ℕ) → nat_eq n n ≡ true
nat_eq_refl n = ground arith

nat_eq-true : (m n : ℕ) → nat_eq m n ≡ true → m ≡ n
nat_eq-true m n h = ground arith

pub text_eq_refl : (t : Text) → text_eq t t ≡ true
unfolding text_eq
text_eq_refl [] = refl
text_eq_refl (c ∷ t) = rw (nat_eq_refl c, text_eq_refl t) refl

pub text_eq-true : (s t : Text) → text_eq s t ≡ true → s ≡ t
unfolding text_eq
text_eq-true [] [] h = refl
text_eq-true [] (d ∷ t) h = absurd (cc)
text_eq-true (c ∷ s) [] h = absurd (cc)
text_eq-true (c ∷ s) (d ∷ t) h = elim (Bool-cases (nat_eq c d)) [
  | inl p ↦ ap₂ (◌∷◌) (nat_eq-true c d p) (text_eq-true s t (rw p at h))
  | inr p ↦ let h' = rw p at h in absurd (cc)
]

pub text_eq-ne : (s t : Text) → text_eq s t ≡ false → s ≢ t
text_eq-ne s t p h = cc (p, h, text_eq_refl s)

pub text_eq-false : (s t : Text) → s ≢ t → text_eq s t ≡ false
text_eq-false s t n = elim (Bool-cases (text_eq s t)) [
  | inl p ↦ absurd (n (text_eq-true s t p))
  | inr p ↦ p
]

module _ (env : Env) (key : String) (payload response : Json) (s s' : Store) (request : Text)
    (canonical : canonicalise env payload ≡ ok request)
    (remembered : remember env (some key) payload response s ≡ ok s') where
  after_remember :
      (k : String)
      → lookup k s'.idempotency ≡ (
          if key == k
          then some (record { request_digest = request; response = response })
          else lookup k s.idempotency)
  unfolding remember
  after_remember k = on_ok (canonicalise env payload) _ remembered λ found p h.
      let same : found ≡ request = cc (p, canonical) in rw (← ok_inj h, same, lookup-insert) refl

  -- Once a response is remembered under a key, a request of the same canonical form under that key
  -- gets it back.
  pub idempotent-remember :
      (again : Json)
      → canonicalise env again ≡ ok request
      → idempotent env (some key) again s' ≡ ok (some response)
  unfolding idempotent
  idempotent-remember again p = rw (p, after_remember key, eq_refl key, text_eq_refl request) refl

  -- After a response is remembered, a request of another canonical form under its key is refused as a conflict.
  pub idempotent-conflict :
      (again : Json) (second : Text)
      → canonicalise env again ≡ ok second
      → request ≢ second
      → idempotent env (some key) again s' ≡ err (raised state_idempotency_conflict)
  unfolding idempotent
  idempotent-conflict again second p n =
      rw (p, after_remember key, eq_refl key, text_eq-false request second n) refl

  -- What is remembered under a key changes nothing for another key.
  pub idempotent-other :
      (other : String) (again : Json)
      → (key == other) ≡ false
      → idempotent env (some other) again s' ≡ idempotent env (some other) again s
  unfolding idempotent
  idempotent-other other again n = rw (after_remember other, n) refl
