-- ===== src/Ledger/Verdicts.antt =====
-- What the adapters promise: a repeated submission is answered by the first receipt, and a verdict
-- says what the ledger holds.
use sort4circ.Prelude.{
  String, Bool, true, false, Option, none, some, List, ◌≡◌, refl, sym, ap, Result, ok, err, ok_inj,
  subst, ◌≢◌, ◌⊎◌, inl, inr, lookup, lookup-insert, eq_refl, eq_iff, ◌==◌, arith, Bool-cases, ◌||◌,
  Text,
}
use sort4circ.Reasons.{Error, Code}
use sort4circ.Json.{Json, Dict, obj, str, null, bool, int, float, arr}
use sort4circ.Json.Shape.{text_at}
use sort4circ.Env.{Env}
use sort4circ.Canonical.Serialise.{canonicalise}
use sort4circ.Ledger.{
  Receipt, Failure, Adapter, Verdict, matches, mismatches, unanchored, unverifiable, judged,
  compared, verdict_of, verify,
}
use sort4circ.Ledger.Memory
use sort4circ.Ledger.Memory.{
  InMemoryLedger, memory_adapter, store, stored_with, submit_new, keep_digest, fail_with,
  failing_with,
}
use sort4circ.Ledger.Besu
use sort4circ.Ledger.Besu.{BesuLedger, besu_adapter, sent_with, send}

-- A repeated submission of an evidence identifier, whatever the envelope, is answered by the
-- receipt of the first, and leaves the ledger as it is.
pub record Lawful {L : Type 0} (adapter : Adapter L) : Type 0 where
  pub repeated :
      (id : String) (first second : Dict) (l l' : L) (receipt : Receipt)
      → adapter.submit id first l ≡ (ok receipt, l')
      → adapter.submit id second l' ≡ (ok receipt, l')

keep_digest-receipt :
    (id : String) (receipt r : Receipt) (l l' : InMemoryLedger) (hash : Result Error String)
    → keep_digest id receipt l hash ≡ (ok r, l')
    → (r ≡ receipt) × (l'.receipts ≡ l.receipts)
keep_digest-receipt id receipt r l l' (ok h) e =
    (cc e, ap (λ (x : Result Failure Receipt × InMemoryLedger). x.1.receipts) (sym e))
keep_digest-receipt id receipt r l l' (err x) e = absurd (cc)

stored-receipt :
    (env : Env) (id state : String) (envelope : Dict) (l l' : InMemoryLedger) (r : Receipt)
    (payload : Result Error Text)
    → stored_with env id envelope state l payload ≡ (ok r, l')
    → lookup id l'.receipts ≡ some r
stored-receipt env id state envelope l l' r (err e) h = absurd (cc)
stored-receipt env id state envelope l l' r (ok payload) h =
    let (p, q) = keep_digest-receipt id _ r _ l' (text_at "digestValue" envelope) h in
    rw (q, lookup-insert, eq_refl id, p) refl

fail_with-ok :
    (env : Env) (code : Code) (retryable timeout : Bool) (id : String) (envelope : Dict)
    (l l' : InMemoryLedger) (r : Receipt)
    → fail_with env code retryable timeout id envelope l ≡ (ok r, l')
    → ⊥
fail_with-ok env code retryable true id envelope l l' r h =
    failing_ne (store env id envelope "submitted" l) h
  where
    failing_ne :
        (x : Result Failure Receipt × InMemoryLedger)
        → failing_with code retryable x ≡ (ok r, l')
        → ⊥
    failing_ne (ok a, m) e = cc
    failing_ne (err a, m) e = cc
fail_with-ok env code retryable false id envelope l l' r h = cc

submit_new-receipt :
    (env : Env) (id : String) (envelope : Dict) (failure : Option Code) (l l' : InMemoryLedger)
    (r : Receipt)
    → submit_new env id envelope failure l ≡ (ok r, l')
    → lookup id l'.receipts ≡ some r
unfolding store
submit_new-receipt env id envelope (some code) l l' r h =
    absurd (fail_with-ok env code _ _ id envelope _ l' r h)
submit_new-receipt env id envelope none l l' r h =
    stored-receipt env id _ envelope l l' r (canonicalise env (obj envelope)) h

submit_after-receipt :
    (env : Env) (id : String) (envelope : Dict) (known : Option Receipt) (l l' : InMemoryLedger)
    (r : Receipt)
    → lookup id l.receipts ≡ known
    → Memory.submit_after env id envelope known l ≡ (ok r, l')
    → lookup id l'.receipts ≡ some r
submit_after-receipt env id envelope (some x) l l' r known h = ground (arith, known)
submit_after-receipt env id envelope none l l' r known h =
    submit_new-receipt env id envelope l.fail_next l l' r h

-- After an accepted submission to the reference adapter, a submission of the same evidence
-- identifier, whatever its envelope, gets the first receipt and leaves the ledger as it is.
pub memory-repeated :
    (env : Env) (id : String) (first second : Dict) (l l' : InMemoryLedger) (receipt : Receipt)
    → Memory.submit env id first l ≡ (ok receipt, l')
    → Memory.submit env id second l' ≡ (ok receipt, l')
unfolding Memory.submit
memory-repeated env id first second l l' receipt h =
    rw (submit_after-receipt env id first (lookup id l.receipts) l l' receipt refl h) refl

pub memory-Lawful : (env : Env) → Lawful (memory_adapter env)
unfolding memory_adapter
memory-Lawful env = record { repeated = memory-repeated env }

module _ {Node : Type 0} (transport : Node → String → List Json → Option Dict × Node) where
  sent-receipt :
      (id digest_word : String) (answer : Result Failure Json) (l l' : BesuLedger Node)
      (r : Receipt)
      → sent_with transport id digest_word answer l ≡ (ok r, l')
      → lookup id l'.receipts ≡ some r
  sent-receipt id digest_word (err e) l l' r h = absurd (cc)
  sent-receipt id digest_word (ok (str tx)) l l' r h =
      let kept = ap (λ (x : Result Failure Receipt × BesuLedger Node). x.1.receipts) (sym h) in
      let same = ok_inj (ap (λ (x : Result Failure Receipt × BesuLedger Node). x.0) h) in
      rw (kept, lookup-insert, eq_refl id, same) refl
  sent-receipt id digest_word (ok null) l l' r h = absurd (cc)
  sent-receipt id digest_word (ok (bool v)) l l' r h = absurd (cc)
  sent-receipt id digest_word (ok (int v)) l l' r h = absurd (cc)
  sent-receipt id digest_word (ok (float v)) l l' r h = absurd (cc)
  sent-receipt id digest_word (ok (arr v)) l l' r h = absurd (cc)
  sent-receipt id digest_word (ok (obj v)) l l' r h = absurd (cc)

  send-receipt :
      (env : Env) (id : String) (hash : Result Error String) (l l' : BesuLedger Node) (r : Receipt)
      → send transport env id hash l ≡ (ok r, l')
      → lookup id l'.receipts ≡ some r
  send-receipt env id (err e) l l' r h = absurd (cc)
  send-receipt env id (ok w) l l' r h = sent-receipt id w _ _ l' r h

  besu_after-receipt :
      (env : Env) (id : String) (envelope : Dict) (known : Option Receipt) (l l' : BesuLedger Node)
      (r : Receipt)
      → lookup id l.receipts ≡ known
      → Besu.submit_after transport env id envelope known l ≡ (ok r, l')
      → lookup id l'.receipts ≡ some r
  besu_after-receipt env id envelope (some x) l l' r known h = ground (arith, known)
  besu_after-receipt env id envelope none l l' r known h =
      elim (Bool-cases ((l.contract_address == "") || (l.from_address == ""))) [
        | inl p ↦ let h' = rw p at h in absurd (cc)
        | inr p ↦ send-receipt env id _ l l' r (rw p at h)
      ]

  -- After an accepted submission to the adapter of a Besu node, a submission of the same evidence
  -- identifier, whatever its envelope, gets the first receipt and leaves the adapter and the node
  -- as they are: no second transaction is sent.
  pub besu-repeated :
      (env : Env) (id : String) (first second : Dict) (l l' : BesuLedger Node) (receipt : Receipt)
      → Besu.submit transport env id first l ≡ (ok receipt, l')
      → Besu.submit transport env id second l' ≡ (ok receipt, l')
  unfolding Besu.submit
  besu-repeated env id first second l l' receipt h =
      rw (besu_after-receipt env id first (lookup id l.receipts) l l' receipt refl h) refl

  pub besu-Lawful : (env : Env) → Lawful (besu_adapter transport env)
  unfolding besu_adapter
  besu-Lawful env = record { repeated = besu-repeated env }

-- Why a verdict is what it is, from the receipt and from the digest that the ledger holds.
pub data Grounds : Option Receipt → Option String → String → Verdict → Type 0 where
  unknown :
      {anchored : Option String} {recomputed : String}
      → Grounds none anchored recomputed unverifiable
  pending :
      {receipt : Receipt} {anchored : Option String} {recomputed : String}
      → receipt.state ≢ "confirmed"
      → Grounds (some receipt) anchored recomputed unanchored
  lost :
      {receipt : Receipt} {recomputed : String}
      → receipt.state ≡ "confirmed"
      → Grounds (some receipt) none recomputed unverifiable
  same :
      {receipt : Receipt} {recomputed : String}
      → receipt.state ≡ "confirmed"
      → Grounds (some receipt) (some recomputed) recomputed matches
  different :
      {receipt : Receipt} {anchored : String} {recomputed : String}
      → receipt.state ≡ "confirmed"
      → anchored ≢ recomputed
      → Grounds (some receipt) (some anchored) recomputed mismatches

ne_of_false : (s t : String) → (s == t) ≡ false → s ≢ t
ne_of_false s t h e = ground (arith, eq_iff s t)

compared-Grounds :
    (receipt : Receipt) (anchored : Option String) (recomputed : String)
    → receipt.state ≡ "confirmed"
    → Grounds (some receipt) anchored recomputed (compared anchored recomputed)
compared-Grounds receipt none recomputed c = lost c
compared-Grounds receipt (some anchored) recomputed c = elim (Bool-cases (anchored == recomputed)) [
  | inl p ↦ rw (p, (eq_iff anchored recomputed).0 p) (same c)
  | inr p ↦ rw p (different c (ne_of_false anchored recomputed p))
]

judged-Grounds :
    (receipt : Option Receipt) (anchored : Option String) (recomputed : String)
    → Grounds receipt anchored recomputed (judged receipt anchored recomputed)
judged-Grounds none anchored recomputed = unknown
judged-Grounds (some receipt) anchored recomputed =
    elim (Bool-cases (receipt.state == "confirmed")) [
      | inl p ↦
          rw p
            (compared-Grounds receipt anchored recomputed ((eq_iff receipt.state "confirmed").0 p))
      | inr p ↦ rw p (pending (ne_of_false receipt.state "confirmed" p))
    ]

-- The verdict of any adapter has its grounds in the receipt that `status` gave and in the digest
-- that the ledger then holds: a match only for a confirmed receipt and an equal digest, a mismatch
-- only for a confirmed receipt and another digest.
pub verify-Grounds :
    {L : Type 0} (adapter : Adapter L) (id recomputed : String) (l l' : L) (verdict : Verdict)
    → verify adapter id recomputed l ≡ (ok verdict, l')
    → (receipt : Option Receipt) × (adapter.status id l ≡ (ok receipt, l'))
      × Grounds receipt (adapter.anchored_digest id l') recomputed verdict
unfolding verify
verify-Grounds {L} adapter id recomputed l l' verdict h = go (adapter.status id l) h
  where
    go :
        (r : Result Failure (Option Receipt) × L)
        → verdict_of adapter id recomputed r ≡ (ok verdict, l')
        → (receipt : Option Receipt) × (r ≡ (ok receipt, l'))
          × Grounds receipt (adapter.anchored_digest id l') recomputed verdict
    go (err e, m) e' = absurd (cc)
    go (ok receipt, m) e' =
        let p : m ≡ l' = ap (λ (x : Result Failure Verdict × L). x.1) e' in
        let v = ok_inj (ap (λ (x : Result Failure Verdict × L). x.0) e') in
        (
          receipt,
          ap (λ (n : L). (ok receipt, n)) p,
          subst (λ (n : L). Grounds receipt (adapter.anchored_digest id n) recomputed verdict) p
              (subst (Grounds receipt (adapter.anchored_digest id m) recomputed) v
                (judged-Grounds receipt (adapter.anchored_digest id m) recomputed)),
        )

no_digest-Grounds :
    {receipt : Option Receipt} {recomputed : String} {verdict : Verdict}
    → Grounds receipt none recomputed verdict
    → (verdict ≡ unanchored) ⊎ (verdict ≡ unverifiable)
no_digest-Grounds unknown = inr refl
no_digest-Grounds (pending p) = inl refl
no_digest-Grounds (lost p) = inr refl

-- Without a reading of the contract the adapter of a Besu node states neither a match nor a
-- mismatch, whatever the node answers.
pub besu-verdict :
    {Node : Type 0} (transport : Node → String → List Json → Option Dict × Node) (env : Env)
    (id recomputed : String) (l l' : BesuLedger Node) (verdict : Verdict)
    → verify (besu_adapter transport env) id recomputed l ≡ (ok verdict, l')
    → (verdict ≡ unanchored) ⊎ (verdict ≡ unverifiable)
unfolding besu_adapter
besu-verdict transport env id recomputed l l' verdict h =
    let (receipt, _, g) =
      verify-Grounds (besu_adapter transport env) id recomputed l l' verdict h in
    no_digest-Grounds g
