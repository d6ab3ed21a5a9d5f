-- ===== src/Store/Consistent.antt =====
-- The versions of a passport are numbered from one without gaps, the current record is the latest
-- version, and every outbox entry carries the digest of the version that it names.
use sort4circ.Prelude.{
  ℕ, suc, ◌+◌, ◌-◌, ◌≡◌, refl, sym, subst, ap, ◌∙◌, String, Option, none, some, List, [], ◌∷◌, ◌++◌,
  ok, arith, ◌==◌, lookup, lookup-insert, eq_iff, length, if◌then◌else◌, Bool-cases, inl, inr,
  eq_refl,
}
use sort4circ.Json.{Dict}
use sort4circ.Json.Shape.{text_at, nat_at}
use sort4circ.Env.{Env}
use sort4circ.Canonical.Digest.{digest}
use sort4circ.Store.State.{Store, OutboxEntry, Io, new_store, history_of, outbox_entry, committed}
use sort4circ.Store.Reads.{find_version}
use sort4circ.Store.Commits.{Committed}

-- A history of `id` whose first version has the number `n`.
abbrev pub Numbered : String → ℕ → List Dict → Type 0
Numbered id n [] = Unit
Numbered id n (item ∷ rest) =
    (text_at "dppId" item ≡ ok id) × (nat_at "recordVersion" item ≡ ok n) × Numbered id (suc n) rest

-- The last element.
abbrev pub latest : List Dict → Option Dict
latest [] = none
latest (x ∷ []) = some x
latest (x ∷ y ∷ l) = latest (y ∷ l)

-- The version that an entry names is kept, and has the digest that the entry carries.
abbrev pub Anchored : Env → Store → OutboxEntry → Type 0
Anchored env s e =
    (item : Dict) × (find_version e.subject_version (history_of e.dpp_id s) ≡ ok item)
    × (digest env item ≡ ok e.digest_value)

abbrev pub AllAnchored : Env → Store → List OutboxEntry → Type 0
AllAnchored env s [] = Unit
AllAnchored env s (e ∷ es) = Anchored env s e × AllAnchored env s es

pub record Consistent (env : Env) (s : Store) : Type 0 where
  pub numbered : (id : String) → Numbered id 1 (history_of id s)
  pub current : (id : String) → lookup id s.records ≡ latest (history_of id s)
  pub anchored : AllAnchored env s s.outbox

pub Consistent-new : (env : Env) → Consistent env new_store
unfolding history_of lookup
Consistent-new env = record { numbered = λ id. tt; current = λ id. refl; anchored = tt }

-- Anchoring depends on the histories only.
pub AllAnchored-history :
    (env : Env) (s t : Store)
    → ((id : String) → history_of id t ≡ history_of id s)
    → (es : List OutboxEntry) → AllAnchored env s es
    → AllAnchored env t es
AllAnchored-history env s t same [] h = tt
AllAnchored-history env s t same (e ∷ es) ((item, found, hash), h) =
    ((item, rw (same e.dpp_id) found, hash), AllAnchored-history env s t same es h)

Numbered-append :
    (id : String) (n : ℕ) (versions : List Dict) (item : Dict)
    → Numbered id n versions
    → text_at "dppId" item ≡ ok id
    → nat_at "recordVersion" item ≡ ok (n + length versions)
    → Numbered id n (versions ++ item ∷ [])
Numbered-append id n [] item h p q = (p, q ∙ ap ok (omega arith), tt)
Numbered-append id n (x ∷ versions) item h p q =
    (h.0, h.1, Numbered-append id (suc n) versions item h.2 p (q ∙ ap ok (omega arith)))

latest-append : (versions : List Dict) (item : Dict) → latest (versions ++ item ∷ []) ≡ some item
latest-append [] item = refl
latest-append (x ∷ []) item = refl
latest-append (x ∷ y ∷ l) item = latest-append (y ∷ l) item

-- The latest of a numbered history has the highest number.
pub latest-number :
    (id : String) (n : ℕ) (versions : List Dict) (item : Dict)
    → Numbered id n versions
    → latest versions ≡ some item
    → (text_at "dppId" item ≡ ok id) × (nat_at "recordVersion" item ≡ ok (n + length versions - 1))
latest-number id n [] item h e = absurd (cc)
latest-number id n (x ∷ []) item h e =
    let p : x ≡ item = ground arith in (rw (← p) h.0, rw (← p) (h.1 ∙ ap ok (omega arith)))
latest-number id n (x ∷ y ∷ l) item h e =
    let (a, b) = latest-number id (suc n) (y ∷ l) item h.2 e in (a, b ∙ ap ok (omega arith))

find_version-append :
    (n : ℕ) (versions : List Dict) (item found : Dict)
    → find_version n versions ≡ ok found
    → find_version n (versions ++ item ∷ []) ≡ ok found
unfolding find_version
find_version-append n [] item found h = absurd (cc)
find_version-append n (x ∷ versions) item found h =
    ground (arith, find_version-append n versions item found)

find_version-new :
    (id : String) (n m : ℕ) (versions : List Dict) (item : Dict)
    → Numbered id n versions
    → m ≡ n + length versions
    → nat_at "recordVersion" item ≡ ok m
    → find_version m (versions ++ item ∷ []) ≡ ok item
unfolding find_version
find_version-new id n m [] item h e q = rw q (ground arith)
find_version-new id n m (x ∷ versions) item h e q =
    rw h.1 (ground (arith, find_version-new id (suc n) m versions item h.2 (omega arith) q))

module _ (env : Env) (io : Io) (s s' : Store) (item : Dict) (id : String)
    (consistent : Consistent env s) (c : Committed env io item s s')
    (owned : text_at "dppId" item ≡ ok id)
    (next : nat_at "recordVersion" item ≡ ok (suc (length (history_of id s)))) where
  same_id : c.id ≡ id
  same_id = cc (owned, c.id_of)

  same_version : c.version ≡ suc (length (history_of id s))
  same_version = cc (next, c.version_of)

  pub history-committed :
      (j : String)
      → history_of j s' ≡ (if id == j then history_of id s ++ item ∷ [] else history_of j s)
  unfolding history_of committed
  history-committed j = rw (c.after, same_id, lookup-insert) (ground arith)

  pub records-committed :
      (j : String) → lookup j s'.records ≡ (if id == j then some item else lookup j s.records)
  unfolding committed
  records-committed j = rw (c.after, same_id, lookup-insert) refl

  pub outbox-committed :
      s'.outbox ≡ s.outbox ++ outbox_entry io id (suc (length (history_of id s))) c.hash ∷ []
  unfolding committed
  outbox-committed = rw (c.after, same_id, same_version) refl

  Anchored-kept : (e : OutboxEntry) → Anchored env s e → Anchored env s' e
  Anchored-kept e (kept, found, hash) = (
    kept,
    rw (history-committed e.dpp_id) (elim (Bool-cases (id == e.dpp_id)) [
      | inl p ↦ rw p (
          find_version-append e.subject_version (history_of id s) item kept (
            ap (λ (j : String). find_version e.subject_version (history_of j s))
              ((eq_iff id e.dpp_id).0 p)
            ∙ found))
      | inr p ↦ rw p found
    ]),
    hash,
  )

  AllAnchored-kept : (es : List OutboxEntry) → AllAnchored env s es → AllAnchored env s' es
  AllAnchored-kept [] h = tt
  AllAnchored-kept (e ∷ es) h = (Anchored-kept e h.0, AllAnchored-kept es h.1)

  AllAnchored-append :
      (es : List OutboxEntry) (e : OutboxEntry)
      → AllAnchored env s' es
      → Anchored env s' e
      → AllAnchored env s' (es ++ e ∷ [])
  AllAnchored-append [] e h a = (a, tt)
  AllAnchored-append (x ∷ es) e h a = (h.0, AllAnchored-append es e h.1 a)

  -- A commit under the next number keeps the store consistent.
  pub commit-Consistent : Consistent env s'
  commit-Consistent = record {
    numbered = λ j. rw (history-committed j) (elim (Bool-cases (id == j)) [
      | inl p ↦
          rw (p, ← (eq_iff id j).0 p)
            (Numbered-append id 1 (history_of id s) item (consistent.numbered id) owned
              (next ∙ ap ok (omega arith)))
      | inr p ↦ rw p (consistent.numbered j)
    ]);
    current = λ j.
        rw (history-committed j, records-committed j)
          (elim (Bool-cases (id == j)) [
            | inl p ↦ rw p (sym (latest-append (history_of id s) item))
            | inr p ↦ rw p (consistent.current j)
          ]);
    anchored = subst (AllAnchored env s') (sym outbox-committed) (
        AllAnchored-append s.outbox _ (AllAnchored-kept s.outbox consistent.anchored) (
          item,
          rw (history-committed id, eq_refl id)
              (find_version-new id 1 (suc (length (history_of id s))) (history_of id s) item
                (consistent.numbered id) (omega arith) next),
          c.hash_of,
        ));
  }
