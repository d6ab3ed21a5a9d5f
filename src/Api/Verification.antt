-- ===== src/Api/Verification.antt =====
-- What `verify` of src/sort4circ_dpp/api.py compares.
use sort4circ.Prelude.{
  ◌≡◌, refl, subst, String, Bool, true, false, ◌&&◌, some, List, [], ◌∷◌, ok, ◌==◌, if◌then◌else◌,
}
use sort4circ.Json.{Json, Dict}
use sort4circ.Env.{Env}
use sort4circ.Store.State.{Store, OutboxEntry}
use sort4circ.Store.Append.{value_of}
use sort4circ.Store.Reads.{get_version}
use sort4circ.Store.Consistent.{Consistent, Anchored, AllAnchored}
use sort4circ.Ledger.{Adapter}
use sort4circ.Ledger
use sort4circ.Access.{Principal, require_scope}
use sort4circ.Api.Integrity.{is_named, find_entry, judged, verify}

some_inj : {x e : OutboxEntry} → some x ≡ some e → x ≡ e
some_inj h = cc h

find_entry-Anchored :
    (env : Env) (s : Store) (evidence_id : Json) (id : String) (es : List OutboxEntry)
    (e : OutboxEntry)
    → AllAnchored env s es
    → find_entry evidence_id id es ≡ some e
    → Anchored env s e
unfolding find_entry
find_entry-Anchored env s evidence_id id [] e a h = absurd (cc)
find_entry-Anchored env s evidence_id id (x ∷ es) e a h =
    here (is_named evidence_id x && x.dpp_id == id) h
      (find_entry-Anchored env s evidence_id id es e a.1)
  where
    here :
        (b : Bool)
        → (if b then some x else find_entry evidence_id id es) ≡ some e
        → (find_entry evidence_id id es ≡ some e → Anchored env s e)
        → Anchored env s e
    here true q later = subst (Anchored env s) (some_inj q) a.0
    here false q later = later q

-- In a consistent store, as the writes and the worker leave it, a caller who may verify gets for a known
-- evidence identifier of a passport the judgement of the ledger on the digest that the outbox recorded:
-- the version that the evidence names is there, its recomputed digest is the recorded one, and
-- the answer that the version is gone is never given.
pub verify-recorded :
    {L : Type 0} (env : Env) (adapter : Adapter L) (id : String) (body : Dict) (p : Principal)
    (s : Store) (l : L) (e : OutboxEntry)
    → Consistent env s
    → require_scope p "integrity.verify" ≡ ok tt
    → find_entry (value_of "evidenceId" body) id s.outbox ≡ some e
    → verify env adapter id body p s l
      ≡ judged env adapter e e.digest_value (Ledger.verify adapter e.evidence_id e.digest_value l)
unfolding verify get_version
verify-recorded env adapter id body p s l e c allowed known =
    let (subject, kept, hash) =
      find_entry-Anchored env s (value_of "evidenceId" body) id s.outbox e c.anchored known in
    rw (allowed, known, kept, hash) refl
