-- ===== src/ReadIndex/Freshness.antt =====
-- When a projection is served, and what it holds.
use sort4circ.Prelude.{
  ℕ, ◌≡◌, refl, sym, ap, ◌∙◌, max, String, Bool, true, false, some, Result, ok, err, on_ok, ok_inj,
  lookup, lookup-insert, eq_refl, ◌==◌, if◌then◌else◌,
}
use sort4circ.Reasons.{Error, raised, dep_unavailable}
use sort4circ.Json.{Dict, get?}
use sort4circ.Json.Laws.{get?-set}
use sort4circ.Json.Shape.{json_at, text_at}
use sort4circ.Store.State.{Store, require}
use sort4circ.Store.Reads.{get}
use sort4circ.ReadIndex.{
  Entry, ReadIndex, sorting_record, project_record, on_commit, round_ms, lag_of, is_beyond,
  labelled, commit_time, strong_view, projected, sorting_view,
}

served-payload :
    (beyond : Bool) (v view : Dict) (e : Error)
    → Path (Result Error Dict) (if beyond then err e else ok v) (ok view)
    → view ≡ v
served-payload true v view e h = absurd (cc)
served-payload false v view e h = sym (ok_inj h)

-- What `_project` enters.
projected-payload :
    (item : Dict) (id : String) (committed now : ℕ) (ix ix' : ReadIndex)
    → text_at "dppId" item ≡ ok id
    → project_record item committed now ix ≡ ok ix'
    → (e : Entry) × (lookup id ix'.entries ≡ some e)
      × (sorting_record item ≡ ok e.payload)
      × (ix'.caught_up_at_ms ≡ max ix.caught_up_at_ms committed)
unfolding project_record
projected-payload item id committed now ix ix' named h = on_ok (text_at "dppId" item) _ h λ j p h₁.
    on_ok (json_at "recordVersion" item) _ h₁ λ version q h₂.
      on_ok (sorting_record item) _ h₂ λ payload r h₃.
        let same : j ≡ id = cc (p, named) in
        (
          record {
            record_version = version;
            committed_at_ms = commit_time committed now;
            generated_at_ms = now;
            payload = payload;
          },
          rw (← ok_inj h₃, same, lookup-insert, eq_refl id) refl,
          r,
          rw (← ok_inj h₃) refl,
        )

labelled-other :
    (k consistency : String) (lag : ℕ) (view : Dict)
    → ("indexLagMs" == k) ≡ false
    → ("consistency" == k) ≡ false
    → get? k (labelled lag consistency view) ≡ get? k view
labelled-other k consistency lag view a b = rw (get?-set, get?-set, a, b) refl

strong-view :
    (id : String) (s : Store) (item view : Dict)
    → lookup id s.records ≡ some item
    → strong_view id s ≡ ok view
    → (v : Dict) × (view ≡ labelled 0 "strong" v) × (sorting_record item ≡ ok v)
unfolding strong_view get require
strong-view id s item view stored h = on_ok (get id s) _ h λ found p h₁.
    on_ok (sorting_record found) _ h₁
      λ v q h₂. (v, sym (ok_inj h₂), ap sorting_record (got found p) ∙ q)
  where
    got : (found : Dict) → get id s ≡ ok found → item ≡ found
    got found p =
        on_ok (text_at "status" item) _ (rw stored at p)
          λ status q p₁. sym (served-payload (status == "retired") item found _ p₁)

-- Once the projector has handled a commit of a passport, a projected read and a strong read of it
-- that both succeed agree on every member but the lag and the label.
pub sorting_view-agrees :
    (id k : String) (now : ℕ) (s : Store) (ix ix' : ReadIndex) (item fast slow : Dict)
    → lookup id s.records ≡ some item
    → text_at "dppId" item ≡ ok id
    → on_commit id now s ix ≡ ok ix'
    → sorting_view id false s ix' ≡ ok fast
    → sorting_view id true s ix' ≡ ok slow
    → ("indexLagMs" == k) ≡ false
    → ("consistency" == k) ≡ false
    → get? k fast ≡ get? k slow
unfolding on_commit sorting_view
sorting_view-agrees id k now s ix ix' item fast slow stored named handled f g a b =
    let (e, found, same, _) =
      projected-payload item id s.last_commit_ms now ix ix' named (rw stored at handled) in
    let fast_is =
      served-payload (is_beyond ix'.max_lag_ms (lag_of s ix' e))
        (labelled (round_ms (lag_of s ix' e)) "projected" e.payload) fast (raised dep_unavailable)
        (sym (ap (projected s ix' id) found) ∙ f) in
    let (v, slow_is, seen) = strong-view id s item slow stored g in
    let agree : e.payload ≡ v = ok_inj (sym same ∙ seen) in
    ap (get? k) fast_is
    ∙ labelled-other k "projected" (round_ms (lag_of s ix' e)) e.payload a b
    ∙ ap (get? k) agree
    ∙ sym (labelled-other k "strong" 0 v a b)
    ∙ ap (get? k) (sym slow_is)
