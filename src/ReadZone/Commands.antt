-- ===== src/ReadZone/Commands.antt =====
-- When a command to the actuator is permitted.
use sort4circ.Prelude.{
  ℕ, ◌+◌, ◌≡◌, refl, sym, ap, ◌∙◌, String, Bool, true, false, Option, none, some, List, [], ◌∷◌,
  Result, ok, err, ok_inj, lookup, insert, lookup-insert, eq_refl, ltb, codes, Bool-cases, inl, inr,
}
use sort4circ.Reasons.{
  Code, Error, read_suppressed_duplicate, ident_malformed, ident_unknown, ident_ambiguous,
  read_weak_signal,
}
use sort4circ.Json.{Json, Dict, str, get?, null, bool, int, float, arr, obj}
use sort4circ.ReadZone.{
  ReadZoneResult, may_command, ReadZone, is_epc, is_weak, reject, is_repeat, accept_or_suppress,
  by_signal, by_epc, evaluate,
}

-- What a permitted command rests on: one tag, well formed, strong enough, and not accepted within
-- the window before.
pub record Permitted (is_digit : ℕ → Bool) (reads : List Dict) (now : ℕ) (z : ReadZone)
    (r : ReadZoneResult) (z' : ReadZone) : Type 0 where
  pub read : Dict
  pub tag : String
  pub alone : reads ≡ read ∷ []
  pub named : get? "epc" read ≡ some (str tag)
  pub well_formed : is_epc is_digit (codes tag) ≡ true
  pub strong : is_weak z.weak_signal_dbm (get? "rssiDbm" read) ≡ ok false
  pub fresh : is_repeat now z.suppression_window_ms (lookup tag z.last_seen) ≡ false
  pub reported : r.epc ≡ some tag
  pub after : z' ≡ record z { last_seen = insert tag now z.last_seen }

refused :
    {A : Type 0} (code : Code) (tag : Option String) (r : ReadZoneResult)
    → r ≡ reject code tag
    → may_command r ≡ true
    → A
unfolding may_command
refused code tag r e m = absurd (rejected_ne (ap may_command (sym e) ∙ m))
  where
    rejected_ne : may_command (reject code tag) ≡ true → ⊥
    rejected_ne h = cc

module _ (is_digit : ℕ → Bool) (now : ℕ) (z : ReadZone) (r : ReadZoneResult) (z' : ReadZone)
    (m : may_command r ≡ true) (read : Dict) where
  repeat-Permitted :
      (tag : String) (repeated : Bool)
      → get? "epc" read ≡ some (str tag)
      → is_epc is_digit (codes tag) ≡ true
      → is_weak z.weak_signal_dbm (get? "rssiDbm" read) ≡ ok false
      → is_repeat now z.suppression_window_ms (lookup tag z.last_seen) ≡ repeated
      → accept_or_suppress tag now repeated z ≡ (ok r, z')
      → Permitted is_digit (read ∷ []) now z r z'
  repeat-Permitted tag true n w s f e =
      refused read_suppressed_duplicate (some tag) r
        (sym (ok_inj (ap (λ (x : Result Error ReadZoneResult × ReadZone). x.0) e))) m
  repeat-Permitted tag false n w s f e = record {
    read = read;
    tag = tag;
    alone = refl;
    named = n;
    well_formed = w;
    strong = s;
    fresh = f;
    reported =
        ap (λ (x : ReadZoneResult). x.epc)
          (sym (ok_inj (ap (λ (x : Result Error ReadZoneResult × ReadZone). x.0) e)));
    after = sym (ap (λ (x : Result Error ReadZoneResult × ReadZone). x.1) e);
  }

  signal-Permitted :
      (tag : String) (weak : Result Error Bool)
      → get? "epc" read ≡ some (str tag)
      → is_epc is_digit (codes tag) ≡ true
      → is_weak z.weak_signal_dbm (get? "rssiDbm" read) ≡ weak
      → by_signal tag now weak z ≡ (ok r, z')
      → Permitted is_digit (read ∷ []) now z r z'
  signal-Permitted tag (err x) n w s e = absurd (cc)
  signal-Permitted tag (ok true) n w s e =
      refused read_weak_signal (some tag) r
        (sym (ok_inj (ap (λ (x : Result Error ReadZoneResult × ReadZone). x.0) e))) m
  signal-Permitted tag (ok false) n w s e = repeat-Permitted tag _ n w s refl e

  malformed-Permitted :
      (tag : Option String) {y : ReadZone}
      → Path
          (Result Error ReadZoneResult × ReadZone)
          (ok (reject ident_malformed tag), y)
          (ok r, z')
      → Permitted is_digit (read ∷ []) now z r z'
  malformed-Permitted tag e =
      refused ident_malformed tag r
        (sym (ok_inj (ap (λ (x : Result Error ReadZoneResult × ReadZone). x.0) e))) m

  epc-Permitted :
      (epc : Option Json)
      → get? "epc" read ≡ epc
      → by_epc is_digit epc (get? "rssiDbm" read) now z ≡ (ok r, z')
      → Permitted is_digit (read ∷ []) now z r z'
  epc-Permitted none n e = malformed-Permitted none e
  epc-Permitted (some null) n e = malformed-Permitted none e
  epc-Permitted (some (bool b)) n e = malformed-Permitted none e
  epc-Permitted (some (int i)) n e = malformed-Permitted none e
  epc-Permitted (some (float x)) n e = malformed-Permitted none e
  epc-Permitted (some (arr xs)) n e = malformed-Permitted none e
  epc-Permitted (some (obj d)) n e = malformed-Permitted none e
  epc-Permitted (some (str tag)) n e = elim (Bool-cases (is_epc is_digit (codes tag))) [
    | inl w ↦
        signal-Permitted tag (is_weak z.weak_signal_dbm (get? "rssiDbm" read)) n w refl (rw w at e)
    | inr w ↦ malformed-Permitted (some tag) (rw w at e)
  ]

-- A command is permitted only for a window with one tag, whose identifier is well formed, whose
-- signal is not weak and which was not accepted within the suppression window before; the result
-- then reports the tag, and its time is kept.
pub evaluate-Permitted :
    (is_digit : ℕ → Bool) (reads : List Dict) (now : ℕ) (z z' : ReadZone) (r : ReadZoneResult)
    → evaluate is_digit reads now z ≡ (ok r, z')
    → may_command r ≡ true
    → Permitted is_digit reads now z r z'
unfolding evaluate
evaluate-Permitted is_digit [] now z z' r e m =
    refused ident_unknown none r
      (sym (ok_inj (ap (λ (x : Result Error ReadZoneResult × ReadZone). x.0) e))) m
evaluate-Permitted is_digit (read ∷ []) now z z' r e m =
    epc-Permitted is_digit now z r z' m read (get? "epc" read) refl e
evaluate-Permitted is_digit (read ∷ other ∷ reads) now z z' r e m =
    refused ident_ambiguous none r
      (sym (ok_inj (ap (λ (x : Result Error ReadZoneResult × ReadZone). x.0) e))) m

suppressed :
    (is_digit : ℕ → Bool) (reads : List Dict) (now later : ℕ) (z z' : ReadZone) (r : ReadZoneResult)
    → Permitted is_digit reads now z r z'
    → ltb later (now + z.suppression_window_ms) ≡ true
    → evaluate is_digit reads later z' ≡ (ok (reject read_suppressed_duplicate r.epc), z')
unfolding evaluate
suppressed is_digit reads now later z z' r k w =
    rw
      (
        k.alone,
        k.named,
        k.well_formed,
        k.after,
        k.strong,
        lookup-insert,
        eq_refl k.tag,
        w,
        k.reported,
      )
      refl

-- After a permitted command, the same reads are suppressed until the suppression window has
-- passed: no second command, and the zone stays as it is.
pub evaluate-suppressed :
    (is_digit : ℕ → Bool) (reads : List Dict) (now later : ℕ) (z z' : ReadZone) (r : ReadZoneResult)
    → evaluate is_digit reads now z ≡ (ok r, z')
    → may_command r ≡ true
    → ltb later (now + z.suppression_window_ms) ≡ true
    → evaluate is_digit reads later z' ≡ (ok (reject read_suppressed_duplicate r.epc), z')
evaluate-suppressed is_digit reads now later z z' r e m w =
    suppressed is_digit reads now later z z' r (evaluate-Permitted is_digit reads now z z' r e m) w
