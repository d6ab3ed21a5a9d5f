-- ===== src/ReadZone.antt =====
-- src/sort4circ_dpp/gateway/readzone.py: the controls on the tags of one read window. The clock is an
-- argument, in milliseconds.
use sort4circ.Prelude.{
  ℕ, zero, suc, ◌+◌, String, Bool, true, false, not, ◌&&◌, Option, none, some, List, [], ◌∷◌,
  Result, ok, err, Assoc, lookup, insert, Text, codes, ltb, leb, nat_eq, if◌then◌else◌,
}
use sort4circ.Prelude.Int.{ℤ, pos}
use sort4circ.Reasons.{
  Code, SafeAction, Error, safe_action, type_error, ident_unknown, ident_ambiguous, ident_malformed,
  read_weak_signal, read_suppressed_duplicate,
}
use sort4circ.Json.{Json, Dict, Float, finite, null, bool, int, float, str, get?}
use sort4circ.Composition.{float_gt}
pub mod Commands

pub record ReadZoneResult : Type 0 where
  pub accepted : Bool
  pub epc : Option String
  pub reason_code : Option Code
  pub action : Option SafeAction

abbrev pub no_reason : Option Code → Bool
no_reason none = true
no_reason (some code) = false

-- `may_command`
unfoldable pub may_command : ReadZoneResult → Bool
may_command r = r.accepted && no_reason r.reason_code

-- `last_seen` holds the time of the last accepted read of each tag.
pub record ReadZone : Type 0 where
  pub suppression_window_ms : ℕ
  pub weak_signal_dbm : ℤ
  pub last_seen : Assoc ℕ

-- A literal prefix, and what follows it.
unfoldable pub after_prefix : Text → Text → Option Text
after_prefix [] t = some t
after_prefix (c ∷ p) [] = none
after_prefix (c ∷ p) (d ∷ t) = let rest = after_prefix p t in if nat_eq c d then rest else none

-- The longest run of digits: its length, and what follows it.
unfoldable pub digit_run : (ℕ → Bool) → Text → ℕ × Text
digit_run is_digit [] = (0, [])
digit_run is_digit (c ∷ t) =
    let (n, rest) = digit_run is_digit t in if is_digit c then (suc n, rest) else (0, c ∷ t)

-- `\d{low,high}`, before a character that is no digit
abbrev pub digits_between : (ℕ → Bool) → ℕ → ℕ → Text → Option Text
digits_between is_digit low high t =
    let (n, rest) = digit_run is_digit t in if leb low n && leb n high then some rest else none

-- `$` stands at the end, and before a line feed that ends the text.
abbrev pub at_end : Text → Bool
at_end [] = true
at_end (c ∷ []) = nat_eq c 10
at_end (c ∷ d ∷ t) = false

abbrev pub ends : Option Text → Bool
ends none = false
ends (some t) = at_end t

abbrev pub and_after : Option Text → (Text → Option Text) → Option Text
and_after none next = none
and_after (some t) next = next t

-- `EPC_PATTERN.match`; `\d` is the digits of Unicode, a parameter. A dot is no digit, so each run is
-- the longest one.
unfoldable pub is_epc : (ℕ → Bool) → Text → Bool
is_epc is_digit t = ends (
    and_after (after_prefix (codes "urn:epc:id:sgtin:") t) λ a.
      and_after (digits_between is_digit 6 12 a) λ b. and_after (after_prefix (codes ".") b) λ c.
        and_after (digits_between is_digit 1 12 c)
          λ d. and_after (after_prefix (codes ".") d) λ e. digits_between is_digit 1 20 e)

-- `rssi is not None and rssi < self.weak_signal_dbm`
unfoldable pub is_weak : ℤ → Option Json → Result Error Bool
is_weak limit none = ok false
is_weak limit (some null) = ok false
is_weak limit (some (int n)) = ok (float_gt (finite limit 0) (finite n 0))
is_weak limit (some (float x)) = ok (float_gt (finite limit 0) x)
is_weak limit (some (bool true)) = ok (float_gt (finite limit 0) (finite (pos 1) 0))
is_weak limit (some (bool false)) = ok (float_gt (finite limit 0) (finite (pos 0) 0))
is_weak limit (some v) = err type_error

-- `_reject`
abbrev pub reject : Code → Option String → ReadZoneResult
reject code epc = record {
  accepted = false;
  epc = epc;
  reason_code = some code;
  action = some (safe_action code);
}

-- `previous is not None and (now_ms - previous) < self.suppression_window_ms`
abbrev pub is_repeat : ℕ → ℕ → Option ℕ → Bool
is_repeat now window none = false
is_repeat now window (some previous) = ltb now (previous + window)

abbrev pub accept_or_suppress :
    String → ℕ → Bool → ReadZone → Result Error ReadZoneResult × ReadZone
accept_or_suppress epc now true z = (ok (reject read_suppressed_duplicate (some epc)), z)
accept_or_suppress epc now false z = (
  ok (record { accepted = true; epc = some epc; reason_code = none; action = none }),
  record z { last_seen = insert epc now z.last_seen },
)

abbrev pub by_signal :
    String → ℕ → Result Error Bool → ReadZone → Result Error ReadZoneResult × ReadZone
by_signal epc now (err e) z = (err e, z)
by_signal epc now (ok true) z = (ok (reject read_weak_signal (some epc)), z)
by_signal epc now (ok false) z =
    accept_or_suppress epc now (is_repeat now z.suppression_window_ms (lookup epc z.last_seen)) z

abbrev pub by_epc :
    (ℕ → Bool) → Option Json → Option Json → ℕ → ReadZone → Result Error ReadZoneResult × ReadZone
by_epc is_digit (some (str epc)) rssi now z =
    if is_epc is_digit (codes epc)
    then by_signal epc now (is_weak z.weak_signal_dbm rssi) z
    else (ok (reject ident_malformed (some epc)), z)
by_epc is_digit _ rssi now z = (ok (reject ident_malformed none), z)

-- `evaluate`
unfoldable pub evaluate :
    (ℕ → Bool) → List Dict → ℕ → ReadZone → Result Error ReadZoneResult × ReadZone
evaluate is_digit [] now z = (ok (reject ident_unknown none), z)
evaluate is_digit (read ∷ []) now z = by_epc is_digit (get? "epc" read) (get? "rssiDbm" read) now z
evaluate is_digit (read ∷ other ∷ reads) now z = (ok (reject ident_ambiguous none), z)
