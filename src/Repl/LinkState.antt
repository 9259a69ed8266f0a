-- ===== src/Repl/LinkState.antt =====
-- internal/repl/linkstate.go: what the uplink makes of a parent that refuses or does not answer. Times are
-- nanoseconds and the zero time is 0. The locks make each operation one step. `rand.N(n)`, a number below
-- `n`, is an argument.
pub mod Backoff
pub mod Lanes
use colca.Prelude.{
  ℕ, suc, ◌+◌, ◌-◌, ◌*◌, ◌/◌, ◌^◌, ℤ, pos, ◌⊖◌, min, max, Text, text_eq, is_empty, Table, lookup,
  insert, erase, List, [], ◌∷◌, Bool, true, false, not, ◌&&◌, ◌||◌, ltb, leb, ◌==◌, if◌then◌else◌,
  Option, some, none,
}

pub record ReplError : Type 0 where
  pub status : ℕ
  pub body : Text
  pub retry_after : ℕ
  pub store : Text

unfoldable pub is_store_changed : ReplError → Bool
is_store_changed e = e.status == 409 && not (is_empty e.store)

unfoldable pub is_busy : ReplError → Bool
is_busy e = e.status == 429

unfoldable pub is_refused : ReplError → Bool
is_refused e =
    leb 400 e.status && (ltb e.status 500 && (not (is_busy e) && not (is_store_changed e)))

unfoldable pub is_unauthorized : ReplError → Bool
is_unauthorized e = e.status == 401

-- One second and ten.
abbrev pub unenrolled_retry_min : ℕ
unenrolled_retry_min = 10 ^ 9

abbrev pub unenrolled_retry_max : ℕ
unenrolled_retry_max = 10 * 10 ^ 9

pub record UnenrolledBackoff : Type 0 where
  pub delay : ℕ
  pub until : ℕ

unfoldable pub refused : ℕ → ℕ → UnenrolledBackoff → UnenrolledBackoff
refused jitter now b =
    if ltb now b.until
    then b
    else let delay = min (max (2 * b.delay) unenrolled_retry_min) unenrolled_retry_max in
      record { delay = delay; until = now + (delay / 2 + jitter) }

abbrev pub accepted : UnenrolledBackoff
accepted = record { delay = 0; until = 0 }

-- `max(b.until.Sub(now), 0)`
unfoldable pub wait : ℕ → UnenrolledBackoff → ℕ
wait now b = b.until - now

-- Five minutes.
abbrev pub link_reminder_interval : ℕ
link_reminder_interval = 300 * 10 ^ 9

pub record LaneFailure : Type 0 where
  pub since : ℕ
  pub last_logged : ℕ
  pub attempts : ℕ

abbrev pub LinkState : Type 0
LinkState = Table Text LaneFailure

unfoldable pub fail : Text → ℕ → LinkState → Option LaneFailure → (Bool × ℕ × ℤ) × LinkState
fail lane now s none =
    ((true, 1, pos 0), insert lane (record { since = now; last_logged = now; attempts = 1 }) s)
fail lane now s (some f) =
    if leb (f.last_logged + link_reminder_interval) now
    then (
      (true, suc f.attempts, now ⊖ f.since),
      insert lane (record { since = f.since; last_logged = now; attempts = suc f.attempts }) s,
    )
    else (
      (false, suc f.attempts, now ⊖ f.since),
      insert lane
          (record { since = f.since; last_logged = f.last_logged; attempts = suc f.attempts }) s,
    )

unfoldable pub failed : Text → ℕ → LinkState → (Bool × ℕ × ℤ) × LinkState
unfolding fail
failed lane now s = fail lane now s (lookup lane s)

unfoldable pub recovered : Text → ℕ → LinkState → (Bool × ℕ × ℤ) × LinkState
recovered lane now s = elim (lookup lane s) [
  | none ↦ ((false, 0, pos 0), s)
  | some f ↦ ((true, f.attempts, now ⊖ f.since), erase lane s)
]
