-- ===== src/Node/Clock.antt =====
-- internal/clock/clock.go: `Clock`, the skew to the parent. Times are nanoseconds since the epoch and
-- durations their differences, within the range of int64, where Go's do not saturate. The lock makes each
-- operation one step. The host clock's verdict is not modelled: the operations only pass it on.
pub mod Skew
pub mod Transitions
use colca.Prelude.{
  ℕ, suc, ◌+◌, ◌-◌, ◌*◌, ◌/◌, ◌^◌, List, [], ◌∷◌, Bool, true, false, not, ◌&&◌, ◌||◌, ltb, leb,
  if◌then◌else◌, ℤ, pos, negsuc, ◌⊖◌, to_nat, abs, Option, some, none,
}

-- Five seconds, half a second, and half a second.
abbrev pub skew_alarm : ℕ
skew_alarm = 5 * 10 ^ 9

abbrev pub skew_warn : ℕ
skew_warn = 500 * 10 ^ 6

abbrev pub max_round_trip : ℕ
max_round_trip = skew_warn

pub record ParentSample : Type 0 where
  pub now_ms : ℤ
  pub held : ℤ
  pub sent : ℕ
  pub received : ℕ

-- `max(s.Received.Sub(s.Sent)-max(s.Held, 0), 0)`, with the subtraction that stops at 0.
unfoldable pub round_trip : ParentSample → ℕ
round_trip s = s.received - s.sent - to_nat s.held

pub data Transition : Type 0 where
  unchanged exceeded recovered : Transition

pub record Clock : Type 0 where
  pub is_root : Bool
  pub skew : ℤ
  pub sampled : Bool
  pub last_sample : ℕ
  pub beyond : Bool

abbrev pub new : Bool → Clock
new is_root = record {
  is_root = is_root;
  skew = pos 0;
  sampled = false;
  last_sample = 0;
  beyond = false;
}

abbrev pub is_positive : ℤ → Bool
is_positive (pos n) = ltb 0 n
is_positive (negsuc n) = false

-- `time.UnixMilli(s.NowMS).Sub(s.Received) + rt/2` of a positive `NowMS`.
unfoldable pub skew_of : ParentSample → ℕ → ℤ
skew_of s rt = (to_nat s.now_ms * 10 ^ 6 + rt / 2) ⊖ s.received

unfoldable pub transition : Bool → Bool → Transition
transition is was =
    if is && not was then exceeded else if not is && was then recovered else unchanged

unfoldable pub observe_with : ParentSample → ℤ → Clock → (ℤ × Transition × Bool) × Clock
observe_with s skew c =
    let beyond = ltb skew_alarm (abs skew) in
    (
      (skew, transition beyond c.beyond, true),
      record {
        is_root = c.is_root;
        skew = skew;
        sampled = true;
        last_sample = s.received;
        beyond = beyond;
      },
    )

unfoldable pub observe_parent : ParentSample → Clock → (ℤ × Transition × Bool) × Clock
unfolding observe_with
observe_parent s c =
    if c.is_root || not (is_positive s.now_ms)
    then ((pos 0, unchanged, false), c)
    else if ltb max_round_trip (round_trip s)
    then ((pos 0, unchanged, false), c)
    else observe_with s (skew_of s (round_trip s)) c

unfoldable pub parent_skew : Clock → ℤ × Bool
parent_skew c = (c.skew, c.sampled)

unfoldable pub parent_sample_age : ℕ → Clock → ℤ × Bool
parent_sample_age now c = if not c.sampled then (pos 0, false) else (now ⊖ c.last_sample, true)
