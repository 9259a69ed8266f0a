-- ===== src/Node/Clock/Skew.antt =====
-- internal/clock/clock.go: how far the measured skew is from the true one.
use colca.Prelude.{
  ℕ, ◌+◌, ◌*◌, ◌/◌, ◌^◌, ◌≤◌, ◌<◌, true, not, ◌||◌, ltb, to_nat, IsWithin, ⊖-IsWithin, ◌≡◌, refl,
  arith, Bool-cases, inl, inr,
}
use colca.Node.Clock.{
  ParentSample, Clock, round_trip, max_round_trip, skew_of, observe_parent, observe_with,
  parent_skew, is_positive,
}

-- How a sample came about, by the node's clock: the request reached the parent after it was sent; the
-- parent held it for at least the hold that it says and stamped it at `stamped`, when its own clock
-- showed `parent` nanoseconds, of which it sent the milliseconds; the response was read after that.
pub record IsExchange (s : ParentSample) (parent stamped : ℕ) : Type 0 where
  pub arrived : ℕ
  pub sent_first : s.sent ≤ arrived
  pub held_long : arrived + to_nat s.held ≤ stamped
  pub read_last : stamped ≤ s.received
  pub whole_ms : to_nat s.now_ms * 10 ^ 6 ≤ parent
  pub next_ms : parent < to_nat s.now_ms * 10 ^ 6 + 10 ^ 6

pub skew_of-IsWithin :
    (s : ParentSample) (parent stamped : ℕ)
    → IsExchange s parent stamped
    → IsWithin (round_trip s / 2 + 10 ^ 6 + 1) (skew_of s (round_trip s)) parent stamped
unfolding skew_of round_trip
skew_of-IsWithin s parent stamped x =
    ⊖-IsWithin _ _ _ _ _
      (omega (arith, x.sent_first, x.held_long, x.read_last, x.whole_ms, x.next_ms))
      (omega (arith, x.sent_first, x.held_long, x.read_last, x.whole_ms, x.next_ms))

-- A measured skew is true to half a round trip. If `ObserveParent` uses a sample, the skew that the clock
-- then has, and `ParentSkew` returns, is that of the two clocks when the parent read its own, to within
-- half the time on the link and the millisecond that the parent's reading is rounded to, and so to
-- within 251 ms and a nanosecond.
pub observe_parent-IsWithin :
    (s : ParentSample) (c : Clock) (parent stamped : ℕ)
    → IsExchange s parent stamped
    → (observe_parent s c).0.2 ≡ true
    → IsWithin (round_trip s / 2 + 10 ^ 6 + 1) (parent_skew (observe_parent s c).1).0 parent stamped
      × ((parent_skew (observe_parent s c).1).1 ≡ true)
      × (round_trip s / 2 + 10 ^ 6 + 1 ≤ 251 * 10 ^ 6 + 1)
unfolding observe_parent observe_with parent_skew
observe_parent-IsWithin s c parent stamped x used =
    elim (Bool-cases (c.is_root || not (is_positive s.now_ms))) [
      | inl q ↦ absurd (cc (rw q at used))
      | inr q ↦ elim (Bool-cases (ltb max_round_trip (round_trip s))) [
        | inl r ↦ absurd (cc (rw (q, r) at used))
        | inr r ↦ rw (q, r) (skew_of-IsWithin s parent stamped x, refl, ground arith)
      ]
    ]
