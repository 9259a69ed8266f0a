-- ===== src/Examples/Uplink.antt =====
-- Examples of a failing uplink, internal/repl/linkstate.go.
use colca.Prelude.{◌+◌, ◌/◌, ◌≤◌, codes, List, [], ◌∷◌, ◌≡◌, arith}
use colca.Repl.LinkState.{UnenrolledBackoff, refused, accepted}
use colca.Repl.LinkState.Backoff.{Refusals, none_yet, counted, nth_delay, Refusals-delay}
use colca.Repl.LinkState.Lanes.{Attempt, fails, recovers}

-- A refusal at second 5 and one at second 6, without jitter.
abbrev twice_refused : UnenrolledBackoff
twice_refused = refused 0 6000000000 (refused 0 5000000000 accepted)

was_refused : Refusals 2 6000000000 twice_refused
unfolding refused
was_refused =
    counted 1 5000000000 6000000000 0 (refused 0 5000000000 accepted)
      (counted 0 0 5000000000 0 accepted (none_yet 0) (omega arith) (omega arith)) (omega arith)
      (omega arith)

Refusals-delay_example :
    (twice_refused.delay ≡ nth_delay 2)
    × (6000000000 + twice_refused.delay / 2 ≤ twice_refused.until)
    × (twice_refused.until ≤ 6000000000 + twice_refused.delay)
Refusals-delay_example = Refusals-delay 1 6000000000 twice_refused was_refused

abbrev outage : List Attempt
outage =
    fails (codes "hello") 1
    ∷ fails (codes "uplink:kv") 2
    ∷ recovers (codes "hello") 3
    ∷ fails (codes "hello") 4
    ∷ fails (codes "hello") 5
    ∷ []
