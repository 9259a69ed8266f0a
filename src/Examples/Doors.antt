-- ===== src/Examples/Doors.antt =====
-- Examples of the clock and the limiter, internal/clock and internal/httplimit.
use colca.Prelude.{
  ℕ, ◌+◌, ◌-◌, ◌*◌, ◌/◌, ◌≤◌, min, abs, List, codes, lookup, [], ◌∷◌, true, false, ltb, ok, pos,
  IsWithin, ◌≡◌, refl, arith,
}
use colca.Node.Clock.{
  skew_alarm, ParentSample, Clock, observe_parent, observe_with, round_trip, parent_skew,
}
use colca.Node.Clock.Skew.{IsExchange, observe_parent-IsWithin}
use colca.Node.Clock.Transitions.{reports, Alternates, after, said, reports-Alternates}
use colca.Node.Limiter.{
  Float, Policy, Limiter, new_with_clock, acquire, bucket_key, sweep, sweep_keys, keys_of,
  is_recent, place, serve, refill, is_rated, refusal_of, decide, number_of,
}
use colca.Node.Limiter.Admissions.{IsWithinPolicy}
use colca.Node.Limiter.Counted.{IsCounted}
use colca.Node.Limiter.Bounds.{
  Reaches.starts, Reaches.admits, Reaches-IsCounted, acquire-IsWithinPolicy,
}

-- The parent is 100 ms ahead; it held the request for 20 ms.
abbrev sample : ParentSample
sample = record { now_ms = pos 1130; held = pos 20; sent = 1000000000; received = 1060000000 }

exchange : IsExchange sample 1130500000 1030500000
exchange = record {
  arrived = 1010500000;
  sent_first = omega arith;
  held_long = omega arith;
  read_last = omega arith;
  whole_ms = omega arith;
  next_ms = omega arith;
}

abbrev child : Clock
child = record { is_root = false; skew = pos 0; sampled = false; last_sample = 0; beyond = false }

used_sample : (observe_parent sample child).0.2 ≡ true
unfolding observe_parent observe_with round_trip
used_sample = refl

observe_parent-IsWithin_example :
    IsWithin
      (round_trip sample / 2 + 1000000 + 1)
      (parent_skew (observe_parent sample child).1).0
      1130500000
      1030500000
    × ((parent_skew (observe_parent sample child).1).1 ≡ true)
    × (round_trip sample / 2 + 1000000 + 1 ≤ 251000001)
observe_parent-IsWithin_example =
    observe_parent-IsWithin sample child 1130500000 1030500000 exchange used_sample

-- The parent is ten seconds ahead.
abbrev far_sample : ParentSample
far_sample = record sample { now_ms = pos 11030 }

abbrev there_and_back : List ParentSample
there_and_back = sample ∷ far_sample ∷ far_sample ∷ sample ∷ []

reports-Alternates_example :
    Alternates false (reports there_and_back child)
    × (said false (reports there_and_back child)
        ≡ ltb skew_alarm (abs (after there_and_back child).skew))
reports-Alternates_example = reports-Alternates there_and_back false

-- Whole tokens.
abbrev whole_tokens : Float
whole_tokens = record {
  F = ℕ;
  of_int = λ n. n;
  is_positive = λ n. ltb 0 n;
  is_below_one = λ n. ltb n 1;
  less_one = λ n. n - 1;
  plus = λ m n. m + n;
  least = λ m n. min m n;
  earned = λ elapsed rate. elapsed * rate / 1000000000;
  missing_delay = λ tokens rate. (1 - tokens) * 1000000000 / rate;
}

abbrev one_each : Policy whole_tokens
one_each = record {
  rate_per_second = 1;
  burst = 2;
  per_caller_concurrent = 1;
  global_concurrent = 5;
}

abbrev empty_limiter : Limiter whole_tokens
empty_limiter = new_with_clock whole_tokens 100 600

abbrev after_one : Limiter whole_tokens
after_one = (acquire (codes "kv") (codes "anna") one_each 10 empty_limiter).1

admitted_one : acquire (codes "kv") (codes "anna") one_each 10 empty_limiter ≡ (ok tt, after_one)
unfolding acquire serve place lookup refusal_of decide refill is_rated sweep number_of is_recent
    sweep_keys keys_of
admitted_one = refl

Reaches-IsCounted_example :
    IsCounted after_one ((codes "kv", bucket_key (codes "kv") (codes "anna")) ∷ [])
Reaches-IsCounted_example =
    Reaches-IsCounted after_one ((codes "kv", bucket_key (codes "kv") (codes "anna")) ∷ []) (
      admits (codes "kv") (codes "anna") one_each 10 empty_limiter after_one [] (starts 100 600)
        admitted_one)

acquire-IsWithinPolicy_example :
    IsWithinPolicy
      (codes "kv")
      (bucket_key (codes "kv") (codes "anna"))
      one_each
      ((codes "kv", bucket_key (codes "kv") (codes "anna")) ∷ [])
acquire-IsWithinPolicy_example =
    acquire-IsWithinPolicy (codes "kv") (codes "anna") one_each 10 empty_limiter after_one []
      (starts 100 600) admitted_one
