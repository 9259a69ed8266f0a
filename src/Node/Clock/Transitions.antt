-- ===== src/Node/Clock/Transitions.antt =====
-- internal/clock/clock.go: what a node logs of its skew.
use colca.Prelude.{
  abs, List, [], ◌∷◌, ◌∙◌, Bool, true, false, not, ◌||◌, ltb, ◌≡◌, refl, Bool-cases, inl, inr,
}
use colca.Node.Clock.{
  skew_alarm, ParentSample, Clock, Transition, unchanged, exceeded, recovered, round_trip,
  max_round_trip, observe_parent, observe_with, is_positive, transition, new,
}

-- What `ObserveParent` reports of samples one after the other.
pub reports : List ParentSample → Clock → List Transition
reports [] c = []
reports (s ∷ ss) c = (observe_parent s c).0.1 ∷ reports ss (observe_parent s c).1

-- The reports that are logged alternate, the next one being `exceeded` if the skew is not beyond.
pub Alternates : Bool → List Transition → Type 0
Alternates beyond [] = Unit
Alternates beyond (unchanged ∷ ts) = Alternates beyond ts
Alternates beyond (exceeded ∷ ts) = (beyond ≡ false) × Alternates true ts
Alternates beyond (recovered ∷ ts) = (beyond ≡ true) × Alternates false ts

transition-Alternates :
    (is was : Bool) (ts : List Transition)
    → Alternates is ts
    → Alternates was (transition is was ∷ ts)
unfolding Alternates transition
transition-Alternates true true ts h = h
transition-Alternates true false ts h = (refl, h)
transition-Alternates false true ts h = (refl, h)
transition-Alternates false false ts h = h

observe_parent-Alternates :
    (s : ParentSample) (c : Clock) (ts : List Transition)
    → Alternates (observe_parent s c).1.beyond ts
    → Alternates c.beyond ((observe_parent s c).0.1 ∷ ts)
unfolding observe_parent observe_with Alternates
observe_parent-Alternates s c ts h = elim (Bool-cases (c.is_root || not (is_positive s.now_ms))) [
  | inl q ↦ rw q (rw q at h)
  | inr q ↦ elim (Bool-cases (ltb max_round_trip (round_trip s))) [
    | inl r ↦ rw (q, r) (rw (q, r) at h)
    | inr r ↦ rw (q, r) (transition-Alternates _ c.beyond ts (rw (q, r) at h))
  ]
]

reports-Alternates_from : (ss : List ParentSample) (c : Clock) → Alternates c.beyond (reports ss c)
unfolding reports Alternates
reports-Alternates_from [] c = tt
reports-Alternates_from (s ∷ ss) c =
    observe_parent-Alternates s c (reports ss (observe_parent s c).1)
      (reports-Alternates_from ss (observe_parent s c).1)

-- The clock behind samples one after the other.
pub after : List ParentSample → Clock → Clock
after [] c = c
after (s ∷ ss) c = after ss (observe_parent s c).1

-- What the log says of the alarm at its end, if it began in the state `beyond`.
pub said : Bool → List Transition → Bool
said beyond [] = beyond
said beyond (unchanged ∷ ts) = said beyond ts
said beyond (exceeded ∷ ts) = said true ts
said beyond (recovered ∷ ts) = said false ts

-- The clock knows whether the skew it holds is beyond the alarm.
IsAlarmed : Clock → Type 0
IsAlarmed c = c.beyond ≡ ltb skew_alarm (abs c.skew)

transition-said :
    (is was : Bool) (ts : List Transition) → said was (transition is was ∷ ts) ≡ said is ts
unfolding said transition
transition-said true true ts = refl
transition-said true false ts = refl
transition-said false true ts = refl
transition-said false false ts = refl

observe_parent-said :
    (s : ParentSample) (c : Clock) (ts : List Transition)
    → IsAlarmed c
    → (said c.beyond ((observe_parent s c).0.1 ∷ ts) ≡ said (observe_parent s c).1.beyond ts)
      × IsAlarmed (observe_parent s c).1
unfolding observe_parent observe_with said IsAlarmed
observe_parent-said s c ts h = elim (Bool-cases (c.is_root || not (is_positive s.now_ms))) [
  | inl q ↦ rw q (refl, h)
  | inr q ↦ elim (Bool-cases (ltb max_round_trip (round_trip s))) [
    | inl r ↦ rw (q, r) (refl, h)
    | inr r ↦ rw (q, r) (transition-said _ c.beyond ts, refl)
  ]
]

reports-said :
    (ss : List ParentSample) (c : Clock)
    → IsAlarmed c
    → said c.beyond (reports ss c) ≡ ltb skew_alarm (abs (after ss c).skew)
unfolding reports after said IsAlarmed
reports-said [] c h = h
reports-said (s ∷ ss) c h =
    let (now, alarmed) = observe_parent-said s c (reports ss (observe_parent s c).1) h in
    now ∙ reports-said ss (observe_parent s c).1 alarmed

-- A clock reports each crossing of the alarm, and reports it once. Of any samples that a new clock observes, used or not, the
-- reports other than `unchanged` are `exceeded` and `recovered` in turn, `exceeded` first, and the last of them
-- is `exceeded` exactly when the skew that the clock then holds is beyond the alarm.
pub reports-Alternates :
    (ss : List ParentSample) (is_root : Bool)
    → Alternates false (reports ss (new is_root))
      × (said false (reports ss (new is_root)) ≡ ltb skew_alarm (abs (after ss (new is_root)).skew))
unfolding IsAlarmed
reports-Alternates ss is_root =
    (reports-Alternates_from ss (new is_root), reports-said ss (new is_root) refl)
