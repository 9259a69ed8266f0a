-- ===== src/Repl/LinkState/Lanes.antt =====
-- internal/repl/linkstate.go: what the log says of a lane that fails.
use colca.Prelude.{
  ℕ, suc, ◌+◌, Text, text_eq, text_beq, text_beq_sound, lookup, insert, lookup-insert, lookup-erase,
  arith, List, [], ◌∷◌, leb, ltb, if◌then◌else◌, Option, some, none, is_some, ◌≡◌, refl, ap, ◌∙◌,
  Bool-cases, Option-cases, inl, inr,
}
use colca.Repl.LinkState.{LaneFailure, LinkState, link_reminder_interval, fail, failed, recovered}

-- What happens to the lanes, in the order in which it happens.
pub data Attempt : Type 0 where
  fails : Text → ℕ → Attempt
  recovers : Text → ℕ → Attempt

unfoldable pub attempt : Attempt → LinkState → LinkState
attempt (fails lane now) s = (failed lane now s).1
attempt (recovers lane now) s = (recovered lane now s).1

unfoldable pub attempts : List Attempt → LinkState → LinkState
attempts [] s = s
attempts (a ∷ as_) s = attempts as_ (attempt a s)

-- The failures of a lane since it last recovered, `n` before these.
pub failures : Text → List Attempt → ℕ → ℕ
failures lane [] n = n
failures lane (fails l now ∷ as_) n = failures lane as_ (if text_beq l lane then suc n else n)
failures lane (recovers l now ∷ as_) n = failures lane as_ (if text_beq l lane then 0 else n)

counted : Option LaneFailure → ℕ
counted none = 0
counted (some f) = f.attempts

insert-counted :
    (l lane : Text) (f : LaneFailure) (s : LinkState)
    → f.attempts ≡ suc (counted (lookup l s))
    → counted (lookup lane (insert l f s))
      ≡ (if text_beq l lane then suc (counted (lookup lane s)) else counted (lookup lane s))
unfolding counted
insert-counted l lane f s h = rw (lookup-insert l lane f s) (elim (Bool-cases (text_beq l lane)) [
  | inl q ↦ rw (q, ← text_beq_sound l lane q) h
  | inr q ↦ rw q refl
])

fail-counted :
    (l lane : Text) (now : ℕ) (s : LinkState) (o : Option LaneFailure)
    → lookup l s ≡ o
    → counted (lookup lane (fail l now s o).1)
      ≡ (if text_beq l lane then suc (counted (lookup lane s)) else counted (lookup lane s))
unfolding fail counted
fail-counted l lane now s none q = insert-counted l lane _ s (rw q refl)
fail-counted l lane now s (some f) q =
    elim (Bool-cases (leb (f.last_logged + link_reminder_interval) now)) [
      | inl r ↦ rw r (insert-counted l lane _ s (rw q refl))
      | inr r ↦ rw r (insert-counted l lane _ s (rw q refl))
    ]

recovered-counted :
    (l lane : Text) (now : ℕ) (s : LinkState)
    → counted (lookup lane (recovered l now s).1)
      ≡ (if text_beq l lane then 0 else counted (lookup lane s))
unfolding recovered counted
recovered-counted l lane now s = elim (Option-cases (lookup l s)) [
  | inl q ↦
      rw (recovered, q)
        (elim (Bool-cases (text_beq l lane)) [
          | inl r ↦ rw (r, ← text_beq_sound l lane r, q) refl
          | inr r ↦ rw r refl
        ])
  | inr (f, q) ↦
      rw (recovered, q, lookup-erase l lane s)
        (elim (Bool-cases (text_beq l lane)) [ inl r ↦ rw r refl | inr r ↦ rw r refl ])
]

attempts-counted :
    (as_ : List Attempt) (lane : Text) (s : LinkState)
    → counted (lookup lane (attempts as_ s)) ≡ failures lane as_ (counted (lookup lane s))
unfolding attempts attempt failures failed
attempts-counted [] lane s = refl
attempts-counted (fails l now ∷ as_) lane s =
    attempts-counted as_ lane (failed l now s).1
    ∙ ap (failures lane as_) (fail-counted l lane now s (lookup l s) refl)
attempts-counted (recovers l now ∷ as_) lane s =
    attempts-counted as_ lane (recovered l now s).1
    ∙ ap (failures lane as_) (recovered-counted l lane now s)

-- A lane is held exactly while it has failures.
IsTold : Text → LinkState → Type 0
IsTold lane s = is_some (lookup lane s) ≡ ltb 0 (counted (lookup lane s))

insert-IsTold :
    (l lane : Text) (f : LaneFailure) (n : ℕ) (s : LinkState)
    → f.attempts ≡ suc n
    → IsTold lane s
    → IsTold lane (insert l f s)
unfolding IsTold counted
insert-IsTold l lane f n s h t =
    rw (lookup-insert l lane f s)
      (elim (Bool-cases (text_beq l lane)) [ inl q ↦ rw (q, h) (ground arith) | inr q ↦ rw q t ])

fail-IsTold :
    (l lane : Text) (now : ℕ) (s : LinkState) (o : Option LaneFailure)
    → IsTold lane s
    → IsTold lane (fail l now s o).1
unfolding fail
fail-IsTold l lane now s none t = insert-IsTold l lane _ 0 s refl t
fail-IsTold l lane now s (some f) t =
    elim (Bool-cases (leb (f.last_logged + link_reminder_interval) now)) [
      | inl r ↦ rw r (insert-IsTold l lane _ f.attempts s refl t)
      | inr r ↦ rw r (insert-IsTold l lane _ f.attempts s refl t)
    ]

recovered-IsTold :
    (l lane : Text) (now : ℕ) (s : LinkState) → IsTold lane s → IsTold lane (recovered l now s).1
unfolding recovered IsTold counted
recovered-IsTold l lane now s t = elim (Option-cases (lookup l s)) [
  | inl q ↦ rw (recovered, q) t
  | inr (f, q) ↦
      rw (recovered, q, lookup-erase l lane s)
        (elim (Bool-cases (text_beq l lane)) [ inl r ↦ rw r refl | inr r ↦ rw r t ])
]

attempts-IsTold :
    (as_ : List Attempt) (lane : Text) (s : LinkState)
    → IsTold lane s
    → IsTold lane (attempts as_ s)
unfolding attempts attempt failed
attempts-IsTold [] lane s t = t
attempts-IsTold (fails l now ∷ as_) lane s t =
    attempts-IsTold as_ lane (failed l now s).1 (fail-IsTold l lane now s (lookup l s) t)
attempts-IsTold (recovers l now ∷ as_) lane s t =
    attempts-IsTold as_ lane (recovered l now s).1 (recovered-IsTold l lane now s t)

-- The log says whether a lane was down and how many attempts it cost. After any history of failures and
-- recoveries of any lanes, `Recovered` returns for a lane the number of its failures since it last
-- recovered, and that it was failing exactly when that is not 0.
pub recovered-failures :
    (as_ : List Attempt) (lane : Text) (now : ℕ)
    → ((recovered lane now (attempts as_ [])).0.1 ≡ failures lane as_ 0)
      × ((recovered lane now (attempts as_ [])).0.0 ≡ ltb 0 (failures lane as_ 0))
unfolding counted recovered IsTold lookup
recovered-failures as_ lane now =
    let n = attempts-counted as_ lane [] in
    let t = attempts-IsTold as_ lane [] refl in
    elim (Option-cases (lookup lane (attempts as_ []))) [
      | inl q ↦
          let zero_ : 0 ≡ failures lane as_ 0 = rw q at n in rw (recovered, q, ← zero_) (refl, refl)
      | inr (f, q) ↦
          let same : f.attempts ≡ failures lane as_ 0 = rw q at n in
          rw (recovered, q, ← same) (refl, rw q at t)
    ]
