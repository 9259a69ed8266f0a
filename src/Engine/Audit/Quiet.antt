-- ===== src/Engine/Audit/Quiet.antt =====
-- internal/engine/audit_repeats.go: how often one denial is written.
use colca.Prelude.{
  ℕ, suc, ◌+◌, ◌<◌, lookup, insert, lookup-insert, List, [], ◌∷◌, All, true, false, ltb, Option,
  some, none, ◌≡◌, refl, ap, arith, Bool-cases, inl, inr,
}
use colca.Engine.Audit.{
  AuditDenial, AuditRepeatKey, AuditRepeat, AuditRepeats, audit_repeat_window, audit_key_eq,
  account, audit_key_of, admit, admit_under, due,
}
use colca.Engine.Audit.Counts.{Event, denied, swept}

-- The key has an account, last written at `t`.
record IsWrittenAt (k : AuditRepeatKey) (t : ℕ) (m : AuditRepeats) : Type 0 where
  held : AuditRepeat
  found : lookup k m ≡ some held
  since : held.since ≡ t

lookup-insert_same :
    (k : AuditRepeatKey) (v : AuditRepeat) (m : AuditRepeats) → lookup k (insert k v m) ≡ some v
lookup-insert_same k v m = ground (arith, lookup-insert k k v m, audit_key_eq.beq_iff k k)

account-held :
    (k : AuditRepeatKey) (x : AuditRepeat) (m : AuditRepeats)
    → lookup k m ≡ some x
    → account k m ≡ k
unfolding account
account-held k x m h = rw (account, h) refl

-- What an admission leaves under the key that it counts under.
admit_under-held :
    (k : AuditRepeatKey) (d : AuditDenial) (now : ℕ) (m : AuditRepeats) (o : Option AuditRepeat)
    → (v : AuditRepeat) × ((admit_under k d now m o).1 ≡ insert k v m)
      × ((admit_under k d now m o).0.0 ≡ true → v.since ≡ now)
      × ((x : AuditRepeat)
          → o ≡ some x
          → now < x.since + audit_repeat_window
          → ((admit_under k d now m o).0.0 ≡ false) × (v.since ≡ x.since))
unfolding admit_under
admit_under-held k d now m none =
    (record { since = now; repeats = 0; last = d }, refl, λ w. refl, λ x q y. cc)
admit_under-held k d now m (some held) =
    elim (Bool-cases (ltb now (held.since + audit_repeat_window))) [
      | inl r ↦ rw r (
        record { since = held.since; repeats = suc held.repeats; last = d },
        refl,
        λ w. cc,
        λ x q y. (refl, ap since_of q),
      )
      | inr r ↦ rw r (
        record { since = now; repeats = 0; last = d },
        refl,
        λ w. refl,
        λ x q y. absurd (let same : held.since ≡ x.since = ap since_of q in ground arith),
      )
    ]
  where
    since_of : Option AuditRepeat → ℕ
    since_of none = 0
    since_of (some r) = r.since

-- A denial that is written at `t` under a key of its own has an account of that time.
written-IsWrittenAt :
    (d : AuditDenial) (t : ℕ) (m : AuditRepeats)
    → account (audit_key_of d) m ≡ audit_key_of d
    → (admit d t m).0.0 ≡ true
    → IsWrittenAt (audit_key_of d) t (admit d t m).1
unfolding admit
written-IsWrittenAt d t m own w =
    let k = audit_key_of d in
    let (v, is, written, quiet) = admit_under-held k d t m (lookup k m) in
    let at_own : (admit_under k d t m (lookup k m)).0.0 ≡ true = rw own at w in
    rw (own, is) (record { held = v; found = lookup-insert_same k v m; since = written at_own })

admit-IsWrittenAt :
    (k : AuditRepeatKey) (d : AuditDenial) (t s : ℕ) (m : AuditRepeats)
    → s < t + audit_repeat_window
    → IsWrittenAt k t m
    → IsWrittenAt k t (admit d s m).1
unfolding admit
admit-IsWrittenAt k d t s m young h =
    let j = account (audit_key_of d) m in
    let (v, is, written, quiet) = admit_under-held j d s m (lookup j m) in
    rw is (elim (Bool-cases (audit_key_eq.beq j k)) [
      | inl same ↦
          let j_is : j ≡ k = (audit_key_eq.beq_iff j k).0 same in
          let kept = quiet h.held (cc (j_is, h.found)) (omega (arith, h.since, young)) in
          record {
            held = v;
            found = rw (lookup-insert j k v m, same) refl;
            since = cc (kept.1, h.since);
          }
      | inr other ↦ record {
        held = h.held;
        found = rw (lookup-insert j k v m, other) h.found;
        since = h.since;
      }
    ])

-- A sweep before the window of an account ends leaves the account.
due-lookup :
    (now : ℕ) (k : AuditRepeatKey) (held : AuditRepeat) (m : AuditRepeats)
    → now < held.since + audit_repeat_window
    → lookup k m ≡ some held
    → lookup k (due now false m).1 ≡ some held
unfolding due lookup
due-lookup now k held [] young h = h
due-lookup now k held ((j, x) ∷ m) young h = elim (Bool-cases (audit_key_eq.beq j k)) [
  | inl same ↦
      let here : some x ≡ some held = rw same at h in
      let value : x ≡ held = cc here in
      let kept : ltb now (x.since + audit_repeat_window) ≡ true = rw value (ground arith) in
      rw kept (rw same here)
  | inr other ↦
      let rest = due-lookup now k held m young (rw other at h) in
      elim (Bool-cases (ltb now (x.since + audit_repeat_window))) [
        | inl kept ↦ rw kept (rw other rest)
        | inr gone ↦ rw gone rest
      ]
]

-- What comes in before the window of `t` ends: denials, and sweeps that are not the last before the node stops.
unfoldable pub IsBefore : ℕ → Event → Type 0
IsBefore end_ (denied d now) = now < end_
IsBefore end_ (swept now all_) = (now < end_) × (all_ ≡ false)

-- The accounts behind a history.
unfoldable pub accounts : List Event → AuditRepeats → AuditRepeats
accounts [] m = m
accounts (denied d now ∷ es) m = accounts es (admit d now m).1
accounts (swept now all_ ∷ es) m = accounts es (due now all_ m).1

accounts-IsWrittenAt :
    (k : AuditRepeatKey) (t : ℕ) (es : List Event) (m : AuditRepeats)
    → All (IsBefore (t + audit_repeat_window)) es
    → IsWrittenAt k t m
    → IsWrittenAt k t (accounts es m)
unfolding accounts IsBefore
accounts-IsWrittenAt k t [] m young h = h
accounts-IsWrittenAt k t (denied d s ∷ es) m (y, ys) h =
    accounts-IsWrittenAt k t es (admit d s m).1 ys (admit-IsWrittenAt k d t s m y h)
accounts-IsWrittenAt k t (swept s all_ ∷ es) m ((y, not_all), ys) h =
    let left : IsWrittenAt k t (due s all_ m).1 = rw not_all (record {
      held = h.held;
      found = due-lookup s k h.held m (omega (arith, y, h.since)) h.found;
      since = h.since;
    }) in
    accounts-IsWrittenAt k t es (due s all_ m).1 ys left

-- A denial that is counted under a key of its own, not under the account that is shared while the map is full, is
-- written at most once in five minutes. If it is written at `t`, then after any denials, however many and of
-- whatever callers, and any sweeps that do not take every account, all of them before five minutes have passed since
-- `t`, a denial with the same key that comes before then is not written.
pub accounts-quiet :
    (d again : AuditDenial) (t now : ℕ) (es : List Event) (m : AuditRepeats)
    → account (audit_key_of d) m ≡ audit_key_of d
    → (admit d t m).0.0 ≡ true
    → audit_key_of again ≡ audit_key_of d
    → All (IsBefore (t + audit_repeat_window)) es
    → now < t + audit_repeat_window
    → (admit again now (accounts es (admit d t m).1)).0.0 ≡ false
unfolding admit
accounts-quiet d again t now es m own w same young y =
    let k = audit_key_of d in
    let m' = accounts es (admit d t m).1 in
    let h = accounts-IsWrittenAt k t es (admit d t m).1 young (written-IsWrittenAt d t m own w) in
    let (v, is, written, quiet) = admit_under-held k again now m' (lookup k m') in
    rw (same, account-held k h.held m' h.found) (quiet h.held h.found (omega (arith, h.since, y))).0
