-- ===== src/Engine/Audit/Counts.antt =====
-- internal/engine/audit_repeats.go: how often the audit says that a denial happened.
use colca.Prelude.{
  ℕ, suc, ◌+◌, ◌++◌, lookup, insert, List, [], ◌∷◌, Bool, true, not, ◌&&◌, ltb, if◌then◌else◌,
  Option, some, none, ◌≡◌, refl, ap, arith, Bool-cases, inl, inr,
}
use colca.Engine.Audit.{
  AuditDenial, AuditRepeatKey, AuditRepeat, AuditRepeats, audit_repeat_window, audit_key_eq,
  account, audit_key_of, admit, admit_under, due,
}

-- The repeats that are counted and in no record yet.
pub pending : AuditRepeats → ℕ
pending [] = 0
pending ((k, held) ∷ m) = held.repeats + pending m

pub reported : List AuditRepeat → ℕ
reported [] = 0
reported (held ∷ out) = held.repeats + reported out

-- What the operations do to the audit: a denial comes in, or the sweep writes what is due.
pub data Event : Type 0 where
  denied : AuditDenial → ℕ → Event
  swept : ℕ → Bool → Event

pub denials : List Event → ℕ
denials [] = 0
denials (denied d now ∷ es) = suc (denials es)
denials (swept now all_ ∷ es) = denials es

-- The denials that a decision of `admit` puts on record: the denial itself, if it is written, and the
-- repeats that its record carries.
on_record : Bool × ℕ × ℕ → ℕ
on_record (write, repeated, since) = if write then suc repeated else repeated

-- The denials that the records of a history stand for, and the accounts left.
pub audited : List Event → AuditRepeats → ℕ × AuditRepeats
audited [] m = (0, m)
audited (denied d now ∷ es) m =
    let rest = audited es (admit d now m).1 in (on_record (admit d now m).0 + rest.0, rest.1)
audited (swept now all_ ∷ es) m =
    let rest = audited es (due now all_ m).1 in (reported (due now all_ m).0 + rest.0, rest.1)

pending-insert-none :
    (k : AuditRepeatKey) (v : AuditRepeat) (m : AuditRepeats)
    → lookup k m ≡ none
    → pending (insert k v m) ≡ pending m + v.repeats
unfolding pending insert lookup
pending-insert-none k v [] h = omega arith
pending-insert-none k v ((j, w) ∷ m) h = elim (Bool-cases (audit_key_eq.beq j k)) [
  | inl q ↦ cc (rw q at h)
  | inr q ↦ rw q (omega (arith, pending-insert-none k v m (rw q at h)))
]

pending-insert-some :
    (k : AuditRepeatKey) (v held : AuditRepeat) (m : AuditRepeats)
    → lookup k m ≡ some held
    → pending (insert k v m) + held.repeats ≡ pending m + v.repeats
unfolding pending insert lookup
pending-insert-some k v held [] h = cc
pending-insert-some k v held ((j, w) ∷ m) h = elim (Bool-cases (audit_key_eq.beq j k)) [
  | inl q ↦
      let same : some w ≡ some held = rw q at h in
      let n : w.repeats ≡ held.repeats = ap (λ o. repeats_of o) same in rw q (omega arith)
  | inr q ↦ rw q (omega (arith, pending-insert-some k v held m (rw q at h)))
]
  where
    repeats_of : Option AuditRepeat → ℕ
    repeats_of none = 0
    repeats_of (some r) = r.repeats

-- A denial is on record at once, or one more is pending; what a record reports is pending no more.
admit_under-pending :
    (k : AuditRepeatKey) (d : AuditDenial) (now : ℕ) (m : AuditRepeats) (o : Option AuditRepeat)
    → lookup k m ≡ o
    → on_record (admit_under k d now m o).0 + pending (admit_under k d now m o).1 ≡ suc (pending m)
unfolding admit_under on_record
admit_under-pending k d now m none q =
    omega (arith, pending-insert-none k (record { since = now; repeats = 0; last = d }) m q)
admit_under-pending k d now m (some held) q =
    elim (Bool-cases (ltb now (held.since + audit_repeat_window))) [
      | inl r ↦ rw r (
          omega (
            arith,
            pending-insert-some k
                (record { since = held.since; repeats = suc held.repeats; last = d }) held m q,
          ))
      | inr r ↦ rw r (
          omega
            (arith, pending-insert-some k (record { since = now; repeats = 0; last = d }) held m q))
    ]

due-pending :
    (now : ℕ) (all_ : Bool) (m : AuditRepeats)
    → reported (due now all_ m).0 + pending (due now all_ m).1 ≡ pending m
unfolding due pending reported
due-pending now all_ [] = refl
due-pending now all_ ((k, held) ∷ m) =
    elim (Bool-cases (not all_ && ltb now (held.since + audit_repeat_window))) [
      | inl q ↦ rw q (omega (arith, due-pending now all_ m))
      | inr q ↦ rw q (ground (arith, due-pending now all_ m))
    ]

audited-pending :
    (es : List Event) (m : AuditRepeats)
    → (audited es m).0 + pending (audited es m).1 ≡ denials es + pending m
unfolding audited denials admit
audited-pending [] m = refl
audited-pending (denied d now ∷ es) m = omega (
  arith,
  audited-pending es (admit d now m).1,
  admit_under-pending (account (audit_key_of d) m) d now m (lookup (account (audit_key_of d) m) m)
      refl,
)
audited-pending (swept now all_ ∷ es) m =
    omega (arith, audited-pending es (due now all_ m).1, due-pending now all_ m)

due_all-pending : (now : ℕ) (m : AuditRepeats) → reported (due now true m).0 ≡ pending m
unfolding due pending reported
due_all-pending now [] = refl
due_all-pending now ((k, held) ∷ m) = ground (arith, due_all-pending now m)

flushed-denials :
    (es : List Event) (now : ℕ) (m : AuditRepeats)
    → (audited (es ++ swept now true ∷ []) m).0 ≡ denials es + pending m
unfolding audited denials admit
flushed-denials [] now m = omega (arith, due_all-pending now m)
flushed-denials (denied d t ∷ es) now m = omega (
  arith,
  flushed-denials es now (admit d t m).1,
  admit_under-pending (account (audit_key_of d) m) d t m (lookup (account (audit_key_of d) m) m)
      refl,
)
flushed-denials (swept t all_ ∷ es) now m =
    omega (arith, flushed-denials es now (due t all_ m).1, due-pending t all_ m)

-- The audit accounts for each denial exactly once. In any history of denials and sweeps that a flush
-- ends, with any readings of the clock, the denials written at once and the repeats that the records
-- carry or the sweeps return are together as many as the denials that came in.
pub audited-denials :
    (es : List Event) (now : ℕ) → (audited (es ++ swept now true ∷ []) []).0 ≡ denials es
unfolding pending
audited-denials es now = omega (arith, flushed-denials es now [])
