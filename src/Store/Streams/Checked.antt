-- ===== src/Store/Streams/Checked.antt =====
-- internal/store/store.go: an append of a record that is too large.
use colca.Prelude.{
  ℕ, ◌+◌, ◌≤◌, ◌<◌, ltb, ◌==◌, Text, text_beq, codes, length, List, [], ◌∷◌, ◌++◌, All, Bool, false,
  Bool-cases, not, Option, some, none, if◌then◌else◌, err, Result-cases, ◌≡◌, ◌≢◌, refl, ap, inl,
  inr, arith, ◌⊎◌,
}
use colca.Store.Data.{Record, Store}
use colca.Store.Encode.{Setting}
use colca.Store.Streams.{
  record_too_large, CursorAdvance, first_too_large, local_only_of, check_append,
  append_advancing_locked,
}

-- Record `i` is the first with a payload above the cap.
pub record IsFirstTooLarge (cap i : ℕ) (recs : List Record) : Type 0 where
  pub before : List Record
  pub large : Record
  pub behind : List Record
  pub split : recs ≡ before ++ large ∷ behind
  pub number : length before ≡ i
  pub fit : All (λ r. length r.payload ≤ cap) before
  pub above : cap < length large.payload

first_too_large-cases :
    (cap i : ℕ) (recs : List Record)
    → (All (λ r. length r.payload ≤ cap) recs × (first_too_large cap i recs ≡ none))
      ⊎ ((n : ℕ) × IsFirstTooLarge cap n recs × (first_too_large cap i recs ≡ some (i + n)))
unfolding first_too_large
first_too_large-cases cap i [] = inl (tt, refl)
first_too_large-cases cap i (r ∷ rs) = elim (Bool-cases (ltb cap (length r.payload))) [
  | inl q ↦ inr (
    0,
    record {
      before = [];
      large = r;
      behind = rs;
      split = refl;
      number = refl;
      fit = tt;
      above = ground arith;
    },
    rw q (ap some (omega arith)),
  )
  | inr q ↦
      let fits : length r.payload ≤ cap = ground arith in
      elim (first_too_large-cases cap (i + 1) rs) [
        | inl (all_fit, none_found) ↦ inl ((fits, all_fit), rw (q, none_found) refl)
        | inr (n, first, found) ↦ inr (
          n + 1,
          record {
            before = r ∷ first.before;
            large = first.large;
            behind = first.behind;
            split = ap (λ xs. r ∷ xs) first.split;
            number = omega (arith, first.number);
            fit = (fits, first.fit);
            above = first.above;
          },
          rw (q, found) (ap some (omega arith)),
        )
      ]
]

-- Records that fit under the cap are not refused for their size.
fitting-other :
    (w : Setting) (disk : Bool) (now : ℕ) (stream : Text) (recs : List Record)
    (adv : Option CursorAdvance) (s : Store) (i : ℕ)
    → (if w.max_record_bytes == 0 then none else first_too_large w.max_record_bytes 0 recs) ≡ none
    → (append_advancing_locked w disk now stream recs adv s).0 ≢ err (record_too_large i)
unfolding append_advancing_locked check_append
fitting-other w disk now stream recs adv s i fit h = elim (Bool-cases (s.next stream == 0)) [
  | inl q ↦ cc (rw q at h)
  | inr q ↦ elim (Bool-cases (not (text_beq stream (codes "metrics")))) [
    | inl other ↦ elim (Bool-cases disk) [
      | inl d ↦ cc (rw (q, fit, other, d) at h)
      | inr d ↦ cc (rw (q, fit, other, d) at h)
    ]
    | inr metrics ↦ elim (Result-cases (local_only_of w s.db recs)) [
      | inr (e, bad) ↦ cc (rw (q, fit, metrics, bad) at h)
      | inl (ls, good) ↦ elim (Bool-cases disk) [
        | inl d ↦ cc (rw (q, fit, metrics, good, d) at h)
        | inr d ↦ cc (rw (q, fit, metrics, good, d) at h)
      ]
    ]
  ]
]

-- With a cap on payloads, an append to a known stream is refused for size exactly when one of its records is above the
-- cap. The error then names the first such record, and none of the records is stored and the cursor not moved,
-- whatever the policies of their signals and the disk are.
pub append_advancing_locked-too_large :
    (w : Setting) (disk : Bool) (now : ℕ) (stream : Text) (recs : List Record)
    (adv : Option CursorAdvance) (s : Store)
    → s.next stream ≢ 0
    → w.max_record_bytes ≢ 0
    → (All (λ r. length r.payload ≤ w.max_record_bytes) recs
        × ((i : ℕ)
            → (append_advancing_locked w disk now stream recs adv s).0 ≢ err (record_too_large i)))
      ⊎ ((i : ℕ) × IsFirstTooLarge w.max_record_bytes i recs
          × (append_advancing_locked w disk now stream recs adv s ≡ (err (record_too_large i), s)))
append_advancing_locked-too_large w disk now stream recs adv s known capped =
    let capped_test : (w.max_record_bytes == 0) ≡ false = ground arith in
    let from_zero : (n : ℕ) → 0 + n ≡ n = λ n. omega arith in
    let known_test : (s.next stream == 0) ≡ false = ground arith in
    elim (first_too_large-cases w.max_record_bytes 0 recs) [
      | inl (fit, none_found) ↦ inl (
        fit,
        λ i. fitting-other w disk now stream recs adv s i (rw (capped_test, none_found) refl),
      )
      | inr (i, first, found) ↦ inr (
        i,
        first,
        unfold append_advancing_locked check_append in
            rw (known_test, capped_test, found, from_zero i) refl,
      )
    ]
