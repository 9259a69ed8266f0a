-- ===== src/Store/Replicated/Build.antt =====
-- internal/store/replgroup.go: the marks of a request that is built.
use native.Mathlib.Nat.{le_refl}
use colca.Prelude.{
  ℕ, ◌+◌, ◌≤◌, ◌<◌, leb, ◌==◌, Text, length, List, [], ◌∷◌, ◌++◌, append-nil, append_assoc, All,
  true, false, Bool-cases, if◌then◌else◌, ok, err, ◌≡◌, refl, sym, ◌∙◌, inl, inr, arith,
}
use colca.Store.Data.{Record}
use colca.Store.Streams.{write_records, records_cost}
use colca.Store.Encode.{Setting, add_record, record_cost}
use colca.Store.Replicated.{
  invalid_skip_range, ReplRecord, Built, with_origin, record_of, is_bad_skip, build_one, build_all,
}

-- What is applied of a request above a mark, and the records of it that are stored.
unfoldable pub applied_form : ReplRecord → ReplRecord
applied_form r = if r.skip_from == 0 then with_origin r else r

unfoldable pub fresh : ℕ → List ReplRecord → List ReplRecord
fresh mark [] = []
fresh mark (r ∷ rs) =
    if leb r.child_offset mark then fresh mark rs else applied_form r ∷ fresh r.child_offset rs

unfoldable pub stored_of : List ReplRecord → List Record
stored_of [] = []
stored_of (r ∷ rs) =
    let rest = stored_of rs in if r.skip_from == 0 then record_of r ∷ rest else rest

-- Child offsets strictly rising from above one mark to another.
unfoldable pub IsRising : ℕ → ℕ → List ReplRecord → Type 0
IsRising lo hi [] = lo ≡ hi
IsRising lo hi (r ∷ rs) = (lo < r.child_offset) × IsRising r.child_offset hi rs

module _ (w : Setting) (stream : Text) where
  build_one-le : (r : ReplRecord) (b : Built) → b.hwm ≤ (build_one w stream r b).hwm
  unfolding build_one
  build_one-le r b = ground arith

  build_one-covers : (r : ReplRecord) (b : Built) → r.child_offset ≤ (build_one w stream r b).hwm
  unfolding build_one
  build_one-covers r b = ground arith

  build_one-off : (r : ReplRecord) (b : Built) → b.off ≤ (build_one w stream r b).off
  unfolding build_one
  build_one-off r b = ground arith

  build_all-cons :
      (r : ReplRecord) (rs : List ReplRecord) (b b' : Built)
      → build_all w stream (r ∷ rs) b ≡ ok b'
      → (is_bad_skip stream r ≡ false) × (build_all w stream rs (build_one w stream r b) ≡ ok b')
  build_all-cons r rs b b' e = elim (Bool-cases (is_bad_skip stream r)) [
    | inl bad ↦ absurd (refused bad (unfold build_all in e))
    | inr good ↦ (good, kept good (unfold build_all in e))
  ]
    where
      refused :
          is_bad_skip stream r ≡ true
          → (if is_bad_skip stream r
              then err invalid_skip_range
              else build_all w stream rs (build_one w stream r b))
            ≡ ok b'
          → ⊥
      refused bad e = let no = rw bad at e in cc no

      kept :
          is_bad_skip stream r ≡ false
          → (if is_bad_skip stream r
              then err invalid_skip_range
              else build_all w stream rs (build_one w stream r b))
            ≡ ok b'
          → build_all w stream rs (build_one w stream r b) ≡ ok b'
      kept good e = rw good at e

  build_all-nil : (b b' : Built) → build_all w stream [] b ≡ ok b' → b ≡ b'
  unfolding build_all
  build_all-nil b b' e = cc

  pub build_all-le :
      (recs : List ReplRecord) (b b' : Built)
      → build_all w stream recs b ≡ ok b'
      → (b.hwm ≤ b'.hwm) × (b.off ≤ b'.off) × All (λ r. r.child_offset ≤ b'.hwm) recs
  build_all-le [] b b' e = rw (build_all-nil b b' e) (le_refl b'.hwm, le_refl b'.off, tt)
  build_all-le (r ∷ rs) b b' e =
      let (good, rest) = build_all-cons r rs b b' e in
      let (h, o, all_below) = build_all-le rs (build_one w stream r b) b' rest in
      (
        omega (arith, h, build_one-le r b),
        omega (arith, o, build_one-off r b),
        (omega (arith, h, build_one-covers r b), all_below),
      )

  -- Built again above the mark that it left, a request adds nothing.
  pub build_all-again :
      (recs : List ReplRecord) (b b' c : Built)
      → build_all w stream recs b ≡ ok b'
      → b'.hwm ≤ c.hwm
      → build_all w stream recs c ≡ ok c
  build_all-again [] b b' c e l = unfold build_all in refl
  build_all-again (r ∷ rs) b b' c e l =
      let (good, rest) = build_all-cons r rs b b' e in
      let below = build_all-le rs (build_one w stream r b) b' rest in
      let old : leb r.child_offset c.hwm ≡ true =
        ground (arith, build_one-covers r b, below.0, l) in
      again r rs c good old (build_all-again rs (build_one w stream r b) b' c rest l)
    where
      again :
          (r : ReplRecord) (rs : List ReplRecord) (c : Built)
          → is_bad_skip stream r ≡ false
          → leb r.child_offset c.hwm ≡ true
          → build_all w stream rs c ≡ ok c
          → build_all w stream (r ∷ rs) c ≡ ok c
      again r rs c good old e =
          let same : build_one w stream r c ≡ c = unfold build_one in rw old refl in
          unfold build_all in rw (good, same) e

  -- What building adds.
  pub record Adds (recs : List ReplRecord) (b b' : Built) : Type 0 where
    pub applied : b'.applied ≡ b.applied ++ fresh b.hwm recs
    pub writes : b'.writes ≡ b.writes ++ write_records w stream b.off (stored_of (fresh b.hwm recs))
    pub off : b'.off ≡ b.off + length (stored_of (fresh b.hwm recs))
    pub added : b'.added ≡ b.added + records_cost w stream b.off (stored_of (fresh b.hwm recs))
    pub rising : IsRising b.hwm b'.hwm (fresh b.hwm recs)

  -- What an applied record or skip range adds.
  with_data : ReplRecord → Built → Built
  with_data r b = record {
    writes = b.writes ++ add_record w stream b.off (record_of (with_origin r));
    applied = b.applied ++ with_origin r ∷ [];
    hwm = r.child_offset;
    off = b.off + 1;
    added = b.added + record_cost w stream b.off (record_of (with_origin r));
  }

  with_skip : ReplRecord → Built → Built
  with_skip r b = record b { applied = b.applied ++ r ∷ []; hwm = r.child_offset }

  Adds-data :
      (r : ReplRecord) (rs : List ReplRecord) (b b' : Built)
      → leb r.child_offset b.hwm ≡ false
      → (r.skip_from == 0) ≡ true
      → Adds rs (with_data r b) b'
      → Adds (r ∷ rs) b b'
  unfolding with_data
  Adds-data r rs b b' new data_ a =
      let more = fresh r.child_offset rs in
      let first : fresh b.hwm (r ∷ rs) ≡ with_origin r ∷ more =
        unfold fresh applied_form in rw (new, data_) refl in
      let stored : stored_of (with_origin r ∷ more) ≡ record_of (with_origin r) ∷ stored_of more =
        unfold stored_of with_origin in rw data_ refl in
      record {
        applied = rw first (a.applied ∙ append_assoc b.applied (with_origin r ∷ []) more);
        writes =
            rw (first, stored)
              (a.writes
                ∙ unfold write_records in
                  append_assoc b.writes (add_record w stream b.off (record_of (with_origin r)))
                    (write_records w stream (b.off + 1) (stored_of more)));
        off = rw (first, stored) (omega (arith, a.off));
        added = rw (first, stored) (unfold records_cost in omega (arith, a.added));
        rising = rw first (unfold IsRising with_origin in (ground arith, a.rising));
      }

  Adds-skip :
      (r : ReplRecord) (rs : List ReplRecord) (b b' : Built)
      → leb r.child_offset b.hwm ≡ false
      → (r.skip_from == 0) ≡ false
      → Adds rs (with_skip r b) b'
      → Adds (r ∷ rs) b b'
  unfolding with_skip
  Adds-skip r rs b b' new skip a =
      let more = fresh r.child_offset rs in
      let first : fresh b.hwm (r ∷ rs) ≡ r ∷ more =
        unfold fresh applied_form in rw (new, skip) refl in
      let stored : stored_of (r ∷ more) ≡ stored_of more = unfold stored_of in rw skip refl in
      record {
        applied = rw first (a.applied ∙ append_assoc b.applied (r ∷ []) more);
        writes = rw (first, stored) a.writes;
        off = rw (first, stored) a.off;
        added = rw (first, stored) a.added;
        rising = rw first (unfold IsRising in (ground arith, a.rising));
      }

  pub build_all-Adds :
      (recs : List ReplRecord) (b b' : Built) → build_all w stream recs b ≡ ok b' → Adds recs b b'
  build_all-Adds [] b b' e =
      unfold fresh stored_of write_records records_cost IsRising in
      rw (build_all-nil b b' e) (record {
        applied = sym (append-nil b'.applied);
        writes = sym (append-nil b'.writes);
        off = omega arith;
        added = omega arith;
        rising = refl;
      })
  build_all-Adds (r ∷ rs) b b' e =
      let (good, rest) = build_all-cons r rs b b' e in
      adds_one r rs b b' (build_all-Adds rs (build_one w stream r b) b' rest)
    where
      adds_one :
          (r : ReplRecord) (rs : List ReplRecord) (b b' : Built)
          → Adds rs (build_one w stream r b) b'
          → Adds (r ∷ rs) b b'
      adds_one r rs b b' a = elim (Bool-cases (leb r.child_offset b.hwm)) [
        | inl old ↦
            let same : build_one w stream r b ≡ b = unfold build_one in rw old refl in
            let skipped : fresh b.hwm (r ∷ rs) ≡ fresh b.hwm rs = unfold fresh in rw old refl in
            let a' = rw same at a in
            record {
              applied = rw skipped a'.applied;
              writes = rw skipped a'.writes;
              off = rw skipped a'.off;
              added = rw skipped a'.added;
              rising = rw skipped a'.rising;
            }
        | inr new ↦ elim (Bool-cases (r.skip_from == 0)) [
          | inl data_ ↦
              let built : build_one w stream r b ≡ with_data r b =
                unfold build_one with_data in rw (new, data_) refl in
              Adds-data r rs b b' new data_ (rw built at a)
          | inr skip ↦
              let built : build_one w stream r b ≡ with_skip r b =
                unfold build_one with_skip in rw (new, skip) refl in
              Adds-skip r rs b b' new skip (rw built at a)
        ]
      ]
