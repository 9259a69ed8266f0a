-- ===== src/Store/Journal/Gaps.antt =====
-- internal/store/store.go: the gap that a consumer below the low-water mark is told of.
use colca.Prelude.{
  ℕ, ◌+◌, ◌-◌, ◌≤◌, ◌<◌, leb, ◌==◌, max, Text, List, [], ◌∷◌, In, true, false, Bool-cases, ◌||◌,
  some, none, ◌≡◌, refl, sym, ◌∙◌, ◌⊎◌, inl, inr, arith,
}
use colca.Store.Data.{PruneSpan, Store}
use colca.Store.Journal.{GapSpan, holds, note_span, note_spans, gap}
use colca.Store.Journal.Partition.{IsPartition}

-- The ends and, from the spans, the times of a gap.
note_spans-ends :
    (spans : List PruneSpan) (g : GapSpan)
    → ((note_spans spans g).from_offset ≡ g.from_offset)
      × ((note_spans spans g).to_offset ≡ g.to_offset)
unfolding note_spans note_span
note_spans-ends [] g = (refl, refl)
note_spans-ends (x ∷ xs) g = note_spans-ends xs (note_span x g)

-- Spans behind an offset say nothing of it.
note_spans-first_behind :
    (lo hi : ℕ) (spans : List PruneSpan) (g : GapSpan)
    → IsPartition lo hi spans
    → g.from_offset < lo
    → ((note_spans spans g).first_ts ≡ g.first_ts) × ((note_spans spans g).approx ≡ g.approx)
unfolding IsPartition note_spans
note_spans-first_behind lo hi [] g p l = (refl, refl)
note_spans-first_behind lo hi (x ∷ xs) g (a, b, p) l =
    let beyond : holds x g.from_offset ≡ false = unfold holds in ground arith in
    let rest =
      note_spans-first_behind (x.to + 1) hi xs (note_span x g) p
        (unfold note_span in omega arith) in
    let here = noted_off x g beyond in (rest.0 ∙ here.0, rest.1 ∙ here.1)
  where
    noted_off :
        (x : PruneSpan) (g : GapSpan)
        → holds x g.from_offset ≡ false
        → ((note_span x g).first_ts ≡ g.first_ts) × ((note_span x g).approx ≡ g.approx)
    noted_off x g q = unfold note_span in rw q (refl, refl)

note_spans-last_behind :
    (lo hi : ℕ) (spans : List PruneSpan) (g : GapSpan)
    → IsPartition lo hi spans
    → g.to_offset < lo
    → (note_spans spans g).last_ts ≡ g.last_ts
unfolding IsPartition note_spans
note_spans-last_behind lo hi [] g p l = refl
note_spans-last_behind lo hi (x ∷ xs) g (a, b, p) l =
    let beyond : holds x g.to_offset ≡ false = unfold holds in ground arith in
    note_spans-last_behind (x.to + 1) hi xs (note_span x g) p (unfold note_span in omega arith)
    ∙ unfold note_span in rw beyond refl

-- A span of the journal that holds an offset.
pub record Held (off : ℕ) (spans : List PruneSpan) : Type 0 where
  pub span : PruneSpan
  pub listed : In span spans
  pub below : span.from ≤ off
  pub above : off ≤ span.to

later : (x : PruneSpan) (off : ℕ) (xs : List PruneSpan) → Held off xs → Held off (x ∷ xs)
later x off xs h = record { span = h.span; listed = inr h.listed; below = h.below; above = h.above }

note_spans-first :
    (lo hi : ℕ) (spans : List PruneSpan) (g : GapSpan)
    → IsPartition lo hi spans
    → lo ≤ g.from_offset
    → g.from_offset < hi
    → (h : Held g.from_offset spans) × ((note_spans spans g).first_ts ≡ h.span.first_ts)
      × ((note_spans spans g).approx ≡ h.span.coalesced)
unfolding IsPartition note_spans note_span later
note_spans-first lo hi [] g p l u = absurd (omega arith)
note_spans-first lo hi (x ∷ xs) g (a, b, p) l u = elim (Bool-cases (leb g.from_offset x.to)) [
  | inl q ↦
      let here : holds x g.from_offset ≡ true = unfold holds in ground arith in
      let rest = note_spans-first_behind (x.to + 1) hi xs (note_span x g) p (ground arith) in
      let noted = noted_on x g here in
      (
        record { span = x; listed = inl refl; below = omega (arith, a, l); above = ground arith },
        rest.0 ∙ noted.0,
        rest.1 ∙ noted.1,
      )
  | inr q ↦
      let (h, t, c) = note_spans-first (x.to + 1) hi xs (note_span x g) p (ground arith) u in
      (later x g.from_offset xs h, t, c)
]
  where
    noted_on :
        (x : PruneSpan) (g : GapSpan)
        → holds x g.from_offset ≡ true
        → ((note_span x g).first_ts ≡ x.first_ts) × ((note_span x g).approx ≡ x.coalesced)
    noted_on x g q = rw q (refl, refl)

note_spans-last :
    (lo hi : ℕ) (spans : List PruneSpan) (g : GapSpan)
    → IsPartition lo hi spans
    → lo ≤ g.to_offset
    → g.to_offset < hi
    → (h : Held g.to_offset spans) × ((note_spans spans g).last_ts ≡ h.span.last_ts)
unfolding IsPartition note_spans note_span later
note_spans-last lo hi [] g p l u = absurd (omega arith)
note_spans-last lo hi (x ∷ xs) g (a, b, p) l u = elim (Bool-cases (leb g.to_offset x.to)) [
  | inl q ↦
      let here : holds x g.to_offset ≡ true = unfold holds in ground arith in
      (
        record { span = x; listed = inl refl; below = omega (arith, a, l); above = ground arith },
        note_spans-last_behind (x.to + 1) hi xs (note_span x g) p (ground arith) ∙ rw here refl,
      )
  | inr q ↦
      let (h, t) = note_spans-last (x.to + 1) hi xs (note_span x g) p (ground arith) u in
      (later x g.to_offset xs h, t)
]

-- The gap that is reported, with the spans that explain it.
pub record Explained (stream : Text) (position : ℕ) (s : Store) (g : GapSpan) : Type 0 where
  pub from : g.from_offset ≡ max position 1
  pub to : g.to_offset + 1 ≡ s.lwm stream
  pub first : Held g.from_offset (s.db.journals stream)
  pub first_ts : g.first_ts ≡ first.span.first_ts
  pub approx : g.approx ≡ first.span.coalesced
  pub last : Held g.to_offset (s.db.journals stream)
  pub last_ts : g.last_ts ≡ last.span.last_ts

-- Where the journal tells all that was pruned, a consumer is told of a gap exactly when it stands below the low-water
-- mark. The gap reaches from its position to the last offset pruned, and its times are those of the spans of
-- the journal that hold its two ends.
pub gap-Explained :
    (stream : Text) (position : ℕ) (s : Store)
    → IsPartition 1 (s.lwm stream) (s.db.journals stream)
    → ((s.lwm stream ≤ max position 1) × (gap stream position s ≡ none))
      ⊎ ((g : GapSpan) × (gap stream position s ≡ some g) × Explained stream position s g)
gap-Explained stream position s p =
    elim (Bool-cases (s.lwm stream == 0 || leb (s.lwm stream) (max position 1))) [
      | inl q ↦ inl (ground arith, unfold gap in rw q refl)
      | inr q ↦
          let below : max position 1 < s.lwm stream = ground arith in
          let ends = note_spans-ends (s.db.journals stream) bare in
          let first =
            note_spans-first 1 (s.lwm stream) (s.db.journals stream) bare p (omega arith) below in
          let last =
            note_spans-last 1 (s.lwm stream) (s.db.journals stream) bare p (omega (arith, below))
              (omega (arith, below)) in
          inr (
            note_spans (s.db.journals stream) bare,
            unfold gap in rw q refl,
            record {
              from = ends.0;
              to = omega (arith, ends.1, below);
              first = held bare.from_offset _ (sym ends.0) first.0;
              first_ts = first.1;
              approx = first.2;
              last = held bare.to_offset _ (sym ends.1) last.0;
              last_ts = last.1;
            },
          )
    ]
  where
    bare : GapSpan
    bare = record {
      stream = stream;
      from_offset = max position 1;
      to_offset = s.lwm stream - 1;
      first_ts = 0;
      last_ts = 0;
      approx = false;
    }

    held :
        (off off' : ℕ)
        → off ≡ off'
        → Held off (s.db.journals stream)
        → Held off' (s.db.journals stream)
    held off off' e h = record {
      span = h.span;
      listed = h.listed;
      below = omega (arith, e, h.below);
      above = omega (arith, e, h.above);
    }
