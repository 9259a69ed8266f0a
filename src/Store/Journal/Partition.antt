-- ===== src/Store/Journal/Partition.antt =====
-- internal/store/store.go: the spans of a journal, one behind the other.
use colca.Prelude.{
  ℕ, zero, suc, ◌+◌, ◌≤◌, ◌<◌, leb, Text, text_eq, length, List, [], ◌∷◌, ◌++◌, Bool-cases, ◌≡◌,
  refl, sym, inl, inr, arith,
}
use colca.Store.Data.{PruneSpan, put_span, drop_span}
use colca.Store.Journal.{journal_cap, merge_spans, merge_down}

-- Spans that follow each other without a hole from one offset to another.
unfoldable pub IsPartition : ℕ → ℕ → List PruneSpan → Type 0
IsPartition lo hi [] = lo ≡ hi
IsPartition lo hi (span ∷ spans) =
    (span.from ≡ lo) × (lo ≤ span.to) × IsPartition (span.to + 1) hi spans

pub IsPartition-append :
    (lo hi : ℕ) (spans : List PruneSpan) (span : PruneSpan)
    → IsPartition lo span.from spans
    → span.from ≤ span.to
    → span.to + 1 ≡ hi
    → IsPartition lo hi (spans ++ span ∷ [])
unfolding IsPartition
IsPartition-append lo hi [] span p l e = (sym p, omega arith, e)
IsPartition-append lo hi (x ∷ xs) span (a, b, p) l e =
    (a, b, IsPartition-append (x.to + 1) hi xs span p l e)

pub merge_down-IsPartition :
    (lo hi rounds : ℕ) (stream : Text) (spans : List PruneSpan)
    → IsPartition lo hi spans
    → IsPartition lo hi (merge_down rounds stream spans).0
unfolding merge_down merge_spans IsPartition
merge_down-IsPartition lo hi zero stream spans p = p
merge_down-IsPartition lo hi (suc rounds) stream [] p = p
merge_down-IsPartition lo hi (suc rounds) stream (x ∷ []) p = p
merge_down-IsPartition lo hi (suc rounds) stream (x ∷ y ∷ spans) (a, b, (c, d, p)) =
    let rest =
      merge_down-IsPartition lo hi rounds stream (merge_spans x y ∷ spans) (a, omega arith, p) in
    elim (Bool-cases (leb (length (x ∷ y ∷ spans)) journal_cap)) [
      | inl q ↦ rw q (a, b, (c, d, p))
      | inr q ↦ rw q rest
    ]

pub merge_down-le_cap :
    (rounds : ℕ) (stream : Text) (spans : List PruneSpan)
    → length spans ≤ rounds
    → length (merge_down rounds stream spans).0 ≤ journal_cap
unfolding merge_down merge_spans
merge_down-le_cap zero stream [] h = omega arith
merge_down-le_cap zero stream (x ∷ xs) h = absurd (omega arith)
merge_down-le_cap (suc rounds) stream [] h = omega arith
merge_down-le_cap (suc rounds) stream (x ∷ []) h = omega arith
merge_down-le_cap (suc rounds) stream (x ∷ y ∷ spans) h =
    let rest = merge_down-le_cap rounds stream (merge_spans x y ∷ spans) (omega arith) in
    elim (Bool-cases (leb (length (x ∷ y ∷ spans)) journal_cap)) [
      | inl q ↦ rw q (ground arith)
      | inr q ↦ rw q rest
    ]

-- Offsets of spans strictly ascending, from `lo` on and below `hi`.
unfoldable pub IsAscending : ℕ → ℕ → List PruneSpan → Type 0
IsAscending lo hi [] = lo ≤ hi
IsAscending lo hi (span ∷ spans) = (lo ≤ span.from) × IsAscending (span.from + 1) hi spans

pub IsAscending-le : (lo hi : ℕ) (spans : List PruneSpan) → IsAscending lo hi spans → lo ≤ hi
unfolding IsAscending
IsAscending-le lo hi [] h = h
IsAscending-le lo hi (x ∷ xs) (a, h) = omega (arith, IsAscending-le (x.from + 1) hi xs h)

pub IsAscending-lower :
    (lo lo' hi : ℕ) (spans : List PruneSpan)
    → lo' ≤ lo
    → IsAscending lo hi spans
    → IsAscending lo' hi spans
unfolding IsAscending
IsAscending-lower lo lo' hi [] l h = omega arith
IsAscending-lower lo lo' hi (x ∷ xs) l (a, h) = (omega arith, h)

pub IsPartition-IsAscending :
    (lo hi : ℕ) (spans : List PruneSpan) → IsPartition lo hi spans → IsAscending lo hi spans
unfolding IsPartition IsAscending
IsPartition-IsAscending lo hi [] p = omega arith
IsPartition-IsAscending lo hi (x ∷ xs) (a, b, p) = (
  omega arith,
  IsAscending-lower (x.to + 1) (x.from + 1) hi xs (omega arith)
      (IsPartition-IsAscending (x.to + 1) hi xs p),
)

pub put_span-last :
    (lo : ℕ) (spans : List PruneSpan) (span : PruneSpan)
    → IsAscending lo span.from spans
    → put_span span spans ≡ spans ++ span ∷ []
unfolding put_span IsAscending
put_span-last lo [] span h = refl
put_span-last lo (x ∷ xs) span (a, h) =
    let above = IsAscending-le (x.from + 1) span.from xs h in
    let rest = put_span-last (x.from + 1) xs span h in ground arith

pub drop_span-absent :
    (off lo hi : ℕ) (spans : List PruneSpan)
    → off < lo
    → IsAscending lo hi spans
    → drop_span off spans ≡ spans
unfolding drop_span IsAscending
drop_span-absent off lo hi [] l h = refl
drop_span-absent off lo hi (x ∷ xs) l (a, h) =
    let rest = drop_span-absent off (x.from + 1) hi xs (omega arith) h in ground arith
