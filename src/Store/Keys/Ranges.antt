-- ===== src/Store/Keys/Ranges.antt =====
-- internal/store/keys.go: the ranges that a deletion or a scan takes.
use colca.Prelude.{
  ℕ, append_assoc, Text, codes, has_byte, [], ◌∷◌, ◌++◌, Free, Bool, true, false, not, ◌&&◌, ◌≡◌,
  ◌↔◌, refl, sym, ap, ◌∙◌, arith,
}
use colca.Store.Keys.{hwm_key, hwm_child_end, precedes, journal_key, journal_bounds, be64}
use colca.Store.Keys.Offsets.{precedes-append}

-- A key from the lower bound on and before the upper one.
unfoldable pub is_within : Text → Text → Text → Bool
is_within lower upper key = not (precedes key lower) && precedes key upper

precedes-nil : (a : Text) → precedes a [] ≡ false
unfolding precedes
precedes-nil [] = refl
precedes-nil (x ∷ a) = refl

-- What lies between a name that ends in 0 and the same name ending in 1, of keys that go on behind a name
-- and a 0.
between :
    (name other rest : Text)
    → Free 0 name
    → Free 0 other
    → (is_within (name ++ 0 ∷ []) (name ++ 1 ∷ []) (other ++ 0 ∷ rest) ≡ true)
    → name ≡ other
unfolding is_within precedes has_byte
between [] [] rest f g h = refl
between [] (y ∷ other) rest f g h = absurd (ground (arith, precedes-nil (other ++ 0 ∷ rest)))
between (x ∷ name) [] rest f g h = absurd (ground arith)
between (x ∷ name) (y ∷ other) rest f g h =
    let (same, within) = both in
    cc (same, between name other rest (ground arith) (ground arith) within)
  where
    both : (x ≡ y) × (is_within (name ++ 0 ∷ []) (name ++ 1 ∷ []) (other ++ 0 ∷ rest) ≡ true)
    both = ground arith

behind : (name rest : Text) → is_within (name ++ 0 ∷ []) (name ++ 1 ∷ []) (name ++ 0 ∷ rest) ≡ true
unfolding is_within
behind name rest =
    rw (precedes-append name (0 ∷ rest) (0 ∷ []), precedes-append name (0 ∷ rest) (1 ∷ []))
      (unfold precedes in ground (arith, precedes-nil rest))

within-append : (p a b c : Text) → is_within (p ++ a) (p ++ b) (p ++ c) ≡ is_within a b c
unfolding is_within
within-append p a b c = rw (precedes-append p c a, precedes-append p c b) refl

-- Dropping a child's marks drops those and no other child's. Of children whose names have no zero byte, the range
-- that the store deletes for one holds the mark of another, on any stream, exactly when it is the same.
pub hwm_key-within :
    (child other stream : Text)
    → Free 0 child
    → Free 0 other
    → (is_within (hwm_key child []) (hwm_child_end child) (hwm_key other stream) ≡ true)
      ↔ (child ≡ other)
unfolding hwm_key hwm_child_end
hwm_key-within child other stream f g =
    let strip =
      within-append (codes "h" ++ 0 ∷ []) (child ++ 0 ∷ []) (child ++ 1 ∷ [])
        (other ++ 0 ∷ stream) in
    (
      λ h. between child other stream f g (sym strip ∙ h),
      λ same. strip ∙ rw (← same) (behind child stream),
    )

-- The journal of a stream is read whole and alone. Of streams whose names have no zero byte, the bounds of one's
-- journal hold a span of another's, whatever its first offset, exactly when it is the same.
pub journal_key-within :
    (stream other : Text) (first : ℕ)
    → Free 0 stream
    → Free 0 other
    → (is_within (journal_bounds stream).0 (journal_bounds stream).1 (journal_key other first)
        ≡ true)
      ↔ (stream ≡ other)
unfolding journal_key journal_bounds
journal_key-within stream other first f g =
    let strip =
      within-append (codes "j" ++ 0 ∷ []) (stream ++ 0 ∷ []) (stream ++ 1 ∷ [])
        (other ++ 0 ∷ be64 first) in
    let whole = ap (λ k. codes "j" ++ 0 ∷ k) (append_assoc other (0 ∷ []) (be64 first)) in
    let at_key = ap (λ k. is_within (journal_bounds stream).0 (journal_bounds stream).1 k) whole in
    (
      λ h. between stream other (be64 first) f g (sym strip ∙ (sym at_key ∙ h)),
      λ same. at_key ∙ (strip ∙ rw (← same) (behind stream (be64 first))),
    )
