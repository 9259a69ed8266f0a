-- ===== src/Store/Prune/Guarded.antt =====
-- internal/store/store.go: how far a prune goes.
use native.Mathlib.Nat.{le_refl}
use colca.Prelude.{
  ℕ, ◌+◌, ◌-◌, ◌≤◌, ◌<◌, ltb, leb, ◌==◌, ==_iff, Text, text_eq, text_beq, text_beq_refl, pair_eq,
  List, [], ◌∷◌, In, any, Table, Bool, true, false, Bool-cases, not, ◌||◌, if◌then◌else◌, ◌≡◌, refl,
  ap, ◌⊎◌, inl, inr, arith,
}
use colca.Store.Data.{Pair, PruneSpan, Store}
use colca.Store.Encode.{Setting}
use colca.Store.Prune.{PruneOutcome, commit_prune, shrink_to_cursors, prune_scanned, pruned_store}
use colca.Store.Policy.{PruneScan, PruneStats}

shrink_to_cursors-le :
    (stream : Text) (overridden : List Text) (cursors : Table Pair ℕ) (up_to : ℕ)
    → shrink_to_cursors stream overridden cursors up_to ≤ up_to
unfolding shrink_to_cursors
shrink_to_cursors-le stream overridden [] up_to = le_refl up_to
shrink_to_cursors-le stream overridden (((name, cstream), pos) ∷ cursors) up_to =
    let next =
      if not (text_beq cstream stream) || any (text_beq name) overridden
      then up_to
      else if ltb pos up_to
      then pos
      else up_to in
    let lower : next ≤ up_to = ground arith in
    omega (arith, shrink_to_cursors-le stream overridden cursors next, lower)

shrink_to_cursors-In :
    (stream : Text) (overridden : List Text) (cursors : Table Pair ℕ) (up_to : ℕ) (name : Text)
    (pos : ℕ)
    → In ((name, stream), pos) cursors
    → any (text_beq name) overridden ≡ false
    → shrink_to_cursors stream overridden cursors up_to ≤ pos
unfolding shrink_to_cursors
shrink_to_cursors-In stream overridden [] up_to name pos m o = absurd m
shrink_to_cursors-In stream overridden (((held, cstream), at) ∷ cursors) up_to name pos (inl e) o =
    let at_pos : at ≡ pos = ap (λ c. c.1) e in
    let same_name : held ≡ name = ap (λ c. c.0.0) e in
    let same_stream : cstream ≡ stream = ap (λ c. c.0.1) e in
    let counted : (not (text_beq cstream stream) || any (text_beq held) overridden) ≡ false =
      rw (same_name, same_stream, text_beq_refl stream, o) refl in
    let next = if ltb at up_to then at else up_to in
    let lower : next ≤ pos = ground arith in
    let rest = shrink_to_cursors-le stream overridden cursors next in
    rw counted (omega (arith, rest, lower))
shrink_to_cursors-In stream overridden (((held, cstream), at) ∷ cursors) up_to name pos (inr m) o =
    shrink_to_cursors-In stream overridden cursors _ name pos m o

-- A prune that removes records: how far it goes and what it leaves.
pub record Goes (w : Setting) (stream : Text) (overridden : List Text)
    (plan : PruneSpan → PruneOutcome) (s s' : Store) : Type 0 where
  pub up_to : ℕ
  pub stats : PruneStats
  pub span : PruneSpan
  pub result : s' ≡ pruned_store w stream up_to stats span (plan span) s
  pub from_lwm : span.from ≡ s.lwm stream
  pub to_last : span.to + 1 ≡ up_to
  pub further : s.lwm stream < up_to
  pub within : up_to ≤ s.next stream
  pub guarded :
      (name : Text) (pos : ℕ)
      → In ((name, stream), pos) s.db.cursors
      → any (text_beq name) overridden ≡ false
      → up_to ≤ pos

commit_prune-cases :
    (w : Setting) (disk : Bool) (stream : Text) (up_to : ℕ) (stats : PruneStats)
    (plan : PruneSpan → PruneOutcome) (s : Store)
    → ((commit_prune w disk stream up_to stats plan s).1 ≡ s)
      ⊎ ((span : PruneSpan) × ((commit_prune w disk stream up_to stats plan s).1
            ≡ pruned_store w stream up_to stats span (plan span) s)
          × (span.from ≡ s.lwm stream)
          × (span.to ≡ up_to - 1))
unfolding commit_prune
commit_prune-cases w true stream up_to stats plan s = inr (_, refl, refl, refl)
commit_prune-cases w false stream up_to stats plan s = inl refl

pub prune_scanned-Goes :
    (w : Setting) (disk : Bool) (scan : PruneScan) (overridden : List Text)
    (plan : PruneSpan → PruneOutcome) (s : Store)
    → ((prune_scanned w disk scan overridden plan s).1 ≡ s)
      ⊎ Goes w scan.stream overridden plan s (prune_scanned w disk scan overridden plan s).1
unfolding prune_scanned
prune_scanned-Goes w disk scan overridden plan s = elim (Bool-cases (leb scan.up_to scan.from)) [
  | inl q ↦ inl (rw q refl)
  | inr q ↦ elim (Bool-cases (s.lwm scan.stream == scan.from)) [
    | inr c ↦ inl (rw (q, c) refl)
    | inl c ↦ elim (Bool-cases (ltb (s.next scan.stream) scan.up_to)) [
      | inl b ↦ inl (rw (q, c, b) refl)
      | inr b ↦ elim (Bool-cases (leb up_to scan.from)) [
        | inl z ↦ inl (rw (q, c, b, z) refl)
        | inr z ↦ rw (q, c, b, z) (committed _ (ground arith) (ground arith) c)
      ]
    ]
  ]
]
  where
    up_to : ℕ
    up_to = shrink_to_cursors scan.stream overridden s.db.cursors scan.up_to

    committed :
        (stats : PruneStats)
        → scan.from < up_to
        → scan.up_to ≤ s.next scan.stream
        → (s.lwm scan.stream == scan.from) ≡ true
        → ((commit_prune w disk scan.stream up_to stats plan s).1 ≡ s)
          ⊎ Goes w scan.stream overridden plan s
              (commit_prune w disk scan.stream up_to stats plan s).1
    committed stats above inside c =
        elim (commit_prune-cases w disk scan.stream up_to stats plan s) [
          | inl same ↦ inl same
          | inr (span, result, from_lwm, to_last) ↦
              let lower = shrink_to_cursors-le scan.stream overridden s.db.cursors scan.up_to in
              let stands = (==_iff (s.lwm scan.stream) scan.from).0 c in
              inr (record {
                up_to = up_to;
                stats = stats;
                span = span;
                result = result;
                from_lwm = from_lwm;
                to_last = omega (arith, to_last, above);
                further = omega (arith, stands, above);
                within = omega (arith, lower, inside);
                guarded = λ name pos m o.
                    shrink_to_cursors-In scan.stream overridden s.db.cursors scan.up_to name pos m
                      o;
              })
        ]
