-- ===== src/Store/Prune/Kept.antt =====
-- internal/store/store.go: what a prune removes, keeps and writes down.
use native.Mathlib.Nat.{le_refl}
use colca.Prelude.{
  ℕ, ◌+◌, ◌≤◌, ◌<◌, Text, text_eq, text_beq, set_at_same, set_at_other, length, List, [], ◌∷◌, ◌++◌,
  In, any, Bool, false, ◌≡◌, ◌≢◌, refl, ◌∙◌, ◌⊎◌, inl, inr, arith,
}
use colca.Store.Data.{Stored, PruneSpan, Store, cut_range}
use colca.Store.Encode.{Setting}
use colca.Store.Streams.Order.{IsRun, IsRun-le, numbered}
use colca.Store.Streams.Sound.{IsSound}
use colca.Store.Pages.{between}
use colca.Store.Journal.{journal_cap}
use colca.Store.Journal.Partition.{
  IsPartition, IsPartition-append, merge_down-IsPartition, merge_down-le_cap,
}
use colca.Store.Prune.{PruneOutcome, prune_scanned, pruned_store}
use colca.Store.Policy.{PruneScan}
use colca.Store.Prune.Guarded.{prune_scanned-Goes}
use colca.Store.Prune.Writes.{cut_range-IsRun}
use colca.Store.Prune.Sound.{pruned_store-IsSound}
use colca.Store.Prune.Parts.{pruned-cursors, pruned-journals, pruned-records, pruned-records_other}

-- The records behind a cut are those from its end on.
cut_range-between :
    (lo up_to from hi : ℕ) (rs : List Stored)
    → IsRun from hi rs
    → lo ≤ from
    → cut_range lo up_to rs ≡ between up_to hi rs
unfolding IsRun cut_range between
cut_range-between lo up_to from hi [] run l = refl
cut_range-between lo up_to from hi (r ∷ rs) (a, run) l =
    let high = IsRun-le (r.offset + 1) hi rs run in
    let rest = cut_range-between lo up_to (r.offset + 1) hi rs run (omega arith) in ground arith

-- What pruning promises of a stream that it pruned. The plan is asked with the span that goes.
pub record Pruned (w : Setting) (stream : Text) (overridden : List Text)
    (plan : PruneSpan → PruneOutcome) (s s' : Store) : Type 0 where
  pub further : s.lwm stream < s'.lwm stream
  pub within : s'.lwm stream ≤ s.next stream
  pub guarded :
      (name : Text) (pos : ℕ)
      → In ((name, stream), pos) s.db.cursors
      → any (text_beq name) overridden ≡ false
      → s'.lwm stream ≤ pos
  pub cursors : s'.db.cursors ≡ s.db.cursors
  pub span : PruneSpan
  pub span_from : span.from ≡ s.lwm stream
  pub span_to : span.to + 1 ≡ s'.lwm stream
  pub records :
      s'.db.records stream
      ≡ between (s'.lwm stream) (s.next stream) (s.db.records stream)
        ++ numbered w.payloads (s.next stream) (plan span).gap_records
  pub next : s'.next stream ≡ s.next stream + length (plan span).gap_records
  pub others :
      (st : Text)
      → text_beq stream st ≡ false
      → (s'.db.records st ≡ s.db.records st) × (s'.next st ≡ s.next st) × (s'.lwm st ≡ s.lwm st)

-- A prune of a sound store leaves the store as it was, or it raises the low-water mark of the stream to an offset within
-- the stream that no cursor of the stream stands before, unless the cursor is overridden, wherever the cursors
-- have moved since the policy decided. Then just the records before that offset are gone, the markers that the plan
-- gives for the span of offsets that went stand behind the others, no other stream's records, next offset or low-water
-- mark has changed, and no cursor has moved.
pub prune_scanned-Pruned :
    (w : Setting) (disk : Bool) (scan : PruneScan) (overridden : List Text)
    (plan : PruneSpan → PruneOutcome) (s : Store)
    → IsSound s
    → ((prune_scanned w disk scan overridden plan s).1 ≡ s)
      ⊎ Pruned w scan.stream overridden plan s (prune_scanned w disk scan overridden plan s).1
prune_scanned-Pruned w disk scan overridden plan s h =
    elim (prune_scanned-Goes w disk scan overridden plan s) [
      | inl same ↦ inl same
      | inr g ↦
          let st = scan.stream in
          let out = plan g.span in
          let cut =
            cut_range-IsRun (s.lwm st) g.up_to (s.lwm st) (s.next st) (s.db.records st) (h.runs st)
              (le_refl (s.lwm st)) g.within in
          let mark : (pruned_store w st g.up_to g.stats g.span out s).lwm st ≡ g.up_to =
            unfold pruned_store in set_at_same st g.up_to s.lwm in
          inr (
            rw g.result (record {
              further = rw mark g.further;
              within = rw mark g.within;
              guarded = λ name pos m o. rw mark (g.guarded name pos m o);
              cursors = pruned-cursors w st g.up_to g.stats g.span out s;
              span = g.span;
              span_from = g.from_lwm;
              span_to = rw mark g.to_last;
              records = rw mark (
                  pruned-records w st g.up_to g.stats g.span out s cut
                  ∙ rw
                      (cut_range-between (s.lwm st) g.up_to (s.lwm st) (s.next st) (s.db.records st)
                        (h.runs st) (le_refl (s.lwm st)))
                      refl);
              next =
                  unfold pruned_store in set_at_same st (s.next st + length out.gap_records) s.next;
              others = λ other q. (
                pruned-records_other w st g.up_to g.stats g.span out s other q,
                unfold pruned_store in
                    set_at_other st other (s.next st + length out.gap_records) s.next q,
                unfold pruned_store in set_at_other st other g.up_to s.lwm q,
              );
            }))
    ]

-- A prune of a sound store leaves a sound store, so a store opened again behind it has the same low-water mark, next
-- offset and byte count.
pub prune_scanned-IsSound :
    (w : Setting) (disk : Bool) (scan : PruneScan) (overridden : List Text)
    (plan : PruneSpan → PruneOutcome) (s : Store)
    → IsSound s
    → IsSound (prune_scanned w disk scan overridden plan s).1
prune_scanned-IsSound w disk scan overridden plan s h =
    elim (prune_scanned-Goes w disk scan overridden plan s) [
      | inl same ↦ rw same h
      | inr g ↦
          let known : s.next scan.stream ≢ 0 = λ z. omega (arith, z, g.further, g.within) in
          rw g.result (
            pruned_store-IsSound w scan.stream g.up_to g.stats g.span (plan g.span) s h known
              (omega (arith, g.further)) g.within)
    ]

-- The journal of a stream that tells all that was pruned, within its cap.
pub record IsJournaled (stream : Text) (s : Store) : Type 0 where
  pub partition : IsPartition 1 (s.lwm stream) (s.db.journals stream)
  pub short : length (s.db.journals stream) ≤ journal_cap

-- The spans of the pruned stream's journal keep following each other from the first offset to the low-water mark,
-- without a hole and at most 64 of them.
pub prune_scanned-IsJournaled :
    (w : Setting) (disk : Bool) (scan : PruneScan) (overridden : List Text)
    (plan : PruneSpan → PruneOutcome) (s : Store)
    → IsJournaled scan.stream s
    → IsJournaled scan.stream (prune_scanned w disk scan overridden plan s).1
prune_scanned-IsJournaled w disk scan overridden plan s h =
    elim (prune_scanned-Goes w disk scan overridden plan s) [
      | inl same ↦ rw same h
      | inr g ↦
          let st = scan.stream in
          let held : IsPartition 1 g.span.from (s.db.journals st) = rw g.from_lwm h.partition in
          let written = pruned-journals w st g.up_to g.stats g.span (plan g.span) s held in
          let mark : (pruned_store w st g.up_to g.stats g.span (plan g.span) s).lwm st ≡ g.up_to =
            unfold pruned_store in set_at_same st g.up_to s.lwm in
          let whole =
            IsPartition-append 1 g.up_to (s.db.journals st) g.span held
              (omega (arith, g.from_lwm, g.to_last, g.further)) g.to_last in
          rw g.result (record {
            partition = rw (mark, written) (merge_down-IsPartition 1 g.up_to _ st _ whole);
            short = rw written (merge_down-le_cap _ st _ (le_refl _));
          })
    ]
