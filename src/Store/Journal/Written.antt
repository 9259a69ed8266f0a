-- ===== src/Store/Journal/Written.antt =====
-- internal/store/store.go: the journal that a prune writes.
use colca.Prelude.{
  ℕ, zero, suc, ◌+◌, ◌<◌, leb, Text, text_eq, set_at_same, length, List, [], ◌∷◌, ◌++◌, Bool-cases,
  ◌≡◌, refl, ap, ◌∙◌, inl, inr, arith,
}
use colca.Store.Data.{
  PruneSpan, Db, Write, set_span, delete_span, put_span, drop_span, apply_write, apply_batch,
}
use colca.Store.Cursors.Serial.{apply_batch-append}
use colca.Store.Journal.{journal_cap, merge_spans, merge_down, first_span_writes, journal_writes}
use colca.Store.Journal.Partition.{
  IsPartition, IsAscending, IsAscending-lower, IsPartition-IsAscending, put_span-last,
  drop_span-absent,
}

journals-delete_span :
    (stream : Text) (from : ℕ) (db : Db)
    → (apply_write (delete_span stream from) db).journals stream
      ≡ drop_span from (db.journals stream)
unfolding apply_write
journals-delete_span stream from db = set_at_same stream _ db.journals

journals-set_span :
    (stream : Text) (span : PruneSpan) (db : Db)
    → (apply_write (set_span stream span) db).journals stream ≡ put_span span (db.journals stream)
unfolding apply_write
journals-set_span stream span db = set_at_same stream _ db.journals

-- The deletions of a merge, on a journal that begins with `held` where the merged list begins with `first`.
record Merged (stream : Text) (held first span : PruneSpan) (spans : List PruneSpan) (db : Db)
    (result : List PruneSpan × List Write) : Type 0 where
  oldest : PruneSpan
  rest : List PruneSpan
  merged : result.0 ≡ oldest ∷ rest ++ span ∷ []
  left : (apply_batch result.1 db).journals stream ≡ held ∷ rest
  same_key : oldest.from ≡ first.from
  ascending : IsAscending (first.from + 1) span.from rest
  unmerged : result.1 ≡ [] → oldest ≡ first

unmerged-Merged :
    (stream : Text) (held first span : PruneSpan) (spans : List PruneSpan) (db : Db)
    → db.journals stream ≡ held ∷ spans
    → IsAscending (first.from + 1) span.from spans
    → Merged stream held first span spans db (first ∷ spans ++ span ∷ [], [])
unmerged-Merged stream held first span spans db e a = record {
  oldest = first;
  rest = spans;
  merged = refl;
  left = unfold apply_batch in e;
  same_key = refl;
  ascending = a;
  unmerged = λ _. refl;
}

-- One round takes the second span's key away.
drop_second :
    (held y : PruneSpan) (spans : List PruneSpan) (hi : ℕ)
    → held.from < y.from
    → IsAscending (y.from + 1) hi spans
    → drop_span y.from (held ∷ y ∷ spans) ≡ held ∷ spans
unfolding drop_span
drop_second held y spans hi l a =
    let gone = drop_span-absent y.from (y.from + 1) hi spans (omega arith) a in ground arith

-- A round, and the rounds behind it.
round-Merged :
    (stream : Text) (held first y span : PruneSpan) (spans : List PruneSpan) (db : Db)
    (result : List PruneSpan × List Write)
    → Merged stream held
        (merge_spans first y)
        span
        spans
        (apply_write (delete_span stream y.from) db)
        result
    → Merged stream held first span (y ∷ spans) db (result.0, delete_span stream y.from ∷ result.1)
unfolding merge_spans
round-Merged stream held first y span spans db result m = record {
  oldest = m.oldest;
  rest = m.rest;
  merged = m.merged;
  left = unfold apply_batch in m.left;
  same_key = m.same_key;
  ascending = m.ascending;
  unmerged = λ none_. cc;
}

merge_down-Merged :
    (rounds : ℕ) (stream : Text) (held first span : PruneSpan) (spans : List PruneSpan) (db : Db)
    → db.journals stream ≡ held ∷ spans
    → held.from ≡ first.from
    → IsAscending (first.from + 1) span.from spans
    → Merged stream held first span spans db (merge_down rounds stream (first ∷ spans ++ span ∷ []))
unfolding merge_down IsAscending
merge_down-Merged zero stream held first span spans db e k a =
    unmerged-Merged stream held first span spans db e a
merge_down-Merged (suc rounds) stream held first span [] db e k a =
    unmerged-Merged stream held first span [] db e a
merge_down-Merged (suc rounds) stream held first span (y ∷ spans) db e k (l, a) =
    let db' = apply_write (delete_span stream y.from) db in
    let dropped : db'.journals stream ≡ held ∷ spans =
      journals-delete_span stream y.from db
      ∙ ap (drop_span y.from) e
      ∙ drop_second held y spans span.from (omega (arith, l, k)) a in
    let rest =
      merge_down-Merged rounds stream held (merge_spans first y) span spans db' dropped
        (unfold merge_spans in k)
        (unfold merge_spans in
          IsAscending-lower (y.from + 1) (first.from + 1) span.from spans (omega (arith, l)) a) in
    elim (Bool-cases (leb (length (first ∷ y ∷ spans ++ span ∷ [])) journal_cap)) [
      | inl q ↦ rw q (unmerged-Merged stream held first span (y ∷ spans) db e (l, a))
      | inr q ↦ rw q (round-Merged stream held first y span spans db _ rest)
    ]

put_span-first :
    (span held : PruneSpan) (spans : List PruneSpan)
    → span.from ≡ held.from
    → put_span span (held ∷ spans) ≡ span ∷ spans
unfolding put_span
put_span-first span held spans e = ground arith

put_last :
    (stream : Text) (first span : PruneSpan) (spans : List PruneSpan) (db : Db)
    → db.journals stream ≡ first ∷ spans
    → IsAscending (first.from + 1) span.from spans
    → (apply_write (set_span stream span) db).journals stream ≡ first ∷ spans ++ span ∷ []
put_last stream first span spans db e a =
    journals-set_span stream span db
    ∙ ap (put_span span) e
    ∙ put_span-last first.from (first ∷ spans) span (unfold IsAscending in (omega arith, a))

Merged-written :
    (stream : Text) (held span : PruneSpan) (spans : List PruneSpan) (db : Db)
    (result : List PruneSpan × List Write)
    → Merged stream held held span spans db result
    → (apply_batch
          (result.1 ++ first_span_writes stream result ++ set_span stream span ∷ [])
          db).journals
        stream
      ≡ result.0
Merged-written stream held span spans db (merged, []) m =
    let same = m.unmerged refl in
    rw m.merged (
      unfold first_span_writes apply_batch in
      rw same (put_last stream held span m.rest db (unfold apply_batch in m.left) m.ascending))
Merged-written stream held span spans db (merged, v ∷ vs) m =
    let db1 = apply_batch (v ∷ vs) db in
    let db2 = apply_write (set_span stream m.oldest) db1 in
    let first : db2.journals stream ≡ m.oldest ∷ m.rest =
      journals-set_span stream m.oldest db1
      ∙ ap (put_span m.oldest) m.left
      ∙ put_span-first m.oldest held m.rest m.same_key in
    let up : IsAscending (m.oldest.from + 1) span.from m.rest = rw m.same_key m.ascending in
    let both = put_last stream m.oldest span m.rest db2 first up in
    rw m.merged (
      unfold first_span_writes in
      (ap (λ (d : Db). d.journals stream)
          (apply_batch-append ((v ∷ vs) ++ set_span stream m.oldest ∷ [])
              (set_span stream span ∷ []) db
            ∙ ap (apply_batch (set_span stream span ∷ []))
                (apply_batch-append (v ∷ vs) (set_span stream m.oldest ∷ []) db))
        ∙ unfold apply_batch in both))

-- The journal of a prune: what was held with the span behind it, merged down to the cap.
pub journal_writes-merge_down :
    (stream : Text) (lo : ℕ) (span : PruneSpan) (db : Db)
    → IsPartition lo span.from (db.journals stream)
    → (apply_batch (journal_writes stream (db.journals stream) span) db).journals stream
      ≡ (merge_down
          (length (db.journals stream ++ span ∷ []))
          stream
          (db.journals stream ++ span ∷ [])).0
journal_writes-merge_down stream lo span db p =
    written (db.journals stream) refl (IsPartition-IsAscending lo span.from (db.journals stream) p)
  where
    written :
        (held : List PruneSpan)
        → db.journals stream ≡ held
        → IsAscending lo span.from held
        → (apply_batch (journal_writes stream held span) db).journals stream
          ≡ (merge_down (length (held ++ span ∷ [])) stream (held ++ span ∷ [])).0
    written [] e a =
        unfold journal_writes merge_down first_span_writes apply_batch in
        journals-set_span stream span db ∙ ap (put_span span) e ∙ unfold put_span in refl
    written (x ∷ xs) e a =
        unfold journal_writes in
        Merged-written stream x span xs db _ (
          merge_down-Merged (length (x ∷ xs ++ span ∷ [])) stream x x span xs db e refl
            (unfold IsAscending in a.1))
