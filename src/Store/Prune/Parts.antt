-- ===== src/Store/Prune/Parts.antt =====
-- internal/store/store.go: what a prune leaves of each part of the store.
use colca.Prelude.{
  ℕ, ◌+◌, ◌==◌, Text, text_eq, text_beq, pair_eq, set_at, set_at_same, set_at_other, length, List,
  [], ◌∷◌, ◌++◌, false, Bool-cases, some, if◌then◌else◌, ◌≡◌, refl, ap, subst, ◌∙◌, inl, inr,
}
use colca.Store.Data.{
  PruneSpan, Db, Write, delete_range, set_lwm, set_head, set_bytes, cut_range, apply_write,
  apply_batch, Store,
}
use colca.Store.Streams.{write_records, records_cost}
use colca.Store.Encode.{Setting}
use colca.Store.Streams.Order.{IsRun, numbered, write_records-records, write_records-other}
use colca.Store.Streams.Counters.{
  Counters, counters_of, is_content, apply_batch-counters_of, all-append-content, all-write_records,
}
use colca.Store.Journal.{merge_down, journal_writes}
use colca.Store.Journal.Partition.{IsPartition}
use colca.Store.Journal.Written.{journal_writes-merge_down}
use colca.Store.Prune.Writes.{
  unjournaled, apply_batch-unjournaled, all-journal_writes, index_deletes-content,
  target_deletes-content, refresh_writes-counters_of, refresh_writes-records, deletes-records,
  apply_batch-parts,
}
use colca.Store.Prune.{
  PruneOutcome, index_deletes, target_deletes, refresh_writes, live_behind, prune_writes,
  pruned_store,
}
use colca.Store.Policy.{PruneStats}

module _ (w : Setting) (stream : Text) (up_to : ℕ) (stats : PruneStats) (span : PruneSpan)
    (out : PruneOutcome) (s : Store) where
  unfoldable pub head_after : ℕ
  head_after = s.next stream + length out.gap_records

  unfoldable pub live_after : ℕ
  live_after =
      live_behind (s.bytes stream) stats.shed
        (records_cost w stream (s.next stream) out.gap_records)

  head_writes : List Write
  head_writes = if head_after == s.next stream then [] else set_head stream head_after ∷ []

  without_prefix : Db
  without_prefix =
      apply_batch
        (delete_range stream (s.lwm stream) up_to ∷ index_deletes stream stats.index
          ++ target_deletes stream stats.targets)
        s.db

  with_gaps : Db
  with_gaps =
      apply_batch (write_records w stream (s.next stream) out.gap_records)
        (apply_write (set_lwm stream up_to) without_prefix)

  with_bytes : Db
  with_bytes = apply_write (set_bytes stream live_after) (
      apply_batch (refresh_writes stream out.refresh (s.db.pending stream))
        (apply_batch head_writes with_gaps))

  pruned_store-db :
      (pruned_store w stream up_to stats span out s).db
      ≡ apply_batch (journal_writes stream (s.db.journals stream) span) with_bytes
  unfolding with_bytes with_gaps without_prefix head_writes head_after live_after apply_batch
      pruned_store prune_writes
  pruned_store-db =
      apply_batch-parts
        (delete_range stream (s.lwm stream) up_to ∷ index_deletes stream stats.index
          ++ target_deletes stream stats.targets)
        (set_lwm stream up_to ∷ write_records w stream (s.next stream) out.gap_records)
        (if s.next stream + length out.gap_records == s.next stream
          then []
          else set_head stream (s.next stream + length out.gap_records) ∷ [])
        (refresh_writes stream out.refresh (s.db.pending stream))
        (set_bytes stream (
            live_behind (s.bytes stream) stats.shed
              (records_cost w stream (s.next stream) out.gap_records))
          ∷ journal_writes stream (s.db.journals stream) span)
        s.db

  -- The counters before the journal is written.
  head_writes-counters_of :
      (db : Db)
      → counters_of (apply_batch head_writes db) ≡ record (counters_of db) {
        heads =
            if head_after == s.next stream
            then db.heads
            else set_at stream (some head_after) db.heads;
      }
  unfolding head_writes apply_batch apply_write counters_of
  head_writes-counters_of db = elim (Bool-cases (head_after == s.next stream)) [
    | inl q ↦ rw q refl
    | inr q ↦ rw q refl
  ]

  head_writes-records : (db : Db) → (apply_batch head_writes db).records ≡ db.records
  unfolding head_writes apply_batch apply_write
  head_writes-records db = elim (Bool-cases (head_after == s.next stream)) [
    | inl q ↦ rw q refl
    | inr q ↦ rw q refl
  ]

  without_prefix-counters_of : counters_of without_prefix ≡ counters_of s.db
  unfolding without_prefix
  without_prefix-counters_of = apply_batch-counters_of _ s.db (
      all-append-content
        (delete_range stream (s.lwm stream) up_to ∷ index_deletes stream stats.index) _
        (unfold is_content in index_deletes-content stream stats.index)
        (target_deletes-content stream stats.targets))

  with_gaps-counters_of :
      counters_of with_gaps
      ≡ record (counters_of s.db) { lwms = set_at stream (some up_to) s.db.lwms }
  unfolding with_gaps counters_of apply_write
  with_gaps-counters_of =
      apply_batch-counters_of _ _ (all-write_records w stream (s.next stream) out.gap_records)
      ∙ ap (λ (c : Counters). record c { lwms = set_at stream (some up_to) c.lwms })
          without_prefix-counters_of

  pruned_store-unjournaled :
      unjournaled (pruned_store w stream up_to stats span out s).db ≡ unjournaled with_bytes
  pruned_store-unjournaled =
      ap unjournaled pruned_store-db
      ∙ apply_batch-unjournaled (journal_writes stream (s.db.journals stream) span) with_bytes
          (all-journal_writes stream (s.db.journals stream) span)

  -- The counters behind the batch, but for the refresh that is owed.
  refreshed : Db
  refreshed =
      apply_batch (refresh_writes stream out.refresh (s.db.pending stream))
        (apply_batch head_writes with_gaps)

  refreshed-counters_of : counters_of refreshed ≡ record (counters_of s.db) {
    heads =
        if head_after == s.next stream
        then s.db.heads
        else set_at stream (some head_after) s.db.heads;
    lwms = set_at stream (some up_to) s.db.lwms;
    pending = refreshed.pending;
  }
  unfolding refreshed with_gaps counters_of
  refreshed-counters_of =
      refresh_writes-counters_of stream out.refresh (s.db.pending stream)
        (apply_batch head_writes with_gaps)
      ∙ ap (λ (c : Counters). record c { pending = refreshed.pending })
          (head_writes-counters_of with_gaps
            ∙ ap
                (λ (c : Counters). record c {
                  heads =
                      if head_after == s.next stream
                      then c.heads
                      else set_at stream (some head_after) c.heads;
                })
                with_gaps-counters_of)

  pub pruned-heads : (pruned_store w stream up_to stats span out s).db.heads ≡ (
      if head_after == s.next stream
      then s.db.heads
      else set_at stream (some head_after) s.db.heads)
  unfolding unjournaled with_bytes apply_write refreshed counters_of
  pruned-heads =
      ap (λ (d : Db). d.heads) pruned_store-unjournaled
      ∙ ap (λ (c : Counters). c.heads) refreshed-counters_of

  pub pruned-sizes :
      (pruned_store w stream up_to stats span out s).db.sizes
      ≡ set_at stream (some live_after) s.db.sizes
  unfolding unjournaled with_bytes apply_write refreshed counters_of
  pruned-sizes =
      ap (λ (d : Db). d.sizes) pruned_store-unjournaled
      ∙ ap (λ (c : Counters). set_at stream (some live_after) c.sizes) refreshed-counters_of

  pub pruned-lwms :
      (pruned_store w stream up_to stats span out s).db.lwms ≡ set_at stream (some up_to) s.db.lwms
  unfolding unjournaled with_bytes apply_write refreshed counters_of
  pruned-lwms =
      ap (λ (d : Db). d.lwms) pruned_store-unjournaled
      ∙ ap (λ (c : Counters). c.lwms) refreshed-counters_of

  pub pruned-cursors : (pruned_store w stream up_to stats span out s).db.cursors ≡ s.db.cursors
  unfolding unjournaled with_bytes apply_write refreshed counters_of
  pruned-cursors =
      ap (λ (d : Db). d.cursors) pruned_store-unjournaled
      ∙ ap (λ (c : Counters). c.cursors) refreshed-counters_of

  with_bytes-journals : with_bytes.journals ≡ s.db.journals
  unfolding with_bytes apply_write refreshed counters_of
  with_bytes-journals = ap (λ (c : Counters). c.journals) refreshed-counters_of

  -- The journal behind a prune.
  pub pruned-journals :
      IsPartition 1 span.from (s.db.journals stream)
      → (pruned_store w stream up_to stats span out s).db.journals stream
        ≡ (merge_down
            (length (s.db.journals stream ++ span ∷ []))
            stream
            (s.db.journals stream ++ span ∷ [])).0
  pruned-journals p =
      let held : with_bytes.journals stream ≡ s.db.journals stream =
        ap (λ journals. journals stream) with_bytes-journals in
      ap (λ (d : Db). d.journals stream) pruned_store-db
      ∙ subst
          (λ j.
            (apply_batch (journal_writes stream j span) with_bytes).journals stream
            ≡ (merge_down (length (j ++ span ∷ [])) stream (j ++ span ∷ [])).0)
          held (journal_writes-merge_down stream 1 span with_bytes (rw held p))

  without_prefix-records :
      (st : Text)
      → (apply_write (set_lwm stream up_to) without_prefix).records st
        ≡ set_at stream (cut_range (s.lwm stream) up_to (s.db.records stream)) s.db.records st
  unfolding apply_write without_prefix apply_batch
  without_prefix-records st =
      ap (λ records. records st) (deletes-records stream stats.index stats.targets _)

  with_bytes-records : with_bytes.records ≡ with_gaps.records
  unfolding with_bytes apply_write
  with_bytes-records =
      refresh_writes-records stream out.refresh (s.db.pending stream) _
      ∙ head_writes-records with_gaps

  pruned-with_gaps : (pruned_store w stream up_to stats span out s).db.records ≡ with_gaps.records
  unfolding unjournaled
  pruned-with_gaps = ap (λ (d : Db). d.records) pruned_store-unjournaled ∙ with_bytes-records

  -- The records behind a prune.
  pub pruned-records :
      IsRun up_to (s.next stream) (cut_range (s.lwm stream) up_to (s.db.records stream))
      → (pruned_store w stream up_to stats span out s).db.records stream
        ≡ cut_range (s.lwm stream) up_to (s.db.records stream)
          ++ numbered w.payloads (s.next stream) out.gap_records
  unfolding with_gaps
  pruned-records run =
      let cut = without_prefix-records stream ∙ set_at_same stream _ s.db.records in
      ap (λ records. records stream) pruned-with_gaps
      ∙ write_records-records w stream up_to (s.next stream) out.gap_records _ (rw cut run)
      ∙ rw cut refl

  pub pruned-records_other :
      (st : Text)
      → text_beq stream st ≡ false
      → (pruned_store w stream up_to stats span out s).db.records st ≡ s.db.records st
  unfolding with_gaps
  pruned-records_other st q =
      ap (λ records. records st) pruned-with_gaps
      ∙ write_records-other w stream (s.next stream) out.gap_records _ st q
      ∙ without_prefix-records st
      ∙ set_at_other stream st _ s.db.records q
