-- ===== src/Store/Streams/Appended.antt =====
-- internal/store/store.go: the store behind an append.
use colca.Prelude.{
  ℕ, ◌+◌, ◌==◌, Text, text_eq, text_beq, text_beq_iff, pair_eq, set_at, set_at_same, set_at_other,
  length, List, ◌∷◌, ◌++◌, All, Bool, true, false, Bool-cases, Option, some, Result-cases, ◌≡◌, ◌≢◌,
  refl, ap, subst, ◌∙◌, inl, inr, arith,
}
use colca.Uns.Classes.{one_of}
use colca.Store.Data.{Record, Db, Write, set_head, set_bytes, apply_write, apply_batch, Store}
use colca.Store.Cursors.Serial.{apply_batch-append}
use colca.Store.Streams.{
  CursorAdvance, write_records, records_cost, advance_writes, appended, decided, check_append,
  append_advancing_locked, streams, open_store,
}
use colca.Store.Encode.{Setting}
use colca.Store.Streams.Order.{
  IsRun, numbered, numbered-IsRun, append-IsRun, apply_batch-IsAside, IsAside,
  advance_writes-IsAside, write_records-records, write_records-other,
}
use colca.Store.Streams.Counters.{counters_of, apply_batch-counters_of, all-write_records}
use colca.Store.Streams.Sound.{
  IsSound, advance_writes-cursors, advance_writes-heads, advance_writes-lwms, advance_writes-sizes,
  next-one_of, set_at-read_or,
}

module _ (w : Setting) (now : ℕ) (stream : Text) (recs : List Record) (adv : Option CursorAdvance)
    (s : Store) where
  live_after : ℕ
  live_after = s.bytes stream + records_cost w stream (s.next stream) recs

  tail_writes : List Write
  tail_writes =
      set_head stream (s.next stream + length recs)
      ∷ set_bytes stream live_after
      ∷ advance_writes now adv

  behind_records : Db
  behind_records = apply_batch (write_records w stream (s.next stream) recs) s.db

  appended-db : (appended w now stream recs adv s).db ≡ apply_batch tail_writes behind_records
  unfolding appended tail_writes behind_records live_after
  appended-db = apply_batch-append (write_records w stream (s.next stream) recs) _ s.db

  tail_writes-IsAside : All IsAside tail_writes
  unfolding tail_writes IsAside apply_write
  tail_writes-IsAside =
      (λ _ _. refl, (λ _ _. refl, unfold IsAside apply_write in advance_writes-IsAside now adv))

  pub appended-records :
      IsSound s
      → (appended w now stream recs adv s).db.records stream
        ≡ s.db.records stream ++ numbered w.payloads (s.next stream) recs
  unfolding behind_records
  appended-records h =
      ap (λ db. db.records stream) appended-db
      ∙ apply_batch-IsAside tail_writes behind_records stream tail_writes-IsAside
      ∙ write_records-records w stream (s.lwm stream) (s.next stream) recs s.db (h.runs stream)

  pub appended-records_other :
      (st : Text)
      → text_beq stream st ≡ false
      → (appended w now stream recs adv s).db.records st ≡ s.db.records st
  unfolding behind_records
  appended-records_other st q =
      ap (λ db. db.records st) appended-db
      ∙ apply_batch-IsAside tail_writes behind_records st tail_writes-IsAside
      ∙ write_records-other w stream (s.next stream) recs s.db st q

  behind_records-counters_of : counters_of behind_records ≡ counters_of s.db
  unfolding behind_records
  behind_records-counters_of =
      apply_batch-counters_of (write_records w stream (s.next stream) recs) s.db
        (all-write_records w stream (s.next stream) recs)

  appended-heads :
      (appended w now stream recs adv s).db.heads
      ≡ set_at stream (some (s.next stream + length recs)) s.db.heads
  unfolding tail_writes apply_batch apply_write counters_of
  appended-heads =
      ap (λ db. db.heads) appended-db
      ∙ advance_writes-heads now adv _
      ∙ ap (λ c. set_at stream (some (s.next stream + length recs)) c.heads)
          behind_records-counters_of

  appended-sizes :
      (appended w now stream recs adv s).db.sizes ≡ set_at stream (some live_after) s.db.sizes
  unfolding tail_writes apply_batch apply_write counters_of
  appended-sizes =
      ap (λ db. db.sizes) appended-db
      ∙ advance_writes-sizes now adv _
      ∙ ap (λ c. set_at stream (some live_after) c.sizes) behind_records-counters_of

  appended-lwms : (appended w now stream recs adv s).db.lwms ≡ s.db.lwms
  unfolding tail_writes apply_batch apply_write counters_of
  appended-lwms =
      ap (λ db. db.lwms) appended-db
      ∙ advance_writes-lwms now adv _
      ∙ ap (λ c. c.lwms) behind_records-counters_of

  pub appended-cursors :
      (appended w now stream recs adv s).db.cursors
      ≡ (apply_batch (advance_writes now adv) s.db).cursors
  unfolding tail_writes apply_batch apply_write counters_of
  appended-cursors =
      ap (λ db. db.cursors) appended-db
      ∙ advance_writes-cursors now adv _ _ (ap (λ c. c.cursors) behind_records-counters_of)

  appended-runs :
      IsSound s
      → (st : Text)
      → IsRun
          ((appended w now stream recs adv s).lwm st)
          ((appended w now stream recs adv s).next st)
          ((appended w now stream recs adv s).db.records st)
  appended-runs h st = elim (Bool-cases (text_beq stream st)) [
    | inl q ↦
        subst
          (λ x.
            IsRun ((appended w now stream recs adv s).lwm x)
              ((appended w now stream recs adv s).next x)
              ((appended w now stream recs adv s).db.records x))
          ((text_beq_iff stream st).0 q) grown
    | inr q ↦ rw (appended-records_other st q, next_other st q, lwm_kept) (h.runs st)
  ]
    where
      lwm_kept : (appended w now stream recs adv s).lwm ≡ s.lwm
      lwm_kept = unfold appended in refl

      next_same : (appended w now stream recs adv s).next stream ≡ s.next stream + length recs
      next_same = unfold appended in set_at_same stream _ s.next

      next_other :
          (st : Text)
          → text_beq stream st ≡ false
          → (appended w now stream recs adv s).next st ≡ s.next st
      next_other st q = unfold appended in set_at_other stream st _ s.next q

      grown :
          IsRun
            ((appended w now stream recs adv s).lwm stream)
            ((appended w now stream recs adv s).next stream)
            ((appended w now stream recs adv s).db.records stream)
      grown =
          rw (appended-records h, next_same, lwm_kept)
            (append-IsRun (s.lwm stream) (s.next stream) _ _ _ (h.runs stream)
              (numbered-IsRun w.payloads (s.next stream) recs))

  -- The store behind an append to a known stream is sound.
  pub appended-IsSound : s.next stream ≢ 0 → IsSound s → IsSound (appended w now stream recs adv s)
  appended-IsSound n h =
      let known = next-one_of s stream h n in
      record {
        runs = appended-runs h;
        next_on_disk = λ st. next_read known st;
        bytes_on_disk = λ st. bytes_read known st;
        lwm_on_disk = λ st. lwm_read st;
      }
    where
      next_read :
          one_of stream streams ≡ true
          → (st : Text)
          → (appended w now stream recs adv s).next st
            ≡ (open_store (appended w now stream recs adv s).db).next st
      next_read known st =
          unfold open_store in
          rw appended-heads (
            unfold appended in
            set_at-read_or stream st (s.next stream + length recs) 1 s.next s.db.heads known
              (unfold open_store in h.next_on_disk st))

      bytes_read :
          one_of stream streams ≡ true
          → (st : Text)
          → (appended w now stream recs adv s).bytes st
            ≡ (open_store (appended w now stream recs adv s).db).bytes st
      bytes_read known st =
          unfold open_store in
          rw appended-sizes (
            unfold appended live_after in
            set_at-read_or stream st live_after 0 s.bytes s.db.sizes known
              (unfold open_store in h.bytes_on_disk st))

      lwm_read :
          (st : Text)
          → (appended w now stream recs adv s).lwm st
            ≡ (open_store (appended w now stream recs adv s).db).lwm st
      lwm_read st =
          unfold open_store in rw appended-lwms (unfold appended open_store in h.lwm_on_disk st)

-- Whether an append succeeds or fails, and for whatever reason, in each stream the records keep ascending offsets from
-- the low-water mark on and below the next offset, and a store opened again from the disk has the next offset, the
-- low-water mark and the byte count that are held in memory.
pub append_advancing_locked-IsSound :
    (w : Setting) (disk : Bool) (now : ℕ) (stream : Text) (recs : List Record)
    (adv : Option CursorAdvance) (s : Store)
    → IsSound s
    → IsSound (append_advancing_locked w disk now stream recs adv s).1
unfolding append_advancing_locked
append_advancing_locked-IsSound w disk now stream recs adv s h =
    elim (Bool-cases (s.next stream == 0)) [
      | inl q ↦ rw q h
      | inr q ↦ elim (Result-cases (check_append w s.db stream recs)) [
        | inr (e, c) ↦ rw (q, c) h
        | inl (local, c) ↦ elim (Bool-cases disk) [
          | inl d ↦
              let known : s.next stream ≢ 0 = λ z. ground arith in
              rw (q, c, d) (appended-IsSound w now stream (decided local recs) adv s known h)
          | inr d ↦ rw (q, c, d) h
        ]
      ]
    ]
