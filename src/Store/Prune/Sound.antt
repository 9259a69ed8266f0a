-- ===== src/Store/Prune/Sound.antt =====
-- internal/store/store.go: the store behind a prune.
use native.Mathlib.Nat.{le_refl}
use colca.Prelude.{
  ℕ, ◌+◌, ◌≤◌, ◌==◌, ==_iff, Text, text_eq, text_beq, text_beq_iff, pair_eq, set_at, set_at_same,
  set_at_other, length, true, false, Bool-cases, ◌≡◌, ◌≢◌, subst, ◌∙◌, inl, inr,
}
use colca.Uns.Classes.{one_of}
use colca.Store.Data.{PruneSpan, cut_range, Store}
use colca.Store.Streams.{open_store, streams}
use colca.Store.Encode.{Setting}
use colca.Store.Streams.Order.{IsRun, numbered-IsRun, append-IsRun}
use colca.Store.Streams.Sound.{IsSound, next-one_of, set_at-read_or}
use colca.Store.Prune.Writes.{cut_range-IsRun}
use colca.Store.Prune.{PruneOutcome, pruned_store}
use colca.Store.Policy.{PruneStats}
use colca.Store.Prune.Parts.{
  head_after, live_after, pruned-heads, pruned-lwms, pruned-records, pruned-records_other,
  pruned-sizes,
}

module _ (w : Setting) (stream : Text) (up_to : ℕ) (stats : PruneStats) (span : PruneSpan)
    (out : PruneOutcome) (s : Store) where
  abbrev head : ℕ
  head = head_after w stream up_to stats span out s

  pruned-IsRun :
      IsSound s
      → s.lwm stream ≤ up_to
      → up_to ≤ s.next stream
      → (st : Text)
      → IsRun
          ((pruned_store w stream up_to stats span out s).lwm st)
          ((pruned_store w stream up_to stats span out s).next st)
          ((pruned_store w stream up_to stats span out s).db.records st)
  pruned-IsRun h l u st = elim (Bool-cases (text_beq stream st)) [
    | inl q ↦
        subst
          (λ x.
            IsRun ((pruned_store w stream up_to stats span out s).lwm x)
              ((pruned_store w stream up_to stats span out s).next x)
              ((pruned_store w stream up_to stats span out s).db.records x))
          ((text_beq_iff stream st).0 q)
          (rw (pruned-records w stream up_to stats span out s cut, lwm_same, next_same)
            (append-IsRun up_to (s.next stream) _ _ _ cut
              (numbered-IsRun w.payloads (s.next stream) out.gap_records)))
    | inr q ↦
        rw
          (
            pruned-records_other w stream up_to stats span out s st q,
            lwm_other st q,
            next_other st q,
          )
          (h.runs st)
  ]
    where
      cut : IsRun up_to (s.next stream) (cut_range (s.lwm stream) up_to (s.db.records stream))
      cut =
          cut_range-IsRun (s.lwm stream) up_to (s.lwm stream) (s.next stream) _ (h.runs stream)
            (le_refl (s.lwm stream)) u

      lwm_same : (pruned_store w stream up_to stats span out s).lwm stream ≡ up_to
      lwm_same = unfold pruned_store in set_at_same stream up_to s.lwm

      next_same :
          (pruned_store w stream up_to stats span out s).next stream
          ≡ s.next stream + length out.gap_records
      next_same = unfold pruned_store in set_at_same stream _ s.next

      lwm_other :
          (st : Text)
          → text_beq stream st ≡ false
          → (pruned_store w stream up_to stats span out s).lwm st ≡ s.lwm st
      lwm_other st q = unfold pruned_store in set_at_other stream st up_to s.lwm q

      next_other :
          (st : Text)
          → text_beq stream st ≡ false
          → (pruned_store w stream up_to stats span out s).next st ≡ s.next st
      next_other st q = unfold pruned_store in set_at_other stream st _ s.next q

  -- The store behind a prune is sound.
  pub pruned_store-IsSound :
      IsSound s
      → s.next stream ≢ 0
      → s.lwm stream ≤ up_to
      → up_to ≤ s.next stream
      → IsSound (pruned_store w stream up_to stats span out s)
  pruned_store-IsSound h n l u =
      let known = next-one_of s stream h n in
      record {
        runs = pruned-IsRun h l u;
        next_on_disk = λ st. next_read known st;
        bytes_on_disk = λ st. bytes_read known st;
        lwm_on_disk = λ st. lwm_read known st;
      }
    where
      same_next :
          (st : Text) → (head == s.next stream) ≡ true → set_at stream head s.next st ≡ s.next st
      same_next st q = elim (Bool-cases (text_beq stream st)) [
        | inl e ↦
            let same : stream ≡ st = (text_beq_iff stream st).0 e in
            subst (λ x. set_at stream head s.next x ≡ s.next x) same
              (set_at_same stream head s.next ∙ (==_iff head (s.next stream)).0 q)
        | inr e ↦ set_at_other stream st head s.next e
      ]

      next_read :
          one_of stream streams ≡ true
          → (st : Text)
          → (pruned_store w stream up_to stats span out s).next st
            ≡ (open_store (pruned_store w stream up_to stats span out s).db).next st
      next_read known st = elim (Bool-cases (head == s.next stream)) [
        | inl q ↦
            unfold open_store in
            rw ((pruned-heads w stream up_to stats span out s), q)
              (unfold pruned_store in
                (unfold head_after in same_next st q ∙ unfold open_store in h.next_on_disk st))
        | inr q ↦
            unfold open_store in
            rw ((pruned-heads w stream up_to stats span out s), q)
              (unfold pruned_store head_after in
                set_at-read_or stream st (s.next stream + length out.gap_records) 1 s.next
                  s.db.heads known (unfold open_store in h.next_on_disk st))
      ]

      bytes_read :
          one_of stream streams ≡ true
          → (st : Text)
          → (pruned_store w stream up_to stats span out s).bytes st
            ≡ (open_store (pruned_store w stream up_to stats span out s).db).bytes st
      bytes_read known st =
          unfold open_store in
          rw (pruned-sizes w stream up_to stats span out s) (
            unfold pruned_store live_after in
            set_at-read_or stream st (live_after w stream up_to stats span out s) 0 s.bytes
              s.db.sizes known (unfold open_store in h.bytes_on_disk st))

      lwm_read :
          one_of stream streams ≡ true
          → (st : Text)
          → (pruned_store w stream up_to stats span out s).lwm st
            ≡ (open_store (pruned_store w stream up_to stats span out s).db).lwm st
      lwm_read known st =
          unfold open_store in
          rw (pruned-lwms w stream up_to stats span out s) (
            unfold pruned_store in
            set_at-read_or stream st up_to 1 s.lwm s.db.lwms known
              (unfold open_store in h.lwm_on_disk st))
