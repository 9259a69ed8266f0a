-- ===== src/Store/Replicated/Joined.antt =====
-- internal/store/replgroup.go: a single request that is committed by itself, and the batch it joins.
use colca.Prelude.{
  ℕ, ◌+◌, ◌≤◌, Text, text_eq, text_beq, pair_eq, set_at, set_at_same, set_at_other, [], ◌∷◌, ◌++◌,
  All, is_some, true, false, Bool-cases, some, none, if◌then◌else◌, ok, ◌≡◌, ◌≢◌, refl, sym, ap,
  subst, ◌∙◌, inl, inr, arith,
}
use colca.Store.Data.{Pair, Db, apply_write, apply_batch, Store}
use colca.Store.Cursors.Serial.{apply_batch-append}
use colca.Store.Encode.{Setting}
use colca.Store.Streams.Counters.{counters_of, apply_batch-counters_of, all-write_records}
use colca.Store.Streams.Content.{
  content_of, apply_contents, apply_batch-content_of, apply_contents-append,
}
use colca.Store.Replicated.{
  ReplRequest, ReplBatch, Built, no_requests, unbuilt, key_of, is_nothing, hwm_get, next_in,
  live_in, build_replicated, join_request, head_writes, mark_writes, published,
}
use colca.Store.Replicated.Build.{build_all-le, build_all-Adds, stored_of, fresh}
use colca.Store.Replicated.Stands.{
  Stands, head_writes-hwms, hwm_get-eq, hwm_get-some, keys-join, keys-kept, live_in-join,
  mark_of-join, marks-join, next_in-join, pair-other, published-content_of, published-hwms,
  writes-join,
}

-- A single request that is committed by itself.
module _ (w : Setting) (r : ReplRequest) (s : Store) (built : Built) (m n : ℕ)
    (applied : is_nothing built.applied ≡ false)
    (made : build_replicated w r.stream r.recs m n ≡ ok built) where
  unfoldable pub alone : ReplBatch
  alone = join_request r s built no_requests

  built-counters_of : (db : Db) → counters_of (apply_batch built.writes db) ≡ counters_of db
  built-counters_of db =
      let adds =
        build_all-Adds w r.stream r.recs (unbuilt m n) built (unfold build_replicated in made) in
      rw adds.writes
        (apply_batch-counters_of _ db (all-write_records w r.stream n (stored_of (fresh m r.recs))))

  built-hwms : (db : Db) → (apply_batch built.writes db).hwms ≡ db.hwms
  unfolding counters_of
  built-hwms db = ap (λ c. c.hwms) (built-counters_of db)

  alone-marks :
      (key : Pair) → alone.marks key ≡ (if pair_eq.beq (key_of r) key then some built.hwm else none)
  alone-marks key =
      let joined : alone.marks ≡ set_at (key_of r) (some built.hwm) (λ _. none) =
        unfold alone in marks-join r s built no_requests applied in
      ap (λ marks. marks key) joined ∙ unfold set_at in refl

  alone-hwms :
      (key : Pair)
      → pair_eq.beq (key_of r) key ≡ false
      → (published alone s).db.hwms key ≡ s.db.hwms key
  alone-hwms key other =
      let writes : alone.writes ≡ built.writes =
        unfold alone in writes-join r s built no_requests applied in
      let keys : alone.keys ≡ key_of r ∷ [] =
        unfold alone in keys-join r s built no_requests applied in
      unfold published in
      rw
        (
          apply_batch-append (alone.writes ++ head_writes alone s alone.streams)
              (mark_writes alone s alone.keys) s.db,
          apply_batch-append alone.writes (head_writes alone s alone.streams) s.db,
          writes,
          keys,
        )
        (unfold mark_writes apply_batch apply_write in
          (set_at_other (key_of r) key _ _ other
            ∙ ap (λ marks. marks key)
                (head_writes-hwms _ s alone.streams (apply_batch built.writes s.db))
            ∙ ap (λ marks. marks key) (built-hwms s.db)))

  pub alone-hwm_get :
      (key : Pair)
      → hwm_get key (published alone s)
        ≡ (if pair_eq.beq (key_of r) key then built.hwm else hwm_get key s)
  alone-hwm_get key = elim (Bool-cases (pair_eq.beq (key_of r) key)) [
    | inl q ↦
        let marked : alone.marks key ≡ some built.hwm = rw q at (alone-marks key) in
        let set : (published alone s).hwms key ≡ some built.hwm =
          published-hwms alone s key (some built.hwm) marked in
        hwm_get-some key (published alone s) built.hwm set ∙ rw q refl
    | inr q ↦
        let unmarked : alone.marks key ≡ none = rw q at (alone-marks key) in
        let same : (published alone s).hwms key ≡ s.hwms key =
          published-hwms alone s key none unmarked in
        hwm_get-eq key (published alone s) s same (alone-hwms key q) ∙ rw q refl
  ]

  pub alone-next :
      (st : Text)
      → (published alone s).next st ≡ (if text_beq r.stream st then built.off else s.next st)
  alone-next st =
      let joined = next_in-join r s built no_requests applied st in
      unfold published alone in (joined ∙ unfold next_in in refl)

  pub alone-bytes :
      (st : Text)
      → (published alone s).bytes st
        ≡ (if text_beq r.stream st then s.bytes r.stream + built.added else s.bytes st)
  alone-bytes st =
      let joined = live_in-join r s built no_requests applied st in
      unfold published alone in (joined ∙ unfold live_in in refl)

  pub alone-content_of :
      content_of (published alone s).db ≡ apply_contents built.writes (content_of s.db)
  alone-content_of =
      let writes : alone.writes ≡ built.writes =
        unfold alone in writes-join r s built no_requests applied in
      published-content_of alone s ∙ ap (λ ws. apply_contents ws (content_of s.db)) writes

  built-off : n ≤ built.off
  built-off =
      (build_all-le w r.stream r.recs (unbuilt m n) built (unfold build_replicated in made)).1

  join_request-unmarked :
      (b : ReplBatch) (s0 : Store)
      → n ≢ 0
      → Stands b s0 s
      → (key : Pair) → next_in (join_request r s0 built b) s0 key.1 ≡ 0
      → (join_request r s0 built b).marks key ≡ none
  join_request-unmarked b s0 known h key z = elim (Bool-cases (text_beq r.stream key.1)) [
    | inl q ↦
        let joined = rw q at (next_in-join r s0 built b applied key.1) in
        absurd (known (omega (arith, joined, z, built-off)))
    | inr q ↦
        let joined = rw q at (next_in-join r s0 built b applied key.1) in
        let other : pair_eq.beq (key_of r) key ≡ false =
          pair-other r.child key.0 r.stream key.1 q in
        ap (λ marks. marks key) (marks-join r s0 built b applied)
        ∙ set_at_other (key_of r) key (some built.hwm) b.marks other
        ∙ h.unmarked key (sym joined ∙ z)
  ]

  -- The batch with the request, and the store behind the request's own commit.
  pub join_request-Stands :
      (b : ReplBatch) (s0 : Store)
      → n ≢ 0
      → Stands b s0 s
      → Stands (join_request r s0 built b) s0 (published alone s)
  join_request-Stands b s0 known h = record {
    next = λ st. next_in-join r s0 built b applied st ∙ rw (h.next st) (sym (alone-next st));
    live = λ st.
        live_in-join r s0 built b applied st
        ∙ rw (h.live st, h.live r.stream) (sym (alone-bytes st));
    marks =
        λ key. mark_of-join r s0 built b applied key ∙ rw (h.marks key) (sym (alone-hwm_get key));
    content =
        ap (λ ws. content_of (apply_batch ws s0.db)) (writes-join r s0 built b applied)
        ∙ apply_batch-content_of (b.writes ++ built.writes) s0.db
        ∙ apply_contents-append b.writes built.writes (content_of s0.db)
        ∙ ap (apply_contents built.writes) (sym (apply_batch-content_of b.writes s0.db) ∙ h.content)
        ∙ sym alone-content_of;
    counters = λ db.
        ap (λ ws. counters_of (apply_batch ws db)) (writes-join r s0 built b applied)
        ∙ ap counters_of (apply_batch-append b.writes built.writes db)
        ∙ built-counters_of (apply_batch b.writes db)
        ∙ h.counters db;
    keys =
        subst (λ marks. All (λ key. is_some (marks key) ≡ true) (join_request r s0 built b).keys)
          (sym (marks-join r s0 built b applied))
          (rw (keys-join r s0 built b applied) (
            ap is_some (set_at_same (key_of r) (some built.hwm) b.marks),
            keys-kept (key_of r) built.hwm b.marks b.keys h.keys,
          ));
    unmarked = λ key z. join_request-unmarked b s0 known h key z;
  }
