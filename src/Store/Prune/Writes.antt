-- ===== src/Store/Prune/Writes.antt =====
-- internal/store/store.go: the parts of a prune's batch.
use colca.Prelude.{
  ℕ, zero, suc, ◌+◌, ◌≤◌, ltb, leb, Text, text_eq, pair_eq, length, List, [], ◌∷◌, ◌++◌, all,
  and-eq-true, Bool, true, false, Bool-cases, Option, some, none, ◌&&◌, ◌≡◌, refl, ap, ◌∙◌, inl,
  inr, arith,
}
use colca.Store.Data.{
  Stored, RefreshRange, PruneSpan, Db, Write, set_span, delete_span, cut_range, apply_write,
  apply_batch,
}
use colca.Store.Cursors.Serial.{apply_batch-append}
use colca.Store.Streams.Order.{IsRun}
use colca.Store.Streams.Counters.{counters_of, is_content}
use colca.Store.Journal.{journal_cap, merge_spans, merge_down, first_span_writes, journal_writes}
use colca.Store.Prune.{index_deletes, target_deletes, refresh_writes}

unfoldable pub is_span : Write → Bool
is_span (set_span _ _) = true
is_span (delete_span _ _) = true
is_span _ = false

-- A database but for its journals.
unfoldable pub unjournaled : Db → Db
unjournaled db = record db { journals = λ _. [] }

apply_write-unjournaled :
    (v : Write) (db : Db) → is_span v ≡ true → unjournaled (apply_write v db) ≡ unjournaled db
unfolding is_span unjournaled apply_write
apply_write-unjournaled (set_span _ _) db h = refl
apply_write-unjournaled (delete_span _ _) db h = refl
apply_write-unjournaled _ db h = cc

pub apply_batch-unjournaled :
    (ws : List Write) (db : Db)
    → all is_span ws ≡ true
    → unjournaled (apply_batch ws db) ≡ unjournaled db
unfolding apply_batch
apply_batch-unjournaled [] db h = refl
apply_batch-unjournaled (v ∷ ws) db h =
    let (a, b) = and-eq-true (is_span v) (all is_span ws) h in
    apply_batch-unjournaled ws (apply_write v db) b ∙ apply_write-unjournaled v db a

all-append-span :
    (ws vs : List Write)
    → all is_span ws ≡ true
    → all is_span vs ≡ true
    → all is_span (ws ++ vs) ≡ true
all-append-span [] vs h k = k
all-append-span (w ∷ ws) vs h k =
    let (a, b) = and-eq-true (is_span w) (all is_span ws) h in
    rw (a, all-append-span ws vs b k) refl

all-merge_down :
    (rounds : ℕ) (stream : Text) (spans : List PruneSpan)
    → all is_span (merge_down rounds stream spans).1 ≡ true
unfolding merge_down is_span
all-merge_down zero stream spans = refl
all-merge_down (suc rounds) stream [] = refl
all-merge_down (suc rounds) stream (x ∷ []) = refl
all-merge_down (suc rounds) stream (x ∷ y ∷ spans) =
    let rest = all-merge_down rounds stream (merge_spans x y ∷ spans) in
    elim (Bool-cases (leb (length (x ∷ y ∷ spans)) journal_cap)) [
      | inl q ↦ rw q refl
      | inr q ↦ rw q rest
    ]

pub all-journal_writes :
    (stream : Text) (held : List PruneSpan) (span : PruneSpan)
    → all is_span (journal_writes stream held span) ≡ true
all-journal_writes stream held span =
    let merged = merge_down (length (held ++ span ∷ [])) stream (held ++ span ∷ []) in
    unfold journal_writes in
    all-append-span (merged.1 ++ first_span_writes stream merged) (set_span stream span ∷ [])
      (all-append-span merged.1 _ (all-merge_down _ stream _) (first merged))
      (unfold is_span in refl)
  where
    first :
        (merged : List PruneSpan × List Write)
        → all is_span (first_span_writes stream merged) ≡ true
    first ([], vs) = unfold first_span_writes in refl
    first (x ∷ xs, []) = unfold first_span_writes in refl
    first (x ∷ xs, v ∷ vs) = unfold first_span_writes is_span in refl

pub index_deletes-content :
    (stream : Text) (es : List (Text × ℕ)) → all is_content (index_deletes stream es) ≡ true
unfolding index_deletes is_content
index_deletes-content stream [] = refl
index_deletes-content stream ((id, off) ∷ es) = index_deletes-content stream es

pub target_deletes-content :
    (stream : Text) (es : List (Text × ℕ)) → all is_content (target_deletes stream es) ≡ true
unfolding target_deletes is_content
target_deletes-content stream [] = refl
target_deletes-content stream ((id, off) ∷ es) = target_deletes-content stream es

-- Only the pending refresh is changed by the refresh that is owed.
pub refresh_writes-counters_of :
    (stream : Text) (r pending : Option RefreshRange) (db : Db)
    → counters_of (apply_batch (refresh_writes stream r pending) db) ≡ record (counters_of db) {
      pending = (apply_batch (refresh_writes stream r pending) db).pending;
    }
unfolding refresh_writes apply_batch apply_write counters_of
refresh_writes-counters_of stream none pending db = refl
refresh_writes-counters_of stream (some r) none db = refl
refresh_writes-counters_of stream (some r) (some cur) db = refl

pub refresh_writes-records :
    (stream : Text) (r pending : Option RefreshRange) (db : Db)
    → (apply_batch (refresh_writes stream r pending) db).records ≡ db.records
unfolding refresh_writes apply_batch apply_write
refresh_writes-records stream none pending db = refl
refresh_writes-records stream (some r) none db = refl
refresh_writes-records stream (some r) (some cur) db = refl

pub deletes-records :
    (stream : Text) (es fs : List (Text × ℕ)) (db : Db)
    → (apply_batch (index_deletes stream es ++ target_deletes stream fs) db).records ≡ db.records
unfolding index_deletes target_deletes apply_batch apply_write
deletes-records stream [] [] db = refl
deletes-records stream [] ((id, off) ∷ fs) db = deletes-records stream [] fs _
deletes-records stream ((id, off) ∷ es) fs db = deletes-records stream es fs _

-- A batch in five parts.
pub apply_batch-parts :
    (a b c d e : List Write) (db : Db)
    → apply_batch (a ++ b ++ c ++ d ++ e) db
      ≡ apply_batch e (apply_batch d (apply_batch c (apply_batch b (apply_batch a db))))
apply_batch-parts a b c d e db =
    apply_batch-append (a ++ b ++ c ++ d) e db
    ∙ ap (apply_batch e) (
        apply_batch-append (a ++ b ++ c) d db
        ∙ ap (apply_batch d)
            (apply_batch-append (a ++ b) c db ∙ ap (apply_batch c) (apply_batch-append a b db)))

-- Behind a prefix that is cut.
pub cut_range-IsRun :
    (lo up_to from hi : ℕ) (rs : List Stored)
    → IsRun from hi rs
    → lo ≤ from
    → up_to ≤ hi
    → IsRun up_to hi (cut_range lo up_to rs)
unfolding IsRun cut_range
cut_range-IsRun lo up_to from hi [] run l u = u
cut_range-IsRun lo up_to from hi (r ∷ rs) (a, run) l u =
    let rest = cut_range-IsRun lo up_to (r.offset + 1) hi rs run (omega arith) u in
    elim (Bool-cases (leb lo r.offset && ltb r.offset up_to)) [
      | inl q ↦ rw q rest
      | inr q ↦
          let above : up_to ≤ r.offset = ground arith in
          rw q (above, uncut lo up_to (r.offset + 1) hi rs run (omega (arith, above)))
    ]
  where
    uncut :
        (lo up_to from hi : ℕ) (rs : List Stored)
        → IsRun from hi rs
        → up_to ≤ from
        → IsRun from hi (cut_range lo up_to rs)
    uncut lo up_to from hi [] run l = run
    uncut lo up_to from hi (r ∷ rs) (a, run) l =
        let kept : (leb lo r.offset && ltb r.offset up_to) ≡ false = ground arith in
        rw kept (a, uncut lo up_to (r.offset + 1) hi rs run (omega arith))
