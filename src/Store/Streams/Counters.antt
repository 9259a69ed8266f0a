-- ===== src/Store/Streams/Counters.antt =====
-- internal/store/store.go: what the writes of records leave alone.
use colca.Prelude.{
  ℕ, ◌+◌, Text, text_eq, Table, List, [], ◌∷◌, ◌++◌, all, and-eq-true, Bool, true, false, Option,
  if◌then◌else◌, is_empty, ◌≡◌, refl, ◌∙◌, arith,
}
use colca.Uns.Records.{Payloads}
use colca.Store.Data.{
  Record, Db, Pair, PruneSpan, RefreshRange, Write, set_record, delete_record, delete_range,
  set_signal, delete_signal, set_target, delete_target, set_kv, delete_kv, apply_write, apply_batch,
}
use colca.Store.Streams.{write_records}
use colca.Store.Encode.{Setting, index_writes, kv_writes, add_record, signal_id_of, record_target}

-- All tables but those of records, indexes and current state.
pub record Counters : Type 0 where
  pub heads : Text → Option ℕ
  pub sizes : Text → Option ℕ
  pub lwms : Text → Option ℕ
  pub cursors : Table Pair ℕ
  pub stamps : Pair → Option ℕ
  pub acked : Pair → Option ℕ
  pub hwms : Pair → Option ℕ
  pub child_stores : Text → Option Text
  pub pending : Text → Option RefreshRange
  pub journals : Text → List PruneSpan

unfoldable pub counters_of : Db → Counters
counters_of db = record {
  heads = db.heads;
  sizes = db.sizes;
  lwms = db.lwms;
  cursors = db.cursors;
  stamps = db.stamps;
  acked = db.acked;
  hwms = db.hwms;
  child_stores = db.child_stores;
  pending = db.pending;
  journals = db.journals;
}

unfoldable pub is_content : Write → Bool
is_content (set_record _ _ _) = true
is_content (delete_record _ _) = true
is_content (delete_range _ _ _) = true
is_content (set_signal _) = true
is_content (delete_signal _) = true
is_content (set_target _) = true
is_content (delete_target _) = true
is_content (set_kv _ _) = true
is_content (delete_kv _) = true
is_content _ = false

apply_write-counters_of :
    (v : Write) (db : Db) → is_content v ≡ true → counters_of (apply_write v db) ≡ counters_of db
unfolding is_content counters_of apply_write
apply_write-counters_of (set_record _ _ _) db h = refl
apply_write-counters_of (delete_record _ _) db h = refl
apply_write-counters_of (delete_range _ _ _) db h = refl
apply_write-counters_of (set_signal _) db h = refl
apply_write-counters_of (delete_signal _) db h = refl
apply_write-counters_of (set_target _) db h = refl
apply_write-counters_of (delete_target _) db h = refl
apply_write-counters_of (set_kv _ _) db h = refl
apply_write-counters_of (delete_kv _) db h = refl
apply_write-counters_of _ db h = cc

pub apply_batch-counters_of :
    (ws : List Write) (db : Db)
    → all is_content ws ≡ true
    → counters_of (apply_batch ws db) ≡ counters_of db
unfolding apply_batch
apply_batch-counters_of [] db h = refl
apply_batch-counters_of (v ∷ ws) db h =
    let (a, b) = and-eq-true (is_content v) (all is_content ws) h in
    apply_batch-counters_of ws (apply_write v db) b ∙ apply_write-counters_of v db a

pub all-append-content :
    (ws vs : List Write)
    → all is_content ws ≡ true
    → all is_content vs ≡ true
    → all is_content (ws ++ vs) ≡ true
all-append-content [] vs h k = k
all-append-content (w ∷ ws) vs h k =
    let (a, b) = and-eq-true (is_content w) (all is_content ws) h in
    rw (a, all-append-content ws vs b k) refl

all-if_empty :
    (c : Bool) (ws : List Write)
    → all is_content ws ≡ true
    → all is_content (if c then [] else ws) ≡ true
all-if_empty true ws h = refl
all-if_empty false ws h = h

all-index_writes :
    (payloads : Payloads) (stream : Text) (off : ℕ) (r : Record)
    → all is_content (index_writes payloads stream off r) ≡ true
unfolding is_content index_writes
all-index_writes payloads stream off r =
    all-append-content
      (if is_empty (signal_id_of payloads r)
        then []
        else set_signal (stream, (signal_id_of payloads r, off)) ∷ [])
      (if is_empty (record_target r.topic)
        then []
        else set_target (stream, (record_target r.topic, off)) ∷ [])
      (all-if_empty (is_empty (signal_id_of payloads r)) (set_signal _ ∷ []) refl)
      (all-if_empty (is_empty (record_target r.topic)) (set_target _ ∷ []) refl)

all-kv_writes : (off : ℕ) (r : Record) → all is_content (kv_writes off r) ≡ true
unfolding is_content kv_writes
all-kv_writes off r = ground arith

pub all-add_record :
    (w : Setting) (stream : Text) (off : ℕ) (r : Record)
    → all is_content (add_record w stream off r) ≡ true
unfolding add_record
all-add_record w stream off r =
    let index : all is_content (index_writes w.payloads stream off r) ≡ true =
      all-index_writes w.payloads stream off r in
    unfold is_content in
    all-append-content (index_writes w.payloads stream off r) (kv_writes off r) index
      (all-kv_writes off r)

pub all-write_records :
    (w : Setting) (stream : Text) (off : ℕ) (rs : List Record)
    → all is_content (write_records w stream off rs) ≡ true
unfolding write_records
all-write_records w stream off [] = refl
all-write_records w stream off (r ∷ rs) =
    all-append-content (add_record w stream off r) _ (all-add_record w stream off r)
      (all-write_records w stream (off + 1) rs)
