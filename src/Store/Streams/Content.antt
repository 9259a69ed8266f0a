-- ===== src/Store/Streams/Content.antt =====
-- internal/store/store.go: records, indexes and current state, which depend on no other table.
use colca.Prelude.{
  ◌+◌, Text, text_eq, nat_eq, pair_eq, set_at, List, [], ◌∷◌, ◌++◌, Bool, true, false, Option, some,
  none, ◌≡◌, refl, ap, ◌∙◌,
}
use colca.Store.Data.{
  Stored, KvEnc, KvKey, IndexKey, Db, Write, set_record, delete_record, delete_range, set_signal,
  delete_signal, set_target, delete_target, set_kv, delete_kv, set_head, set_bytes, set_lwm,
  set_cursor, set_stamp, set_acked, set_hwm, delete_cursor, delete_stamp, delete_marks,
  set_child_store, set_pending, set_span, delete_span, put_record, cut_range, apply_write,
  apply_batch,
}

pub record Content : Type 0 where
  pub records : Text → List Stored
  pub signals : IndexKey → Bool
  pub targets : IndexKey → Bool
  pub kv : KvKey → Option KvEnc

unfoldable pub content_of : Db → Content
content_of db = record {
  records = db.records;
  signals = db.signals;
  targets = db.targets;
  kv = db.kv;
}

unfoldable pub apply_content : Write → Content → Content
apply_content (set_record stream off enc) c = record c {
  records = set_at stream (put_record off enc (c.records stream)) c.records;
}
apply_content (delete_record stream off) c = record c {
  records = set_at stream (cut_range off (off + 1) (c.records stream)) c.records;
}
apply_content (delete_range stream from up_to) c = record c {
  records = set_at stream (cut_range from up_to (c.records stream)) c.records;
}
apply_content (set_signal key) c = record c { signals = set_at key true c.signals }
apply_content (delete_signal key) c = record c { signals = set_at key false c.signals }
apply_content (set_target key) c = record c { targets = set_at key true c.targets }
apply_content (delete_target key) c = record c { targets = set_at key false c.targets }
apply_content (set_kv key enc) c = record c { kv = set_at key (some enc) c.kv }
apply_content (delete_kv key) c = record c { kv = set_at key none c.kv }
apply_content _ c = c

apply_write-content_of :
    (v : Write) (db : Db) → content_of (apply_write v db) ≡ apply_content v (content_of db)
unfolding content_of apply_content apply_write
apply_write-content_of (set_record _ _ _) db = refl
apply_write-content_of (delete_record _ _) db = refl
apply_write-content_of (delete_range _ _ _) db = refl
apply_write-content_of (set_signal _) db = refl
apply_write-content_of (delete_signal _) db = refl
apply_write-content_of (set_target _) db = refl
apply_write-content_of (delete_target _) db = refl
apply_write-content_of (set_kv _ _) db = refl
apply_write-content_of (delete_kv _) db = refl
apply_write-content_of (set_head _ _) db = refl
apply_write-content_of (set_bytes _ _) db = refl
apply_write-content_of (set_lwm _ _) db = refl
apply_write-content_of (set_cursor _ _) db = refl
apply_write-content_of (set_stamp _ _) db = refl
apply_write-content_of (set_acked _ _) db = refl
apply_write-content_of (set_hwm _ _) db = refl
apply_write-content_of (delete_cursor _) db = refl
apply_write-content_of (delete_stamp _) db = refl
apply_write-content_of (delete_marks _) db = refl
apply_write-content_of (set_child_store _ _) db = refl
apply_write-content_of (set_pending _ _) db = refl
apply_write-content_of (set_span _ _) db = refl
apply_write-content_of (delete_span _ _) db = refl

unfoldable pub apply_contents : List Write → Content → Content
apply_contents [] c = c
apply_contents (v ∷ ws) c = apply_contents ws (apply_content v c)

pub apply_batch-content_of :
    (ws : List Write) (db : Db) → content_of (apply_batch ws db) ≡ apply_contents ws (content_of db)
unfolding apply_batch apply_contents
apply_batch-content_of [] db = refl
apply_batch-content_of (v ∷ ws) db =
    apply_batch-content_of ws (apply_write v db)
    ∙ ap (apply_contents ws) (apply_write-content_of v db)

pub apply_contents-append :
    (ws vs : List Write) (c : Content)
    → apply_contents (ws ++ vs) c ≡ apply_contents vs (apply_contents ws c)
unfolding apply_contents
apply_contents-append [] vs c = refl
apply_contents-append (v ∷ ws) vs c = apply_contents-append ws vs (apply_content v c)
