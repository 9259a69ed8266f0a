-- ===== src/Store/Data.antt =====
-- internal/store/store.go: the records, the entries of current state and the store's keys as tables of values, with
-- the writes of a Pebble batch. A batch is applied as a whole, in order, or not at all.
use colca.Prelude.{
  ℕ, ◌+◌, ltb, leb, ◌==◌, Text, text_eq, text_beq, nat_eq, pair_eq, set_at, Table, insert, erase,
  List, [], ◌∷◌, Bool, true, false, Option, some, none, if◌then◌else◌, ◌&&◌,
}

pub record Record : Type 0 where
  pub source_local_only : Bool
  pub topic : Text
  pub payload : Text
  pub ts : ℕ
  pub written_by : Text
  pub origin_offset : ℕ
  pub actor_id : Text
  pub actor_label : Text
  pub actor_kind : Text
  pub actor_groups : List Text
  pub actor_client : Text
  pub actor_email : Text
  pub actor_classes : List Text
  pub actor_credential : Text
  pub door : Text
  pub kv_path : Text
  pub kv_node : Text
  pub delete : Bool

-- A record as it is stored.
pub record RecEnc : Type 0 where
  pub source_local_only : Bool
  pub topic : Text
  pub payload : Text
  pub ts : ℕ
  pub written_by : Text
  pub origin_offset : ℕ
  pub actor_id : Text
  pub actor_label : Text
  pub actor_kind : Text
  pub actor_groups : List Text
  pub actor_client : Text
  pub actor_email : Text
  pub actor_classes : List Text
  pub actor_credential : Text
  pub door : Text
  pub signal_id : Text

-- A record with the offset in its key.
pub record Stored : Type 0 where
  pub offset : ℕ
  pub enc : RecEnc

pub record KvEnc : Type 0 where
  pub topic : Text
  pub payload : Text
  pub ts : ℕ
  pub offset : ℕ
  pub origin_offset : ℕ
  pub written_by : Text
  pub actor_id : Text
  pub actor_label : Text
  pub actor_kind : Text

pub record PruneSpan : Type 0 where
  pub from : ℕ
  pub to : ℕ
  pub first_ts : ℕ
  pub last_ts : ℕ
  pub coalesced : Bool
  pub shed : ℕ

pub record RefreshRange : Type 0 where
  pub from : ℕ
  pub to : ℕ

-- path, node and topic
abbrev pub KvKey : Type 0
KvKey = Text × (Text × Text)

-- a consumer, a child or a parent, and a stream
abbrev pub Pair : Type 0
Pair = Text × Text

-- a stream, an indexed id and an offset
abbrev pub IndexKey : Type 0
IndexKey = Text × (Text × ℕ)

-- What is on disk, one table per family of keys.
pub record Db : Type 0 where
  pub records : Text → List Stored
  pub signals : IndexKey → Bool
  pub targets : IndexKey → Bool
  pub kv : KvKey → Option KvEnc
  pub heads : Text → Option ℕ
  pub sizes : Text → Option ℕ
  pub lwms : Text → Option ℕ
  pub cursors : Table Pair ℕ
  pub stamps : Pair → Option ℕ
  pub acked : Pair → Option ℕ
  pub hwms : Pair → Option ℕ
  pub child_stores : Text → Option Text
  pub pending : Text → Option RefreshRange
  pub journals : Text → List PruneSpan

pub data Write : Type 0 where
  set_record : Text → ℕ → RecEnc → Write
  delete_record : Text → ℕ → Write
  delete_range : Text → ℕ → ℕ → Write
  set_signal delete_signal set_target delete_target : IndexKey → Write
  set_kv : KvKey → KvEnc → Write
  delete_kv : KvKey → Write
  set_head set_bytes set_lwm : Text → ℕ → Write
  set_cursor set_stamp set_acked set_hwm : Pair → ℕ → Write
  delete_cursor delete_stamp : Pair → Write
  delete_marks : Text → Write
  set_child_store : Text → Text → Write
  set_pending : Text → RefreshRange → Write
  set_span : Text → PruneSpan → Write
  delete_span : Text → ℕ → Write

-- The records of a stream lie in the order of their keys.
unfoldable pub put_record : ℕ → RecEnc → List Stored → List Stored
put_record off enc [] = record { offset = off; enc = enc } ∷ []
put_record off enc (r ∷ rs) =
    let rest = put_record off enc rs in
    if ltb off r.offset
    then record { offset = off; enc = enc } ∷ r ∷ rs
    else if off == r.offset
    then record { offset = off; enc = enc } ∷ rs
    else r ∷ rest

-- Without the records at the offsets in [from, upTo).
unfoldable pub cut_range : ℕ → ℕ → List Stored → List Stored
cut_range from up_to [] = []
cut_range from up_to (r ∷ rs) =
    let rest = cut_range from up_to rs in
    if leb from r.offset && ltb r.offset up_to then rest else r ∷ rest

-- The spans of a journal lie in the order of their keys.
unfoldable pub put_span : PruneSpan → List PruneSpan → List PruneSpan
put_span span [] = span ∷ []
put_span span (held ∷ spans) =
    let rest = put_span span spans in
    if ltb span.from held.from
    then span ∷ held ∷ spans
    else if span.from == held.from
    then span ∷ spans
    else held ∷ rest

unfoldable pub drop_span : ℕ → List PruneSpan → List PruneSpan
drop_span from [] = []
drop_span from (held ∷ spans) =
    let rest = drop_span from spans in if from == held.from then rest else held ∷ rest

unfoldable pub apply_write : Write → Db → Db
apply_write (set_record stream off enc) db = record db {
  records = set_at stream (put_record off enc (db.records stream)) db.records;
}
apply_write (delete_record stream off) db = record db {
  records = set_at stream (cut_range off (off + 1) (db.records stream)) db.records;
}
apply_write (delete_range stream from up_to) db = record db {
  records = set_at stream (cut_range from up_to (db.records stream)) db.records;
}
apply_write (set_signal key) db = record db { signals = set_at key true db.signals }
apply_write (delete_signal key) db = record db { signals = set_at key false db.signals }
apply_write (set_target key) db = record db { targets = set_at key true db.targets }
apply_write (delete_target key) db = record db { targets = set_at key false db.targets }
apply_write (set_kv key enc) db = record db { kv = set_at key (some enc) db.kv }
apply_write (delete_kv key) db = record db { kv = set_at key none db.kv }
apply_write (set_head stream n) db = record db { heads = set_at stream (some n) db.heads }
apply_write (set_bytes stream n) db = record db { sizes = set_at stream (some n) db.sizes }
apply_write (set_lwm stream n) db = record db { lwms = set_at stream (some n) db.lwms }
apply_write (set_cursor key n) db = record db { cursors = insert key n db.cursors }
apply_write (set_stamp key n) db = record db { stamps = set_at key (some n) db.stamps }
apply_write (set_acked key n) db = record db { acked = set_at key (some n) db.acked }
apply_write (set_hwm key n) db = record db { hwms = set_at key (some n) db.hwms }
apply_write (delete_cursor key) db = record db { cursors = erase key db.cursors }
apply_write (delete_stamp key) db = record db { stamps = set_at key none db.stamps }
apply_write (delete_marks child) db = record db {
  hwms = λ key. if text_beq child key.0 then none else db.hwms key;
}
apply_write (set_child_store child id) db = record db {
  child_stores = set_at child (some id) db.child_stores;
}
apply_write (set_pending stream range) db = record db {
  pending = set_at stream (some range) db.pending;
}
apply_write (set_span stream span) db = record db {
  journals = set_at stream (put_span span (db.journals stream)) db.journals;
}
apply_write (delete_span stream from) db = record db {
  journals = set_at stream (drop_span from (db.journals stream)) db.journals;
}

-- db.Apply(b, pebble.Sync), when it succeeds
unfoldable pub apply_batch : List Write → Db → Db
apply_batch [] db = db
apply_batch (w ∷ ws) db = apply_batch ws (apply_write w db)

-- The store: what is on disk, and the counters, marks and incarnations of children that are held in memory.
pub record Store : Type 0 where
  pub db : Db
  pub next : Text → ℕ
  pub bytes : Text → ℕ
  pub lwm : Text → ℕ
  pub holes : Text → ℕ
  pub hwms : Pair → Option ℕ
  pub adopted : Text → Option Text

-- readU64: the counter at a key, or the default
abbrev pub read_or : ℕ → Option ℕ → ℕ
read_or dflt none = dflt
read_or dflt (some n) = n
