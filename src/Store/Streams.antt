-- ===== src/Store/Streams.antt =====
-- internal/store/store.go, replication_policy.go: the append of records to a stream, alone, together with the
-- move of a cursor, and behind a check of the current state. `disk` says whether the synced commit of the batch
-- succeeds.
pub mod Order
pub mod Counters
pub mod Content
pub mod Sound
pub mod Appended
pub mod Advancing
pub mod Refreshed
pub mod Checked
use colca.Prelude.{
  ℕ, ◌+◌, ◌-◌, ltb, leb, ◌==◌, Text, codes, text_eq, text_beq, is_empty, pair_eq, set_at, length,
  List, [], ◌∷◌, ◌++◌, Bool, true, false, Option, some, none, is_some, if◌then◌else◌, ◌&&◌, not,
  ◌||◌, Result, ok, err,
}
use colca.Uns.Records.{
  Payloads, PolicyError, keeps_actor_witness, metric_signal_id, fetch_logs_ack, command_target,
  metric_signal_key, signal_source_local_only,
}
use colca.Uns.Classes.{one_of}
use colca.Store.Keys.{stream_key}
use colca.Store.Data.{
  Record, RecEnc, KvEnc, KvKey, Pair, Db, Write, set_record, set_signal, set_target, set_kv,
  delete_kv, set_head, set_bytes, set_cursor, set_stamp, apply_batch, Store, read_or,
}
use colca.Store.Cursors.{cursor_get}
use colca.Store.Encode.{Setting, add_record, kv_key_of, origin_or, record_cost}

pub data AppendError : Type 0 where
  unknown_stream no_projection disk_failed : AppendError
  record_too_large : ℕ → AppendError
  bad_policy : PolicyError → AppendError

-- The stored policy of the signal decides. The cache of decisions, which holds what would be read again, is left out.
unfoldable pub metric_source_local_only : Setting → Db → Record → Result PolicyError Bool
metric_source_local_only w db r = elim (metric_signal_key w.root r.topic) [
  | none ↦ ok false
  | some key ↦ elim (db.kv key) [
    | none ↦ ok false
    | some entry ↦ signal_source_local_only w.payloads entry.payload
  ]
]

-- The first record with a payload above the cap, by its number.
unfoldable pub first_too_large : ℕ → ℕ → List Record → Option ℕ
first_too_large cap i [] = none
first_too_large cap i (r ∷ rs) =
    let rest = first_too_large cap (i + 1) rs in if ltb cap (length r.payload) then some i else rest

unfoldable pub local_only_of : Setting → Db → List Record → Result PolicyError (List Bool)
local_only_of w db [] = ok []
local_only_of w db (r ∷ rs) = elim (metric_source_local_only w db r) [
  | err e ↦ err e
  | ok here ↦ elim (local_only_of w db rs) [ err e ↦ err e | ok rest ↦ ok (here ∷ rest) ]
]

unfoldable pub check_append :
    Setting → Db → Text → List Record → Result AppendError (Option (List Bool))
check_append w db stream recs =
    elim (if w.max_record_bytes == 0 then none else first_too_large w.max_record_bytes 0 recs) [
      | some i ↦ err (record_too_large i)
      | none ↦
          if not (text_beq stream (codes "metrics"))
          then ok none
          else elim (local_only_of w db recs) [ err e ↦ err (bad_policy e) | ok l ↦ ok (some l) ]
    ]

-- `r.SourceLocalOnly = localOnly[i]`
unfoldable pub decided : Option (List Bool) → List Record → List Record
decided none recs = recs
decided (some []) recs = recs
decided (some (l ∷ ls)) [] = []
decided (some (l ∷ ls)) (r ∷ rs) = record r { source_local_only = l } ∷ decided (some ls) rs

unfoldable pub write_records : Setting → Text → ℕ → List Record → List Write
write_records w stream off [] = []
write_records w stream off (r ∷ rs) =
    add_record w stream off r ++ write_records w stream (off + 1) rs

unfoldable pub records_cost : Setting → Text → ℕ → List Record → ℕ
records_cost w stream off [] = 0
records_cost w stream off (r ∷ rs) = record_cost w stream off r + records_cost w stream (off + 1) rs

-- The move of a cursor that goes with an append.
pub record CursorAdvance : Type 0 where
  pub name : Text
  pub stream : Text
  pub to : ℕ

unfoldable pub advance_writes : ℕ → Option CursorAdvance → List Write
advance_writes now none = []
advance_writes now (some adv) =
    set_cursor (adv.name, adv.stream) adv.to ∷ set_stamp (adv.name, adv.stream) now ∷ []

-- The store behind a committed append of what was checked.
unfoldable pub appended : Setting → ℕ → Text → List Record → Option CursorAdvance → Store → Store
appended w now stream recs adv s =
    let first = s.next stream in
    let live = s.bytes stream + records_cost w stream first recs in
    record s {
      db =
          apply_batch
            (write_records w stream first recs
              ++ (set_head stream (first + length recs)
                  ∷ set_bytes stream live
                  ∷ advance_writes now adv))
            s.db;
      next = set_at stream (first + length recs) s.next;
      bytes = set_at stream live s.bytes;
    }

unfoldable pub append_advancing_locked :
    Setting
    → Bool
    → ℕ
    → Text
    → List Record
    → Option CursorAdvance
    → Store
    → Result AppendError (ℕ × ℕ) × Store
append_advancing_locked w disk now stream recs adv s =
    if s.next stream == 0 then (err unknown_stream, s) else elim (check_append w s.db stream recs) [
      | err e ↦ (err e, s)
      | ok local ↦
          if disk
          then (
            ok (s.next stream, s.next stream + length recs - 1),
            appended w now stream (decided local recs) adv s,
          )
          else (err disk_failed, s)
    ]

-- The offsets of the records, or none when nothing was applied.
unfoldable pub append_advancing :
    Setting
    → Bool
    → ℕ
    → Text
    → List Record
    → CursorAdvance
    → Store
    → Result AppendError (Option (ℕ × ℕ)) × Store
append_advancing w disk now stream [] adv s = (ok none, s)
append_advancing w disk now stream (r ∷ rs) adv s =
    let (answer, s') = append_advancing_locked w disk now stream (r ∷ rs) (some adv) s in
    if leb adv.to (cursor_get (adv.name, adv.stream) s.db)
    then (ok none, s)
    else (elim answer [ err e ↦ err e | ok offs ↦ ok (some offs) ], s')

-- The offsets of an entry of current state: the local one and that of its origin.
unfoldable pub kv_offsets : KvKey → Db → Option (ℕ × ℕ)
kv_offsets key db = elim (db.kv key) [
  | none ↦ none
  | some e ↦ some (e.offset, origin_or e.origin_offset e.offset)
]

unfoldable pub append_if_kv_unchanged :
    Setting → Bool → ℕ → Text → Record → ℕ → Store → Result AppendError (Option ℕ) × Store
append_if_kv_unchanged w disk now stream r if_offset s =
    if is_empty r.kv_path then (err no_projection, s) else elim (kv_offsets (kv_key_of r) s.db) [
      | none ↦ (ok none, s)
      | some (cur, origin) ↦
          let (answer, s') =
            append_advancing_locked w disk now stream (record r { origin_offset = origin } ∷ [])
              none s in
          if not (cur == if_offset)
          then (ok none, s)
          else (elim answer [ err e ↦ err e | ok (first, last) ↦ ok (some first) ], s')
    ]

abbrev pub streams : List Text
streams =
    codes "metrics"
    ∷ codes "entities"
    ∷ codes "commands"
    ∷ codes "definitions"
    ∷ codes "audit"
    ∷ codes "alarms"
    ∷ codes "annotations"
    ∷ codes "logs"
    ∷ []

-- The counters as they are read when the store is opened. The entries of the journals and of owed refreshes, which Open
-- validates, are well formed here.
unfoldable pub open_store : Db → Store
open_store db = record {
  db = db;
  next = λ st. if one_of st streams then read_or 1 (db.heads st) else 0;
  bytes = λ st. if one_of st streams then read_or 0 (db.sizes st) else 0;
  lwm = λ st. if one_of st streams then read_or 1 (db.lwms st) else 0;
  holes = λ _. 0;
  hwms = λ _. none;
  adopted = λ _. none;
}
