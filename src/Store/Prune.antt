-- ===== src/Store/Prune.antt =====
-- internal/store/store.go: the prune of a stream, and the commit that removes its records.
pub mod Guarded
pub mod Writes
pub mod Parts
pub mod Sound
pub mod Kept
use colca.Prelude.{
  ℕ, zero, suc, ◌+◌, ◌-◌, ◌/◌, ltb, leb, ◌==◌, min, max, Text, text_eq, text_beq, is_empty, pair_eq,
  set_at, length, List, [], ◌∷◌, ◌++◌, any, Table, Bool, true, false, Option, some, none,
  if◌then◌else◌, ◌&&◌, ◌||◌, not, Result, ok, err,
}
use colca.Store.Keys.{stream_key}
use colca.Store.Data.{
  Record, Stored, PruneSpan, RefreshRange, Pair, Db, Write, delete_range, delete_signal,
  delete_target, set_lwm, set_head, set_bytes, set_pending, apply_batch, Store,
}
use colca.Store.Streams.{write_records, records_cost}
use colca.Store.Encode.{Setting, record_target}
use colca.Store.Pages.{between}
use colca.Store.Journal.{journal_writes}
use colca.Store.Policy.{PruneScan, PruneStats, scan_doomed}

pub record PruneOutcome : Type 0 where
  pub gap_records : List Record
  pub refresh : Option RefreshRange

pub data PruneError : Type 0 where
  unknown_stream concurrent_prune beyond_next disk_failed : PruneError

-- Down to the position of every cursor of the stream that is not overridden.
unfoldable pub shrink_to_cursors : Text → List Text → Table Pair ℕ → ℕ → ℕ
shrink_to_cursors stream overridden [] up_to = up_to
shrink_to_cursors stream overridden (((name, cstream), pos) ∷ cursors) up_to =
    shrink_to_cursors stream overridden cursors (
      if not (text_beq cstream stream) || any (text_beq name) overridden
      then up_to
      else if ltb pos up_to
      then pos
      else up_to)

unfoldable pub index_deletes : Text → List (Text × ℕ) → List Write
index_deletes stream [] = []
index_deletes stream ((id, off) ∷ es) = delete_signal (stream, (id, off)) ∷ index_deletes stream es

unfoldable pub target_deletes : Text → List (Text × ℕ) → List Write
target_deletes stream [] = []
target_deletes stream ((id, off) ∷ es) =
    delete_target (stream, (id, off)) ∷ target_deletes stream es

-- The refresh that is owed, with the one that is pending.
unfoldable pub refresh_writes : Text → Option RefreshRange → Option RefreshRange → List Write
refresh_writes stream none pending = []
refresh_writes stream (some r) none = set_pending stream r ∷ []
refresh_writes stream (some r) (some cur) =
    set_pending stream (record { from = min r.from cur.from; to = max r.to cur.to }) ∷ []

-- What remains of the live bytes without what was shed, at least 0, and with what was added.
unfoldable pub live_behind : ℕ → ℕ → ℕ → ℕ
live_behind live shed added = (if ltb live shed then 0 else live - shed) + added

unfoldable pub prune_writes :
    Setting → Text → ℕ → PruneStats → PruneSpan → PruneOutcome → Store → List Write
prune_writes w stream up_to stats span out s =
    let off = s.next stream in
    let head = off + length out.gap_records in
    delete_range stream (s.lwm stream) up_to ∷ index_deletes stream stats.index
    ++ target_deletes stream stats.targets
    ++ set_lwm stream up_to ∷ write_records w stream off out.gap_records
    ++ (if head == off then [] else set_head stream head ∷ [])
    ++ refresh_writes stream out.refresh (s.db.pending stream)
    ++ set_bytes stream
        (live_behind (s.bytes stream) stats.shed (records_cost w stream off out.gap_records))
      ∷ journal_writes stream (s.db.journals stream) span

-- The store behind a prune.
unfoldable pub pruned_store :
    Setting → Text → ℕ → PruneStats → PruneSpan → PruneOutcome → Store → Store
pruned_store w stream up_to stats span out s =
    let off = s.next stream in
    let live =
      live_behind (s.bytes stream) stats.shed (records_cost w stream off out.gap_records) in
    record s {
      db = apply_batch (prune_writes w stream up_to stats span out s) s.db;
      next = set_at stream (off + length out.gap_records) s.next;
      lwm = set_at stream up_to s.lwm;
      bytes = set_at stream live s.bytes;
    }

unfoldable pub commit_prune :
    Setting
    → Bool
    → Text
    → ℕ
    → PruneStats
    → (PruneSpan → PruneOutcome)
    → Store
    → Result PruneError ℕ × Store
commit_prune w disk stream up_to stats plan s =
    let span : PruneSpan = record {
      from = s.lwm stream;
      to = up_to - 1;
      first_ts = stats.first_ts;
      last_ts = stats.last_ts;
      coalesced = false;
      shed = stats.shed;
    } in
    if disk
    then (ok stats.pruned, pruned_store w stream up_to stats span (plan span) s)
    else (err disk_failed, s)

unfoldable pub prune_scanned :
    Setting
    → Bool
    → PruneScan
    → List Text
    → (PruneSpan → PruneOutcome)
    → Store
    → Result PruneError ℕ × Store
prune_scanned w disk scan overridden plan s =
    let up_to = shrink_to_cursors scan.stream overridden s.db.cursors scan.up_to in
    let stats =
      if not (up_to == scan.up_to) || not (s.holes scan.stream == scan.holes)
      then scan_doomed w scan.stream scan.from up_to s
      else scan.stats in
    if leb scan.up_to scan.from
    then (ok 0, s)
    else if not (s.lwm scan.stream == scan.from)
    then (err concurrent_prune, s)
    else if ltb (s.next scan.stream) scan.up_to
    then (err beyond_next, s)
    else if leb up_to scan.from
    then (ok 0, s)
    else commit_prune w disk scan.stream up_to stats plan s

unfoldable pub prune :
    Setting
    → Bool
    → Text
    → ℕ
    → List Text
    → (PruneSpan → PruneOutcome)
    → Store
    → Result PruneError ℕ × Store
prune w disk stream up_to overridden plan s =
    let scan : PruneScan = record {
      stream = stream;
      from = s.lwm stream;
      up_to = up_to;
      holes = s.holes stream;
      stats = scan_doomed w stream (s.lwm stream) up_to s;
    } in
    if s.next stream == 0
    then (err unknown_stream, s)
    else if leb up_to (s.lwm stream)
    then (ok 0, s)
    else if ltb (s.next stream) up_to
    then (err beyond_next, s)
    else prune_scanned w disk scan overridden plan s
