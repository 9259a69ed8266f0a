-- ===== src/Store/Policy.antt =====
-- internal/store/store.go: what the retention policy lets go of a stream, policyScan.
pub mod Targets
use colca.Prelude.{
  ℕ, zero, suc, ◌+◌, ◌-◌, ◌/◌, ltb, leb, ◌==◌, min, max, Text, text_eq, text_beq, is_empty, pair_eq,
  set_at, length, List, [], ◌∷◌, ◌++◌, any, Table, Bool, true, false, Option, some, none,
  if◌then◌else◌, ◌&&◌, ◌||◌, not, Result, ok, err,
}
use colca.Store.Keys.{stream_key}
use colca.Store.Data.{
  Record, Stored, PruneSpan, RefreshRange, Pair, Db, Write, delete_range, delete_signal,
  delete_target, set_lwm, set_head, set_bytes, set_pending, apply_batch, Store,
}
use colca.Store.Streams.{write_records, records_cost}
use colca.Store.Encode.{Setting, record_target}
use colca.Store.Pages.{between}
use colca.Store.Journal.{journal_writes}

-- Number, bytes and times of a prefix, and the index entries that go with it.
pub record PruneStats : Type 0 where
  pub pruned : ℕ
  pub shed : ℕ
  pub first_ts : ℕ
  pub last_ts : ℕ
  pub index : List (Text × ℕ)
  pub targets : List (Text × ℕ)

abbrev pub no_stats : PruneStats
no_stats = record { pruned = 0; shed = 0; first_ts = 0; last_ts = 0; index = []; targets = [] }

unfoldable pub stored_size : Setting → Text → Stored → ℕ
stored_size w stream r = length (stream_key stream r.offset) + w.json_len r.enc

unfoldable pub add_stats : ℕ → Stored → PruneStats → PruneStats
add_stats size r st =
    let target = record_target r.enc.topic in
    record {
      first_ts = if st.pruned == 0 || ltb r.enc.ts st.first_ts then r.enc.ts else st.first_ts;
      last_ts = if st.pruned == 0 || ltb st.last_ts r.enc.ts then r.enc.ts else st.last_ts;
      shed = st.shed + size;
      pruned = st.pruned + 1;
      targets = if is_empty target then st.targets else st.targets ++ (target, r.offset) ∷ [];
      index =
          if is_empty r.enc.signal_id
          then st.index
          else st.index ++ (r.enc.signal_id, r.offset) ∷ [];
    }

unfoldable pub stats_of : Setting → Text → List Stored → PruneStats → PruneStats
stats_of w stream [] st = st
stats_of w stream (r ∷ rs) st = stats_of w stream rs (add_stats (stored_size w stream r) r st)

unfoldable pub scan_doomed : Setting → Text → ℕ → ℕ → Store → PruneStats
scan_doomed w stream from up_to s =
    stats_of w stream (between from up_to (s.db.records stream)) no_stats

-- The policy: `now` in milliseconds, the age in nanoseconds, 0 for no bound on age, bytes or scan.
pub record Policy : Type 0 where
  pub now : ℕ
  pub max_age : ℕ
  pub max_bytes : ℕ
  pub live_bytes : ℕ
  pub clamp : ℕ
  pub max_scan : ℕ

pub record PolicyScan : Type 0 where
  pub target : ℕ
  pub clamped : Bool
  pub capped : Bool
  pub scanned : ℕ
  pub stats : PruneStats

unfoldable pub age_wants : Policy → Stored → Bool
age_wants p r = ltb 0 p.max_age && ltb 0 r.enc.ts && ltb (r.enc.ts + p.max_age / 1_000_000) p.now

unfoldable pub size_wants : Policy → ℕ → Bool
size_wants p shed = ltb 0 p.max_bytes && ltb (shed + p.max_bytes) p.live_bytes

pub data PolicyStep : Type 0 where
  stop go_on : PolicyScan → PolicyStep

unfoldable pub policy_wanted : Policy → ℕ → Stored → PolicyScan → PolicyStep
policy_wanted p size r a =
    if leb p.clamp r.offset
    then stop (record a { clamped = true })
    else go_on (record a { target = r.offset + 1; stats = add_stats size r a.stats })

unfoldable pub policy_step : Policy → ℕ → Stored → PolicyScan → PolicyStep
policy_step p size r a =
    if ltb 0 p.max_scan && leb p.max_scan a.scanned
    then stop (record a { capped = true })
    else if not (age_wants p r) && not (size_wants p a.stats.shed)
    then stop (record a { scanned = a.scanned + 1 })
    else policy_wanted p size r (record a { scanned = a.scanned + 1 })

unfoldable pub policy_over : Setting → Policy → Text → List Stored → PolicyScan → PolicyScan
policy_over w p stream [] a = a
policy_over w p stream (r ∷ rs) a = elim (policy_step p (stored_size w stream r) r a) [
  | stop b ↦ b
  | go_on b ↦ policy_over w p stream rs b
]

unfoldable pub policy_scan : Setting → Policy → Text → ℕ → ℕ → Store → PolicyScan
policy_scan w p stream lwm next s =
    policy_over w p stream (between lwm next (s.db.records stream))
      (record { target = lwm; clamped = false; capped = false; scanned = 0; stats = no_stats })

-- A prefix as a policy scan read it.
pub record PruneScan : Type 0 where
  pub stream : Text
  pub from : ℕ
  pub up_to : ℕ
  pub holes : ℕ
  pub stats : PruneStats

unfoldable pub policy_prune_scan : Setting → Policy → Text → ℕ → ℕ → Store → PruneScan × PolicyScan
policy_prune_scan w p stream lwm next s =
    let a = policy_scan w p stream lwm next s in
    (
      record {
        stream = stream;
        from = lwm;
        up_to = a.target;
        holes = s.holes stream;
        stats = a.stats;
      },
      a,
    )
