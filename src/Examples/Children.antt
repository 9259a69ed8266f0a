-- ===== src/Examples/Children.antt =====
-- Examples of a parent's store of its children's records, and of pruning, internal/store.
use colca.Prelude.{
  ℕ, ◌≤◌, max, codes, text_eq, pair_eq, List, [], ◌∷◌, true, false, some, none, ok, ◌≡◌, ◌⊎◌, refl,
  arith,
}
use colca.Store.Data.{PruneSpan, Store}
use colca.Store.Streams.{open_store, append_advancing_locked}
use colca.Store.Streams.Appended.{append_advancing_locked-IsSound}
use colca.Store.Streams.Sound.{IsSound}
use colca.Store.Replicated.{
  ReplRecord, ReplRequest, Built, with_origin, key_of, hwm_get, is_bad_skip, build_one, build_all,
  build_replicated, commit_replicated, apply_replicated,
}
use colca.Store.Replicated.Serial.{IsSame, commit_replicated-serial}
use colca.Store.Replicated.Steps.{apply_each}
use colca.Store.Replicated.Replays.{apply_replicated-again, apply_replicated-Holds, Holds}
use colca.Store.Journal.{GapSpan, gap}
use colca.Store.Journal.Partition.{IsPartition}
use colca.Store.Journal.Gaps.{Explained, gap-Explained}
use colca.Store.Prune.{PruneOutcome, prune_scanned}
use colca.Store.Policy.{Policy, PruneScan, policy_scan, no_stats}
use colca.Store.Policy.Targets.{IsWanted, policy_scan-IsWanted}
use colca.Store.Prune.Kept.{
  Pruned, IsJournaled, prune_scanned-Pruned, prune_scanned-IsSound, prune_scanned-IsJournaled,
}
use colca.Examples.Appends.{
  empty_db, setting, audit, event, new_store-IsSound, audit_next, holed, holed-IsRun,
}

abbrev sample : ℕ → ReplRecord
sample off = record {
  skip_from = 0;
  child_offset = off;
  origin_offset = 0;
  topic = codes "colca/v1/_AuditEvent/n2/door";
  payload = codes "s";
  ts = 1000;
  written_by = [];
  actor_id = [];
  actor_label = [];
  actor_kind = [];
  actor_groups = [];
  actor_client = [];
  actor_email = [];
  actor_classes = [];
  actor_credential = [];
  kv_path = [];
  kv_node = [];
  delete = false;
}

abbrev push : List ReplRecord → ReplRequest
push recs = record { child = codes "n2"; stream = audit; recs = recs }

-- A push that is sent again with one record more.
abbrev pushes : List ReplRequest
pushes = push (sample 1 ∷ sample 2 ∷ []) ∷ push (sample 1 ∷ sample 2 ∷ sample 3 ∷ []) ∷ []

abbrev parent : Store
parent = open_store empty_db

commit_replicated-serial_example :
    ((commit_replicated setting true pushes parent).0 ≡ (apply_each setting pushes parent).0)
    × IsSame (commit_replicated setting true pushes parent).1 (apply_each setting pushes parent).1
commit_replicated-serial_example = commit_replicated-serial setting pushes parent

abbrev first_push : ReplRequest
first_push = push (sample 1 ∷ sample 2 ∷ [])

apply_replicated-again_example :
    (apply_replicated setting true first_push (apply_replicated setting true first_push parent).1).1
    ≡ (apply_replicated setting true first_push parent).1
apply_replicated-again_example =
    apply_replicated-again setting true first_push parent
      (apply_replicated setting true first_push parent).1
      (apply_replicated setting true first_push parent).0 refl

-- Of a push that a child sends again, above the mark 1, one record is built.
resent :
    (b : Built) × (build_replicated setting audit (sample 1 ∷ sample 2 ∷ []) 1 1 ≡ ok b)
    × (b.applied ≡ record (sample 2) { origin_offset = 2 } ∷ [])
unfolding build_replicated build_all build_one is_bad_skip with_origin
resent = (_, refl, refl)

first_push_builds :
    (b : Built) × (build_replicated setting audit first_push.recs
        (hwm_get (key_of first_push) parent)
        (parent.next audit)
      ≡ ok b)
unfolding build_replicated build_all build_one is_bad_skip
first_push_builds = (_, refl)

apply_replicated-Holds_example :
    Holds setting first_push parent (apply_replicated setting true first_push parent).1
apply_replicated-Holds_example =
    apply_replicated-Holds setting first_push parent first_push_builds.0 (parent.lwm audit)
      (λ z. omega (arith, z, audit_next)) (new_store-IsSound.runs audit) first_push_builds.1

abbrev a_day : Policy
a_day = record {
  now = 90_000_000;
  max_age = 86_400_000_000_000;
  max_bytes = 0;
  live_bytes = 90;
  clamp = 5;
  max_scan = 0;
}

policy_scan-IsWanted_example :
    let target =
      (policy_scan setting a_day audit (holed.lwm audit) (holed.next audit) holed).target in
    (holed.lwm audit ≤ target)
    × (target ≤ holed.next audit)
    × ((target ≡ holed.lwm audit) ⊎ (target ≤ a_day.clamp))
    × IsWanted a_day setting audit target 0 (holed.db.records audit)
policy_scan-IsWanted_example = policy_scan-IsWanted setting a_day audit holed holed-IsRun

abbrev two_events : Store
two_events =
    (append_advancing_locked setting true 8 audit (event (codes "a") ∷ event (codes "b") ∷ []) none
      parent).1

two_events-IsSound : IsSound two_events
two_events-IsSound =
    append_advancing_locked-IsSound setting true 8 audit
      (event (codes "a") ∷ event (codes "b") ∷ []) none parent new_store-IsSound

abbrev first_event : PruneScan
first_event = record { stream = audit; from = 1; up_to = 2; holes = 0; stats = no_stats }

abbrev no_markers : PruneSpan → PruneOutcome
no_markers span = record { gap_records = []; refresh = none }

-- A marker in place of what went.
abbrev one_marker : PruneSpan → PruneOutcome
one_marker span = record { gap_records = event (codes "gap") ∷ []; refresh = none }

prune_scanned-Pruned_example :
    ((prune_scanned setting true first_event [] one_marker two_events).1 ≡ two_events)
    ⊎ Pruned setting audit [] one_marker two_events
        (prune_scanned setting true first_event [] one_marker two_events).1
prune_scanned-Pruned_example =
    prune_scanned-Pruned setting true first_event [] one_marker two_events two_events-IsSound

prune_scanned-IsSound_example :
    IsSound (prune_scanned setting true first_event [] no_markers two_events).1
prune_scanned-IsSound_example =
    prune_scanned-IsSound setting true first_event [] no_markers two_events two_events-IsSound

abbrev pruned_once : Store
pruned_once = record holed {
  db = record (holed.db) {
    journals = λ _.
        record { from = 1; to = 1; first_ts = 700; last_ts = 700; coalesced = false; shed = 0 }
        ∷ [];
  };
}

pruned_once-IsPartition : IsPartition 1 (pruned_once.lwm audit) (pruned_once.db.journals audit)
unfolding IsPartition
pruned_once-IsPartition = omega arith

abbrev up_to_five : PruneScan
up_to_five = record { stream = audit; from = 2; up_to = 5; holes = 1; stats = no_stats }

prune_scanned-IsJournaled_example :
    IsJournaled audit (prune_scanned setting true up_to_five [] no_markers pruned_once).1
prune_scanned-IsJournaled_example =
    prune_scanned-IsJournaled setting true up_to_five [] no_markers pruned_once
      (record { partition = pruned_once-IsPartition; short = omega arith })

gap-Explained_example :
    ((pruned_once.lwm audit ≤ max 0 1) × (gap audit 0 pruned_once ≡ none))
    ⊎ ((g : GapSpan) × (gap audit 0 pruned_once ≡ some g) × Explained audit 0 pruned_once g)
gap-Explained_example = gap-Explained audit 0 pruned_once pruned_once-IsPartition
