-- ===== src/Examples/Appends.antt =====
-- Examples of a store's streams and cursors, internal/store.
use colca.Prelude.{
  ℕ, ◌+◌, ◌≤◌, ◌==◌, Text, codes, text_eq, text_beq, pair_eq, pair_beq, set_at, lookup, insert,
  length, List, [], ◌∷◌, All, map, not, Bool, true, false, some, none, err, ◌≢◌, if◌then◌else◌, ok,
  ◌≡◌, ◌⊎◌, refl, arith,
}
use colca.Uns.Classes.{one_of}
use colca.Store.Data.{Record, Stored, Db, Store, apply_write, apply_batch}
use colca.Store.Cursors.{
  AckRequest, cursor_get, commit_acks, finish_acks, add_acks, add_ack, ack_moves, ack_writes,
  position_in, mark_in, changes_mark,
}
use colca.Store.Cursors.Serial.{answered, ack_each, commit_acks-serial}
use colca.Store.Cursors.Furthest.{moves_of, furthest, commit_acks-furthest}
use colca.Store.Streams.{
  record_too_large, CursorAdvance, check_append, first_too_large, decided, appended,
  append_advancing_locked, append_if_kv_unchanged, streams, open_store,
}
use colca.Store.Encode.{Setting}
use colca.Store.Streams.Order.{IsRun}
use colca.Store.Streams.Appended.{append_advancing_locked-IsSound}
use colca.Store.Streams.Sound.{IsSound}
use colca.Store.Streams.Advancing.{retried, first_success, retried-once}
use colca.Store.Streams.Checked.{IsFirstTooLarge, append_advancing_locked-too_large}
use colca.Store.Streams.Refreshed.{IsRefreshed, append_if_kv_unchanged-IsRefreshed}
use colca.Store.Pages.{Query, between, read_through, head_keeps, record_keeps, is_kept}
use colca.Store.Pages.Whole.{kept}
use colca.Store.Pages.Through.{read_through-kept}

abbrev pub empty_db : Db
empty_db = record {
  records = λ _. [];
  signals = λ _. false;
  targets = λ _. false;
  kv = λ _. none;
  heads = λ _. none;
  sizes = λ _. none;
  lwms = λ _. none;
  cursors = [];
  stamps = λ _. none;
  acked = λ _. none;
  hwms = λ _. none;
  child_stores = λ _. none;
  pending = λ _. none;
  journals = λ _. [];
}

abbrev pub setting : Setting
setting = record {
  payloads = record { metric_signal = λ _. none; signal_policy = λ _. ok none };
  root = codes "colca";
  json_len = λ e. 20 + length e.payload;
  max_record_bytes = 100;
}

abbrev pub audit : Text
audit = codes "audit"

abbrev pub event : Text → Record
event payload = record {
  source_local_only = false;
  topic = codes "colca/v1/_AuditEvent/n1/door";
  payload = payload;
  ts = 1000;
  written_by = [];
  origin_offset = 0;
  actor_id = [];
  actor_label = [];
  actor_kind = [];
  actor_groups = [];
  actor_client = [];
  actor_email = [];
  actor_classes = [];
  actor_credential = [];
  door = [];
  kv_path = codes "door";
  kv_node = codes "n1";
  delete = false;
}

-- A store on an empty disk.
pub new_store-IsSound : IsSound (open_store empty_db)
unfolding open_store
new_store-IsSound = record {
  runs = λ st. unfold IsRun in known st;
  next_on_disk = λ _. refl;
  bytes_on_disk = λ _. refl;
  lwm_on_disk = λ _. refl;
}
  where
    known :
        (st : Text) → (if one_of st streams then 1 else 0) ≤ (if one_of st streams then 1 else 0)
    known st = omega arith

pub audit_next : (open_store empty_db).next audit ≡ 1
unfolding open_store one_of text_beq
audit_next = refl

abbrev acks : List AckRequest
acks =
    record {
      name = codes "hmi";
      stream = audit;
      off = 5;
      marked = true;
      parent = codes "hub";
      mark = 3;
    }
    ∷ record { name = codes "hmi"; stream = audit; off = 4; marked = false; parent = []; mark = 0 }
    ∷ record { name = codes "log"; stream = audit; off = 9; marked = false; parent = []; mark = 0 }
    ∷ []

-- The second ack, behind the first, does not move the cursor.
hmi_moves :
    commit_acks true 77 acks empty_db
    ≡ (answered true ∷ answered false ∷ answered true ∷ [], (commit_acks true 77 acks empty_db).1)
unfolding commit_acks finish_acks add_acks add_ack ack_moves ack_writes position_in mark_in
    changes_mark cursor_get lookup apply_batch apply_write set_at insert pair_eq pair_beq text_beq
hmi_moves = refl

commit_acks-serial_example : commit_acks true 77 acks empty_db ≡ ack_each 77 acks empty_db
commit_acks-serial_example = commit_acks-serial 77 acks empty_db

commit_acks-furthest_example :
    ((commit_acks true 77 acks empty_db).0
      ≡ map answered (moves_of acks (λ k. cursor_get k empty_db)))
    × (cursor_get (codes "hmi", audit) (commit_acks true 77 acks empty_db).1
        ≡ furthest acks (codes "hmi", audit) (cursor_get (codes "hmi", audit) empty_db))
commit_acks-furthest_example = commit_acks-furthest 77 acks empty_db (codes "hmi", audit)

append_advancing_locked-IsSound_example :
    IsSound
      (append_advancing_locked setting true 8 audit
        (event (codes "a") ∷ event (codes "b") ∷ [])
        none
        (open_store empty_db)).1
append_advancing_locked-IsSound_example =
    append_advancing_locked-IsSound setting true 8 audit
      (event (codes "a") ∷ event (codes "b") ∷ []) none (open_store empty_db) new_store-IsSound

abbrev advance : CursorAdvance
advance = record { name = codes "drain"; stream = audit; to = 4 }

abbrev tries : List (Bool × ℕ)
tries = (false, 5) ∷ (true, 6) ∷ (true, 7) ∷ []

audit_checks :
    check_append setting (open_store empty_db).db audit (event (codes "a") ∷ []) ≡ ok none
unfolding check_append first_too_large open_store text_beq
audit_checks = refl

retried-once_example :
    retried setting tries audit (event (codes "a") ∷ []) advance (open_store empty_db)
    ≡ elim (first_success tries) as (λ _. Store) [
      | none ↦ open_store empty_db
      | some now ↦
          appended setting now audit
            (decided none (event (codes "a") ∷ []))
            (some advance)
            (open_store empty_db)
    ]
retried-once_example =
    retried-once setting tries audit (event (codes "a")) [] advance (open_store empty_db) none
      (λ z. omega (arith, z, audit_next)) audit_checks
      (unfold open_store cursor_get lookup in omega arith)

-- A record that fits, and one with 101 bytes.
abbrev one_large : List Record
one_large =
    event (codes "a")
    ∷ event (
        codes
          "0123456789012345678901234567890123456789012345678901234567890123456789012345678901234567890123456789x")
    ∷ []

append_advancing_locked-too_large_example :
    (All (λ r. length r.payload ≤ 100) one_large
      × ((i : ℕ)
          → (append_advancing_locked setting true 8 audit one_large none (open_store empty_db)).0
            ≢ err (record_too_large i)))
    ⊎ ((i : ℕ) × IsFirstTooLarge 100 i one_large
        × (append_advancing_locked setting true 8 audit one_large none (open_store empty_db)
            ≡ (err (record_too_large i), open_store empty_db)))
append_advancing_locked-too_large_example =
    append_advancing_locked-too_large setting true 8 audit one_large none (open_store empty_db)
      (λ z. omega (arith, z, audit_next)) (λ z. omega (arith, z))

-- A store with a current entry at the door, at offset 1.
abbrev with_entry : Store
with_entry =
    (append_advancing_locked setting true 8 audit (event (codes "a") ∷ []) none
      (open_store empty_db)).1

append_if_kv_unchanged-IsRefreshed_example :
    ((append_if_kv_unchanged setting true 9 audit (event (codes "b")) 1 with_entry).1 ≡ with_entry)
    ⊎ IsRefreshed audit
        (event (codes "b"))
        1
        with_entry
        (append_if_kv_unchanged setting true 9 audit (event (codes "b")) 1 with_entry).1
append_if_kv_unchanged-IsRefreshed_example =
    append_if_kv_unchanged-IsRefreshed setting true 9 audit (event (codes "b")) 1 with_entry

abbrev pub stored : ℕ → Stored
stored off = record {
  offset = off;
  enc = record {
    source_local_only = false;
    topic = codes "colca/v1/_AuditEvent/n1/door";
    payload = codes "a";
    ts = 1000;
    written_by = [];
    origin_offset = off;
    actor_id = [];
    actor_label = [];
    actor_kind = [];
    actor_groups = [];
    actor_client = [];
    actor_email = [];
    actor_classes = [];
    actor_credential = [];
    door = [];
    signal_id = [];
  };
}

-- A stream from which the record at offset 3 was evicted.
abbrev pub holed : Store
holed = record {
  db = record empty_db { records = λ _. stored 2 ∷ stored 4 ∷ stored 5 ∷ [] };
  next = λ _. 6;
  bytes = λ _. 90;
  lwm = λ _. 2;
  holes = λ _. 1;
  hwms = λ _. none;
  adopted = λ _. none;
}

abbrev odd_records : Query
odd_records = record {
  limit = 1;
  max_scan = 2;
  head = none;
  peeks = λ _. true;
  filter_record = some (λ r. not (r.offset == 4));
  size = λ _. 30;
  cancelled = λ _. false;
}

pub holed-IsRun : IsRun (holed.lwm audit) (holed.next audit) (holed.db.records audit)
unfolding IsRun
holed-IsRun = omega arith

read_through-kept_example :
    read_through odd_records 25 4 audit 2 holed
    ≡ kept odd_records (between 2 (holed.next audit) (holed.db.records audit))
read_through-kept_example =
    read_through-kept odd_records (λ _. refl) (omega arith) 25 4 audit 2 2 holed holed-IsRun
      (unfold between in omega arith)

kept_are_odd :
    kept odd_records (between 2 (holed.next audit) (holed.db.records audit))
    ≡ stored 2 ∷ stored 5 ∷ []
unfolding kept between is_kept head_keeps record_keeps
kept_are_odd = refl
