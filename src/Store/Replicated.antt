-- ===== src/Store/Replicated.antt =====
-- internal/store/replgroup.go, store.go: what a parent stores of its children's records, in commits of groups
-- of requests, and the adoption of a child whose store was rebuilt. The memo of marks that were read, which
-- holds what would be read again, is left out; the marks that a commit made durable are kept in memory.
pub mod Build
pub mod Stands
pub mod Joined
pub mod Steps
pub mod Serial
pub mod Replays
use colca.Prelude.{
  ℕ, ◌+◌, ltb, leb, ◌==◌, Text, codes, text_eq, text_beq, is_empty, pair_eq, set_at, length, List,
  [], ◌∷◌, ◌++◌, map, Bool, true, false, Option, some, none, if◌then◌else◌, ◌&&◌, not, ◌||◌, Result,
  ok, err, any,
}
use colca.Store.Data.{
  Record, Pair, Db, Write, set_head, set_bytes, set_hwm, delete_marks, set_child_store, apply_batch,
  Store, read_or,
}
use colca.Store.Encode.{Setting, add_record, record_cost}

pub record ReplRecord : Type 0 where
  pub skip_from : ℕ
  pub child_offset : ℕ
  pub origin_offset : ℕ
  pub topic : Text
  pub payload : Text
  pub ts : ℕ
  pub written_by : Text
  pub actor_id : Text
  pub actor_label : Text
  pub actor_kind : Text
  pub actor_groups : List Text
  pub actor_client : Text
  pub actor_email : Text
  pub actor_classes : List Text
  pub actor_credential : Text
  pub kv_path : Text
  pub kv_node : Text
  pub delete : Bool

pub data ReplError : Type 0 where
  invalid_skip_range unknown_stream disk_failed : ReplError

unfoldable pub hwm_get : Pair → Store → ℕ
hwm_get key s = read_or (read_or 0 (s.db.hwms key)) (s.hwms key)

unfoldable pub is_bad_skip : Text → ReplRecord → Bool
is_bad_skip stream r =
    not (r.skip_from == 0)
    && (not (text_beq stream (codes "metrics"))
        || ltb r.child_offset r.skip_from
        || not (is_empty r.topic)
        || not (is_empty r.payload))

-- At the first hop a child's offset is that of the owner.
unfoldable pub with_origin : ReplRecord → ReplRecord
with_origin r = record r {
  origin_offset = if r.origin_offset == 0 then r.child_offset else r.origin_offset;
}

unfoldable pub record_of : ReplRecord → Record
record_of r = record {
  source_local_only = false;
  topic = r.topic;
  payload = r.payload;
  ts = r.ts;
  written_by = r.written_by;
  origin_offset = r.origin_offset;
  actor_id = r.actor_id;
  actor_label = r.actor_label;
  actor_kind = r.actor_kind;
  actor_groups = r.actor_groups;
  actor_client = r.actor_client;
  actor_email = r.actor_email;
  actor_classes = r.actor_classes;
  actor_credential = r.actor_credential;
  door = [];
  kv_path = r.kv_path;
  kv_node = r.kv_node;
  delete = r.delete;
}

-- What a request adds: its writes, what of it was applied, the mark, the next offset and the bytes.
pub record Built : Type 0 where
  pub writes : List Write
  pub applied : List ReplRecord
  pub hwm : ℕ
  pub off : ℕ
  pub added : ℕ

unfoldable pub build_one : Setting → Text → ReplRecord → Built → Built
build_one w stream r b =
    if leb r.child_offset b.hwm
    then b
    else if not (r.skip_from == 0)
    then record b { applied = b.applied ++ r ∷ []; hwm = r.child_offset }
    else record {
      writes = b.writes ++ add_record w stream b.off (record_of (with_origin r));
      applied = b.applied ++ with_origin r ∷ [];
      hwm = r.child_offset;
      off = b.off + 1;
      added = b.added + record_cost w stream b.off (record_of (with_origin r));
    }

unfoldable pub build_all : Setting → Text → List ReplRecord → Built → Result ReplError Built
build_all w stream [] b = ok b
build_all w stream (r ∷ rs) b =
    let rest = build_all w stream rs (build_one w stream r b) in
    if is_bad_skip stream r then err invalid_skip_range else rest

abbrev pub unbuilt : ℕ → ℕ → Built
unbuilt prev off = record { writes = []; applied = []; hwm = prev; off = off; added = 0 }

unfoldable pub build_replicated : Setting → Text → List ReplRecord → ℕ → ℕ → Result ReplError Built
build_replicated w stream recs prev off = build_all w stream recs (unbuilt prev off)

pub record ReplRequest : Type 0 where
  pub child : Text
  pub stream : Text
  pub recs : List ReplRecord

pub record ReplResult : Type 0 where
  pub applied : List ReplRecord
  pub hwm : ℕ
  pub failure : Option ReplError

-- The batch of a group, with the heads, byte counts and marks that it writes, and whose they are.
pub record ReplBatch : Type 0 where
  pub writes : List Write
  pub next : Text → Option ℕ
  pub live : Text → Option ℕ
  pub marks : Pair → Option ℕ
  pub streams : List Text
  pub keys : List Pair

abbrev pub no_requests : ReplBatch
no_requests = record {
  writes = [];
  next = λ _. none;
  live = λ _. none;
  marks = λ _. none;
  streams = [];
  keys = [];
}

unfoldable pub next_in : ReplBatch → Store → Text → ℕ
next_in b s st = elim (b.next st) [ some n ↦ n | none ↦ s.next st ]

unfoldable pub live_in : ReplBatch → Store → Text → ℕ
live_in b s st = elim (b.live st) [ some n ↦ n | none ↦ s.bytes st ]

unfoldable pub mark_of : ReplBatch → Store → Pair → ℕ
mark_of b s key = elim (b.marks key) [ some n ↦ n | none ↦ hwm_get key s ]

abbrev pub key_of : ReplRequest → Pair
key_of r = (r.child, r.stream)

abbrev pub is_nothing : List ReplRecord → Bool
is_nothing [] = true
is_nothing (_ ∷ _) = false

-- What a request that was built does to the batch: nothing, when nothing of it was applied.
unfoldable pub join_request : ReplRequest → Store → Built → ReplBatch → ReplBatch
join_request r s built b = if is_nothing built.applied then b else record {
  writes = b.writes ++ built.writes;
  next = set_at r.stream (some built.off) b.next;
  live = set_at r.stream (some (live_in b s r.stream + built.added)) b.live;
  marks = set_at (key_of r) (some built.hwm) b.marks;
  streams = r.stream ∷ b.streams;
  keys = key_of r ∷ b.keys;
}

-- The result of a request if the commit succeeds, and the batch behind it.
unfoldable pub add_request : Setting → Store → ReplRequest → ReplBatch → ReplResult × ReplBatch
add_request w s r b =
    if next_in b s r.stream == 0
    then (record { applied = []; hwm = hwm_get (key_of r) s; failure = some unknown_stream }, b)
    else elim (build_replicated w r.stream r.recs (mark_of b s (key_of r)) (next_in b s r.stream)) [
      | err e ↦ (record { applied = []; hwm = mark_of b s (key_of r); failure = some e }, b)
      | ok built ↦ (
        record { applied = built.applied; hwm = built.hwm; failure = none },
        join_request r s built b,
      )
    ]

unfoldable pub add_requests :
    Setting → Store → List ReplRequest → ReplBatch → List ReplResult × ReplBatch
add_requests w s [] b = ([], b)
add_requests w s (r ∷ rs) b =
    let (first, b') = add_request w s r b in
    let (rest, b'') = add_requests w s rs b' in (first ∷ rest, b'')

-- The heads and byte counts of the streams that grew.
unfoldable pub head_writes : ReplBatch → Store → List Text → List Write
head_writes b s [] = []
head_writes b s (st ∷ sts) =
    let rest = head_writes b s sts in
    if next_in b s st == s.next st
    then rest
    else set_head st (next_in b s st) ∷ set_bytes st (live_in b s st) ∷ rest

unfoldable pub mark_writes : ReplBatch → Store → List Pair → List Write
mark_writes b s [] = []
mark_writes b s (key ∷ keys) = set_hwm key (mark_of b s key) ∷ mark_writes b s keys

unfoldable pub published : ReplBatch → Store → Store
published b s = record s {
  db = apply_batch (b.writes ++ head_writes b s b.streams ++ mark_writes b s b.keys) s.db;
  next = next_in b s;
  bytes = live_in b s;
  hwms = λ key. elim (b.marks key) [ some n ↦ some n | none ↦ s.hwms key ];
}

-- A failed commit fails the requests that were in it, with the marks that stand.
unfoldable pub fail_request : Store → ReplRequest → ReplResult → ReplResult
fail_request s r result =
    if is_nothing result.applied
    then result
    else record { applied = []; hwm = hwm_get (key_of r) s; failure = some disk_failed }

unfoldable pub fail_requests : Store → List ReplRequest → List ReplResult → List ReplResult
fail_requests s (r ∷ rs) (a ∷ as_) = fail_request s r a ∷ fail_requests s rs as_
fail_requests s _ _ = []

unfoldable pub commit_replicated :
    Setting → Bool → List ReplRequest → Store → List ReplResult × Store
commit_replicated w disk group s =
    let (results, b) = add_requests w s group no_requests in
    if any (λ r. not (is_nothing r.applied)) results
    then (if disk then (results, published b s) else (fail_requests s group results, s))
    else (results, s)

-- ApplyReplicated: a group of one request
unfoldable pub apply_replicated : Setting → Bool → ReplRequest → Store → List ReplResult × Store
apply_replicated w disk r s = commit_replicated w disk (r ∷ []) s

unfoldable pub adopt_child_store : Bool → Text → Text → Store → Option Bool × Store
adopt_child_store disk child id s =
    let prev = elim (s.db.child_stores child) as (λ _. Text) [ none ↦ [] | some p ↦ p ] in
    let known = elim (s.adopted child) as (λ _. Bool) [ none ↦ false | some k ↦ text_beq k id ] in
    let adopted = set_at child (some id) s.adopted in
    if is_empty id || known
    then (some false, s)
    else if text_beq prev id
    then (some false, record s { adopted = adopted })
    else if not disk
    then (none, s)
    else if is_empty prev
    then (
      some false,
      record s { db = apply_batch (set_child_store child id ∷ []) s.db; adopted = adopted },
    )
    else (
      some true,
      record s {
        db = apply_batch (delete_marks child ∷ set_child_store child id ∷ []) s.db;
        hwms = λ key. if text_beq child key.0 then none else s.hwms key;
        adopted = adopted;
      },
    )
