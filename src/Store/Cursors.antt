-- ===== src/Store/Cursors.antt =====
-- internal/store/store.go: the consumers' cursors. internal/store/cursorgroup.go: the commit of a group of
-- acks. `disk` says whether the synced commit of a batch succeeds. The writes into a batch, which is memory, do
-- not fail.
pub mod Serial
pub mod Furthest
use colca.Prelude.{
  ℕ, ◌+◌, ◌*◌, ◌/◌, ltb, ◌==◌, Text, text_eq, text_beq, pair_eq, set_at, Table, lookup, List, [],
  ◌∷◌, ◌++◌, Bool, true, false, Option, some, none, if◌then◌else◌, ◌&&◌, not, map,
}
use colca.Store.Data.{
  Db, Pair, Write, set_cursor, set_stamp, set_acked, delete_cursor, delete_stamp, apply_write,
  apply_batch, Store, read_or,
}

unfoldable pub cursor_get : Pair → Db → ℕ
cursor_get key db = read_or 1 (lookup key db.cursors)

unfoldable pub cursor_lookup : Pair → Db → ℕ × Bool
cursor_lookup key db = elim (lookup key db.cursors) [ none ↦ (1, false) | some n ↦ (n, true) ]

unfoldable pub cursor_start : Pair → Store → ℕ × Bool
unfolding cursor_lookup
cursor_start key s =
    let (pos, saved) = cursor_lookup key s.db in if saved then (pos, true) else (s.lwm key.1, false)

-- Whether the cursor was created, or none for a failed commit, and the store.
unfoldable pub cursor_set_if_absent : Bool → ℕ → Pair → ℕ → Db → Option Bool × Db
cursor_set_if_absent disk now key off db = elim (lookup key db.cursors) [
  | some _ ↦ (some false, db)
  | none ↦
      if disk
      then (some true, apply_batch (set_cursor key off ∷ set_stamp key now ∷ []) db)
      else (none, db)
]

unfoldable pub cursor_delete : Bool → Pair → Db → Db
cursor_delete disk key db =
    if disk then apply_batch (delete_cursor key ∷ delete_stamp key ∷ []) db else db

unfoldable pub cursor_mark_seen : Bool → Pair → ℕ → Db → Db
cursor_mark_seen disk key ts db =
    if not (read_or 0 (db.stamps key) == 0)
    then db
    else if disk
    then apply_write (set_stamp key ts) db
    else db

pub record CursorInfo : Type 0 where
  pub name : Text
  pub stream : Text
  pub position : ℕ
  pub last_advance_ms : ℕ

unfoldable pub cursor_info : Db → Pair × ℕ → CursorInfo
cursor_info db (key, n) = record {
  name = key.0;
  stream = key.1;
  position = n;
  last_advance_ms = read_or 0 (db.stamps key);
}

unfoldable pub cursor_snapshot : Db → List CursorInfo
cursor_snapshot db = map (cursor_info db) db.cursors

abbrev pub ms : ℕ
ms = 1_000_000

-- The last advance of a cursor, in milliseconds. `now` and the window are in nanoseconds.
unfoldable pub last_advance : ℕ → CursorInfo → ℕ
last_advance now c = if c.last_advance_ms == 0 then now / ms else c.last_advance_ms

unfoldable pub is_stale : ℕ → ℕ → CursorInfo → Bool
is_stale now window c = ltb 0 window && ltb (last_advance now c * ms + window) now

-- The cursors that protect the stream, and the stale ones.
unfoldable pub split_cursors : Text → ℕ → ℕ → List CursorInfo → List CursorInfo × List CursorInfo
split_cursors stream now window [] = ([], [])
split_cursors stream now window (c ∷ cs) =
    let (protecting, stale) = split_cursors stream now window cs in
    if not (text_beq c.stream stream)
    then (protecting, stale)
    else if is_stale now window c
    then (protecting, c ∷ stale)
    else (c ∷ protecting, stale)

unfoldable pub protected_cursors : Text → ℕ → ℕ → Db → List CursorInfo × List CursorInfo
protected_cursors stream now window db = split_cursors stream now window (cursor_snapshot db)

pub record AckRequest : Type 0 where
  pub name : Text
  pub stream : Text
  pub off : ℕ
  pub marked : Bool
  pub parent : Text
  pub mark : ℕ

pub record AckResult : Type 0 where
  pub moved : Bool
  pub failed : Bool

-- The batch of a group, with the positions and marks that it writes.
pub record AckBatch : Type 0 where
  pub writes : List Write
  pub positions : Pair → Option ℕ
  pub marks : Pair → Option ℕ

abbrev pub cursor_of : AckRequest → Pair
cursor_of r = (r.name, r.stream)

abbrev pub acked_of : AckRequest → Pair
acked_of r = (r.parent, r.stream)

unfoldable pub position_in : AckBatch → Db → Pair → ℕ
position_in b db key = elim (b.positions key) [ some n ↦ n | none ↦ cursor_get key db ]

unfoldable pub mark_in : AckBatch → Db → Pair → ℕ
mark_in b db key = elim (b.marks key) [ some n ↦ n | none ↦ read_or 0 (db.acked key) ]

unfoldable pub changes_mark : ℕ → AckRequest → Bool
changes_mark prev r = r.marked && not (r.mark == prev)

-- What a request adds to the batch, behind the position and the mark that stand before it.
unfoldable pub ack_writes : ℕ → ℕ → ℕ → AckRequest → List Write
ack_writes now cur prev r =
    (if ltb cur r.off
      then set_cursor (cursor_of r) r.off ∷ set_stamp (cursor_of r) now ∷ []
      else [])
    ++ (if changes_mark prev r then set_acked (acked_of r) r.mark ∷ [] else [])

unfoldable pub add_ack : ℕ → Db → AckRequest → AckBatch → AckBatch
add_ack now db r b =
    let cur = position_in b db (cursor_of r) in
    let prev = mark_in b db (acked_of r) in
    record {
      writes = b.writes ++ ack_writes now cur prev r;
      positions =
          if ltb cur r.off then set_at (cursor_of r) (some r.off) b.positions else b.positions;
      marks = if changes_mark prev r then set_at (acked_of r) (some r.mark) b.marks else b.marks;
    }

unfoldable pub ack_moves : Db → AckRequest → AckBatch → Bool
ack_moves db r b = ltb (position_in b db (cursor_of r)) r.off

unfoldable pub add_acks : ℕ → Db → List AckRequest → AckBatch → AckBatch × List Bool
add_acks now db [] b = (b, [])
add_acks now db (r ∷ rs) b =
    let (b', moved) = add_acks now db rs (add_ack now db r b) in (b', ack_moves db r b ∷ moved)

abbrev pub no_acks : AckBatch
no_acks = record { writes = []; positions = λ _. none; marks = λ _. none }

unfoldable pub finish_acks : Bool → Db → AckBatch × List Bool → List AckResult × Db
finish_acks disk db (b, moved) = elim b.writes [
  | [] ↦ (map (λ m. record { moved = m; failed = false }) moved, db)
  | _ ∷ _ ↦
      if disk
      then (map (λ m. record { moved = m; failed = false }) moved, apply_batch b.writes db)
      else (map (λ _. record { moved = false; failed = true }) moved, db)
]

unfoldable pub commit_acks : Bool → ℕ → List AckRequest → Db → List AckResult × Db
commit_acks disk now group db = finish_acks disk db (add_acks now db group no_acks)

-- CursorAck: a group of one request without a mark
unfoldable pub cursor_ack : Bool → ℕ → Text → Text → ℕ → Db → List AckResult × Db
cursor_ack disk now name stream off db =
    commit_acks disk now
      (record { name = name; stream = stream; off = off; marked = false; parent = []; mark = 0 }
        ∷ [])
      db
