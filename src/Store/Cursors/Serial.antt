-- ===== src/Store/Cursors/Serial.antt =====
-- internal/store/cursorgroup.go: a group of acks and the same acks one after the other.
use colca.Prelude.{
  ℕ, ltb, text_eq, pair_eq, set_at, set_at-pending, lookup-insert, List, [], ◌∷◌, ◌++◌, Bool, true,
  false, if◌then◌else◌, map, ◌≡◌, refl, ◌⊎◌, ◌∙◌, inl, inr, arith,
}
use colca.Store.Data.{Db, Pair, Write, apply_write, apply_batch, read_or}
use colca.Store.Cursors.{
  AckRequest, AckResult, AckBatch, cursor_of, acked_of, cursor_get, position_in, mark_in,
  changes_mark, ack_writes, add_ack, ack_moves, add_acks, no_acks, finish_acks, commit_acks,
}

pub apply_batch-append :
    (ws vs : List Write) (db : Db) → apply_batch (ws ++ vs) db ≡ apply_batch vs (apply_batch ws db)
unfolding apply_batch
apply_batch-append [] vs db = refl
apply_batch-append (w ∷ ws) vs db = apply_batch-append ws vs (apply_write w db)

-- Each request in a group of its own.
unfoldable pub ack_each : ℕ → List AckRequest → Db → List AckResult × Db
ack_each now [] db = ([], db)
ack_each now (r ∷ rs) db =
    let (first, db') = commit_acks true now (r ∷ []) db in
    let (rest, db'') = ack_each now rs db' in (first ++ rest, db'')

-- What the batch writes is what the disk would hold had it been committed so far.
pub record Stands (b : AckBatch) (db db' : Db) : Type 0 where
  pub committed : db' ≡ apply_batch b.writes db
  pub positions : (key : Pair) → position_in b db key ≡ cursor_get key db'
  pub marks : (key : Pair) → mark_in b db key ≡ read_or 0 (db'.acked key)

-- The state behind one request.
unfoldable pub ack_one : ℕ → AckRequest → Db → Db
ack_one now r db =
    apply_batch (ack_writes now (cursor_get (cursor_of r) db) (read_or 0 (db.acked (acked_of r))) r)
      db

pub cursor_get-ack_one :
    (now : ℕ) (r : AckRequest) (db : Db) (key : Pair)
    → cursor_get key (ack_one now r db) ≡ (
        if ltb (cursor_get (cursor_of r) db) r.off
        then (if pair_eq.beq (cursor_of r) key then r.off else cursor_get key db)
        else cursor_get key db)
unfolding ack_one ack_writes apply_batch apply_write cursor_get
cursor_get-ack_one now r db key =
    let at = lookup-insert (cursor_of r) key r.off db.cursors in ground (arith, at)

pub acked-ack_one :
    (now : ℕ) (r : AckRequest) (db : Db) (key : Pair)
    → read_or 0 ((ack_one now r db).acked key) ≡ (
        if changes_mark (read_or 0 (db.acked (acked_of r))) r
        then (if pair_eq.beq (acked_of r) key then r.mark else read_or 0 (db.acked key))
        else read_or 0 (db.acked key))
unfolding ack_one ack_writes apply_batch apply_write set_at
acked-ack_one now r db key = ground arith

position_in-add_ack :
    (now : ℕ) (r : AckRequest) (b : AckBatch) (db : Db) (key : Pair)
    → position_in (add_ack now db r b) db key ≡ (
        if ltb (position_in b db (cursor_of r)) r.off
        then (if pair_eq.beq (cursor_of r) key then r.off else position_in b db key)
        else position_in b db key)
unfolding position_in add_ack
position_in-add_ack now r b db key =
    set_at-pending (ltb (position_in b db (cursor_of r)) r.off) (cursor_of r) key r.off
      (cursor_get key db) b.positions

mark_in-add_ack :
    (now : ℕ) (r : AckRequest) (b : AckBatch) (db : Db) (key : Pair)
    → mark_in (add_ack now db r b) db key ≡ (
        if changes_mark (mark_in b db (acked_of r)) r
        then (if pair_eq.beq (acked_of r) key then r.mark else mark_in b db key)
        else mark_in b db key)
unfolding mark_in add_ack
mark_in-add_ack now r b db key =
    set_at-pending (changes_mark (mark_in b db (acked_of r)) r) (acked_of r) key r.mark
      (read_or 0 (db.acked key)) b.marks

add_ack-Stands :
    (now : ℕ) (r : AckRequest) (b : AckBatch) (db db' : Db)
    → Stands b db db'
    → Stands (add_ack now db r b) db (ack_one now r db')
add_ack-Stands now r b db db' h = record {
  committed =
      unfold add_ack ack_one in
      rw
        (
          apply_batch-append b.writes _ db,
          h.positions (cursor_of r),
          h.marks (acked_of r),
          ← h.committed,
        )
        refl;
  positions = λ key.
      rw
        (
          position_in-add_ack now r b db key,
          cursor_get-ack_one now r db' key,
          h.positions (cursor_of r),
          h.positions key,
        )
        refl;
  marks = λ key.
      rw
        (
          mark_in-add_ack now r b db key,
          acked-ack_one now r db' key,
          h.marks (acked_of r),
          h.marks key,
        )
        refl;
}

abbrev pub answered : Bool → AckResult
answered m = record { moved = m; failed = false }

pub List-cases {ℓ} :
    {A : Type ℓ} (xs : List A) → (xs ≡ []) ⊎ ((x : A) × (ys : List A) × (xs ≡ x ∷ ys))
List-cases [] = inl refl
List-cases (x ∷ xs) = inr (x, xs, refl)

finish_acks-true :
    (db : Db) (b : AckBatch) (moved : List Bool)
    → finish_acks true db (b, moved) ≡ (map answered moved, apply_batch b.writes db)
unfolding finish_acks apply_batch
finish_acks-true db b moved = elim (List-cases b.writes) [
  | inl q ↦ rw (finish_acks, q) refl
  | inr (w, ws, q) ↦ rw (finish_acks, q) (rw q refl)
]

-- A group of one.
pub commit_acks-one :
    (now : ℕ) (r : AckRequest) (db : Db)
    → commit_acks true now (r ∷ []) db
      ≡ (answered (ltb (cursor_get (cursor_of r) db) r.off) ∷ [], ack_one now r db)
unfolding commit_acks add_acks add_ack ack_moves ack_one apply_batch position_in mark_in
commit_acks-one now r db = finish_acks-true db _ _

add_acks-serial :
    (now : ℕ) (group : List AckRequest) (b : AckBatch) (db db' : Db)
    → Stands b db db'
    → (map answered (add_acks now db group b).1, apply_batch (add_acks now db group b).0.writes db)
      ≡ ack_each now group db'
unfolding add_acks ack_each
add_acks-serial now [] b db db' h = rw h.committed refl
add_acks-serial now (r ∷ rs) b db db' h =
    let rest =
      add_acks-serial now rs (add_ack now db r b) db (ack_one now r db')
        (add_ack-Stands now r b db db' h) in
    rw (commit_acks-one now r db', ← rest) (unfold ack_moves in rw (h.positions (cursor_of r)) refl)

-- A group of acks whose commit succeeds has the answers and the store that its requests have when each is
-- committed by itself, in the order of the queue.
pub commit_acks-serial :
    (now : ℕ) (group : List AckRequest) (db : Db)
    → commit_acks true now group db ≡ ack_each now group db
unfolding commit_acks
commit_acks-serial now group db =
    finish_acks-true db _ _
    ∙ add_acks-serial now group no_acks db db (record {
      committed = unfold apply_batch in refl;
      positions = λ key. unfold position_in in refl;
      marks = λ key. unfold mark_in in refl;
    })
