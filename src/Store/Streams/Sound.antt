-- ===== src/Store/Streams/Sound.antt =====
-- internal/store/store.go: what holds of every store, and the store that is opened again from the disk.
use colca.Prelude.{
  ℕ, Text, text_eq, text_beq, text_beq_iff, pair_eq, set_at, set_at_same, set_at_other, length,
  List, [], ◌∷◌, Bool, true, Bool-cases, Option, some, none, if◌then◌else◌, ◌≡◌, ◌≢◌, refl, subst,
  ◌∙◌, inl, inr,
}
use colca.Uns.Classes.{one_of}
use colca.Store.Data.{Record, Db, apply_write, apply_batch, Store, read_or}
use colca.Store.Streams.{CursorAdvance, advance_writes, decided, streams, open_store}
use colca.Store.Streams.Order.{IsRun}

-- In each stream the records have ascending offsets from the low-water mark on and below the next offset, and the
-- counters in memory are those that a store opened from the disk would have.
pub record IsSound (s : Store) : Type 0 where
  pub runs : (st : Text) → IsRun (s.lwm st) (s.next st) (s.db.records st)
  pub next_on_disk : (st : Text) → s.next st ≡ (open_store s.db).next st
  pub bytes_on_disk : (st : Text) → s.bytes st ≡ (open_store s.db).bytes st
  pub lwm_on_disk : (st : Text) → s.lwm st ≡ (open_store s.db).lwm st

-- Only the streams of the fixed set have a next offset.
pub next-one_of : (s : Store) (st : Text) → IsSound s → s.next st ≢ 0 → one_of st streams ≡ true
next-one_of s st h n = elim (Bool-cases (one_of st streams)) [
  | inl q ↦ q
  | inr q ↦ absurd (n (h.next_on_disk st ∙ unfold open_store in rw q refl))
]

pub length-decided : (l : Option (List Bool)) (rs : List Record) → length (decided l rs) ≡ length rs
unfolding decided
length-decided none rs = refl
length-decided (some []) rs = refl
length-decided (some (l ∷ ls)) [] = refl
length-decided (some (l ∷ ls)) (r ∷ rs) = rw (length-decided (some ls) rs) refl

pub advance_writes-heads :
    (now : ℕ) (adv : Option CursorAdvance) (db : Db)
    → (apply_batch (advance_writes now adv) db).heads ≡ db.heads
unfolding advance_writes apply_batch apply_write
advance_writes-heads now none db = refl
advance_writes-heads now (some adv) db = refl

pub advance_writes-sizes :
    (now : ℕ) (adv : Option CursorAdvance) (db : Db)
    → (apply_batch (advance_writes now adv) db).sizes ≡ db.sizes
unfolding advance_writes apply_batch apply_write
advance_writes-sizes now none db = refl
advance_writes-sizes now (some adv) db = refl

pub advance_writes-lwms :
    (now : ℕ) (adv : Option CursorAdvance) (db : Db)
    → (apply_batch (advance_writes now adv) db).lwms ≡ db.lwms
unfolding advance_writes apply_batch apply_write
advance_writes-lwms now none db = refl
advance_writes-lwms now (some adv) db = refl

pub advance_writes-cursors :
    (now : ℕ) (adv : Option CursorAdvance) (db db' : Db)
    → db.cursors ≡ db'.cursors
    → (apply_batch (advance_writes now adv) db).cursors
      ≡ (apply_batch (advance_writes now adv) db').cursors
unfolding advance_writes apply_batch apply_write
advance_writes-cursors now none db db' h = h
advance_writes-cursors now (some adv) db db' h = rw h refl

-- A counter that is set in memory and on disk for a known stream is read back for every stream.
pub set_at-read_or :
    (stream st : Text) (n dflt : ℕ) (mem : Text → ℕ) (disk : Text → Option ℕ)
    → one_of stream streams ≡ true
    → mem st ≡ (if one_of st streams then read_or dflt (disk st) else 0)
    → set_at stream n mem st
      ≡ (if one_of st streams then read_or dflt (set_at stream (some n) disk st) else 0)
set_at-read_or stream st n dflt mem disk known h = elim (Bool-cases (text_beq stream st)) [
  | inl q ↦
      let same : stream ≡ st = (text_beq_iff stream st).0 q in
      subst
        (λ x.
          set_at stream n mem x
          ≡ (if one_of x streams then read_or dflt (set_at stream (some n) disk x) else 0))
        same (rw (set_at_same stream n mem, set_at_same stream (some n) disk, known) refl)
  | inr q ↦ rw (set_at_other stream st n mem q, set_at_other stream st (some n) disk q) h
]
