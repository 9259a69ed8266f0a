-- ===== src/Store/Streams/Order.antt =====
-- internal/store/store.go: a stream as the list of its records in the order of their offsets.
use colca.Prelude.{
  ℕ, ◌+◌, ◌≤◌, Text, text_eq, text_beq, pair_eq, set_at, set_at_same, set_at_other, length, List,
  [], ◌∷◌, ◌++◌, All, append-nil, append_assoc, Bool, true, false, Bool-cases, Option, some, none,
  if◌then◌else◌, is_empty, ◌≡◌, refl, sym, ◌∙◌, inl, inr, arith,
}
use colca.Uns.Records.{Payloads}
use colca.Store.Data.{
  Record, RecEnc, Stored, Db, Write, set_record, put_record, apply_write, apply_batch,
}
use colca.Store.Cursors.Serial.{apply_batch-append}
use colca.Store.Streams.{write_records, CursorAdvance, advance_writes}
use colca.Store.Encode.{
  Setting, encode, signal_id_of, record_target, index_writes, kv_writes, add_record,
}

-- Offsets strictly ascending, from `lo` on and below `hi`.
unfoldable pub IsRun : ℕ → ℕ → List Stored → Type 0
IsRun lo hi [] = lo ≤ hi
IsRun lo hi (r ∷ rs) = (lo ≤ r.offset) × IsRun (r.offset + 1) hi rs

pub IsRun-le : (lo hi : ℕ) (rs : List Stored) → IsRun lo hi rs → lo ≤ hi
unfolding IsRun
IsRun-le lo hi [] h = h
IsRun-le lo hi (r ∷ rs) (a, h) = omega (arith, IsRun-le (r.offset + 1) hi rs h)

pub IsRun-widen :
    (lo lo' hi hi' : ℕ) (rs : List Stored) → lo' ≤ lo → hi ≤ hi' → IsRun lo hi rs → IsRun lo' hi' rs
unfolding IsRun
IsRun-widen lo lo' hi hi' [] l u h = omega arith
IsRun-widen lo lo' hi hi' (r ∷ rs) l u (a, h) =
    (omega arith, IsRun-widen (r.offset + 1) (r.offset + 1) hi hi' rs (omega arith) u h)

-- The records with their offsets, from `off` on.
unfoldable pub numbered : Payloads → ℕ → List Record → List Stored
numbered payloads off [] = []
numbered payloads off (r ∷ rs) =
    record { offset = off; enc = encode payloads off r } ∷ numbered payloads (off + 1) rs

pub length-numbered :
    (payloads : Payloads) (off : ℕ) (rs : List Record)
    → length (numbered payloads off rs) ≡ length rs
unfolding numbered
length-numbered payloads off [] = refl
length-numbered payloads off (r ∷ rs) = rw (length-numbered payloads (off + 1) rs) refl

pub numbered-IsRun :
    (payloads : Payloads) (off : ℕ) (rs : List Record)
    → IsRun off (off + length rs) (numbered payloads off rs)
unfolding numbered IsRun
numbered-IsRun payloads off [] = omega arith
numbered-IsRun payloads off (r ∷ rs) = (
  omega arith,
  IsRun-widen (off + 1) (off + 1) (off + 1 + length rs) (off + length (r ∷ rs)) _ (omega arith)
      (omega arith) (numbered-IsRun payloads (off + 1) rs),
)

pub append-IsRun :
    (lo mid hi : ℕ) (rs qs : List Stored)
    → IsRun lo mid rs
    → IsRun mid hi qs
    → IsRun lo hi (rs ++ qs)
unfolding IsRun
append-IsRun lo mid hi [] qs h k = IsRun-widen mid lo hi hi qs h (omega arith) k
append-IsRun lo mid hi (r ∷ rs) qs (a, h) k = (a, append-IsRun (r.offset + 1) mid hi rs qs h k)

-- A record at the head goes behind all others.
pub put_record-head :
    (lo off : ℕ) (enc : RecEnc) (rs : List Stored)
    → IsRun lo off rs
    → put_record off enc rs ≡ rs ++ record { offset = off; enc = enc } ∷ []
unfolding put_record IsRun
put_record-head lo off enc [] h = refl
put_record-head lo off enc (r ∷ rs) (a, h) =
    let below = IsRun-le (r.offset + 1) off rs h in
    let rest = put_record-head (r.offset + 1) off enc rs h in ground arith

-- A write that leaves the records of every stream alone.
unfoldable pub IsAside : Write → Type 0
IsAside v = (stream : Text) (db : Db) → (apply_write v db).records stream ≡ db.records stream

append-IsAside : (ws vs : List Write) → All IsAside ws → All IsAside vs → All IsAside (ws ++ vs)
append-IsAside [] vs h k = k
append-IsAside (w ∷ ws) vs (a, h) k = (a, append-IsAside ws vs h k)

if_empty-IsAside :
    (c : Bool) (ws : List Write) → All IsAside ws → All IsAside (if c then [] else ws)
if_empty-IsAside true ws h = tt
if_empty-IsAside false ws h = h

pub apply_batch-IsAside :
    (ws : List Write) (db : Db) (stream : Text)
    → All IsAside ws
    → (apply_batch ws db).records stream ≡ db.records stream
unfolding apply_batch IsAside
apply_batch-IsAside [] db stream h = refl
apply_batch-IsAside (v ∷ ws) db stream (a, h) =
    apply_batch-IsAside ws (apply_write v db) stream h ∙ a stream db

index_writes-IsAside :
    (payloads : Payloads) (stream : Text) (off : ℕ) (r : Record)
    → All IsAside (index_writes payloads stream off r)
unfolding index_writes IsAside apply_write
index_writes-IsAside payloads stream off r =
    append-IsAside _ _ (if_empty-IsAside (is_empty (signal_id_of payloads r)) _ (λ _ _. refl, tt))
      (if_empty-IsAside (is_empty (record_target r.topic)) _ (λ _ _. refl, tt))

kv_writes-IsAside : (off : ℕ) (r : Record) → All IsAside (kv_writes off r)
unfolding kv_writes IsAside apply_write
kv_writes-IsAside off r = elim (Bool-cases r.delete) [
  | inl q ↦ rw q (if_empty-IsAside (is_empty r.kv_path) _ (λ _ _. refl, tt))
  | inr q ↦ rw q (if_empty-IsAside (is_empty r.kv_path) _ (λ _ _. refl, tt))
]

pub advance_writes-IsAside :
    (now : ℕ) (adv : Option CursorAdvance) → All IsAside (advance_writes now adv)
unfolding advance_writes IsAside apply_write
advance_writes-IsAside now none = tt
advance_writes-IsAside now (some adv) = (λ _ _. refl, (λ _ _. refl, tt))

set_record-records :
    (stream : Text) (off : ℕ) (enc : RecEnc) (db : Db) (st : Text)
    → (apply_write (set_record stream off enc) db).records st
      ≡ set_at stream (put_record off enc (db.records stream)) db.records st
unfolding apply_write
set_record-records stream off enc db st = refl

-- What one added record does to the streams.
add_record-records :
    (w : Setting) (stream : Text) (off : ℕ) (r : Record) (db : Db) (st : Text)
    → (apply_batch (add_record w stream off r) db).records st
      ≡ set_at stream (put_record off (encode w.payloads off r) (db.records stream)) db.records st
add_record-records w stream off r db st =
    let put = set_record stream off (encode w.payloads off r) in
    let aside =
      append-IsAside _ _ (index_writes-IsAside w.payloads stream off r) (kv_writes-IsAside off r) in
    unfold add_record apply_batch in
    (apply_batch-IsAside (index_writes w.payloads stream off r ++ kv_writes off r)
        (apply_write put db) st aside
      ∙ set_record-records stream off (encode w.payloads off r) db st)

pub write_records-records :
    (w : Setting) (stream : Text) (lo off : ℕ) (rs : List Record) (db : Db)
    → IsRun lo off (db.records stream)
    → (apply_batch (write_records w stream off rs) db).records stream
      ≡ db.records stream ++ numbered w.payloads off rs
unfolding write_records numbered
write_records-records w stream lo off [] db h = unfold apply_batch in sym (append-nil _)
write_records-records w stream lo off (r ∷ rs) db h =
    let db' = apply_batch (add_record w stream off r) db in
    let here : db'.records stream
        ≡ db.records stream ++ record { offset = off; enc = encode w.payloads off r } ∷ [] =
      add_record-records w stream off r db stream
      ∙ set_at_same stream _ db.records
      ∙ put_record-head lo off _ _ h in
    let grown : IsRun lo (off + 1) (db'.records stream) =
      rw here (append-IsRun lo off (off + 1) _ _ h (one off _)) in
    rw (apply_batch-append (add_record w stream off r) (write_records w stream (off + 1) rs) db) (
      write_records-records w stream lo (off + 1) rs db' grown
      ∙ rw here (append_assoc (db.records stream) _ (numbered w.payloads (off + 1) rs)))
  where
    one : (off : ℕ) (enc : RecEnc) → IsRun off (off + 1) (record { offset = off; enc = enc } ∷ [])
    one off enc = unfold IsRun in omega arith

pub write_records-other :
    (w : Setting) (stream : Text) (off : ℕ) (rs : List Record) (db : Db) (st : Text)
    → text_beq stream st ≡ false
    → (apply_batch (write_records w stream off rs) db).records st ≡ db.records st
unfolding write_records
write_records-other w stream off [] db st q = unfold apply_batch in refl
write_records-other w stream off (r ∷ rs) db st q =
    let db' = apply_batch (add_record w stream off r) db in
    rw (apply_batch-append (add_record w stream off r) (write_records w stream (off + 1) rs) db) (
      write_records-other w stream (off + 1) rs db' st q
      ∙ add_record-records w stream off r db st
      ∙ set_at_other stream st _ db.records q)
