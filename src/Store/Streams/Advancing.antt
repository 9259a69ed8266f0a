-- ===== src/Store/Streams/Advancing.antt =====
-- internal/store/store.go: an append that moves a cursor, tried again after a crash.
use native.Mathlib.Nat.{le_refl}
use colca.Prelude.{
  ℕ, ◌+◌, ◌≤◌, ◌<◌, leb, ◌==◌, Text, text_eq, pair_eq, lookup, insert, lookup-insert, List, [], ◌∷◌,
  Bool, true, false, Bool-cases, Option, some, none, if◌then◌else◌, ok, err, ◌≡◌, ◌≢◌, refl, ◌∙◌,
  inl, inr, arith, length, ◌-◌,
}
use colca.Store.Data.{Record, Pair, Store, apply_batch, apply_write}
use colca.Store.Cursors.{cursor_get}
use colca.Store.Streams.{
  CursorAdvance, advance_writes, appended, decided, check_append, append_advancing_locked,
  append_advancing, disk_failed,
}
use colca.Store.Encode.{Setting}
use colca.Store.Streams.Appended.{appended-cursors}

-- Every way in which an append ends, by what it answers.
append_advancing_locked-cases :
    (w : Setting) (disk : Bool) (now : ℕ) (stream : Text) (recs : List Record)
    (adv : Option CursorAdvance) (s : Store) (local : Option (List Bool))
    → s.next stream ≢ 0
    → check_append w s.db stream recs ≡ ok local
    → append_advancing_locked w disk now stream recs adv s ≡ (
        if disk
        then (
          ok (s.next stream, s.next stream + length recs - 1),
          appended w now stream (decided local recs) adv s,
        )
        else (err disk_failed, s))
unfolding append_advancing_locked
append_advancing_locked-cases w disk now stream recs adv s local n c =
    let known : (s.next stream == 0) ≡ false = ground arith in rw (known, c) refl

-- An append that goes with a cursor leaves the cursor at the end of its advance.
pub cursor_get-appended :
    (w : Setting) (now : ℕ) (stream : Text) (recs : List Record) (adv : CursorAdvance) (s : Store)
    → cursor_get (adv.name, adv.stream) (appended w now stream recs (some adv) s).db ≡ adv.to
cursor_get-appended w now stream recs adv s =
    let key : Pair = (adv.name, adv.stream) in
    let set : lookup key (insert key adv.to s.db.cursors) ≡ some adv.to =
      lookup-insert key key adv.to s.db.cursors ∙ rw ((pair_eq.beq_iff key key).1 refl) refl in
    unfold cursor_get in
    rw (appended-cursors w now stream recs (some adv) s)
      (unfold advance_writes apply_batch apply_write in rw set refl)

-- Attempts of one append, each with the fate of its commit and its time.
unfoldable pub retried :
    Setting → List (Bool × ℕ) → Text → List Record → CursorAdvance → Store → Store
retried w [] stream recs adv s = s
retried w ((disk, now) ∷ tries) stream recs adv s =
    retried w tries stream recs adv (append_advancing w disk now stream recs adv s).1

-- The time of the first attempt whose commit succeeds.
unfoldable pub first_success : List (Bool × ℕ) → Option ℕ
first_success [] = none
first_success ((disk, now) ∷ tries) =
    let rest = first_success tries in if disk then some now else rest

retried-behind :
    (w : Setting) (tries : List (Bool × ℕ)) (stream : Text) (recs : List Record)
    (adv : CursorAdvance) (s : Store)
    → adv.to ≤ cursor_get (adv.name, adv.stream) s.db
    → retried w tries stream recs adv s ≡ s
unfolding retried
retried-behind w [] stream recs adv s h = refl
retried-behind w ((disk, now) ∷ tries) stream recs adv s h =
    rw (skipped recs) (retried-behind w tries stream recs adv s h)
  where
    skipped : (recs : List Record) → (append_advancing w disk now stream recs adv s).1 ≡ s
    skipped [] = unfold append_advancing in refl
    skipped (r ∷ rs) =
        let stands : leb adv.to (cursor_get (adv.name, adv.stream) s.db) ≡ true = ground arith in
        unfold append_advancing in rw stands refl

-- One attempt while the cursor is short of the advance.
append_advancing-state :
    (w : Setting) (disk : Bool) (now : ℕ) (stream : Text) (r : Record) (rs : List Record)
    (adv : CursorAdvance) (s : Store) (local : Option (List Bool))
    → s.next stream ≢ 0
    → check_append w s.db stream (r ∷ rs) ≡ ok local
    → cursor_get (adv.name, adv.stream) s.db < adv.to
    → (append_advancing w disk now stream (r ∷ rs) adv s).1
      ≡ (if disk then appended w now stream (decided local (r ∷ rs)) (some adv) s else s)
unfolding append_advancing
append_advancing-state w disk now stream r rs adv s local n c short =
    let ahead : leb adv.to (cursor_get (adv.name, adv.stream) s.db) ≡ false = ground arith in
    rw (ahead, append_advancing_locked-cases w disk now stream (r ∷ rs) (some adv) s local n c)
      (elim (Bool-cases disk) [ inl d ↦ rw d refl | inr d ↦ rw d refl ])

-- Records that pass the checks and whose cursor is short of the advance are stored once, together with the move of the cursor,
-- by the first attempt whose commit succeeds. All other attempts, before and after it, change nothing, so the
-- records are neither lost nor stored twice however often they are tried.
pub retried-once :
    (w : Setting) (tries : List (Bool × ℕ)) (stream : Text) (r : Record) (rs : List Record)
    (adv : CursorAdvance) (s : Store) (local : Option (List Bool))
    → s.next stream ≢ 0
    → check_append w s.db stream (r ∷ rs) ≡ ok local
    → cursor_get (adv.name, adv.stream) s.db < adv.to
    → retried w tries stream (r ∷ rs) adv s ≡ elim (first_success tries) [
      | none ↦ s
      | some now ↦ appended w now stream (decided local (r ∷ rs)) (some adv) s
    ]
unfolding retried first_success
retried-once w [] stream r rs adv s local n c short = refl
retried-once w ((true, now) ∷ tries) stream r rs adv s local n c short =
    rw (append_advancing-state w true now stream r rs adv s local n c short) (
      retried-behind w tries stream (r ∷ rs) adv _
        (rw (cursor_get-appended w now stream (decided local (r ∷ rs)) adv s) (le_refl adv.to)))
retried-once w ((false, now) ∷ tries) stream r rs adv s local n c short =
    rw (append_advancing-state w false now stream r rs adv s local n c short)
      (retried-once w tries stream r rs adv s local n c short)
