-- ===== src/Store/Cursors/Furthest.antt =====
-- internal/store/cursorgroup.go: cursors only move forward.
use native.Mathlib.Nat.{le_refl}
use colca.Prelude.{
  ℕ, ltb, ◌≤◌, max, text_eq, pair_eq, List, [], ◌∷◌, ◌++◌, Bool, true, false, Bool-cases,
  if◌then◌else◌, map, All, ◌≡◌, refl, ap, ◌∙◌, inl, inr, arith,
}
use colca.Store.Data.{Db, Pair}
use colca.Store.Cursors.{
  AckRequest, AckResult, AckBatch, position_in, mark_in, acked_of, ack_writes, add_ack, ack_moves,
  cursor_of, cursor_get, commit_acks, finish_acks, add_acks, no_acks,
}
use colca.Store.Cursors.Serial.{
  List-cases, answered, ack_each, ack_one, commit_acks-one, commit_acks-serial, cursor_get-ack_one,
}

append-eq-nil {ℓ} : {A : Type ℓ} (xs ys : List A) → (xs ++ ys) ≡ [] → (xs ≡ []) × (ys ≡ [])
append-eq-nil [] ys h = (refl, h)
append-eq-nil (x ∷ xs) ys h = cc

-- What an ack does to the position of a cursor: the further of the two.
unfoldable pub further : AckRequest → Pair → ℕ → ℕ
further r key n = if pair_eq.beq (cursor_of r) key then max n r.off else n

unfoldable pub furthest : List AckRequest → Pair → ℕ → ℕ
furthest [] key n = n
furthest (r ∷ rs) key n = furthest rs key (further r key n)

-- Whether each request moved its cursor, for the positions `at` before the group.
unfoldable pub moves_of : List AckRequest → (Pair → ℕ) → List Bool
moves_of [] at = []
moves_of (r ∷ rs) at = ltb (at (cursor_of r)) r.off ∷ moves_of rs (λ key. further r key (at key))

ack_one-further :
    (now : ℕ) (r : AckRequest) (db : Db) (key : Pair)
    → cursor_get key (ack_one now r db) ≡ further r key (cursor_get key db)
ack_one-further now r db key = elim (Bool-cases (pair_eq.beq (cursor_of r) key)) [
  | inl q ↦
      let same : cursor_of r ≡ key = (pair_eq.beq_iff (cursor_of r) key).0 q in
      cursor_get-ack_one now r db key ∙ unfold further in rw (q, same) ground arith
  | inr q ↦ cursor_get-ack_one now r db key ∙ unfold further in rw q ground arith
]

moves_of-ext :
    (group : List AckRequest) (at at' : Pair → ℕ)
    → ((key : Pair) → at key ≡ at' key)
    → moves_of group at ≡ moves_of group at'
unfolding moves_of
moves_of-ext [] at at' h = refl
moves_of-ext (r ∷ rs) at at' h =
    rw
      (
        h (cursor_of r),
        moves_of-ext rs _ (λ key. further r key (at' key)) (λ key. ap (further r key) (h key)),
      )
      refl

ack_each-moves :
    (now : ℕ) (group : List AckRequest) (db : Db)
    → (ack_each now group db).0 ≡ map answered (moves_of group (λ key. cursor_get key db))
unfolding ack_each moves_of
ack_each-moves now [] db = refl
ack_each-moves now (r ∷ rs) db =
    rw
      (
        commit_acks-one now r db,
        ack_each-moves now rs (ack_one now r db),
        moves_of-ext rs (λ key. cursor_get key (ack_one now r db))
            (λ key. further r key (cursor_get key db)) (ack_one-further now r db),
      )
      refl

ack_each-furthest :
    (now : ℕ) (group : List AckRequest) (db : Db) (key : Pair)
    → cursor_get key (ack_each now group db).1 ≡ furthest group key (cursor_get key db)
unfolding ack_each furthest
ack_each-furthest now [] db key = refl
ack_each-furthest now (r ∷ rs) db key =
    rw
      (
        commit_acks-one now r db,
        ack_each-furthest now rs (ack_one now r db) key,
        ack_one-further now r db key,
      )
      refl

-- In a group of acks whose commit succeeds each cursor comes to the furthest of its old position and the offsets
-- acked for it, and a request is told that it moved its cursor exactly when it is beyond the old position and all that
-- was acked for the cursor before it.
pub commit_acks-furthest :
    (now : ℕ) (group : List AckRequest) (db : Db) (key : Pair)
    → ((commit_acks true now group db).0 ≡ map answered (moves_of group (λ k. cursor_get k db)))
      × (cursor_get key (commit_acks true now group db).1 ≡ furthest group key (cursor_get key db))
commit_acks-furthest now group db key =
    rw (commit_acks-serial now group db)
      (ack_each-moves now group db, ack_each-furthest now group db key)

furthest-le : (group : List AckRequest) (key : Pair) (n : ℕ) → n ≤ furthest group key n
unfolding furthest further
furthest-le [] key n = omega arith
furthest-le (r ∷ rs) key n = let rest = furthest-le rs key (further r key n) in ground arith

ack_writes-eq-nil :
    (now cur prev : ℕ) (r : AckRequest) → ack_writes now cur prev r ≡ [] → ltb cur r.off ≡ false
unfolding ack_writes
ack_writes-eq-nil now cur prev r h = ground arith

-- A batch without writes is of requests that move nothing.
add_acks-empty :
    (now : ℕ) (db : Db) (group : List AckRequest) (b : AckBatch)
    → (add_acks now db group b).0.writes ≡ []
    → (b.writes ≡ []) × All (λ m. m ≡ false) (add_acks now db group b).1
unfolding add_acks
add_acks-empty now db [] b h = (h, tt)
add_acks-empty now db (r ∷ rs) b h =
    let (none_added, rest) = add_acks-empty now db rs (add_ack now db r b) h in
    let (none_before, none_here) = add_ack-empty r b none_added in (none_before, (none_here, rest))
  where
    add_ack-empty :
        (r : AckRequest) (b : AckBatch)
        → (add_ack now db r b).writes ≡ []
        → (b.writes ≡ []) × (ack_moves db r b ≡ false)
    add_ack-empty r b h =
        let cur = position_in b db (cursor_of r) in
        let prev = mark_in b db (acked_of r) in
        let grown : (b.writes ++ ack_writes now cur prev r) ≡ [] = unfold add_ack in h in
        let (before, added) = append-eq-nil b.writes (ack_writes now cur prev r) grown in
        (before, unfold ack_moves in ack_writes-eq-nil now cur prev r added)

All-unmoved :
    (moved : List Bool)
    → All (λ m. m ≡ false) moved
    → All (λ a. a.moved ≡ false) (map answered moved)
All-unmoved [] h = tt
All-unmoved (m ∷ ms) (e, h) = (e, All-unmoved ms h)

All-refused :
    (moved : List Bool)
    → All
        (λ a. a.moved ≡ false)
        (map {B = AckResult} (λ _. record { moved = false; failed = true }) moved)
All-refused [] = tt
All-refused (m ∷ ms) = (refl, All-refused ms)

-- A group of acks whose commit fails leaves the store as it was, and tells no request that it moved its cursor.
commit_acks-failed :
    (now : ℕ) (group : List AckRequest) (db : Db)
    → All (λ a. a.moved ≡ false) (commit_acks false now group db).0
      × ((commit_acks false now group db).1 ≡ db)
unfolding commit_acks
commit_acks-failed now group db =
    finished (add_acks now db group no_acks) (λ q. (add_acks-empty now db group no_acks q).1)
  where
    finished :
        (b : AckBatch × List Bool)
        → (b.0.writes ≡ [] → All (λ m. m ≡ false) b.1)
        → All (λ a. a.moved ≡ false) (finish_acks false db b).0 × ((finish_acks false db b).1 ≡ db)
    finished (b, moved) idle = elim (List-cases b.writes) [
      | inl q ↦ unfold finish_acks in rw q (All-unmoved moved (idle q), refl)
      | inr (w, ws, q) ↦ unfold finish_acks in rw q (All-refused moved, refl)
    ]

-- No commit of acks, in whatever order its requests come and whether it succeeds or fails, moves a cursor back.
pub commit_acks-le :
    (disk : Bool) (now : ℕ) (group : List AckRequest) (db : Db) (key : Pair)
    → cursor_get key db ≤ cursor_get key (commit_acks disk now group db).1
commit_acks-le true now group db key =
    rw (commit_acks-furthest now group db key).1 (furthest-le group key (cursor_get key db))
commit_acks-le false now group db key =
    rw (commit_acks-failed now group db).1 (le_refl (cursor_get key db))
