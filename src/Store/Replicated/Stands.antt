-- ===== src/Store/Replicated/Stands.antt =====
-- internal/store/replgroup.go: what a batch of requests holds, and a request that joins it.
use colca.Prelude.{
  ℕ, ◌+◌, ◌==◌, Text, text_eq, text_beq, text_beq_iff, pair_eq, set_at, set_at_other,
  set_at-pending, List, [], ◌∷◌, ◌++◌, All, is_some, true, false, Bool-cases, Option, some, none,
  if◌then◌else◌, ◌≡◌, refl, ap, ◌∙◌, inl, inr,
}
use colca.Store.Data.{Pair, Db, apply_write, apply_batch, Store, read_or}
use colca.Store.Streams.Counters.{counters_of}
use colca.Store.Streams.Content.{
  content_of, apply_content, apply_contents, apply_batch-content_of, apply_contents-append,
}
use colca.Store.Replicated.{
  ReplRequest, ReplBatch, Built, key_of, is_nothing, hwm_get, next_in, live_in, mark_of,
  join_request, head_writes, mark_writes, published,
}

-- The store would be that one, had the batch been committed so far.
pub record Stands (b : ReplBatch) (s s' : Store) : Type 0 where
  pub next : (st : Text) → next_in b s st ≡ s'.next st
  pub live : (st : Text) → live_in b s st ≡ s'.bytes st
  pub marks : (key : Pair) → mark_of b s key ≡ hwm_get key s'
  pub content : content_of (apply_batch b.writes s.db) ≡ content_of s'.db
  pub counters : (db : Db) → counters_of (apply_batch b.writes db) ≡ counters_of db
  pub keys : All (λ key. is_some (b.marks key) ≡ true) b.keys
  pub unmarked : (key : Pair) → next_in b s key.1 ≡ 0 → b.marks key ≡ none

head_writes-apply_contents :
    (b : ReplBatch) (s : Store) (sts : List Text) (c : _)
    → apply_contents (head_writes b s sts) c ≡ c
unfolding head_writes apply_contents apply_content
head_writes-apply_contents b s [] c = refl
head_writes-apply_contents b s (st ∷ sts) c = elim (Bool-cases (next_in b s st == s.next st)) [
  | inl q ↦ rw q (head_writes-apply_contents b s sts c)
  | inr q ↦ rw q (head_writes-apply_contents b s sts c)
]

mark_writes-apply_contents :
    (b : ReplBatch) (s : Store) (keys : List Pair) (c : _)
    → apply_contents (mark_writes b s keys) c ≡ c
unfolding mark_writes apply_contents apply_content
mark_writes-apply_contents b s [] c = refl
mark_writes-apply_contents b s (key ∷ keys) c = mark_writes-apply_contents b s keys c

-- What is published of records, indexes and current state is what the batch wrote.
pub published-content_of :
    (b : ReplBatch) (s : Store)
    → content_of (published b s).db ≡ apply_contents b.writes (content_of s.db)
published-content_of b s =
    unfold published in
    apply_batch-content_of (b.writes ++ head_writes b s b.streams ++ mark_writes b s b.keys) s.db
    ∙ apply_contents-append (b.writes ++ head_writes b s b.streams) (mark_writes b s b.keys)
        (content_of s.db)
    ∙ mark_writes-apply_contents b s b.keys _
    ∙ apply_contents-append b.writes (head_writes b s b.streams) (content_of s.db)
    ∙ head_writes-apply_contents b s b.streams _

-- A built request that is joined to a batch adds to what is pending.
module _ (r : ReplRequest) (s : Store) (built : Built) (b : ReplBatch)
    (applied : is_nothing built.applied ≡ false) where
  pub next_in-join :
      (st : Text)
      → next_in (join_request r s built b) s st
        ≡ (if text_beq r.stream st then built.off else next_in b s st)
  next_in-join st =
      unfold next_in join_request in
      rw applied (set_at-pending true r.stream st built.off (s.next st) b.next)

  pub live_in-join :
      (st : Text)
      → live_in (join_request r s built b) s st
        ≡ (if text_beq r.stream st then live_in b s r.stream + built.added else live_in b s st)
  live_in-join st =
      unfold live_in join_request in
      rw applied
        (set_at-pending true r.stream st (live_in b s r.stream + built.added) (s.bytes st) b.live)

  pub mark_of-join :
      (key : Pair)
      → mark_of (join_request r s built b) s key
        ≡ (if pair_eq.beq (key_of r) key then built.hwm else mark_of b s key)
  mark_of-join key =
      unfold mark_of join_request in
      rw applied (set_at-pending true (key_of r) key built.hwm (hwm_get key s) b.marks)

  pub writes-join : (join_request r s built b).writes ≡ b.writes ++ built.writes
  writes-join = unfold join_request in rw applied refl

  pub marks-join : (join_request r s built b).marks ≡ set_at (key_of r) (some built.hwm) b.marks
  marks-join = unfold join_request in rw applied refl

  streams-join : (join_request r s built b).streams ≡ r.stream ∷ b.streams
  streams-join = unfold join_request in rw applied refl

  pub keys-join : (join_request r s built b).keys ≡ key_of r ∷ b.keys
  keys-join = unfold join_request in rw applied refl

pub head_writes-hwms :
    (b : ReplBatch) (s : Store) (sts : List Text) (db : Db)
    → (apply_batch (head_writes b s sts) db).hwms ≡ db.hwms
unfolding head_writes apply_batch apply_write
head_writes-hwms b s [] db = refl
head_writes-hwms b s (st ∷ sts) db = elim (Bool-cases (next_in b s st == s.next st)) [
  | inl q ↦ rw q (head_writes-hwms b s sts db)
  | inr q ↦ rw q (head_writes-hwms b s sts _)
]

pub hwm_get-eq :
    (key : Pair) (s s' : Store)
    → s.hwms key ≡ s'.hwms key
    → s.db.hwms key ≡ s'.db.hwms key
    → hwm_get key s ≡ hwm_get key s'
unfolding hwm_get
hwm_get-eq key s s' h k =
    ap (read_or (read_or 0 (s.db.hwms key))) h ∙ ap (λ o. read_or (read_or 0 o) (s'.hwms key)) k

pub hwm_get-some : (key : Pair) (s : Store) (n : ℕ) → s.hwms key ≡ some n → hwm_get key s ≡ n
unfolding hwm_get
hwm_get-some key s n h = ap (read_or (read_or 0 (s.db.hwms key))) h

pub pair-other :
    (c c' st st' : Text) → text_beq st st' ≡ false → pair_eq.beq (c, st) (c', st') ≡ false
pair-other c c' st st' q = elim (Bool-cases (pair_eq.beq (c, st) (c', st'))) [
  | inl e ↦
      let same : st ≡ st' = ap (λ (p : Pair). p.1) ((pair_eq.beq_iff (c, st) (c', st')).0 e) in
      absurd (cc ((text_beq_iff st st').1 same, q))
  | inr e ↦ e
]

pub published-hwms :
    (b : ReplBatch) (s : Store) (key : Pair) (o : Option ℕ)
    → b.marks key ≡ o
    → (published b s).hwms key ≡ elim o as (λ _. Option ℕ) [ some n ↦ some n | none ↦ s.hwms key ]
unfolding published
published-hwms b s key o h =
    ap (λ m. elim m as (λ _. Option ℕ) [ some n ↦ some n | none ↦ s.hwms key ]) h

pub keys-kept :
    (at : Pair) (n : ℕ) (marks : Pair → Option ℕ) (keys : List Pair)
    → All (λ key. is_some (marks key) ≡ true) keys
    → All (λ key. is_some (set_at at (some n) marks key) ≡ true) keys
keys-kept at n marks [] h = tt
keys-kept at n marks (key ∷ keys) (e, h) = (
  elim (Bool-cases (pair_eq.beq at key)) [
    | inl q ↦ unfold set_at in rw q refl
    | inr q ↦ rw (set_at_other at key (some n) marks q) e
  ],
  keys-kept at n marks keys h,
)
