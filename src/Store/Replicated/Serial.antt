-- ===== src/Store/Replicated/Serial.antt =====
-- internal/store/replgroup.go: a group of requests and the same requests one after the other.
use colca.Prelude.{
  All, is_some, pair_eq, text_eq, set_at_other, Option-cases, any, ℕ, ◌==◌, ==_iff, Text, List, [],
  ◌∷◌, ◌++◌, Bool, true, false, Bool-cases, Option, some, none, not, ◌||◌, Result-cases, ◌≡◌, ◌≢◌,
  refl, sym, ap, ◌∙◌, inl, inr, arith,
}
use colca.Store.Data.{Pair, Db, Store, apply_batch, apply_write}
use colca.Store.Cursors.Serial.{apply_batch-append}
use colca.Store.Streams.Counters.{counters_of}
use colca.Store.Encode.{Setting}
use colca.Store.Streams.Content.{content_of, apply_batch-content_of}
use colca.Store.Replicated.{
  ReplRequest, ReplBatch, Built, no_requests, key_of, is_nothing, hwm_get, next_in, live_in,
  mark_of, build_replicated, join_request, add_request, add_requests, published, head_writes,
  mark_writes, commit_replicated,
}
use colca.Store.Replicated.Stands.{
  head_writes-hwms, hwm_get-eq, hwm_get-some, published-hwms, published-content_of, Stands,
}
use colca.Store.Replicated.Steps.{
  apply_each, add_request-unknown, add_request-refused, add_request-built, add_request-Steps,
}

-- The same records, indexes, current state and counters, and the same marks.
pub record IsSame (s s' : Store) : Type 0 where
  pub next : (st : Text) → s.next st ≡ s'.next st
  pub bytes : (st : Text) → s.bytes st ≡ s'.bytes st
  pub marks : (key : Pair) → hwm_get key s ≡ hwm_get key s'
  pub content : content_of s.db ≡ content_of s'.db

no_requests-Stands : (s : Store) → Stands no_requests s s
unfolding next_in live_in mark_of apply_batch
no_requests-Stands s = record {
  next = λ _. refl;
  live = λ _. refl;
  marks = λ _. refl;
  content = refl;
  counters = λ _. refl;
  keys = tt;
  unmarked = λ _ _. refl;
}

-- A group in one batch, and one by one.
record Serial (w : Setting) (rs : List ReplRequest) (b : ReplBatch) (s0 s : Store) : Type 0 where
  answers : (apply_each w rs s).0 ≡ (add_requests w s0 rs b).0
  stands : Stands (add_requests w s0 rs b).1 s0 (apply_each w rs s).1

add_requests-Serial :
    (w : Setting) (rs : List ReplRequest) (b : ReplBatch) (s0 s : Store)
    → Stands b s0 s
    → Serial w rs b s0 s
unfolding add_requests apply_each
add_requests-Serial w [] b s0 s h = record { answers = refl; stands = h }
add_requests-Serial w (r ∷ rs) b s0 s h =
    let first = add_request-Steps w r b s0 s h in
    let rest = add_requests-Serial w rs (add_request w s0 r b).1 s0 first.after first.stands in
    record {
      answers = rw first.same_answer (ap (λ l. (add_request w s0 r b).0 ∷ l) rest.answers);
      stands = rw first.same_answer rest.stands;
    }

mark_writes-hwms :
    (b : ReplBatch) (s : Store) (key : Pair) (keys : List Pair) (db : Db)
    → All (λ k. is_some (b.marks k) ≡ true) keys
    → b.marks key ≡ none
    → (apply_batch (mark_writes b s keys) db).hwms key ≡ db.hwms key
unfolding mark_writes apply_batch apply_write
mark_writes-hwms b s key [] db h none_ = refl
mark_writes-hwms b s key (k ∷ keys) db (e, h) none_ =
    mark_writes-hwms b s key keys _ h none_
    ∙ set_at_other k key (some (mark_of b s k)) db.hwms (unlike b k key e none_)
  where
    unlike :
        (b : ReplBatch) (k key : Pair)
        → is_some (b.marks k) ≡ true
        → b.marks key ≡ none
        → pair_eq.beq k key ≡ false
    unlike b k key e none_ = elim (Bool-cases (pair_eq.beq k key)) [
      | inl q ↦
          let same : k ≡ key = (pair_eq.beq_iff k key).0 q in
          absurd (cc (ap (λ x. is_some (b.marks x)) same, ap is_some none_, e))
      | inr q ↦ q
    ]

counters_of-hwms : (db db' : Db) → counters_of db ≡ counters_of db' → db.hwms ≡ db'.hwms
unfolding counters_of
counters_of-hwms db db' e = ap (λ c. c.hwms) e

mark_of-eq :
    (b : ReplBatch) (s : Store) (key : Pair) (o : Option ℕ)
    → b.marks key ≡ o
    → mark_of b s key ≡ elim o as (λ _. ℕ) [ some n ↦ n | none ↦ hwm_get key s ]
unfolding mark_of
mark_of-eq b s key o h = ap (λ m. elim m as (λ _. ℕ) [ some n ↦ n | none ↦ hwm_get key s ]) h

or-eq-false : (a b : Bool) → (a || b) ≡ false → (a ≡ false) × (b ≡ false)
or-eq-false true b h = cc
or-eq-false false b h = (refl, h)

not-eq-false : (a : Bool) → not a ≡ false → a ≡ true
not-eq-false true h = refl
not-eq-false false h = cc

published-hwms_other :
    (b : ReplBatch) (s s' : Store) (key : Pair)
    → Stands b s s'
    → b.marks key ≡ none
    → (published b s).db.hwms key ≡ s.db.hwms key
published-hwms_other b s s' key h none_ =
    unfold published in
    rw
      (
        apply_batch-append (b.writes ++ head_writes b s b.streams) (mark_writes b s b.keys) s.db,
        apply_batch-append b.writes (head_writes b s b.streams) s.db,
      )
      (mark_writes-hwms b s key b.keys _ h.keys none_
        ∙ ap (λ marks. marks key) (head_writes-hwms b s b.streams (apply_batch b.writes s.db))
        ∙ ap (λ marks. marks key)
            (counters_of-hwms (apply_batch b.writes s.db) s.db (h.counters s.db)))

published-marks :
    (b : ReplBatch) (s s' : Store) (key : Pair)
    → Stands b s s'
    → hwm_get key (published b s) ≡ mark_of b s key
published-marks b s s' key h = elim (Option-cases (b.marks key)) [
  | inl q ↦
      hwm_get-eq key (published b s) s (published-hwms b s key none q)
        (published-hwms_other b s s' key h q)
      ∙ sym (mark_of-eq b s key none q)
  | inr (n, q) ↦
      hwm_get-some key (published b s) n (published-hwms b s key (some n) q)
      ∙ sym (mark_of-eq b s key (some n) q)
]

published-IsSame : (b : ReplBatch) (s s' : Store) → Stands b s s' → IsSame (published b s) s'
published-IsSame b s s' h = record {
  next = λ st. unfold published in h.next st;
  bytes = λ st. unfold published in h.live st;
  marks = λ key. published-marks b s s' key h ∙ h.marks key;
  content = published-content_of b s ∙ sym (apply_batch-content_of b.writes s.db) ∙ h.content;
}

-- A request of which nothing is applied leaves the batch as it was.
add_request-idle :
    (w : Setting) (s : Store) (r : ReplRequest) (b : ReplBatch)
    → is_nothing (add_request w s r b).0.applied ≡ true
    → (add_request w s r b).1 ≡ b
add_request-idle w s r b = elim (Bool-cases (next_in b s r.stream == 0)) [
  | inl q ↦ λ _. ap (λ p. p.1) (add_request-unknown w r s b ((==_iff (next_in b s r.stream) 0).0 q))
  | inr q ↦
      let known : next_in b s r.stream ≢ 0 = λ z. ground arith in
      elim (Result-cases
        (build_replicated w r.stream r.recs (mark_of b s (key_of r)) (next_in b s r.stream))) [
          | inr (e, bad) ↦
              λ _. ap (λ p. p.1) (add_request-refused w r s b _ _ e known refl refl bad)
          | inl (built, good) ↦
              let made = add_request-built w r s b _ _ built known refl refl good in
              λ idle. ap (λ p. p.1) made ∙ unjoined built made idle
        ]
]
  where
    unjoined :
        (built : Built)
        → add_request w s r b ≡ (
          record { applied = built.applied; hwm = built.hwm; failure = none },
          join_request r s built b,
        )
        → is_nothing (add_request w s r b).0.applied ≡ true
        → join_request r s built b ≡ b
    unjoined built made idle = let q = rw made at idle in unfold join_request in rw q refl

add_requests-idle :
    (w : Setting) (s : Store) (rs : List ReplRequest) (b : ReplBatch)
    → any (λ a. not (is_nothing a.applied)) (add_requests w s rs b).0 ≡ false
    → (add_requests w s rs b).1 ≡ b
unfolding add_requests
add_requests-idle w s [] b h = refl
add_requests-idle w s (r ∷ rs) b h =
    let (first, rest) = or-eq-false (not (is_nothing (add_request w s r b).0.applied)) _ h in
    add_requests-idle w s rs (add_request w s r b).1 rest
    ∙ add_request-idle w s r b (not-eq-false (is_nothing (add_request w s r b).0.applied) first)

-- A group of requests whose commit succeeds gives each request the answer, and leaves the store with the records,
-- the current state, the counters and the marks, that it has when each request is committed by itself in the order of
-- the queue. So a request that is refused changes nothing for the others.
pub commit_replicated-serial :
    (w : Setting) (group : List ReplRequest) (s : Store)
    → ((commit_replicated w true group s).0 ≡ (apply_each w group s).0)
      × IsSame (commit_replicated w true group s).1 (apply_each w group s).1
unfolding commit_replicated
commit_replicated-serial w group s =
    let serial = add_requests-Serial w group no_requests s s (no_requests-Stands s) in
    elim (Bool-cases
      (any (λ a. not (is_nothing a.applied)) (add_requests w s group no_requests).0)) [
        | inl q ↦ rw q (sym serial.answers, published-IsSame _ s _ serial.stands)
        | inr q ↦
            let idle = add_requests-idle w s group no_requests q in
            rw q (sym serial.answers, untouched (apply_each w group s).1 (rw idle at serial.stands))
      ]
  where
    untouched : (s' : Store) → Stands no_requests s s' → IsSame s s'
    untouched s' h = record {
      next = λ st. unfold next_in in h.next st;
      bytes = λ st. unfold live_in in h.live st;
      marks = λ key. unfold mark_of in h.marks key;
      content = unfold apply_batch in h.content;
    }
