-- ===== src/Store/Replicated/Replays.antt =====
-- internal/store/replgroup.go: requests that are sent again, and what a request stores.
use native.Mathlib.Nat.{le_refl}
use colca.Prelude.{
  ℕ, ◌+◌, ◌==◌, ==_iff, Text, text_eq, text_beq_refl, pair_eq, length, List, [], ◌∷◌, ◌++◌,
  append-nil, Bool, true, false, Bool-cases, none, ok, err, Result-cases, ◌≡◌, ◌≢◌, refl, sym, ap,
  ◌∙◌, inl, inr, arith,
}
use colca.Store.Data.{Db, Store, apply_batch}
use colca.Store.Encode.{Setting}
use colca.Store.Streams.Order.{IsRun, numbered, write_records-records}
use colca.Store.Streams.Content.{content_of, apply_batch-content_of}
use colca.Store.Replicated.{
  ReplRecord, ReplRequest, ReplResult, ReplError, Built, no_requests, unbuilt, key_of, is_nothing,
  hwm_get, next_in, mark_of, build_replicated, join_request, add_request, add_requests, published,
  commit_replicated, apply_replicated,
}
use colca.Store.Replicated.Build.{
  build_all-le, build_all-again, build_all-Adds, Adds, stored_of, fresh, IsRising,
}
use colca.Store.Replicated.Joined.{alone, alone-next, alone-hwm_get, alone-content_of}
use colca.Store.Replicated.Steps.{
  add_request-unknown, add_request-refused, add_request-built, apply_replicated-alone,
}

-- The store behind a request, with or without the disk, when nothing of it is applied.
apply_replicated-idle :
    (w : Setting) (disk : Bool) (r : ReplRequest) (s : Store)
    → is_nothing (add_request w s r no_requests).0.applied ≡ true
    → apply_replicated w disk r s ≡ ((add_request w s r no_requests).0 ∷ [], s)
unfolding apply_replicated commit_replicated add_requests
apply_replicated-idle w disk r s q = rw q refl

module _ (w : Setting) (r : ReplRequest) (s : Store) where
  unknown-idle : s.next r.stream ≡ 0 → is_nothing (add_request w s r no_requests).0.applied ≡ true
  unknown-idle z = rw (add_request-unknown w r s no_requests (unfold next_in in z)) refl

  refused-idle :
      (e : ReplError)
      → s.next r.stream ≢ 0
      → build_replicated w r.stream r.recs (hwm_get (key_of r) s) (s.next r.stream) ≡ err e
      → is_nothing (add_request w s r no_requests).0.applied ≡ true
  refused-idle e k bad =
      rw
        (add_request-refused w r s no_requests (s.next r.stream) (hwm_get (key_of r) s) e k
          (unfold next_in in refl) (unfold mark_of in refl) bad)
        refl

  built-answer :
      (built : Built)
      → s.next r.stream ≢ 0
      → build_replicated w r.stream r.recs (hwm_get (key_of r) s) (s.next r.stream) ≡ ok built
      → add_request w s r no_requests ≡ (
        record { applied = built.applied; hwm = built.hwm; failure = none },
        join_request r s built no_requests,
      )
  built-answer built k good =
      add_request-built w r s no_requests (s.next r.stream) (hwm_get (key_of r) s) built k
        (unfold next_in in refl) (unfold mark_of in refl) good

-- What a committed request leaves.
record Leaves (w : Setting) (r : ReplRequest) (s s' : Store) : Type 0 where
  known : s'.next r.stream ≢ 0
  again :
      build_replicated w r.stream r.recs (hwm_get (key_of r) s') (s'.next r.stream)
      ≡ ok (unbuilt (hwm_get (key_of r) s') (s'.next r.stream))

built-Leaves :
    (w : Setting) (r : ReplRequest) (s : Store) (built : Built)
    (q : is_nothing built.applied ≡ false)
    (good : build_replicated w r.stream r.recs (hwm_get (key_of r) s) (s.next r.stream) ≡ ok built)
    → s.next r.stream ≢ 0
    → Leaves w r s (published (alone w r s built (hwm_get (key_of r) s) (s.next r.stream) q good) s)
unfolding build_replicated
built-Leaves w r s built q good k =
    let m = hwm_get (key_of r) s in
    let n = s.next r.stream in
    let here : pair_eq.beq (key_of r) (key_of r) ≡ true =
      (pair_eq.beq_iff (key_of r) (key_of r)).1 refl in
    let mark = rw here at (alone-hwm_get w r s built m n q good (key_of r)) in
    let next = rw (text_beq_refl r.stream) at (alone-next w r s built m n q good r.stream) in
    let grown = (build_all-le w r.stream r.recs (unbuilt m n) built good).1 in
    record {
      known = λ z. k (omega (arith, z, next, grown));
      again =
          rw (mark, next)
            (build_all-again w r.stream r.recs (unbuilt m n) built (unbuilt built.hwm built.off)
              good (le_refl built.hwm));
    }

again-idle :
    (w : Setting) (r : ReplRequest) (s s' : Store)
    → Leaves w r s s'
    → is_nothing (add_request w s' r no_requests).0.applied ≡ true
again-idle w r s s' h = rw (built-answer w r s' _ h.known h.again) refl

-- A request that is sent again, after it was committed or refused, applies nothing and changes nothing, whether or not
-- the disk would take a commit.
pub apply_replicated-again :
    (w : Setting) (disk : Bool) (r : ReplRequest) (s s' : Store) (first : List ReplResult)
    → apply_replicated w true r s ≡ (first, s')
    → (apply_replicated w disk r s').1 ≡ s'
apply_replicated-again w disk r s s' first done_ = elim (Bool-cases (s.next r.stream == 0)) [
  | inl q ↦ let z = (==_iff (s.next r.stream) 0).0 q in unmoved (unknown-idle w r s z)
  | inr q ↦
      let k : s.next r.stream ≢ 0 = λ z. ground arith in
      elim (Result-cases
        (build_replicated w r.stream r.recs (hwm_get (key_of r) s) (s.next r.stream))) [
          | inr (e, bad) ↦ unmoved (refused-idle w r s e k bad)
          | inl (built, good) ↦ elim (Bool-cases (is_nothing built.applied)) [
            | inl idle ↦ unmoved (rw (built-answer w r s built k good) idle)
            | inr busy ↦
                let leaves = moved built busy good (built-Leaves w r s built busy good k) in
                let committed =
                  apply_replicated-alone w r s _ _ (built-answer w r s built k good) in
                let taken = rw busy at committed in
                let same : s' ≡ published (join_request r s built no_requests) s =
                  ap (λ p. p.1) (sym done_ ∙ taken) in
                rw same
                  (ap (λ p. p.1) (apply_replicated-idle w disk r _ (again-idle w r s _ leaves)))
          ]
        ]
]
  where
    unmoved :
        is_nothing (add_request w s r no_requests).0.applied ≡ true
        → (apply_replicated w disk r s').1 ≡ s'
    unmoved idle =
        let same : s' ≡ s = ap (λ p. p.1) (sym done_ ∙ apply_replicated-idle w true r s idle) in
        rw same (ap (λ p. p.1) (apply_replicated-idle w disk r s idle))

    moved :
        (built : Built) (busy : is_nothing built.applied ≡ false)
        (good : build_replicated w r.stream r.recs (hwm_get (key_of r) s) (s.next r.stream)
          ≡ ok built)
        → Leaves w r s
            (published (alone w r s built (hwm_get (key_of r) s) (s.next r.stream) busy good) s)
        → Leaves w r s (published (join_request r s built no_requests) s)
    moved built busy good leaves = unfold alone in leaves

content_of-records :
    (db db' : Db) (st : Text) → content_of db ≡ content_of db' → db.records st ≡ db'.records st
unfolding content_of
content_of-records db db' st e = ap (λ c. c.records st) e

-- What the store holds of a request that is built, behind its commit.
pub record Holds (w : Setting) (r : ReplRequest) (s s' : Store) : Type 0 where
  pub records :
      s'.db.records r.stream
      ≡ s.db.records r.stream
        ++ numbered w.payloads (s.next r.stream) (stored_of (fresh (hwm_get (key_of r) s) r.recs))
  pub next :
      s'.next r.stream ≡ s.next r.stream + length (stored_of (fresh (hwm_get (key_of r) s) r.recs))
  pub rising :
      IsRising (hwm_get (key_of r) s) (hwm_get (key_of r) s') (fresh (hwm_get (key_of r) s) r.recs)

-- A request without a bad skip range to a known stream appends, behind what the stream holds, the records of it that are
-- above the child's mark and above all before them, each once and in order, at the next offsets. The mark
-- comes to the last of the offsets applied, which rise strictly from the old mark.
pub apply_replicated-Holds :
    (w : Setting) (r : ReplRequest) (s : Store) (built : Built) (lo : ℕ)
    → s.next r.stream ≢ 0
    → IsRun lo (s.next r.stream) (s.db.records r.stream)
    → build_replicated w r.stream r.recs (hwm_get (key_of r) s) (s.next r.stream) ≡ ok built
    → Holds w r s (apply_replicated w true r s).1
unfolding build_replicated
apply_replicated-Holds w r s built lo k run good = elim (Bool-cases (is_nothing built.applied)) [
  | inl idle ↦
      let nothing : fresh m r.recs ≡ [] = sym adds.applied ∙ is_nothing-nil built.applied idle in
      let same : (apply_replicated w true r s).1 ≡ s =
        ap (λ p. p.1)
          (apply_replicated-idle w true r s (rw (built-answer w r s built k good) idle)) in
      rw same (unapplied s nothing)
  | inr busy ↦
      let committed = apply_replicated-alone w r s _ _ (built-answer w r s built k good) in
      let taken = rw busy at committed in
      let after : (apply_replicated w true r s).1 ≡ published (alone w r s built m n busy good) s =
        ap (λ p. p.1) taken ∙ unfold alone in refl in
      let here : pair_eq.beq (key_of r) (key_of r) ≡ true =
        (pair_eq.beq_iff (key_of r) (key_of r)).1 refl in
      let mark = rw here at (alone-hwm_get w r s built m n busy good (key_of r)) in
      let next = rw (text_beq_refl r.stream) at (alone-next w r s built m n busy good r.stream) in
      let content =
        alone-content_of w r s built m n busy good
        ∙ sym (apply_batch-content_of built.writes s.db) in
      rw after (record {
        records =
            content_of-records _ (apply_batch built.writes s.db) r.stream content
            ∙ ap (λ ws. (apply_batch ws s.db).records r.stream) adds.writes
            ∙ write_records-records w r.stream lo n (stored_of (fresh m r.recs)) s.db run;
        next = next ∙ adds.off;
        rising = rw mark adds.rising;
      })
]
  where
    m : ℕ
    m = hwm_get (key_of r) s

    n : ℕ
    n = s.next r.stream

    adds : Adds w r.stream r.recs (unbuilt m n) built
    adds = build_all-Adds w r.stream r.recs (unbuilt m n) built good

    is_nothing-nil : (recs : List ReplRecord) → is_nothing recs ≡ true → recs ≡ []
    is_nothing-nil [] h = refl
    is_nothing-nil (x ∷ xs) h = cc

    unapplied : (s : Store) → fresh (hwm_get (key_of r) s) r.recs ≡ [] → Holds w r s s
    unapplied s nothing = record {
      records = rw nothing (unfold stored_of numbered in sym (append-nil (s.db.records r.stream)));
      next = rw nothing (unfold stored_of in omega arith);
      rising = rw nothing (unfold IsRising in refl);
    }
