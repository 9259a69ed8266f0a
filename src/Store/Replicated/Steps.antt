-- ===== src/Store/Replicated/Steps.antt =====
-- internal/store/replgroup.go: one request of a group, and the same request in a commit of its own.
use colca.Prelude.{
  Bool-cases, Result-cases, ==_iff, ◌==◌, inl, inr, arith, pair_eq, text_eq, ℕ, ◌==◌, ==_iff, List,
  [], ◌∷◌, ◌++◌, true, false, Bool-cases, some, none, if◌then◌else◌, ok, err, Result-cases, ◌≡◌,
  ◌≢◌, refl, sym, ap, ◌∙◌, inl, inr, arith,
}
use colca.Store.Data.{Pair, Store}
use colca.Store.Encode.{Setting}
use colca.Store.Replicated.{
  ReplRequest, ReplResult, ReplBatch, ReplError, Built, unknown_stream, no_requests, key_of,
  is_nothing, hwm_get, next_in, mark_of, build_replicated, join_request, add_request, add_requests,
  published, commit_replicated, apply_replicated,
}
use colca.Store.Replicated.Joined.{alone, join_request-Stands}
use colca.Store.Replicated.Stands.{Stands}

-- Each request in a commit of its own.
unfoldable pub apply_each : Setting → List ReplRequest → Store → List ReplResult × Store
apply_each w [] s = ([], s)
apply_each w (r ∷ rs) s =
    let (first, s') = apply_replicated w true r s in
    let (rest, s'') = apply_each w rs s' in (first ++ rest, s'')

module _ (w : Setting) (r : ReplRequest) where
  pub add_request-unknown :
      (s : Store) (b : ReplBatch)
      → next_in b s r.stream ≡ 0
      → add_request w s r b
        ≡ (record { applied = []; hwm = hwm_get (key_of r) s; failure = some unknown_stream }, b)
  unfolding add_request
  add_request-unknown s b z = rw z refl

  pub add_request-refused :
      (s : Store) (b : ReplBatch) (n m : ℕ) (e : ReplError)
      → n ≢ 0
      → next_in b s r.stream ≡ n
      → mark_of b s (key_of r) ≡ m
      → build_replicated w r.stream r.recs m n ≡ err e
      → add_request w s r b ≡ (record { applied = []; hwm = m; failure = some e }, b)
  unfolding add_request
  add_request-refused s b n m e k hn hm bad =
      let known : (n == 0) ≡ false = ground arith in rw (hn, known, hm, bad) (rw hm refl)

  pub add_request-built :
      (s : Store) (b : ReplBatch) (n m : ℕ) (built : Built)
      → n ≢ 0
      → next_in b s r.stream ≡ n
      → mark_of b s (key_of r) ≡ m
      → build_replicated w r.stream r.recs m n ≡ ok built
      → add_request w s r b ≡ (
        record { applied = built.applied; hwm = built.hwm; failure = none },
        join_request r s built b,
      )
  unfolding add_request
  add_request-built s b n m built k hn hm good =
      let known : (n == 0) ≡ false = ground arith in rw (hn, known, hm, good) refl

  pub apply_replicated-alone :
      (s : Store) (a : ReplResult) (b : ReplBatch)
      → add_request w s r no_requests ≡ (a, b)
      → apply_replicated w true r s ≡ (a ∷ [], if is_nothing a.applied then s else published b s)
  unfolding apply_replicated commit_replicated add_requests
  apply_replicated-alone s a b e = elim (Bool-cases (is_nothing a.applied)) [
    | inl q ↦ rw (e, q) refl
    | inr q ↦ rw (e, q) refl
  ]

  -- What a request does in a group, and by itself behind the requests before it.
  pub record Steps (b : ReplBatch) (s0 s : Store) : Type 0 where
    pub after : Store
    pub same_answer : apply_replicated w true r s ≡ ((add_request w s0 r b).0 ∷ [], after)
    pub stands : Stands (add_request w s0 r b).1 s0 after

  unknown-Steps :
      (b : ReplBatch) (s0 s : Store) → Stands b s0 s → next_in b s0 r.stream ≡ 0 → Steps b s0 s
  unknown-Steps b s0 s h z =
      let mark : hwm_get (key_of r) s0 ≡ hwm_get (key_of r) s =
        mark_of_none b s0 (key_of r) (h.unmarked (key_of r) z) ∙ h.marks (key_of r) in
      record {
        after = s;
        same_answer =
            rw (add_request-unknown s0 b z, mark)
              (apply_replicated-alone s _ no_requests (
                add_request-unknown s no_requests (unfold next_in in (sym (h.next r.stream) ∙ z))));
        stands = rw (add_request-unknown s0 b z) h;
      }
    where
      mark_of_none :
          (b : ReplBatch) (s : Store) (key : Pair)
          → b.marks key ≡ none
          → hwm_get key s ≡ mark_of b s key
      mark_of_none b s key q =
          unfold mark_of in
          sym (ap (λ o. elim o as (λ _. ℕ) [ some n ↦ n | none ↦ hwm_get key s ]) q)

  module _ (b : ReplBatch) (s0 s : Store) (h : Stands b s0 s) (known : s.next r.stream ≢ 0) where
    refused-Steps :
        (e : ReplError)
        → build_replicated w r.stream r.recs (hwm_get (key_of r) s) (s.next r.stream) ≡ err e
        → Steps b s0 s
    refused-Steps e bad =
        let there =
          add_request-refused s0 b (s.next r.stream) (hwm_get (key_of r) s) e known
            (h.next r.stream) (h.marks (key_of r)) bad in
        let here =
          add_request-refused s no_requests (s.next r.stream) (hwm_get (key_of r) s) e known
            (unfold next_in in refl) (unfold mark_of in refl) bad in
        record {
          after = s;
          same_answer = rw there (apply_replicated-alone s _ no_requests here);
          stands = rw there h;
        }

    built-Steps :
        (built : Built)
        → build_replicated w r.stream r.recs (hwm_get (key_of r) s) (s.next r.stream) ≡ ok built
        → Steps b s0 s
    built-Steps built good =
        let there =
          add_request-built s0 b (s.next r.stream) (hwm_get (key_of r) s) built known
            (h.next r.stream) (h.marks (key_of r)) good in
        let here =
          add_request-built s no_requests (s.next r.stream) (hwm_get (key_of r) s) built known
            (unfold next_in in refl) (unfold mark_of in refl) good in
        elim (Bool-cases (is_nothing built.applied)) [
          | inl q ↦ record {
            after = s;
            same_answer =
                rw there (
                  apply_replicated-alone s _ (join_request r s built no_requests) here ∙ rw q refl);
            stands = rw there (rw (unjoined s0 built b q) h);
          }
          | inr q ↦ record {
            after = published (alone w r s built (hwm_get (key_of r) s) (s.next r.stream) q good) s;
            same_answer = rw there (
                apply_replicated-alone s _ (join_request r s built no_requests) here
                ∙ rw q (unfold alone in refl));
            stands = rw there (
                join_request-Stands w r s built (hwm_get (key_of r) s) (s.next r.stream) q good b s0
                  known h);
          }
        ]
      where
        unjoined :
            (s : Store) (built : Built) (b : ReplBatch)
            → is_nothing built.applied ≡ true
            → join_request r s built b ≡ b
        unjoined s built b q = unfold join_request in rw q refl

pub add_request-Steps :
    (w : Setting) (r : ReplRequest) (b : ReplBatch) (s0 s : Store)
    → Stands b s0 s
    → Steps w r b s0 s
add_request-Steps w r b s0 s h = elim (Bool-cases (s.next r.stream == 0)) [
  | inl q ↦ unknown-Steps w r b s0 s h (h.next r.stream ∙ (==_iff (s.next r.stream) 0).0 q)
  | inr q ↦
      let known : s.next r.stream ≢ 0 = λ z. ground arith in
      elim (Result-cases
        (build_replicated w r.stream r.recs (hwm_get (key_of r) s) (s.next r.stream))) [
          | inl (built, good) ↦ built-Steps w r b s0 s h known built good
          | inr (e, bad) ↦ refused-Steps w r b s0 s h known e bad
        ]
]
