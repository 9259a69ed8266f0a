-- ===== src/Node/Limiter/Admissions.antt =====
-- internal/httplimit/limiter.go: what `Acquire` leaves of the counters.
use colca.Prelude.{
  ℕ, suc, ◌≤◌, ◌<◌, Text, text_beq, text_eq, text_beq_refl, text_beq_sound, lookup, insert,
  length-insert-le, length-insert-some, length, List, ◌∷◌, not, ltb, leb, if◌then◌else◌, Option,
  some, none, Result, ok, err, ◌≡◌, ◌⊎◌, refl, sym, ap, subst, ◌∙◌, arith, Bool-cases, inl, inr,
}
use colca.Node.Limiter.{
  Float, Policy, Bucket, Limiter, Refusal, bucket_key, number_of, sweep, evict_oldest_idle,
  is_rated, refill, fresh_bucket, place, refusal_of, admit, decide, serve, acquire,
}
use colca.Node.Limiter.Counted.{
  count_class, count_key, active_of, IsCounted, lookup-insert_active, lookup-insert_number,
}
use colca.Node.Limiter.Upkeep.{sweep-IsCounted, evict_oldest_idle-IsCounted}

module _ {fl : Float} where
  -- A bucket that may stand for the key: it counts what the key has in flight, and has room in the map.
  record Fits (key : Text) (b : Bucket fl) (l : Limiter fl) : Type 0 where
    counts : active_of (lookup key l.buckets) ≡ b.active
    room : (c : Bucket fl) → length (insert key c l.buckets) ≤ l.max_callers

  Placed : Text → List (Text × Text) → Option (Bucket fl) × Limiter fl → Type 0
  Placed key open_ (none, l) = IsCounted l open_
  Placed key open_ (some b, l) = IsCounted l open_ × Fits key b l

  place_new :
      (key : Text) (now : ℕ) (policy : Policy fl) (l : Limiter fl) (open_ : List (Text × Text))
      → IsCounted l open_
      → active_of (lookup key l.buckets) ≡ 0
      → Placed key open_ (
          if leb l.max_callers (length l.buckets)
          then (none, l)
          else (some (fresh_bucket now policy), l))
  unfolding Placed fresh_bucket
  place_new key now policy l open_ h idle =
      elim (Bool-cases (leb l.max_callers (length l.buckets))) [
        | inl q ↦ rw q h
        | inr q ↦ rw q (
          h,
          record { counts = idle; room = λ c. ground (arith, length-insert-le key c l.buckets) },
        )
      ]

  place-Placed :
      (key : Text) (now : ℕ) (policy : Policy fl) (l : Limiter fl) (open_ : List (Text × Text))
      (o : Option (Bucket fl))
      → lookup key l.buckets ≡ o
      → IsCounted l open_
      → Placed key open_ (place key now policy l o)
  unfolding place Placed active_of
  place-Placed key now policy l open_ (some b) q h = (
    h,
    record {
      counts = rw q refl;
      room = λ c. rw (length-insert-some key c b l.buckets q) h.callers;
    },
  )
  place-Placed key now policy l open_ none q h =
      let idle : count_key key open_ ≡ 0 = sym (h.by_key key) ∙ ap active_of q in
      elim (Bool-cases (leb l.max_callers (length l.buckets))) [
        | inl r ↦
            let h' = evict_oldest_idle-IsCounted l open_ h in
            rw (place, r)
              (place_new key now policy (evict_oldest_idle l) open_ h' (h'.by_key key ∙ idle))
        | inr r ↦ rw (place, r) (place_new key now policy l open_ h (h.by_key key ∙ idle))
      ]

  refill-active :
      (b : Bucket fl) (now : ℕ) (policy : Policy fl) → (refill b now policy).active ≡ b.active
  unfolding refill
  refill-active b now policy = elim (Bool-cases (not (is_rated policy))) [
    | inl q ↦ rw q refl
    | inr q ↦ elim (Bool-cases (ltb b.last now)) [ inl r ↦ rw (q, r) refl | inr r ↦ rw (q, r) refl ]
  ]

  -- The policy's bounds on what is in flight; a bound of 0 is none.
  pub IsWithinPolicy : Text → Text → Policy fl → List (Text × Text) → Type 0
  IsWithinPolicy class_ key policy open_ =
      ((policy.per_caller_concurrent ≡ 0) ⊎ (count_key key open_ ≤ policy.per_caller_concurrent))
      × ((policy.global_concurrent ≡ 0) ⊎ (count_class class_ open_ ≤ policy.global_concurrent))

  -- The requests in flight after an answer, and the bounds if it is an admission.
  unfoldable pub IsAnswered :
      Text → Text → Policy fl → List (Text × Text) → Result Refusal (Unit {0}) × Limiter fl → Type 0
  IsAnswered class_ key policy open_ (err r, l) = IsCounted l open_
  IsAnswered class_ key policy open_ (ok u, l) =
      IsCounted l ((class_, key) ∷ open_) × IsWithinPolicy class_ key policy ((class_, key) ∷ open_)

  keep-IsCounted :
      (key : Text) (b : Bucket fl) (l : Limiter fl) (open_ : List (Text × Text))
      → IsCounted l open_
      → Fits key b l
      → IsCounted (record l { buckets = insert key b l.buckets }) open_
  keep-IsCounted key b l open_ h f = record {
    by_key = λ k. lookup-insert_active key k b l.buckets ∙ (elim (Bool-cases (text_beq key k)) [
      | inl q ↦ rw (q, ← text_beq_sound key k q) (sym f.counts ∙ h.by_key key)
      | inr q ↦ rw q (h.by_key k)
    ]);
    by_class = h.by_class;
    callers = f.room b;
  }

  admit-IsCounted :
      (class_ key : Text) (policy : Policy fl) (b : Bucket fl) (l : Limiter fl)
      (open_ : List (Text × Text))
      → IsCounted l open_
      → Fits key b l
      → IsCounted (admit class_ key policy b l) ((class_, key) ∷ open_)
  unfolding admit count_key count_class
  admit-IsCounted class_ key policy b l open_ h f =
      let taken = if is_rated policy then fl.less_one b.tokens else b.tokens in
      let b' : Bucket fl = record b { tokens = taken; active = suc b.active } in
      record {
        by_key = λ k.
            lookup-insert_active key k b' l.buckets ∙ (elim (Bool-cases (text_beq key k)) [
              | inl q ↦ rw q (
                  ap suc (
                    subst (λ j. b.active ≡ count_key j open_) (text_beq_sound key k q)
                      (sym f.counts ∙ h.by_key key)))
              | inr q ↦ rw q (h.by_key k)
            ]);
        by_class = λ c.
            lookup-insert_number class_ c (suc (number_of (lookup class_ l.global))) l.global
            ∙ (elim (Bool-cases (text_beq class_ c)) [
              | inl q ↦ rw q (
                  ap suc (
                    subst (λ d. number_of (lookup class_ l.global) ≡ count_class d open_)
                      (text_beq_sound class_ c q) (h.by_class class_)))
              | inr q ↦ rw q (h.by_class c)
            ]);
        callers = f.room b';
      }

  -- What is not refused has room under each bound.
  refusal_of-none :
      (class_ : Text) (policy : Policy fl) (b : Bucket fl) (l : Limiter fl)
      → refusal_of class_ policy b l ≡ none
      → (0 < policy.per_caller_concurrent → b.active < policy.per_caller_concurrent)
        × (0 < policy.global_concurrent
            → number_of (lookup class_ l.global) < policy.global_concurrent)
  unfolding refusal_of
  refusal_of-none class_ policy b l h = (λ some_. ground arith, λ some_. ground arith)

  decide-IsAnswered :
      (class_ key : Text) (policy : Policy fl) (b : Bucket fl) (l : Limiter fl)
      (open_ : List (Text × Text)) (o : Option Refusal)
      → refusal_of class_ policy b l ≡ o
      → IsCounted l open_
      → Fits key b l
      → IsAnswered class_ key policy open_ (decide class_ key policy b l o)
  unfolding decide IsAnswered IsWithinPolicy count_key count_class
  decide-IsAnswered class_ key policy b l open_ (some r) q h f = keep-IsCounted key b l open_ h f
  decide-IsAnswered class_ key policy b l open_ none q h f =
      (admit-IsCounted class_ key policy b l open_ h f, within)
    where
      within : IsWithinPolicy class_ key policy ((class_, key) ∷ open_)
      within = (
        elim (Bool-cases (ltb 0 policy.per_caller_concurrent)) [
          | inl set_ ↦
              let under = (refusal_of-none class_ policy b l q).0 (ground arith) in
              inr (rw (count_key, text_beq_refl key) (omega (arith, under, f.counts, h.by_key key)))
          | inr unset ↦ inl (ground arith)
        ],
        elim (Bool-cases (ltb 0 policy.global_concurrent)) [
          | inl set_ ↦
              let under = (refusal_of-none class_ policy b l q).1 (ground arith) in
              inr (rw (count_class, text_beq_refl class_) (omega (arith, under, h.by_class class_)))
          | inr unset ↦ inl (ground arith)
        ],
      )

  serve-IsAnswered :
      (class_ key : Text) (now : ℕ) (policy : Policy fl) (open_ : List (Text × Text))
      (p : Option (Bucket fl) × Limiter fl)
      → Placed key open_ p
      → IsAnswered class_ key policy open_ (serve class_ key now policy p)
  unfolding serve IsAnswered Placed
  serve-IsAnswered class_ key now policy open_ (none, l) h = h
  serve-IsAnswered class_ key now policy open_ (some b, l) (h, f) =
      let b' = refill (record b { last_seen = now }) now policy in
      decide-IsAnswered class_ key policy b' l open_ (refusal_of class_ policy b' l) refl h
        (record {
          counts = f.counts ∙ sym (refill-active (record b { last_seen = now }) now policy);
          room = f.room;
        })

  pub acquire-IsAnswered :
      (class_ caller : Text) (policy : Policy fl) (now : ℕ) (l : Limiter fl)
      (open_ : List (Text × Text))
      → IsCounted l open_
      → IsAnswered class_
          (bucket_key class_ caller)
          policy
          open_
          (acquire class_ caller policy now l)
  unfolding acquire
  acquire-IsAnswered class_ caller policy now l open_ h =
      let key = bucket_key class_ caller in
      let h' = sweep-IsCounted now l open_ h in
      serve-IsAnswered class_ key now policy open_
        (place key now policy (sweep now l) (lookup key (sweep now l).buckets))
        (place-Placed key now policy (sweep now l) open_ (lookup key (sweep now l).buckets) refl h')
