-- ===== src/Node/Limiter/Counted.antt =====
-- internal/httplimit/limiter.go: what the counters of a limiter count.
use colca.Prelude.{
  ℕ, suc, ◌+◌, ◌-◌, ◌≤◌, Text, text_beq, text_eq, text_beq_sound, Table, lookup, insert,
  lookup-insert, length, length-insert-some, List, [], ◌∷◌, ◌++◌, ltb, if◌then◌else◌, Option, some,
  none, ◌≡◌, refl, ◌∙◌, arith, Bool-cases, inl, inr,
}
use colca.Node.Limiter.{Float, Bucket, Limiter, number_of, release, release_bucket, release_global}

-- Of the requests in flight, each with its class and key, those of a class and those of a key.
unfoldable pub count_class : Text → List (Text × Text) → ℕ
count_class c [] = 0
count_class c ((class_, key) ∷ open_) =
    let n = count_class c open_ in if text_beq class_ c then suc n else n

unfoldable pub count_key : Text → List (Text × Text) → ℕ
count_key k [] = 0
count_key k ((class_, key) ∷ open_) =
    let n = count_key k open_ in if text_beq key k then suc n else n

module _ {fl : Float} where
  unfoldable pub active_of : Option (Bucket fl) → ℕ
  active_of none = 0
  active_of (some b) = b.active

  -- The counters are right, and the callers within bounds.
  pub record IsCounted (l : Limiter fl) (open_ : List (Text × Text)) : Type 0 where
    pub by_key : (k : Text) → active_of (lookup k l.buckets) ≡ count_key k open_
    pub by_class : (c : Text) → number_of (lookup c l.global) ≡ count_class c open_
    pub callers : length l.buckets ≤ l.max_callers

  -- Setting a bucket changes the count of its own key alone.
  pub lookup-insert_active :
      (key k : Text) (b : Bucket fl) (m : Table Text (Bucket fl))
      → active_of (lookup k (insert key b m))
        ≡ (if text_beq key k then b.active else active_of (lookup k m))
  unfolding active_of
  lookup-insert_active key k b m =
      rw (lookup-insert key k b m)
        (elim (Bool-cases (text_beq key k)) [ inl q ↦ rw q refl | inr q ↦ rw q refl ])

pub lookup-insert_number :
    (key k : Text) (n : ℕ) (m : Table Text ℕ)
    → number_of (lookup k (insert key n m)) ≡ (if text_beq key k then n else number_of (lookup k m))
unfolding number_of
lookup-insert_number key k n m =
    rw (lookup-insert key k n m)
      (elim (Bool-cases (text_beq key k)) [ inl q ↦ rw q refl | inr q ↦ rw q refl ])

pub count_key-append :
    (k : Text) (xs ys : List (Text × Text))
    → count_key k (xs ++ ys) ≡ count_key k xs + count_key k ys
unfolding count_key
count_key-append k [] ys = omega arith
count_key-append k ((c, j) ∷ xs) ys = ground (arith, count_key-append k xs ys)

pub count_class-append :
    (c : Text) (xs ys : List (Text × Text))
    → count_class c (xs ++ ys) ≡ count_class c xs + count_class c ys
unfolding count_class
count_class-append c [] ys = omega arith
count_class-append c ((d, j) ∷ xs) ys = ground (arith, count_class-append c xs ys)

release_global-count :
    (class_ c : Text) (m : Table Text ℕ)
    → number_of (lookup c (release_global class_ m))
      ≡ (if text_beq class_ c then number_of (lookup c m) - 1 else number_of (lookup c m))
unfolding release_global
release_global-count class_ c m = elim (Bool-cases (ltb 0 (number_of (lookup class_ m)))) [
  | inl r ↦
      rw (r, lookup-insert_number class_ c (number_of (lookup class_ m) - 1) m)
        (elim (Bool-cases (text_beq class_ c)) [
          | inl e ↦ rw (e, ← text_beq_sound class_ c e) refl
          | inr e ↦ rw e refl
        ])
  | inr r ↦ rw r (elim (Bool-cases (text_beq class_ c)) [
    | inl e ↦ rw (e, ← text_beq_sound class_ c e) (ground arith)
    | inr e ↦ rw e refl
  ])
]

module _ {fl : Float} where
  release_bucket-count :
      (key k : Text) (now : ℕ) (m : Table Text (Bucket fl)) (o : Option (Bucket fl))
      → lookup key m ≡ o
      → (active_of (lookup k (release_bucket key now m o))
          ≡ (if text_beq key k then active_of (lookup k m) - 1 else active_of (lookup k m)))
        × (length (release_bucket key now m o) ≡ length m)
  unfolding release_bucket active_of
  release_bucket-count key k now m none q = (
    elim (Bool-cases (text_beq key k)) [
      | inl r ↦ rw (r, ← text_beq_sound key k r, q) refl
      | inr r ↦ rw r refl
    ],
    refl,
  )
  release_bucket-count key k now m (some b) q = elim (Bool-cases (ltb 0 b.active)) [
    | inl r ↦ rw r (
      lookup-insert_active key k (record b { active = b.active - 1; last_seen = now }) m
          ∙ same key k b m q,
      length-insert-some key (record b { active = b.active - 1; last_seen = now }) b m q,
    )
    | inr r ↦ rw r (
      (elim (Bool-cases (text_beq key k)) [
        | inl e ↦ rw (e, ← text_beq_sound key k e, q) (ground arith)
        | inr e ↦ rw e refl
      ]),
      refl,
    )
  ]
    where
      same :
          (key k : Text) (b : Bucket fl) (m : Table Text (Bucket fl))
          → lookup key m ≡ some b
          → (if text_beq key k then b.active - 1 else active_of (lookup k m))
            ≡ (if text_beq key k then active_of (lookup k m) - 1 else active_of (lookup k m))
      same key k b m q = elim (Bool-cases (text_beq key k)) [
        | inl r ↦ rw (r, ← text_beq_sound key k r, q) refl
        | inr r ↦ rw r refl
      ]

  -- A release takes its request out of the counters.
  pub release-IsCounted :
      (class_ key : Text) (now : ℕ) (l : Limiter fl) (xs ys : List (Text × Text))
      → IsCounted l (xs ++ (class_, key) ∷ ys)
      → IsCounted (release class_ key now l) (xs ++ ys)
  unfolding release count_key count_class
  release-IsCounted class_ key now l xs ys h = record {
    by_key = λ k. ground (
      arith,
      (release_bucket-count key k now l.buckets (lookup key l.buckets) refl).0,
      h.by_key k,
      count_key-append k xs ((class_, key) ∷ ys),
      count_key-append k xs ys,
    );
    by_class = λ c. ground (
      arith,
      release_global-count class_ c l.global,
      h.by_class c,
      count_class-append c xs ((class_, key) ∷ ys),
      count_class-append c xs ys,
    );
    callers =
        rw (release_bucket-count key key now l.buckets (lookup key l.buckets) refl).1 h.callers;
  }
