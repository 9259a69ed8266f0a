-- ===== src/Node/Limiter/Bounds.antt =====
-- internal/httplimit/limiter.go: what an admission keeps to.
use colca.Prelude.{ℕ, Text, text_eq, lookup, List, [], ◌∷◌, ◌++◌, ok, err, ◌≡◌, refl, arith}
use colca.Node.Limiter.{
  Float, Policy, Limiter, Refusal, new_with_clock, bucket_key, number_of, acquire, release,
}
use colca.Node.Limiter.Counted.{count_class, count_key, active_of, IsCounted, release-IsCounted}
use colca.Node.Limiter.Admissions.{IsWithinPolicy, IsAnswered, acquire-IsAnswered}

module _ {fl : Float} where
  -- The limiters that a limiter with no callers can become, each with its requests in flight: by acquiring,
  -- under any policy and at any time, and by releasing, once, any request that is in flight.
  pub data Reaches : Limiter fl → List (Text × Text) → Type 0 where
    starts : (max_callers idle_ttl : ℕ) → Reaches (new_with_clock fl max_callers idle_ttl) []
    admits :
        (class_ caller : Text) (policy : Policy fl) (now : ℕ) (l l' : Limiter fl)
        (open_ : List (Text × Text))
        → Reaches l open_
        → acquire class_ caller policy now l ≡ (ok tt, l')
        → Reaches l' ((class_, bucket_key class_ caller) ∷ open_)
    refuses :
        (class_ caller : Text) (policy : Policy fl) (now : ℕ) (l l' : Limiter fl)
        (open_ : List (Text × Text)) (r : Refusal)
        → Reaches l open_
        → acquire class_ caller policy now l ≡ (err r, l')
        → Reaches l' open_
    releases :
        (class_ key : Text) (now : ℕ) (l : Limiter fl) (xs ys : List (Text × Text))
        → Reaches l (xs ++ (class_, key) ∷ ys)
        → Reaches (release class_ key now l) (xs ++ ys)

  -- The counters of a limiter count its requests in flight. Whatever was acquired and released, each once,
  -- a caller's bucket says how many of its requests are open and is never dropped while one is, the
  -- global count of a class is that of its open requests, and the callers are within their limit.
  pub Reaches-IsCounted :
      (l : Limiter fl) (open_ : List (Text × Text)) → Reaches l open_ → IsCounted l open_
  unfolding IsAnswered
  Reaches-IsCounted _ _ (starts max_callers idle_ttl) =
      unfold active_of number_of lookup count_key count_class in
      record { by_key = λ k. refl; by_class = λ c. refl; callers = omega arith }
  Reaches-IsCounted _ _ (admits class_ caller policy now l l' open_ r q) =
      let a = acquire-IsAnswered class_ caller policy now l open_ (Reaches-IsCounted l open_ r) in
      (rw q at a).0
  Reaches-IsCounted _ _ (refuses class_ caller policy now l l' open_ e r q) =
      let a = acquire-IsAnswered class_ caller policy now l open_ (Reaches-IsCounted l open_ r) in
      rw q at a
  Reaches-IsCounted _ _ (releases class_ key now l xs ys r) =
      release-IsCounted class_ key now l xs ys (Reaches-IsCounted l (xs ++ (class_, key) ∷ ys) r)

  -- An admission keeps to the policy. If a limiter in any state that it can reach admits a request, then with
  -- it the requests in flight of that class and caller are at most `PerCallerConcurrent`, and those of
  -- that class at most `GlobalConcurrent`, each where it is set.
  pub acquire-IsWithinPolicy :
      (class_ caller : Text) (policy : Policy fl) (now : ℕ) (l l' : Limiter fl)
      (open_ : List (Text × Text))
      → Reaches l open_
      → acquire class_ caller policy now l ≡ (ok tt, l')
      → IsWithinPolicy class_
          (bucket_key class_ caller)
          policy
          ((class_, bucket_key class_ caller) ∷ open_)
  unfolding IsAnswered
  acquire-IsWithinPolicy class_ caller policy now l l' open_ r q =
      let a = acquire-IsAnswered class_ caller policy now l open_ (Reaches-IsCounted l open_ r) in
      (rw q at a).1
