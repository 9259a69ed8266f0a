-- ===== src/Node/Limiter/Upkeep.antt =====
-- internal/httplimit/limiter.go: the sweep and the eviction of callers.
use colca.Prelude.{
  ℕ, ◌≤◌, ◌==◌, Text, text_beq, text_eq, text_beq_sound, is_empty, Table, lookup, erase,
  lookup-erase, length-erase-le, length, List, [], ◌∷◌, true, not, ◌||◌, Option, some, none, ◌≡◌,
  refl, sym, ◌∙◌, arith, Bool-cases, Option-cases, inl, inr,
}
use colca.Node.Limiter.{
  Float, Bucket, Limiter, is_swept, sweep_keys, keys_of, is_recent, sweep, is_no_older, visit,
  oldest_idle, evict_oldest_idle,
}
use colca.Node.Limiter.Counted.{IsCounted, active_of}

module _ {fl : Float} where
  erase-idle :
      (j k : Text) (m : Table Text (Bucket fl))
      → active_of (lookup j m) ≡ 0
      → active_of (lookup k (erase j m)) ≡ active_of (lookup k m)
  unfolding active_of
  erase-idle j k m h = rw (lookup-erase j k m) (elim (Bool-cases (text_beq j k)) [
    | inl q ↦ rw (q, ← text_beq_sound j k q) (sym h)
    | inr q ↦ rw q refl
  ])

  is_swept-idle :
      (now ttl : ℕ) (o : Option (Bucket fl)) → is_swept now ttl o ≡ true → active_of o ≡ 0
  unfolding is_swept active_of
  is_swept-idle now ttl none h = refl
  is_swept-idle now ttl (some b) h = ground arith

  sweep_keys-active :
      (now ttl : ℕ) (ks : List Text) (m : Table Text (Bucket fl)) (k : Text)
      → (active_of (lookup k (sweep_keys now ttl ks m)) ≡ active_of (lookup k m))
        × (length (sweep_keys now ttl ks m) ≤ length m)
  unfolding sweep_keys
  sweep_keys-active now ttl [] m k = (refl, omega arith)
  sweep_keys-active now ttl (j ∷ ks) m k = elim (Bool-cases (is_swept now ttl (lookup j m))) [
    | inl q ↦
        let (same, shorter) = sweep_keys-active now ttl ks (erase j m) k in
        rw (sweep_keys, q)
          (
            same ∙ erase-idle j k m (is_swept-idle now ttl (lookup j m) q),
            omega (arith, length-erase-le j m),
          )
    | inr q ↦ rw (sweep_keys, q) (sweep_keys-active now ttl ks m k)
  ]

  pub sweep-IsCounted :
      (now : ℕ) (l : Limiter fl) (open_ : List (Text × Text))
      → IsCounted l open_
      → IsCounted (sweep now l) open_
  unfolding sweep
  sweep-IsCounted now l open_ h = elim (Bool-cases (is_recent now l.last_sweep)) [
    | inl q ↦ rw q h
    | inr q ↦ rw q (record {
      by_key =
          λ k. (sweep_keys-active now l.idle_ttl (keys_of l.buckets) l.buckets k).0 ∙ h.by_key k;
      by_class = h.by_class;
      callers =
          omega (
            arith,
            (sweep_keys-active now l.idle_ttl (keys_of l.buckets) l.buckets []).1,
            h.callers,
          );
    })
  ]

  -- A key that the search has found is of a caller with nothing in flight.
  IsIdle : Table Text (Bucket fl) → Option (Text × ℕ) → Type 0
  IsIdle m none = Unit
  IsIdle m (some (k, seen)) = active_of (lookup k m) ≡ 0

  visit-IsIdle :
      (k : Text) (m : Table Text (Bucket fl)) (o : Option (Bucket fl)) (found : Option (Text × ℕ))
      → lookup k m ≡ o
      → IsIdle m found
      → IsIdle m (visit k o found)
  unfolding visit IsIdle active_of
  visit-IsIdle k m none found q h = h
  visit-IsIdle k m (some b) found q h =
      elim (Bool-cases (not (b.active == 0) || is_no_older b.last_seen found)) [
        | inl r ↦ rw r h
        | inr r ↦ rw (r, q) (ground arith)
      ]

  oldest_idle-IsIdle :
      (ks : List Text) (m : Table Text (Bucket fl)) (found : Option (Text × ℕ))
      → IsIdle m found
      → IsIdle m (oldest_idle ks m found)
  unfolding oldest_idle
  oldest_idle-IsIdle [] m found h = h
  oldest_idle-IsIdle (k ∷ ks) m found h =
      oldest_idle-IsIdle ks m (visit k (lookup k m) found)
        (visit-IsIdle k m (lookup k m) found refl h)

  pub evict_oldest_idle-IsCounted :
      (l : Limiter fl) (open_ : List (Text × Text))
      → IsCounted l open_
      → IsCounted (evict_oldest_idle l) open_
  unfolding evict_oldest_idle IsIdle
  evict_oldest_idle-IsCounted l open_ h =
      elim (Option-cases (oldest_idle (keys_of l.buckets) l.buckets none)) [
        | inl q ↦ rw (evict_oldest_idle, q) h
        | inr ((k, seen), q) ↦
            let idle : active_of (lookup k l.buckets) ≡ 0 =
              rw q at (oldest_idle-IsIdle (keys_of l.buckets) l.buckets none tt) in
            rw (evict_oldest_idle, q)
              (elim (Bool-cases (is_empty k)) [
                | inl r ↦ rw r h
                | inr r ↦ rw r (record {
                  by_key = λ j. erase-idle k j l.buckets idle ∙ h.by_key j;
                  by_class = h.by_class;
                  callers = omega (arith, length-erase-le k l.buckets, h.callers);
                })
              ])
      ]
