-- ===== src/Node/Limiter.antt =====
-- internal/httplimit/limiter.go: `Limiter`, which bounds the requests of the HTTP doors. Times are
-- nanoseconds, and `none` is the zero time. The lock makes each operation one step. The arithmetic of
-- float64 is an argument, `Float`: how many tokens a bucket has decides no property stated here.
pub mod Counted
pub mod Upkeep
pub mod Admissions
pub mod Bounds
use colca.Prelude.{
  ℕ, zero, suc, ◌+◌, ◌-◌, ◌*◌, ◌^◌, max, Text, codes, text_eq, text_beq, is_empty, Table, lookup,
  insert, erase, length, List, [], ◌∷◌, ◌++◌, map, Bool, true, false, not, ◌&&◌, ◌||◌, ltb, leb,
  ◌==◌, if◌then◌else◌, Option, some, none, Result, ok, err,
}

-- float64, as far as the limiter computes with it.
pub record Float : Type 1 where
  pub F : Type 0
  pub of_int : ℕ → F
  pub is_positive : F → Bool
  pub is_below_one : F → Bool
  pub less_one : F → F
  pub plus : F → F → F
  pub least : F → F → F
  -- `elapsed.Seconds() * rate`
  pub earned : ℕ → F → F
  -- `time.Duration(math.Ceil((1 - tokens) / rate * float64(time.Second)))`
  pub missing_delay : F → F → ℕ

module _ (fl : Float) where
  pub record Policy : Type 0 where
    pub rate_per_second : fl.F
    pub burst : ℕ
    pub per_caller_concurrent : ℕ
    pub global_concurrent : ℕ

  pub record Bucket : Type 0 where
    pub tokens : fl.F
    pub last : ℕ
    pub last_seen : ℕ
    pub active : ℕ

  pub record Limiter : Type 0 where
    pub buckets : Table Text Bucket
    pub global : Table Text ℕ
    pub max_callers : ℕ
    pub idle_ttl : ℕ
    pub last_sweep : Option ℕ

pub data Reason : Type 0 where
  rate caller_concurrency global_concurrency callers : Reason

pub record Refusal : Type 0 where
  pub reason : Reason
  pub retry_after : ℕ
  pub limit : ℕ

abbrev pub default_max_callers : ℕ
default_max_callers = 16384

-- Ten minutes.
abbrev pub default_idle_ttl : ℕ
default_idle_ttl = 600 * 10 ^ 9

abbrev pub new_with_clock : (fl : Float) → ℕ → ℕ → Limiter fl
new_with_clock fl max_callers idle_ttl = record {
  buckets = [];
  global = [];
  max_callers = max_callers;
  idle_ttl = idle_ttl;
  last_sweep = none;
}

-- `class + "\x00" + caller`
unfoldable pub bucket_key : Text → Text → Text
bucket_key class_ caller = class_ ++ 0 ∷ caller

-- The value of a key in a Go map of numbers.
unfoldable pub number_of : Option ℕ → ℕ
number_of none = 0
number_of (some n) = n

-- `!l.lastSweep.IsZero() && now.Sub(l.lastSweep) < time.Minute`
unfoldable pub is_recent : ℕ → Option ℕ → Bool
is_recent now none = false
is_recent now (some last) = ltb now (last + 60 * 10 ^ 9)

-- `!oldest.IsZero() && !b.lastSeen.Before(oldest)`
unfoldable pub is_no_older : ℕ → Option (Text × ℕ) → Bool
is_no_older seen none = false
is_no_older seen (some (k, oldest)) = leb oldest seen

unfoldable pub release_global : Text → Table Text ℕ → Table Text ℕ
release_global class_ m =
    if ltb 0 (number_of (lookup class_ m))
    then insert class_ (number_of (lookup class_ m) - 1) m
    else m

module _ {fl : Float} where
  -- The keys that a `range` over the buckets visits.
  unfoldable pub keys_of : Table Text (Bucket fl) → List Text
  keys_of [] = []
  keys_of ((k, b) ∷ m) = k ∷ keys_of m

  unfoldable pub is_swept : ℕ → ℕ → Option (Bucket fl) → Bool
  is_swept now idle_ttl none = false
  is_swept now idle_ttl (some b) = b.active == 0 && ltb (b.last_seen + idle_ttl) now

  unfoldable pub sweep_keys : ℕ → ℕ → List Text → Table Text (Bucket fl) → Table Text (Bucket fl)
  unfolding is_swept
  sweep_keys now idle_ttl [] m = m
  sweep_keys now idle_ttl (k ∷ ks) m =
      sweep_keys now idle_ttl ks (if is_swept now idle_ttl (lookup k m) then erase k m else m)

  unfoldable pub sweep : ℕ → Limiter fl → Limiter fl
  sweep now l = if is_recent now l.last_sweep then l else record {
    buckets = sweep_keys now l.idle_ttl (keys_of l.buckets) l.buckets;
    global = l.global;
    max_callers = l.max_callers;
    idle_ttl = l.idle_ttl;
    last_sweep = some now;
  }

  unfoldable pub visit : Text → Option (Bucket fl) → Option (Text × ℕ) → Option (Text × ℕ)
  visit k none found = found
  visit k (some b) found =
      if not (b.active == 0) || is_no_older b.last_seen found then found else some (k, b.last_seen)

  unfoldable pub oldest_idle :
      List Text → Table Text (Bucket fl) → Option (Text × ℕ) → Option (Text × ℕ)
  unfolding visit is_no_older
  oldest_idle [] m found = found
  oldest_idle (k ∷ ks) m found = oldest_idle ks m (visit k (lookup k m) found)

  unfoldable pub evict_oldest_idle : Limiter fl → Limiter fl
  evict_oldest_idle l = elim (oldest_idle (keys_of l.buckets) l.buckets none) [
    | none ↦ l
    | some (k, seen) ↦ if is_empty k then l else record l { buckets = erase k l.buckets }
  ]

  -- `policy.RatePerSecond > 0 && policy.Burst > 0`
  unfoldable pub is_rated : Policy fl → Bool
  is_rated policy = fl.is_positive policy.rate_per_second && ltb 0 policy.burst

  unfoldable pub refill : Bucket fl → ℕ → Policy fl → Bucket fl
  refill b now policy =
      if not (is_rated policy)
      then record b { last = now }
      else if ltb b.last now
      then record b {
        tokens =
            fl.least (fl.of_int policy.burst)
              (fl.plus b.tokens (fl.earned (now - b.last) policy.rate_per_second));
        last = now;
      }
      else b

  unfoldable pub fresh_bucket : ℕ → Policy fl → Bucket fl
  fresh_bucket now policy = record {
    tokens = fl.of_int policy.burst;
    last = now;
    last_seen = now;
    active = 0;
  }

  -- The caller's bucket, a new one if there is room, and the limiter after an eviction.
  unfoldable pub place :
      Text → ℕ → Policy fl → Limiter fl → Option (Bucket fl) → Option (Bucket fl) × Limiter fl
  place key now policy l (some b) = (some b, l)
  place key now policy l none =
      let l' = if leb l.max_callers (length l.buckets) then evict_oldest_idle l else l in
      if leb l'.max_callers (length l'.buckets)
      then (none, l')
      else (some (fresh_bucket now policy), l')

  unfoldable pub refusal_of : Text → Policy fl → Bucket fl → Limiter fl → Option Refusal
  refusal_of class_ policy b l =
      if ltb 0 policy.per_caller_concurrent && leb policy.per_caller_concurrent b.active
      then some (record {
        reason = caller_concurrency;
        retry_after = 0;
        limit = policy.per_caller_concurrent;
      })
      else if ltb 0 policy.global_concurrent
          && leb policy.global_concurrent (number_of (lookup class_ l.global))
      then some (record {
        reason = global_concurrency;
        retry_after = 0;
        limit = policy.global_concurrent;
      })
      else if is_rated policy && fl.is_below_one b.tokens
      then some (record {
        reason = rate;
        retry_after = max (fl.missing_delay b.tokens policy.rate_per_second) (10 ^ 6);
        limit = policy.burst;
      })
      else none

  unfoldable pub admit : Text → Text → Policy fl → Bucket fl → Limiter fl → Limiter fl
  admit class_ key policy b l = record l {
    buckets =
        insert key
          (record b {
            tokens = if is_rated policy then fl.less_one b.tokens else b.tokens;
            active = suc b.active;
          })
          l.buckets;
    global = insert class_ (suc (number_of (lookup class_ l.global))) l.global;
  }

  unfoldable pub decide :
      Text
      → Text
      → Policy fl
      → Bucket fl
      → Limiter fl
      → Option Refusal
      → Result Refusal (Unit {0}) × Limiter fl
  decide class_ key policy b l (some r) = (err r, record l { buckets = insert key b l.buckets })
  decide class_ key policy b l none = (ok tt, admit class_ key policy b l)

  unfoldable pub serve :
      Text
      → Text
      → ℕ
      → Policy fl
      → Option (Bucket fl) × Limiter fl
      → Result Refusal (Unit {0}) × Limiter fl
  serve class_ key now policy (none, l) =
      (err (record { reason = callers; retry_after = 0; limit = l.max_callers }), l)
  serve class_ key now policy (some b, l) =
      let b' = refill (record b { last_seen = now }) now policy in
      decide class_ key policy b' l (refusal_of class_ policy b' l)

  -- An admission, whose release the caller then holds, or a refusal.
  unfoldable pub acquire :
      Text → Text → Policy fl → ℕ → Limiter fl → Result Refusal (Unit {0}) × Limiter fl
  unfolding serve decide admit refusal_of place fresh_bucket
  acquire class_ caller policy now l =
      let l' = sweep now l in
      let key = bucket_key class_ caller in
      serve class_ key now policy (place key now policy l' (lookup key l'.buckets))

  unfoldable pub release_bucket :
      Text → ℕ → Table Text (Bucket fl) → Option (Bucket fl) → Table Text (Bucket fl)
  release_bucket key now m none = m
  release_bucket key now m (some b) =
      if ltb 0 b.active
      then insert key (record b { active = b.active - 1; last_seen = now }) m
      else m

  -- What the release of an admission of `class_` with `key` does the first time it is called.
  unfoldable pub release : Text → Text → ℕ → Limiter fl → Limiter fl
  unfolding release_bucket release_global
  release class_ key now l = record l {
    buckets = release_bucket key now l.buckets (lookup key l.buckets);
    global = release_global class_ l.global;
  }
