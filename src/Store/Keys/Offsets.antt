-- ===== src/Store/Keys/Offsets.antt =====
-- internal/store/keys.go: the keys of a stream's records and of its journal.
use colca.Prelude.{
  ℕ, zero, suc, ◌+◌, ◌-◌, ◌*◌, ◌/◌, ◌%◌, ◌^◌, ◌<◌, Text, codes, length, length-append, drop, [],
  ◌∷◌, ◌++◌, true, false, ltb, some, ◌≡◌, refl, sym, ◌∙◌, arith, Bool-cases, inl, inr, lt→ltb,
}
use native.Mathlib.Numerals.{unary_clauses}
use colca.Store.Keys.{
  big_endian, be64, from_big_endian, stream_key, journal_key, offset_of, precedes,
}

pow_suc : (n : ℕ) → 256 ^ suc n ≡ 256 * 256 ^ n
pow_suc n = simp unary_clauses (omega arith)

pub length-big_endian : (n v : ℕ) → length (big_endian n v) ≡ n
unfolding big_endian
length-big_endian zero v = refl
length-big_endian (suc n) v =
    omega
      (arith, length-append (big_endian n (v / 256)) (v % 256 ∷ []), length-big_endian n (v / 256))

from_big_endian-append :
    (acc : ℕ) (xs ys : Text)
    → from_big_endian acc (xs ++ ys) ≡ from_big_endian (from_big_endian acc xs) ys
unfolding from_big_endian
from_big_endian-append acc [] ys = refl
from_big_endian-append acc (x ∷ xs) ys = from_big_endian-append (acc * 256 + x) xs ys

from-big_endian : (n v : ℕ) → v < 256 ^ n → from_big_endian 0 (big_endian n v) ≡ v
unfolding big_endian from_big_endian
from-big_endian zero v h = omega (arith, h)
from-big_endian (suc n) v h =
    let fits : v / 256 < 256 ^ n = omega (arith, h, pow_suc n) in
    from_big_endian-append 0 (big_endian n (v / 256)) (v % 256 ∷ [])
    ∙ rw (from-big_endian n (v / 256) fits) (omega arith)

drop-append : (xs ys : Text) → drop (length xs) (xs ++ ys) ≡ ys
drop-append [] ys = refl
drop-append (x ∷ xs) ys = drop-append xs ys

pub last_eight : (xs : Text) (v : ℕ) → v < 256 ^ 8 → offset_of (xs ++ be64 v) ≡ some v
unfolding offset_of
last_eight xs v h =
    let len : length (xs ++ be64 v) ≡ length xs + 8 =
      length-append xs (be64 v) ∙ rw (length-big_endian 8 v) refl in
    let long : ltb (length (xs ++ be64 v)) 8 ≡ false = ground arith in
    let front : length (xs ++ be64 v) - 8 ≡ length xs = omega (arith, len) in
    rw (long, front, drop-append xs (be64 v), from-big_endian 8 v h) refl

-- A common beginning does not matter to the order.
pub precedes-append : (p a b : Text) → precedes (p ++ a) (p ++ b) ≡ precedes a b
unfolding precedes
precedes-append [] a b = refl
precedes-append (x ∷ p) a b = ground (arith, precedes-append p a b)

-- Of two texts of one length, the first difference decides before what follows.
precedes-longer :
    (a b c d : Text) → length a ≡ length b → precedes a b ≡ true → precedes (a ++ c) (b ++ d) ≡ true
unfolding precedes
precedes-longer [] [] c d n h = cc
precedes-longer [] (y ∷ b) c d n h = absurd (omega (arith, n))
precedes-longer (x ∷ a) [] c d n h = absurd (omega (arith, n))
precedes-longer (x ∷ a) (y ∷ b) c d n h = ground (arith, precedes-longer a b c d (omega (arith, n)))

big_endian-precedes :
    (n v w : ℕ) → v < w → w < 256 ^ n → precedes (big_endian n v) (big_endian n w) ≡ true
unfolding big_endian precedes
big_endian-precedes zero v w h k = absurd (omega (arith, h, k))
big_endian-precedes (suc n) v w h k = elim (Bool-cases (ltb (v / 256) (w / 256))) [
  | inl q ↦
      let fits : w / 256 < 256 ^ n = omega (arith, k, pow_suc n) in
      let less : v / 256 < w / 256 = ground arith in
      let same : length (big_endian n (v / 256)) ≡ length (big_endian n (w / 256)) =
        length-big_endian n (v / 256) ∙ sym (length-big_endian n (w / 256)) in
      precedes-longer (big_endian n (v / 256)) (big_endian n (w / 256)) (v % 256 ∷ [])
        (w % 256 ∷ []) same (big_endian-precedes n (v / 256) (w / 256) less fits)
  | inr q ↦
      let same : v / 256 ≡ w / 256 = ground arith in
      let less : ltb (v % 256) (w % 256) ≡ true =
        lt→ltb (v % 256) (w % 256) (omega (arith, same, h)) in
      rw same (
        precedes-append (big_endian n (w / 256)) (v % 256 ∷ []) (w % 256 ∷ [])
        ∙ rw (precedes, less) refl)
]

-- Reading a stream's keys in order is reading its records in order, and each key gives its offset back.
-- Of two offsets of one stream below 2⁶⁴, the key of the lower precedes that of the higher, and so
-- it is for the spans of the journal.
pub stream_key-precedes :
    (stream : Text) (v w : ℕ)
    → v < w
    → w < 2 ^ 64
    → (precedes (stream_key stream v) (stream_key stream w) ≡ true)
      × (precedes (journal_key stream v) (journal_key stream w) ≡ true)
      × (offset_of (stream_key stream v) ≡ some v)
unfolding stream_key journal_key
stream_key-precedes stream v w h k = (
  precedes-append (codes "s" ++ 0 ∷ stream ++ 0 ∷ []) (be64 v) (be64 w)
      ∙ big_endian-precedes 8 v w h k,
  precedes-append (codes "j" ++ 0 ∷ stream ++ 0 ∷ []) (be64 v) (be64 w)
      ∙ big_endian-precedes 8 v w h k,
  last_eight (codes "s" ++ 0 ∷ stream ++ 0 ∷ []) v (omega (arith, h, k)),
)
