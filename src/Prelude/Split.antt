-- ===== src/Prelude/Split.antt =====
-- strings.Split, SplitN, Join and Cut at a one-byte separator, and their laws.
use Prim.Native.Nat.{ℕ, zero, suc}
use mathlib.Core.Path.{subst, ◌≡◌, refl, ap, ◌∙◌}
use mathlib.Core.Logic.{◌⊎◌, inl, inr}
use mathlib.Core.Bool.{false}
use mathlib.Core.List.{List, [], ◌∷◌, ◌++◌}
use native.Mathlib.Omega.{arith}
use colca.Prelude.Tests.{◌==◌, ==_iff, if◌then◌else◌, Bool-cases}
use colca.Prelude.Lists.{All}
use colca.Prelude.Strings.{Text, has_byte, has_byte-append}

-- One more byte in front of the first piece.
abbrev pub push_byte : ℕ → List Text → List Text
push_byte c [] = (c ∷ []) ∷ []
push_byte c (x ∷ xs) = (c ∷ x) ∷ xs

unfoldable pub split : ℕ → Text → List Text
split b [] = [] ∷ []
split b (c ∷ s) = let rest = split b s in if c == b then [] ∷ rest else push_byte c rest

-- At most `n` pieces; the last one keeps its separators.
unfoldable pub split_n : ℕ → ℕ → Text → List Text
split_n b zero s = []
split_n b (suc zero) s = s ∷ []
split_n b (suc (suc n)) [] = [] ∷ []
split_n b (suc (suc n)) (c ∷ s) =
    let here = split_n b (suc n) s in
    let on = split_n b (suc (suc n)) s in if c == b then [] ∷ here else push_byte c on

unfoldable pub join : ℕ → List Text → Text
join b [] = []
join b (x ∷ []) = x
join b (x ∷ y ∷ r) = x ++ b ∷ join b (y ∷ r)

abbrev pub Free : ℕ → Text → Type 0
Free b s = has_byte b s ≡ false

pub split-Free_self : (b : ℕ) (x : Text) → Free b x → split b x ≡ x ∷ []
unfolding split has_byte
split-Free_self b [] h = refl
split-Free_self b (c ∷ x) h = ground (arith, split-Free_self b x)

pub split-append : (b : ℕ) (x s : Text) → Free b x → split b (x ++ b ∷ s) ≡ x ∷ split b s
unfolding split has_byte
split-append b [] s h = ground arith
split-append b (c ∷ x) s h = ground (arith, split-append b x s)

pub split_n-Free : (b n : ℕ) (x : Text) → Free b x → split_n b (suc n) x ≡ x ∷ []
unfolding split_n has_byte
split_n-Free b zero x h = refl
split_n-Free b (suc n) [] h = refl
split_n-Free b (suc n) (c ∷ x) h = ground (arith, split_n-Free b (suc n) x)

pub split_n-append :
    (b n : ℕ) (x s : Text)
    → Free b x
    → split_n b (suc (suc n)) (x ++ b ∷ s) ≡ x ∷ split_n b (suc n) s
unfolding split_n has_byte
split_n-append b n [] s h = ground arith
split_n-append b n (c ∷ x) s h = ground (arith, split_n-append b n x s)

-- A text either has no separator, or is a free piece, a separator and the rest.
pub cut_cases :
    (b : ℕ) (s : Text)
    → Free b s
      ⊎ record { piece : Text; rest : Text; free : Free b piece; whole : s ≡ piece ++ b ∷ rest }
unfolding has_byte
cut_cases b [] = inl refl
cut_cases b (c ∷ s) = elim (Bool-cases (c == b)) [
  | inl e ↦ inr (record { piece = []; rest = s; free = refl; whole = cc ((==_iff c b).0 e) })
  | inr n ↦ elim (cut_cases b s) [
    | inl f ↦ inl (rw (n, f) refl)
    | inr p ↦ inr (record {
      piece = c ∷ p.piece;
      rest = p.rest;
      free = rw (n, p.free) refl;
      whole = cc p.whole;
    })
  ]
]

join-push : (b c : ℕ) (xs : List Text) → join b (push_byte c xs) ≡ c ∷ join b xs
unfolding join
join-push b c [] = refl
join-push b c (x ∷ []) = refl
join-push b c (x ∷ y ∷ r) = refl

pub split-nonempty : (b : ℕ) (s : Text) → (x : Text) × (r : List Text) × (split b s ≡ x ∷ r)
unfolding split
split-nonempty b [] = ([], [], refl)
split-nonempty b (c ∷ s) = elim (Bool-cases (c == b)) [
  | inl e ↦ ([], split b s, rw e refl)
  | inr n ↦ let (x, r, e) = split-nonempty b s in (c ∷ x, r, rw (n, e) refl)
]

pub join-cons : (b : ℕ) (x y : Text) (r : List Text) → join b (x ∷ y ∷ r) ≡ x ++ b ∷ join b (y ∷ r)
unfolding join
join-cons b x y r = refl

pub join-one : (b : ℕ) (x : Text) → join b (x ∷ []) ≡ x
unfolding join
join-one b x = refl

join-separator :
    (b : ℕ) (xs : List Text) (x : Text) (r : List Text)
    → xs ≡ x ∷ r
    → join b ([] ∷ xs) ≡ b ∷ join b xs
unfolding join
join-separator b xs x r q = rw q refl

-- Joining the pieces gives the text back.
pub join-split : (b : ℕ) (s : Text) → join b (split b s) ≡ s
unfolding split
join-split b [] = join-one b []
join-split b (c ∷ s) = elim (Bool-cases (c == b)) [
  | inl e ↦
      let (x, r, q) = split-nonempty b s in
      rw e (join-separator b (split b s) x r q ∙ cc ((==_iff c b).0 e, join-split b s))
  | inr n ↦ rw n (join-push b c (split b s) ∙ ap (◌∷◌ c) (join-split b s))
]

-- Splitting the joined pieces gives them back, when none holds the separator.
pub split-join :
    (b : ℕ) (x : Text) (xs : List Text) → All (Free b) (x ∷ xs) → split b (join b (x ∷ xs)) ≡ x ∷ xs
split-join b x [] h = rw (join-one b x) (split-Free_self b x h.0)
split-join b x (y ∷ r) h =
    rw (join-cons b x y r, split-append b x (join b (y ∷ r)) h.0)
      (ap (◌∷◌ x) (split-join b y r h.1))

push_byte-Free :
    (b c : ℕ) (xs : List Text) → (c == b) ≡ false → All (Free b) xs → All (Free b) (push_byte c xs)
unfolding has_byte
push_byte-Free b c [] n h = (rw n refl, tt)
push_byte-Free b c (x ∷ xs) n h = (rw n h.0, h.1)

pub split-Free : (b : ℕ) (s : Text) → All (Free b) (split b s)
unfolding split has_byte
split-Free b [] = (refl, tt)
split-Free b (c ∷ s) = elim (Bool-cases (c == b)) [
  | inl e ↦ rw e (refl, split-Free b s)
  | inr n ↦ rw n (push_byte-Free b c (split b s) n (split-Free b s))
]

-- Where the pieces are more than one, the text is the first, a separator and the rest.
pub split_step :
    (b : ℕ) (s x y : Text) (r : List Text)
    → split b s ≡ x ∷ y ∷ r
    → (rest : Text) × Free b x × (s ≡ x ++ b ∷ rest) × (split b rest ≡ y ∷ r)
split_step b s x y r h = elim (cut_cases b s) [
  | inl f ↦ absurd (cc (split-Free_self b s f))
  | inr p ↦
      let q : p.piece ∷ split b p.rest ≡ x ∷ y ∷ r =
        cc (split-append b p.piece p.rest p.free, p.whole) in
      let e : p.piece ≡ x = cc in (p.rest, subst (Free b) e p.free, cc p.whole, cc)
]

pub split_n_step :
    (b n : ℕ) (s x y : Text) (r : List Text)
    → split_n b (suc (suc n)) s ≡ x ∷ y ∷ r
    → (rest : Text) × Free b x × (s ≡ x ++ b ∷ rest) × (split_n b (suc n) rest ≡ y ∷ r)
split_n_step b n s x y r h = elim (cut_cases b s) [
  | inl f ↦ absurd (cc (split_n-Free b (suc n) s f))
  | inr p ↦
      let q : p.piece ∷ split_n b (suc n) p.rest ≡ x ∷ y ∷ r =
        cc (split_n-append b n p.piece p.rest p.free, p.whole) in
      let e : p.piece ≡ x = cc in (p.rest, subst (Free b) e p.free, cc p.whole, cc)
]

-- A byte that is not the separator is in the joined text when it is in a piece.
pub Free-join : (b k : ℕ) (xs : List Text) → (b == k) ≡ false → All (Free k) xs → Free k (join b xs)
unfolding join has_byte
Free-join b k [] n h = refl
Free-join b k (x ∷ []) n h = h.0
Free-join b k (x ∷ y ∷ r) n h =
    has_byte-append k x (b ∷ join b (y ∷ r)) ∙ rw (h.0, n) (Free-join b k (y ∷ r) n h.1)

pub Free-append : (b : ℕ) (x y : Text) → Free b x → Free b y → Free b (x ++ y)
Free-append b x y hx hy = has_byte-append b x y ∙ rw (hx, hy) refl
