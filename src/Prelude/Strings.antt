-- ===== src/Prelude/Strings.antt =====
-- Go strings and byte slices as lists of bytes, with the functions of Go's `strings` that the
-- program calls on them.
use Prim.Native.Nat.{ℕ}
use Prim.Native.Char.{code}
use Prim.Native.String.{String}
use mathlib.Core.Path.{◌≡◌, refl}
use mathlib.Core.Logic.{◌↔◌, inl, inr}
use mathlib.Core.Bool.{Bool, true, false, ◌&&◌, ◌||◌}
use mathlib.Core.List.{List, [], ◌∷◌, ◌++◌}
use mathlib.Core.Option.{Option, none, some}
use native.Mathlib.Omega.{arith}
use colca.Prelude.Lists.{any, all}
use colca.Prelude.Tests.{
  ◌==◌, ==_iff, if◌then◌else◌, Eq, and-eq-true, or-eq-true, Bool-cases, ==_refl,
}

abbrev pub Text : Type 0
Text = List ℕ

-- A literal: its bytes, as the program's literals are ASCII.
abbrev pub codes : String → Text
codes String.[] = []
codes (String.◌∷◌ c s) = code c ∷ codes s

unfoldable pub text_beq : Text → Text → Bool
text_beq [] [] = true
text_beq [] (d ∷ t) = false
text_beq (c ∷ s) [] = false
text_beq (c ∷ s) (d ∷ t) = c == d && text_beq s t

pub text_beq_sound : (s t : Text) → text_beq s t ≡ true → s ≡ t
unfolding text_beq
text_beq_sound [] [] h = refl
text_beq_sound [] (d ∷ t) h = cc
text_beq_sound (c ∷ s) [] h = cc
text_beq_sound (c ∷ s) (d ∷ t) h =
    let (e, r) = and-eq-true (c == d) (text_beq s t) h in
    cc ((==_iff c d).0 e, text_beq_sound s t r)

pub text_beq_refl : (s : Text) → text_beq s s ≡ true
unfolding text_beq
text_beq_refl [] = refl
text_beq_refl (c ∷ s) = rw (==_refl c, text_beq_refl s) refl

pub text_beq_iff : (s t : Text) → (text_beq s t ≡ true) ↔ (s ≡ t)
text_beq_iff s t = (text_beq_sound s t, λ e. rw e (text_beq_refl t))

instance abbrev pub text_eq : Eq Text
text_eq = record { beq = text_beq; beq_iff = text_beq_iff }

-- strings.HasPrefix
unfoldable pub has_prefix : Text → Text → Bool
has_prefix s [] = true
has_prefix [] (d ∷ p) = false
has_prefix (c ∷ s) (d ∷ p) = c == d && has_prefix s p

-- strings.CutPrefix: what is left of `s` behind the prefix
unfoldable pub cut_prefix : Text → Text → Option Text
cut_prefix s [] = some s
cut_prefix [] (d ∷ p) = none
cut_prefix (c ∷ s) (d ∷ p) = if c == d then cut_prefix s p else none

-- strings.IndexByte(s, b) >= 0
unfoldable pub has_byte : ℕ → Text → Bool
has_byte b [] = false
has_byte b (c ∷ s) = c == b || has_byte b s

-- strings.ContainsAny(s, chars)
unfoldable pub contains_any : Text → Text → Bool
contains_any s [] = false
contains_any s (b ∷ chars) = has_byte b s || contains_any s chars

unfoldable pub is_empty : Text → Bool
is_empty [] = true
is_empty (c ∷ s) = false

pub cut_prefix-append : (p r : Text) → cut_prefix (p ++ r) p ≡ some r
unfolding cut_prefix
cut_prefix-append [] r = refl
cut_prefix-append (d ∷ p) r = rw (==_refl d) (cut_prefix-append p r)

pub cut_prefix_sound : (s p r : Text) → cut_prefix s p ≡ some r → s ≡ p ++ r
unfolding cut_prefix
cut_prefix_sound s [] r h = ground arith
cut_prefix_sound [] (d ∷ p) r h = cc
cut_prefix_sound (c ∷ s) (d ∷ p) r h = elim (Bool-cases (c == d)) [
  | inl e ↦ cc ((==_iff c d).0 e, cut_prefix_sound s p r (rw e at h))
  | inr n ↦ ground arith
]

pub has_prefix-append : (p r : Text) → has_prefix (p ++ r) p ≡ true
unfolding has_prefix
has_prefix-append [] [] = refl
has_prefix-append [] (c ∷ r) = refl
has_prefix-append (d ∷ p) r = rw (==_refl d, has_prefix-append p r) refl

-- The prefix is there exactly when the text goes on from it.
pub has_prefix_split : (s p : Text) → has_prefix s p ≡ true → (r : Text) × (s ≡ p ++ r)
unfolding has_prefix
has_prefix_split s [] h = (s, refl)
has_prefix_split [] (d ∷ p) h = cc
has_prefix_split (c ∷ s) (d ∷ p) h =
    let (e, q) = and-eq-true (c == d) (has_prefix s p) h in
    let (r, f) = has_prefix_split s p q in (r, cc ((==_iff c d).0 e))

pub has_byte-append : (b : ℕ) (s t : Text) → has_byte b (s ++ t) ≡ (has_byte b s || has_byte b t)
unfolding has_byte
has_byte-append b [] t = refl
has_byte-append b (c ∷ s) t = ground (arith, has_byte-append b s t)

abbrev pub is_some {ℓ} : {A : Type ℓ} → Option A → Bool
is_some none = false
is_some (some a) = true

pub cut_prefix-has_prefix : (s p : Text) → is_some (cut_prefix s p) ≡ has_prefix s p
unfolding cut_prefix has_prefix
cut_prefix-has_prefix [] [] = refl
cut_prefix-has_prefix (c ∷ s) [] = refl
cut_prefix-has_prefix [] (d ∷ p) = refl
cut_prefix-has_prefix (c ∷ s) (d ∷ p) = ground (arith, cut_prefix-has_prefix s p)

-- A text out of a list has what all texts of the list have.
pub one_of_all :
    (p : Text → Bool) (t : Text) (names : List Text)
    → any (text_beq t) names ≡ true
    → all p names ≡ true
    → p t ≡ true
one_of_all p t [] h a = cc
one_of_all p t (n ∷ ns) h a =
    let (first, rest) = and-eq-true (p n) (all p ns) a in
    elim (or-eq-true (text_beq t n) (any (text_beq t) ns) h) [
      | inl e ↦ rw (text_beq_sound t n e) first
      | inr m ↦ one_of_all p t ns m rest
    ]

pub contains_any_free :
    (s : Text) (b : ℕ) (chars : Text)
    → contains_any s chars ≡ false
    → has_byte b chars ≡ true
    → has_byte b s ≡ false
unfolding contains_any has_byte
contains_any_free s b [] h m = cc
contains_any_free s b (c ∷ chars) h m = ground (arith, contains_any_free s b chars)
