-- ===== src/Prelude/Sort.antt =====
-- sort.Strings: bytewise order, by insertion.
use mathlib.Core.Path.{◌≡◌, refl}
use mathlib.Core.Logic.{◌⊎◌, inl, inr}
use mathlib.Core.Bool.{Bool, true, false, ◌&&◌}
use mathlib.Core.List.{List, [], ◌∷◌}
use native.Mathlib.Omega.{arith}
use colca.Prelude.Tests.{if◌then◌else◌, Bool-cases, ltb, ◌==◌}
use colca.Prelude.Lists.{In, All}
use colca.Prelude.Strings.{Text}

-- s <= t
pub text_leb : Text → Text → Bool
text_leb [] t = true
text_leb (c ∷ s) [] = false
text_leb (c ∷ s) (d ∷ t) = if ltb c d then true else c == d && text_leb s t

pub text_leb_total : (s t : Text) → text_leb s t ≡ false → text_leb t s ≡ true
unfolding text_leb
text_leb_total [] t h = cc
text_leb_total (c ∷ s) [] h = refl
text_leb_total (c ∷ s) (d ∷ t) h = ground (arith, text_leb_total s t)

insert_sorted : Text → List Text → List Text
insert_sorted x [] = x ∷ []
insert_sorted x (y ∷ r) = if text_leb x y then x ∷ y ∷ r else y ∷ insert_sorted x r

unfoldable pub sort : List Text → List Text
unfolding insert_sorted text_leb
sort [] = []
sort (x ∷ r) = insert_sorted x (sort r)

abbrev Below : Text → List Text → Type 0
Below x [] = Unit
Below x (y ∷ r) = text_leb x y ≡ true

abbrev pub IsSorted : List Text → Type 0
IsSorted [] = Unit
IsSorted (x ∷ r) = Below x r × IsSorted r

Below-insert_sorted :
    (x y : Text) (r : List Text) → text_leb y x ≡ true → Below y r → Below y (insert_sorted x r)
unfolding insert_sorted
Below-insert_sorted x y [] h b = h
Below-insert_sorted x y (z ∷ r) h b = ground arith

insert_sorted-IsSorted : (x : Text) (r : List Text) → IsSorted r → IsSorted (insert_sorted x r)
unfolding insert_sorted
insert_sorted-IsSorted x [] h = (tt, tt)
insert_sorted-IsSorted x (y ∷ r) h = elim (Bool-cases (text_leb x y)) [
  | inl e ↦ rw e (e, h)
  | inr n ↦
      rw n (Below-insert_sorted x y r (text_leb_total x y n) h.0, insert_sorted-IsSorted x r h.1)
]

pub sort-IsSorted : (xs : List Text) → IsSorted (sort xs)
unfolding sort
sort-IsSorted [] = tt
sort-IsSorted (x ∷ r) = insert_sorted-IsSorted x (sort r) (sort-IsSorted r)

insert_sorted-All {ℓ} :
    (P : Text → Type ℓ) (x : Text) (r : List Text) → P x → All P r → All P (insert_sorted x r)
unfolding insert_sorted
insert_sorted-All P x [] h hs = (h, tt)
insert_sorted-All P x (y ∷ r) h hs = elim (Bool-cases (text_leb x y)) [
  | inl e ↦ rw e (h, hs)
  | inr n ↦ rw n (hs.0, insert_sorted-All P x r h hs.1)
]

pub sort-All {ℓ} : (P : Text → Type ℓ) (xs : List Text) → All P xs → All P (sort xs)
unfolding sort
sort-All P [] h = tt
sort-All P (x ∷ r) h = insert_sorted-All P x (sort r) h.0 (sort-All P r h.1)

-- Sorting what is sorted changes nothing.
insert_sorted-Below : (x : Text) (r : List Text) → Below x r → insert_sorted x r ≡ x ∷ r
unfolding insert_sorted
insert_sorted-Below x [] b = refl
insert_sorted-Below x (y ∷ r) b = rw b refl

pub sort_of_sorted : (xs : List Text) → IsSorted xs → sort xs ≡ xs
unfolding sort
sort_of_sorted [] h = refl
sort_of_sorted (x ∷ r) h = rw (sort_of_sorted r h.1) (insert_sorted-Below x r h.0)

insert_sorted_cases :
    (x y a : Text) (r inner : List Text)
    → ((x ≡ a) ⊎ In a r → In a inner)
    → (x ≡ a) ⊎ ((y ≡ a) ⊎ In a r)
    → (y ≡ a) ⊎ In a inner
insert_sorted_cases x y a r inner k (inl e) = inr (k (inl e))
insert_sorted_cases x y a r inner k (inr (inl e)) = inl e
insert_sorted_cases x y a r inner k (inr (inr m)) = inr (k (inr m))

insert_sorted-In : (a x : Text) (r : List Text) → (x ≡ a) ⊎ In a r → In a (insert_sorted x r)
unfolding insert_sorted
insert_sorted-In a x [] m = m
insert_sorted-In a x (y ∷ r) m = elim (Bool-cases (text_leb x y)) [
  | inl e ↦ rw e m
  | inr n ↦ rw n (insert_sorted_cases x y a r (insert_sorted x r) (insert_sorted-In a x r) m)
]

pub sort-In : (a : Text) (xs : List Text) → In a xs → In a (sort xs)
unfolding sort
sort-In a [] m = m
sort-In a (x ∷ r) (inl e) = insert_sorted-In a x (sort r) (inl e)
sort-In a (x ∷ r) (inr m) = insert_sorted-In a x (sort r) (inr (sort-In a r m))

insert_sorted-nonempty :
    (x : Text) (r : List Text) → (y : Text) × (q : List Text) × (insert_sorted x r ≡ y ∷ q)
unfolding insert_sorted
insert_sorted-nonempty x [] = (x, [], refl)
insert_sorted-nonempty x (y ∷ r) = elim (Bool-cases (text_leb x y)) [
  | inl e ↦ (x, y ∷ r, rw e refl)
  | inr n ↦ (y, insert_sorted x r, rw n refl)
]

pub sort-nonempty :
    (x : Text) (r : List Text) → (y : Text) × (q : List Text) × (sort (x ∷ r) ≡ y ∷ q)
unfolding sort
sort-nonempty x r = insert_sorted-nonempty x (sort r)
