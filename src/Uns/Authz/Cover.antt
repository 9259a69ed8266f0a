-- ===== src/Uns/Authz/Cover.antt =====
-- plugins/uns/authz.go: coverage of a path by a zone.
use colca.Prelude.{
  ℕ, Text, codes, text_beq, text_beq_sound, text_beq_refl, has_prefix, has_prefix-append,
  has_prefix_split, is_empty, join, join-cons, join-one, List, [], ◌∷◌, ◌++◌, Bool, true, false,
  ◌||◌, ◌≡◌, refl, sym, ap, ◌∙◌, arith, Bool-cases, inl, inr, ◌⊎◌, ◌↔◌, or-eq-true, or_true,
  append_assoc, append-nil, any-In, In-any, Option,
}
use colca.Uns.Topic.{slash}
use colca.Uns.Entry.{Entry}
use colca.Uns.Authz.{whole, cover_path, covered, Scope, read_zones, authorize_browse}

-- What a zone covers: everything, itself, or a path that goes on behind it at a slash.
abbrev pub Covers : Text → Text → Type 0
Covers zone path = (zone ≡ whole) ⊎ ((path ≡ zone) ⊎ ((r : Text) × (path ≡ zone ++ slash ∷ r)))

has_prefix-slash :
    (p z : Text) → has_prefix p (z ++ codes "/") ≡ true → (r : Text) × (p ≡ z ++ slash ∷ r)
has_prefix-slash p z h =
    let (r, e) = has_prefix_split p (z ++ codes "/") h in (r, e ∙ append_assoc z (codes "/") r)

slash-has_prefix : (p z r : Text) → p ≡ z ++ slash ∷ r → has_prefix p (z ++ codes "/") ≡ true
slash-has_prefix p z r e =
    rw (e, ← append_assoc z (codes "/") r) (has_prefix-append (z ++ codes "/") r)

pub cover_path-Covers : (z p : Text) → cover_path z p ≡ true → Covers z p
unfolding cover_path
cover_path-Covers z p h = elim (Bool-cases (text_beq z whole)) [
  | inl e ↦ inl (text_beq_sound z whole e)
  | inr n ↦ elim (or-eq-true (text_beq p z) (has_prefix p (z ++ codes "/")) (rw n at h)) [
    | inl e ↦ inr (inl (text_beq_sound p z e))
    | inr q ↦ inr (inr (has_prefix-slash p z q))
  ]
]

cover_of_or :
    (z p : Text) → (text_beq p z || has_prefix p (z ++ codes "/")) ≡ true → cover_path z p ≡ true
unfolding cover_path
cover_of_or z p h = ground arith

pub Covers-cover_path : (z p : Text) → Covers z p → cover_path z p ≡ true
Covers-cover_path z p (inl e) = rw e (unfold cover_path text_beq in refl)
Covers-cover_path z p (inr (inl e)) = cover_of_or z p (rw (e, text_beq_refl z) refl)
Covers-cover_path z p (inr (inr (r, e))) =
    cover_of_or z p
      (ap (λ b. text_beq p z || b) (slash-has_prefix p z r e) ∙ or_true (text_beq p z))

-- A zone covers exactly itself and what lies below it at a slash, so `werk10` is not below `werk1`;
-- `#` covers everything.
pub cover_path_iff : (z p : Text) → (cover_path z p ≡ true) ↔ Covers z p
cover_path_iff z p = (cover_path-Covers z p, Covers-cover_path z p)

Covers-below : (z p x : Text) → Covers z p → Covers z (p ++ slash ∷ x)
Covers-below z p x (inl e) = inl e
Covers-below z p x (inr (inl e)) = inr (inr (x, ap (λ y. y ++ slash ∷ x) e))
Covers-below z p x (inr (inr (r, e))) =
    inr (inr (r ++ slash ∷ x, ap (λ y. y ++ slash ∷ x) e ∙ append_assoc z (slash ∷ r) (slash ∷ x)))

-- What covers a path covers everything below the path.
pub cover_path-below : (z p x : Text) → cover_path z p ≡ true → cover_path z (p ++ slash ∷ x) ≡ true
cover_path-below z p x h =
    Covers-cover_path z (p ++ slash ∷ x) (Covers-below z p x (cover_path-Covers z p h))

join-append :
    (x y : Text) (xs ys : List Text)
    → join slash ((x ∷ xs) ++ (y ∷ ys)) ≡ join slash (x ∷ xs) ++ slash ∷ join slash (y ∷ ys)
join-append x y [] ys = rw (join-cons slash x y ys, join-one slash x) refl
join-append x y (w ∷ xs) ys =
    join-cons slash x w (xs ++ (y ∷ ys))
    ∙ ap (λ t. x ++ slash ∷ t) (join-append w y xs ys)
    ∙ sym (append_assoc x (slash ∷ join slash (w ∷ xs)) (slash ∷ join slash (y ∷ ys)))
    ∙ ap (λ t. t ++ slash ∷ join slash (y ∷ ys)) (sym (join-cons slash x w xs))

join-nil : is_empty (join slash []) ≡ true
unfolding join is_empty
join-nil = refl

-- What covers the join of the first segments of a path covers the path.
pub cover-join :
    (z : Text) (front back : List Text)
    → is_empty (join slash front) ≡ false
    → cover_path z (join slash front) ≡ true
    → cover_path z (join slash (front ++ back)) ≡ true
cover-join z [] back n h = cc join-nil
cover-join z (x ∷ xs) [] n h = rw (append-nil (x ∷ xs)) h
cover-join z (x ∷ xs) (y ∷ ys) n h =
    rw (join-append x y xs ys) (cover_path-below z (join slash (x ∷ xs)) (join slash (y ∷ ys)) h)

-- How two texts stand to one another that a third begins with, each at a slash.
abbrev Comparable : Text → Text → Type 0
Comparable a z =
    (a ≡ z) ⊎ (((x : Text) × (a ≡ z ++ slash ∷ x)) ⊎ ((x : Text) × (z ≡ a ++ slash ∷ x)))

Comparable-cons : (c d : ℕ) (a z : Text) → c ≡ d → Comparable a z → Comparable (c ∷ a) (d ∷ z)
Comparable-cons c d a z h (inl e) = inl (cc)
Comparable-cons c d a z h (inr (inl (x, e))) = inr (inl (x, cc))
Comparable-cons c d a z h (inr (inr (x, e))) = inr (inr (x, cc))

same_start : (a z r s : Text) → a ++ slash ∷ r ≡ z ++ slash ∷ s → Comparable a z
same_start [] [] r s e = inl refl
same_start [] (d ∷ z) r s e = inr (inr (z, cc))
same_start (c ∷ a) [] r s e = inr (inl (a, cc))
same_start (c ∷ a) (d ∷ z) r s e =
    let tails : a ++ slash ∷ r ≡ z ++ slash ∷ s = cc in
    Comparable-cons c d a z (cc) (same_start a z r s tails)

-- The test of `AuthorizeBrowse` on one zone.
abbrev browses : Text → Text → Bool
browses z path = cover_path z path || has_prefix z (path ++ codes "/")

Covers-Browses : (z a x : Text) → Covers z (a ++ slash ∷ x) → browses z a ≡ true
Covers-Browses z a x (inl e) = rw (Covers-cover_path z a (inl e)) refl
Covers-Browses z a x (inr (inl e)) =
    ap (λ b. cover_path z a || b) (slash-has_prefix z a x (sym e)) ∙ or_true (cover_path z a)
Covers-Browses z a x (inr (inr (r, e))) = elim (same_start a z x r e) [
  | inl q ↦ rw (Covers-cover_path z a (inr (inl q))) refl
  | inr (inl (y, q)) ↦ rw (Covers-cover_path z a (inr (inr (y, q)))) refl
  | inr (inr (y, q)) ↦
      ap (λ b. cover_path z a || b) (slash-has_prefix z a y q) ∙ or_true (cover_path z a)
]

-- Whoever may read a path may browse every folder above it.
pub covered-browse :
    (sc : Option Scope) (e : Entry) (a x : Text)
    → covered (read_zones sc e) (a ++ slash ∷ x) ≡ true
    → authorize_browse sc e a ≡ true
unfolding covered authorize_browse
covered-browse sc e a x h =
    let (z, m, c) = any-In (λ z. cover_path z (a ++ slash ∷ x)) (read_zones sc e) h in
    In-any (λ w. browses w a) (read_zones sc e) z m
      (Covers-Browses z a x (cover_path-Covers z (a ++ slash ∷ x) c))
