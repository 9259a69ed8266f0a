-- ===== src/Uns/Authz/Matching.antt =====
-- plugins/uns/authz.go: the segments of an MQTT filter against those of the topics that it matches.
use colca.Prelude.{
  ℕ, suc, ◌-◌, Text, codes, text_beq, text_beq_sound, text_beq_refl, split, join, List, [], ◌∷◌,
  ◌++◌, true, false, ltb, ok, ◌≡◌, refl, sym, ap, subst, ◌∙◌, arith, Bool-cases, inl, inr, ◌⊎◌,
  drop,
}
use colca.Uns.Topic.{Parsed, slash, parse, parse_segments}
use colca.Uns.Topic.RoundTrip.{parse-segments}
use colca.Uns.Entry.{valid_root}
use colca.Uns.Authz.{fixed_segments}

-- MQTT's matching of a topic's segments by a filter's: `#` matches any rest, `+` any one segment, and
-- every other segment itself. (MQTT admits `#` at the end alone; here it may stand anywhere.)
abbrev pub Matches : List Text → List Text → Type 0
Matches [] [] = Unit
Matches [] (t ∷ ts) = ⊥
Matches (f ∷ fs) [] = f ≡ codes "#"
Matches (f ∷ fs) (t ∷ ts) = (f ≡ codes "#") ⊎ (((f ≡ codes "+") ⊎ (f ≡ t)) × Matches fs ts)

hash_absurd : (f : Text) → text_beq f (codes "#") ≡ false → f ≡ codes "#" → ⊥
hash_absurd f n e = cc (ap (λ x. text_beq x (codes "#")) e, text_beq_refl (codes "#"))

plus_absurd : (f : Text) → text_beq f (codes "+") ≡ false → f ≡ codes "+" → ⊥
plus_absurd f n e = cc (ap (λ x. text_beq x (codes "+")) e, text_beq_refl (codes "+"))

drop_all : (i : ℕ) (ts : List Text) → ltb i 4 ≡ false → drop (4 - i) ts ≡ ts
drop_all i ts h = let e : 4 - i ≡ 0 = ground arith in rw e refl

drop_next :
    (i : ℕ) (t : Text) (ts : List Text)
    → ltb i 4 ≡ true
    → drop (4 - i) (t ∷ ts) ≡ drop (4 - suc i) ts
drop_next i t ts h = let e : 4 - i ≡ suc (4 - suc i) = ground arith in rw e refl

pub Matches-next :
    (f t : Text) (fs ts : List Text)
    → text_beq f (codes "#") ≡ false
    → Matches (f ∷ fs) (t ∷ ts)
    → ((f ≡ codes "+") ⊎ (f ≡ t)) × Matches fs ts
Matches-next f t fs ts n (inl e) = absurd (hash_absurd f n e)
Matches-next f t fs ts n (inr m) = m

pub Matches-same :
    (f t : Text) (fs ts : List Text)
    → text_beq f (codes "#") ≡ false
    → text_beq f (codes "+") ≡ false
    → Matches (f ∷ fs) (t ∷ ts)
    → (f ≡ t) × Matches fs ts
Matches-same f t fs ts n p m = elim (Matches-next f t fs ts n m).0 [
  | inl e ↦ absurd (plus_absurd f p e)
  | inr e ↦ (e, (Matches-next f t fs ts n m).1)
]

-- The fixed segments begin the path of every topic that the filter matches.
pub fixed_segments_sound :
    (i : ℕ) (fs ts : List Text)
    → Matches fs ts
    → (r : List Text) × (drop (4 - i) ts ≡ fixed_segments i fs ++ r)
unfolding fixed_segments
fixed_segments_sound i [] ts m = (drop (4 - i) ts, refl)
fixed_segments_sound i (f ∷ fs) [] m = (drop (4 - i) [], rw (m, text_beq_refl (codes "#")) refl)
fixed_segments_sound i (f ∷ fs) (t ∷ ts) m = elim (Bool-cases (text_beq f (codes "#"))) [
  | inl e ↦ (drop (4 - i) (t ∷ ts), rw e refl)
  | inr n ↦ elim (Bool-cases (ltb i 4)) [
    | inl low ↦
        let (r, q) = fixed_segments_sound (suc i) fs ts (Matches-next f t fs ts n m).1 in
        (r, rw (n, low) (drop_next i t ts low ∙ q))
    | inr high ↦ elim (Bool-cases (text_beq f (codes "+"))) [
      | inl p ↦ (drop (4 - i) (t ∷ ts), rw (n, high, p) refl)
      | inr p ↦
          let (e, m') = Matches-same f t fs ts n p m in
          let (r, q) = fixed_segments_sound (suc i) fs ts m' in
          let next : ltb (suc i) 4 ≡ false = ground arith in
          let q' : ts ≡ fixed_segments (suc i) fs ++ r = sym (drop_all (suc i) ts next) ∙ q in
          (r, rw (n, high, p) (drop_all i (t ∷ ts) high ∙ cc))
    ]
  ]
]

-- A topic that parses, by its segments.
pub record IsTopic (t : Text) (p : Parsed) : Type 0 where
  pub e : Text
  pub r : List Text
  pub segments : split slash t ≡ p.prefix ∷ p.version ∷ p.contract ∷ p.node_id ∷ e ∷ r
  pub path : p.path ≡ join slash (e ∷ r)

IsTopic-parse_segments :
    (t : Text) (p : Parsed) (segs : List Text)
    → split slash t ≡ segs
    → parse_segments segs ≡ ok p
    → IsTopic t p
unfolding parse_segments
IsTopic-parse_segments t p (a ∷ b ∷ c ∷ d ∷ e ∷ r) q h = record {
  e = e;
  r = r;
  segments = q ∙ (ground arith);
  path = ground arith;
}
IsTopic-parse_segments t p [] q h = absurd (cc)
IsTopic-parse_segments t p (a ∷ []) q h = absurd (cc)
IsTopic-parse_segments t p (a ∷ b ∷ []) q h = absurd (cc)
IsTopic-parse_segments t p (a ∷ b ∷ c ∷ []) q h = absurd (cc)
IsTopic-parse_segments t p (a ∷ b ∷ c ∷ d ∷ []) q h = absurd (cc)

pub parse-IsTopic : (t : Text) (p : Parsed) → parse t ≡ ok p → IsTopic t p
parse-IsTopic t p h = IsTopic-parse_segments t p (split slash t) refl (parse-segments t p h)

-- A root is no wildcard.
pub root-literal :
    (root : Text)
    → valid_root root ≡ true
    → (text_beq root (codes "#") ≡ false) × (text_beq root (codes "+") ≡ false)
unfolding valid_root text_beq
root-literal [] h = cc
root-literal (c ∷ r) h = (ground arith, ground arith)

pub literal_of :
    (s t : Text) (w : Text) → text_beq s t ≡ true → text_beq t w ≡ false → text_beq s w ≡ false
literal_of s t w e n = subst (λ x. text_beq x w ≡ false) (sym (text_beq_sound s t e)) n
