-- ===== src/Uns/Authz/Subscribe.antt =====
-- plugins/uns/authz.go: a subscription against the reading of the records that it delivers.
use colca.Prelude.{
  Text, codes, text_beq, text_beq_sound, text_beq_refl, is_empty, split, join, List, [], ◌∷◌, ◌++◌,
  true, false, not, ◌&&◌, any, Option, some, none, ok, ◌≡◌, refl, sym, ap, subst, ◌∙◌, arith,
  Bool-cases, inl, inr, ◌⊎◌, or_true, and-eq-true, In, any-In, In-any, Option-cases,
}
use colca.Uns.Topic.{Parsed, slash, parse}
use colca.Uns.Entry.{Entry, valid_root, is_local}
use colca.Uns.Authz.{
  whole, cover_path, covered, Scope, read_zones, service_details, local_service_read,
  fixed_segments, fixed_path_prefix, first_reaches, read_record, sub, sub_zone, authorize,
}
use colca.Uns.Authz.Cover.{cover-join, Covers-cover_path}
use colca.Uns.Authz.Matching.{
  Matches, Matches-same, parse-IsTopic, fixed_segments_sound, root-literal, literal_of,
}

service_parts :
    (a b c root : Text)
    → (text_beq a root && (text_beq b (codes "v1") && text_beq c (codes "_ServiceDetails"))) ≡ true
    → (text_beq a root ≡ true)
      × (text_beq b (codes "v1") ≡ true)
      × (text_beq c (codes "_ServiceDetails") ≡ true)
service_parts a b c root h = ground arith

-- A filter that names the service details names them in every topic of five segments that it matches.
service_details_sound :
    (root : Text) (fs : List Text) (a b c d e : Text) (r : List Text)
    → valid_root root ≡ true
    → Matches fs (a ∷ b ∷ c ∷ d ∷ e ∷ r)
    → service_details root fs ≡ true
    → service_details root (a ∷ b ∷ c ∷ d ∷ e ∷ r) ≡ true
unfolding service_details
service_details_sound root (fa ∷ fb ∷ fc ∷ fd ∷ fr) a b c d e r v m h =
    let (ha, hb, hc) = service_parts fa fb fc root h in
    let (n1, n2) = root-literal root v in
    let (ea, ma) =
      Matches-same fa a (fb ∷ fc ∷ fd ∷ fr) (b ∷ c ∷ d ∷ e ∷ r)
        (literal_of fa root (codes "#") ha n1) (literal_of fa root (codes "+") ha n2) m in
    let (eb, mb) =
      Matches-same fb b (fc ∷ fd ∷ fr) (c ∷ d ∷ e ∷ r)
        (literal_of fb (codes "v1") (codes "#") hb (unfold text_beq in refl))
        (literal_of fb (codes "v1") (codes "+") hb (unfold text_beq in refl)) ma in
    let (ec, mc) =
      Matches-same fc c (fd ∷ fr) (d ∷ e ∷ r)
        (literal_of fc (codes "_ServiceDetails") (codes "#") hc (unfold text_beq in refl))
        (literal_of fc (codes "_ServiceDetails") (codes "+") hc (unfold text_beq in refl)) mb in
    rw (← ea, ← eb, ← ec) h
service_details_sound root [] a b c d e r v m h = absurd m
service_details_sound root (fa ∷ []) a b c d e r v m h = cc
service_details_sound root (fa ∷ fb ∷ []) a b c d e r v m h = cc
service_details_sound root (fa ∷ fb ∷ fc ∷ []) a b c d e r v m h = cc

-- A filter that matches a topic under the root reaches the root.
first_reaches_root :
    (root : Text) (fs ts : List Text) → Matches fs (root ∷ ts) → first_reaches root fs ≡ true
unfolding first_reaches
first_reaches_root root [] ts m = absurd m
first_reaches_root root (f ∷ fs) ts (inl e) =
    rw e (rw (text_beq_refl (codes "#"), or_true) (or_true (text_beq (codes "#") root)))
first_reaches_root root (f ∷ fs) ts (inr (inl e, m)) =
    rw e (rw (text_beq_refl (codes "+")) (or_true (text_beq (codes "+") root)))
first_reaches_root root (f ∷ fs) ts (inr (inr e, m)) = rw (e, text_beq_refl root) refl

module _ (root : Text) (sc : Option Scope) (e : Entry) where
  sub_cases :
      (filter : Text)
      → authorize root sc e sub filter ≡ true
      → (local_service_read root e filter ≡ true)
        ⊎ ((fixed_path_prefix root filter ≡ none)
            ⊎ ((fixed : Text) × (fixed_path_prefix root filter ≡ some fixed)
                × (any (sub_zone fixed) (read_zones sc e) ≡ true)))
  unfolding authorize
  sub_cases filter h = elim (Option-cases (fixed_path_prefix root filter)) [
    | inl n ↦ inr (inl n)
    | inr (fixed, q) ↦ elim (Bool-cases (local_service_read root e filter)) [
      | inl l ↦ inl l
      | inr l ↦ inr (inr (fixed, q, ground arith))
    ]
  ]

  read_of_covered :
      (topic : Text) (p : Parsed)
      → parse topic ≡ ok p
      → covered (read_zones sc e) p.path ≡ true
      → authorize root sc e read_record topic ≡ true
  unfolding authorize
  read_of_covered topic p q h = ground arith

  read_of_local :
      (topic : Text) (p : Parsed)
      → parse topic ≡ ok p
      → local_service_read root e topic ≡ true
      → authorize root sc e read_record topic ≡ true
  unfolding authorize
  read_of_local topic p q h = ground arith

  sub_zone-covers :
      (fixed z : Text) (fs r : List Text)
      → fixed ≡ join slash fs
      → sub_zone fixed z ≡ true
      → cover_path z (join slash (fs ++ r)) ≡ true
  unfolding sub_zone
  sub_zone-covers fixed z fs r q h = elim (Bool-cases (text_beq z whole)) [
    | inl w ↦ Covers-cover_path z (join slash (fs ++ r)) (inl (text_beq_sound z whole w))
    | inr n ↦
        let (ne, c) = and-eq-true (not (is_empty fixed)) (cover_path z fixed) (rw n at h) in
        cover-join z fs r (ground arith) (rw (← q) c)
  ]

fixed_some :
    (root filter fixed : Text)
    → fixed_path_prefix root filter ≡ some fixed
    → fixed ≡ join slash (fixed_segments 0 (split slash filter))
unfolding fixed_path_prefix
fixed_some root filter fixed h = ground arith

fixed_none :
    (root filter : Text)
    → fixed_path_prefix root filter ≡ none
    → first_reaches root (split slash filter) ≡ false
unfolding fixed_path_prefix
fixed_none root filter h = ground arith

In-covered :
    (zones : List Text) (z path : Text)
    → In z zones
    → cover_path z path ≡ true
    → covered zones path ≡ true
unfolding covered
In-covered zones z path m h = In-any (λ w. cover_path w path) zones z m h

local_service_read_parts :
    (root : Text) (e : Entry) (filter topic : Text)
    → (service_details root (split slash filter) ≡ true
        → service_details root (split slash topic) ≡ true)
    → local_service_read root e filter ≡ true
    → local_service_read root e topic ≡ true
unfolding local_service_read
local_service_read_parts root e filter topic k h = elim (Bool-cases (is_local e.kind)) [
  | inl l ↦ rw l (k (rw l at h))
  | inr n ↦ absurd (cc (rw n at h))
]

-- A subscription delivers nothing that its holder may not read. If `Authorize` admits the filter,
-- under a valid root, then it admits reading each record of the namespace whose topic the filter
-- matches: whatever the entry, its grants and placement, and the node's view of the elements.
pub subscribe_sound :
    (root : Text) (sc : Option Scope) (e : Entry) (filter topic : Text) (p : Parsed)
    → valid_root root ≡ true
    → parse topic ≡ ok p
    → p.prefix ≡ root
    → Matches (split slash filter) (split slash topic)
    → authorize root sc e sub filter ≡ true
    → authorize root sc e read_record topic ≡ true
subscribe_sound root sc e filter topic p v q u m h =
    let t = parse-IsTopic topic p q in
    let segs : split slash topic ≡ root ∷ p.version ∷ p.contract ∷ p.node_id ∷ t.e ∷ t.r =
      t.segments ∙ ap (λ x. x ∷ p.version ∷ p.contract ∷ p.node_id ∷ t.e ∷ t.r) u in
    let m' : Matches (split slash filter) (root ∷ p.version ∷ p.contract ∷ p.node_id ∷ t.e ∷ t.r) =
      subst (Matches (split slash filter)) segs m in
    elim (sub_cases root sc e filter h) [
      | inl l ↦ read_of_local root sc e topic p q (
          local_service_read_parts root e filter topic
            (λ d.
              subst (λ x. service_details root x ≡ true) (sym segs)
                (service_details_sound root (split slash filter) root p.version p.contract p.node_id
                  t.e t.r v m' d))
            l)
      | inr (inl n) ↦ absurd (
          cc (
            fixed_none root filter n,
            first_reaches_root root (split slash filter)
                (p.version ∷ p.contract ∷ p.node_id ∷ t.e ∷ t.r) m',
          ))
      | inr (inr (fixed, f, z)) ↦
          let (w, mem, sz) = any-In (sub_zone fixed) (read_zones sc e) z in
          let (r, d) =
            fixed_segments_sound 0 (split slash filter)
              (root ∷ p.version ∷ p.contract ∷ p.node_id ∷ t.e ∷ t.r) m' in
          let path : p.path ≡ join slash (fixed_segments 0 (split slash filter) ++ r) =
            t.path ∙ ap (join slash) d in
          read_of_covered root sc e topic p q (
            In-covered (read_zones sc e) w p.path mem (
              rw path (
                sub_zone-covers root sc e fixed w (fixed_segments 0 (split slash filter)) r
                  (fixed_some root filter fixed f) sz)))
    ]
