-- ===== src/Uns/Grant/Zones.antt =====
-- plugins/uns/authz.go: `parseZone` and the zones that `FormatGrant` writes.
use colca.Prelude.{
  ℕ, Text, codes, text_beq, text_beq_sound, has_prefix, cut_prefix, contains_any_free, has_byte,
  is_empty, split, join-split, [], ◌∷◌, ◌++◌, true, false, any, some, ok, ◌≡◌, refl, sym, ap, subst,
  ◌∙◌, arith, length, length-append, Bool-cases, Option-cases, inl, inr, Free, Free-join,
  Free-append, All-map, any-false, cut_prefix_sound, ◌⊎◌,
}
use colca.Uns.Topic.{slash}
use colca.Uns.Grant.{
  node_zone, node_relative, valid_element_id, trim_suffix, bad_segment, node_path, parse_node_zone,
  parse_trimmed, parse_zone, bare_element, zone_of_element, colon,
}

-- The zones that a grant may name: everything, the node, a local path below the node, an element.
pub data IsZone (z : Text) : Type 0 where
  whole : z ≡ codes "#" → IsZone z
  node : z ≡ node_zone → IsZone z
  below :
      (path : Text)
      → z ≡ (node_zone ++ codes "/") ++ path
      → is_empty path ≡ false
      → any bad_segment (split slash path) ≡ false
      → IsZone z
  element :
      is_empty z ≡ false → has_prefix z (codes "$") ≡ false → valid_element_id z ≡ true → IsZone z

node_path-IsZone :
    (z path r : Text) → z ≡ (node_zone ++ codes "/") ++ path → node_path z path ≡ ok r → IsZone r
unfolding node_path is_empty
node_path-IsZone z [] r e h = node (ground arith)
node_path-IsZone z (c ∷ path) r e h = elim (Bool-cases (any bad_segment (split slash (c ∷ path)))) [
  | inl b ↦ absurd (ground arith)
  | inr g ↦ below (c ∷ path) (ground arith) refl g
]

node_relative_path :
    (z path : Text)
    → node_relative z ≡ some path
    → ((z ≡ node_zone) × (path ≡ [])) ⊎ (z ≡ (node_zone ++ codes "/") ++ path)
unfolding node_relative
node_relative_path z path h = elim (Bool-cases (text_beq z node_zone)) [
  | inl e ↦ inl (text_beq_sound z node_zone e, ground arith)
  | inr n ↦ inr (cut_prefix_sound z (node_zone ++ codes "/") path (rw n at h))
]

parse_node_zone-IsZone : (z r : Text) → parse_node_zone z ≡ ok r → IsZone r
unfolding parse_node_zone
parse_node_zone-IsZone z r h = elim (Option-cases (node_relative z)) [
  | inl e ↦ absurd (ground arith)
  | inr (path, e) ↦
      let h' : node_path z path ≡ ok r = ground arith in
      elim (node_relative_path z path e) [
        | inl (q, p) ↦ node (unfold node_path in ground arith)
        | inr q ↦ node_path-IsZone z path r q h'
      ]
]

parse_trimmed-IsZone : (z r : Text) → parse_trimmed z ≡ ok r → IsZone r
unfolding parse_trimmed
parse_trimmed-IsZone z r h = elim (Bool-cases (is_empty z)) [
  | inl e ↦ absurd (ground arith)
  | inr n ↦ elim (Bool-cases (has_prefix z (codes "$"))) [
    | inl d ↦ parse_node_zone-IsZone z r (ground arith)
    | inr d ↦ elim (Bool-cases (valid_element_id z)) [
      | inl v ↦ let e : r ≡ z = ground arith in subst IsZone (sym e) (element n d v)
      | inr v ↦ absurd (ground arith)
    ]
  ]
]

pub parse_zone-IsZone : (z r : Text) → parse_zone z ≡ ok r → IsZone r
unfolding parse_zone
parse_zone-IsZone z r h = elim (Bool-cases (text_beq z (codes "#"))) [
  | inl e ↦ whole (ground arith)
  | inr n ↦ parse_trimmed-IsZone (trim_suffix (codes "/#") z) r (ground arith)
]

not_suffix : (c : ℕ) (e : Text) → text_beq (c ∷ (e ++ codes "/#")) (codes "/#") ≡ false
not_suffix c e = elim (Bool-cases (text_beq (c ∷ (e ++ codes "/#")) (codes "/#"))) [
  | inl b ↦ absurd (
      omega (
        arith,
        ap length (text_beq_sound (c ∷ (e ++ codes "/#")) (codes "/#") b),
        length-append e (codes "/#"),
      ))
  | inr n ↦ n
]

trim_suffix-append : (e : Text) → trim_suffix (codes "/#") (e ++ codes "/#") ≡ e
unfolding trim_suffix text_beq
trim_suffix-append [] = refl
trim_suffix-append (c ∷ e) = rw (not_suffix c e) (ap (◌∷◌ c) (trim_suffix-append e))

not_hash : (e : Text) → is_empty e ≡ false → text_beq (e ++ codes "/#") (codes "#") ≡ false
unfolding is_empty
not_hash e n = elim (Bool-cases (text_beq (e ++ codes "/#") (codes "#"))) [
  | inl b ↦ absurd (
      omega (
        arith,
        ap length (text_beq_sound (e ++ codes "/#") (codes "#") b),
        length-append e (codes "/#"),
      ))
  | inr n ↦ n
]

-- An element that is not `#` and not empty is written with `/#` behind it, and read back.
parse_zone_of :
    (e : Text)
    → text_beq e (codes "#") ≡ false
    → is_empty e ≡ false
    → parse_zone (zone_of_element (bare_element e)) ≡ parse_trimmed e
unfolding parse_zone zone_of_element bare_element
parse_zone_of e n m = rw (n, m, not_hash e m, trim_suffix-append e) refl

below_zone : Text → Text
below_zone path = (node_zone ++ codes "/") ++ path

node_relative-below : (path : Text) → node_relative (below_zone path) ≡ some path
unfolding node_relative text_beq cut_prefix below_zone
node_relative-below [] = refl
node_relative-below (c ∷ path) = refl

node_path_good :
    (z path : Text)
    → is_empty path ≡ false
    → any bad_segment (split slash path) ≡ false
    → node_path z path ≡ ok z
unfolding node_path is_empty
node_path_good z [] n g = cc
node_path_good z (c ∷ path) n g = rw g refl

parse_node_zone-below :
    (path : Text)
    → is_empty path ≡ false
    → any bad_segment (split slash path) ≡ false
    → parse_node_zone (below_zone path) ≡ ok (below_zone path)
unfolding parse_node_zone
parse_node_zone-below path n g =
    rw (node_relative-below path, parse_node_zone) (node_path_good (below_zone path) path n g)

parse_trimmed-below :
    (path : Text) → parse_trimmed (below_zone path) ≡ parse_node_zone (below_zone path)
unfolding parse_trimmed below_zone is_empty has_prefix
parse_trimmed-below [] = refl
parse_trimmed-below (c ∷ path) = refl

below-not_hash : (path : Text) → text_beq (below_zone path) (codes "#") ≡ false
unfolding below_zone text_beq
below-not_hash path = refl

below-nonempty : (path : Text) → is_empty (below_zone path) ≡ false
unfolding below_zone is_empty
below-nonempty path = refl

element-free :
    (z : Text) (b : ℕ)
    → valid_element_id z ≡ true
    → has_byte b (codes "/+#:") ≡ true
    → has_byte b z ≡ false
unfolding valid_element_id
element-free z b v m = contains_any_free z b (codes "/+#:") (ground arith) m

element-Free : (z : Text) → valid_element_id z ≡ true → Free colon z
element-Free z v = element-free z colon v (unfold has_byte in refl)

not_hash_element : (z : Text) → valid_element_id z ≡ true → text_beq z (codes "#") ≡ false
not_hash_element z v = elim (Bool-cases (text_beq z (codes "#"))) [
  | inl e ↦
      let h : has_byte b'#' z ≡ true =
        rw (text_beq_sound z (codes "#") e) (unfold has_byte in refl) in
      absurd (cc (element-free z b'#' v (unfold has_byte in refl)))
  | inr n ↦ n
]

-- A zone that a grant may name is read back from what `FormatGrant` writes for it.
pub parse-zone_of_element :
    (z : Text) → IsZone z → parse_zone (zone_of_element (bare_element z)) ≡ ok z
parse-zone_of_element z (whole e) =
    rw e (unfold parse_zone zone_of_element bare_element is_empty text_beq in refl)
parse-zone_of_element z (node e) = rw e (
    parse_zone_of node_zone (unfold text_beq in refl) (unfold is_empty in refl)
    ∙ (unfold parse_trimmed parse_node_zone node_relative text_beq has_prefix is_empty node_path in
        refl))
parse-zone_of_element z (below path e n g) =
    let e' : z ≡ below_zone path = unfold below_zone in e in
    rw e' (
      parse_zone_of (below_zone path) (below-not_hash path) (below-nonempty path)
      ∙ parse_trimmed-below path
      ∙ parse_node_zone-below path n g)
parse-zone_of_element z (element n d v) =
    parse_zone_of z (not_hash_element z v) n ∙ (unfold parse_trimmed in rw (n, d, v) refl)

segment-Free : (seg : Text) → bad_segment seg ≡ false → Free colon seg
unfolding bad_segment
segment-Free seg h =
    contains_any_free seg colon (codes "+#:$") (ground arith) (unfold has_byte in refl)

path-Free : (path : Text) → any bad_segment (split slash path) ≡ false → Free colon path
path-Free path g = subst (Free colon) (join-split slash path) (
    Free-join slash colon (split slash path) refl
      (All-map segment-Free (split slash path) (any-false bad_segment (split slash path) g)))

zone_of-Free : (z : Text) → Free colon z → Free colon (zone_of_element (bare_element z))
unfolding zone_of_element bare_element is_empty has_byte
zone_of-Free z f = elim (Bool-cases (text_beq z (codes "#"))) [
  | inl e ↦ rw e refl
  | inr n ↦ rw n (elim (Bool-cases (is_empty z)) [
    | inl e ↦ rw e refl
    | inr m ↦ rw m (Free-append colon z (codes "/#") f refl)
  ])
]

-- No such zone holds a colon, which would split the grant.
pub zone-Free : (z : Text) → IsZone z → Free colon (zone_of_element (bare_element z))
zone-Free z (whole e) = zone_of-Free z (rw e (unfold has_byte in refl))
zone-Free z (node e) = zone_of-Free z (rw e (unfold has_byte in refl))
zone-Free z (below path e n g) = zone_of-Free z (
    rw e (
      Free-append colon (node_zone ++ codes "/") path (unfold has_byte in refl) (path-Free path g)))
zone-Free z (element n d v) = zone_of-Free z (element-Free z v)
