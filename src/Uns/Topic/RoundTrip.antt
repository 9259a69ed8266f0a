-- ===== src/Uns/Topic/RoundTrip.antt =====
-- `Parse` of plugins/uns/uns.go against the spelling of its result.
use colca.Prelude.{
  ◌≤◌, ◌++◌, Text, codes, split, join, has_prefix, length, List, [], ◌∷◌, ok, ltb, ◌≡◌, refl, ap,
  ◌∙◌, true, Free, All, arith, Bool-cases, inl, inr, split-Free, join-split, split-append,
  split-nonempty, ◌↔◌, sym,
}
use colca.Uns.Topic.{Parsed, max_topic_bytes, slash, parse, parse_segments, render}

-- The header segments hold no slash, and the contract is marked by its underscore.
pub record IsCanonical (p : Parsed) : Type 0 where
  pub prefix : Free slash p.prefix
  pub version : Free slash p.version
  pub contract : Free slash p.contract
  pub node : Free slash p.node_id
  pub marked : has_prefix p.contract (codes "_") ≡ true

render_lem :
    (a b c d e : Text)
    → join slash (a ∷ b ∷ c ∷ d ∷ e ∷ [])
      ≡ a ++ slash ∷ (b ++ slash ∷ (c ++ slash ∷ (d ++ slash ∷ e)))
unfolding join
render_lem a b c d e = refl

split-render :
    (a b c d e : Text)
    → Free slash a
    → Free slash b
    → Free slash c
    → Free slash d
    → split slash (join slash (a ∷ b ∷ c ∷ d ∷ e ∷ [])) ≡ a ∷ b ∷ c ∷ d ∷ split slash e
split-render a b c d e ha hb hc hd =
    rw
      (
        render_lem a b c d e,
        split-append slash a (b ++ slash ∷ (c ++ slash ∷ (d ++ slash ∷ e))) ha,
        split-append slash b (c ++ slash ∷ (d ++ slash ∷ e)) hb,
        split-append slash c (d ++ slash ∷ e) hc,
        split-append slash d e hd,
      )
      refl

join-render :
    (a b c d e : Text) (r : List Text)
    → join slash (a ∷ b ∷ c ∷ d ∷ join slash (e ∷ r) ∷ []) ≡ join slash (a ∷ b ∷ c ∷ d ∷ e ∷ r)
unfolding join
join-render a b c d e r = refl

parse_segments_sound :
    (segs : List Text) (p : Parsed)
    → All (Free slash) segs
    → parse_segments segs ≡ ok p
    → (render p ≡ join slash segs) × IsCanonical p
unfolding parse_segments render
parse_segments_sound (a ∷ b ∷ c ∷ d ∷ e ∷ r) p free h =
    elim (Bool-cases (has_prefix c (codes "_"))) [
      | inl m ↦
          let q : Parsed = record {
            prefix = a;
            version = b;
            contract = c;
            node_id = d;
            path = join slash (e ∷ r);
          } in
          let eq : p ≡ q = ground arith in
          rw eq (
            join-render a b c d e r,
            record {
              prefix = free.0;
              version = free.1.0;
              contract = free.1.1.0;
              node = free.1.1.1.0;
              marked = m;
            },
          )
      | inr n ↦ absurd (ground arith)
    ]
parse_segments_sound [] p free h = cc
parse_segments_sound (a ∷ []) p free h = cc
parse_segments_sound (a ∷ b ∷ []) p free h = cc
parse_segments_sound (a ∷ b ∷ c ∷ []) p free h = cc
parse_segments_sound (a ∷ b ∷ c ∷ d ∷ []) p free h = cc

parse-length : (t : Text) (p : Parsed) → parse t ≡ ok p → length t ≤ max_topic_bytes
unfolding parse
parse-length t p h = ground arith

pub parse-segments :
    (t : Text) (p : Parsed) → parse t ≡ ok p → parse_segments (split slash t) ≡ ok p
unfolding parse
parse-segments t p h = ground arith

pub parse-render : (t : Text) (p : Parsed) → parse t ≡ ok p → (render p ≡ t) × IsCanonical p
parse-render t p h =
    let (e, c) =
      parse_segments_sound (split slash t) p (split-Free slash t) (parse-segments t p h) in
    (e ∙ join-split slash t, c)

parse_segments_lem :
    (a b c d e : Text)
    → has_prefix c (codes "_") ≡ true
    → parse_segments (a ∷ b ∷ c ∷ d ∷ split slash e)
      ≡ ok (record { prefix = a; version = b; contract = c; node_id = d; path = e })
unfolding parse_segments
parse_segments_lem a b c d e m =
    let (x, r, q) = split-nonempty slash e in
    let back : join slash (x ∷ r) ≡ e = ap (join slash) (sym q) ∙ join-split slash e in
    rw (q, m, back) refl

pub render-parse :
    (p : Parsed) → IsCanonical p → length (render p) ≤ max_topic_bytes → parse (render p) ≡ ok p
unfolding parse render
render-parse p c fits = elim (Bool-cases (ltb max_topic_bytes (length (render p)))) [
  | inl big ↦ absurd (ground arith)
  | inr small ↦
      rw
        (
          small,
          split-render p.prefix p.version p.contract p.node_id p.path c.prefix c.version c.contract
              c.node,
        )
        (parse_segments_lem p.prefix p.version p.contract p.node_id p.path c.marked)
]

-- `Parse` accepts exactly the spellings, of at most 65535 bytes, of a decomposition whose first four
-- parts hold no slash and whose contract begins with an underscore, and returns that decomposition.
pub parse_iff :
    (t : Text) (p : Parsed)
    → (parse t ≡ ok p) ↔ ((render p ≡ t) × IsCanonical p × (length t ≤ max_topic_bytes))
parse_iff t p = (
  λ h. ((parse-render t p h).0, (parse-render t p h).1, parse-length t p h),
  λ (e, c, n). rw (← e) (render-parse p c (rw e n)),
)
