-- ===== src/Uns/Mount/RoundTrip.antt =====
-- plugins/uns/uns.go: the hop up and the hop down against one another.
use colca.Prelude.{
  ◌≤◌, Text, codes, split_n, join, has_prefix, cut_prefix, is_empty, List, [], ◌∷◌, ◌++◌, true,
  false, not, Option, some, none, Free, split_n_step, split_n-append, ◌≡◌, refl, ap, sym, ◌∙◌,
  arith, ok, length, append_assoc, cut_prefix-append, cut_prefix_sound, has_prefix-append,
  has_prefix_split, subst, is_some, cut_prefix-has_prefix, ◌↔◌, and-eq-true,
}
use colca.Uns.Topic.{Parsed, slash, parse, render, max_topic_bytes}
use colca.Uns.Topic.RoundTrip.{IsCanonical, parse-render, render-parse}
use colca.Uns.Mount.{mount_insert, mount_strip, under_mount, strip_segments, strip_rest}

-- The topic a/b/c/d/e.
five : Text → Text → Text → Text → Text → Text
five a b c d e = join slash (a ∷ b ∷ c ∷ d ∷ e ∷ [])

five_lem :
    (a b c d e : Text)
    → five a b c d e ≡ a ++ slash ∷ (b ++ slash ∷ (c ++ slash ∷ (d ++ slash ∷ e)))
unfolding five join
five_lem a b c d e = refl

split_n_one : (e : Text) → split_n slash 1 e ≡ e ∷ []
unfolding split_n
split_n_one e = refl

split_n-five :
    (a b c d e : Text)
    → Free slash a
    → Free slash b
    → Free slash c
    → Free slash d
    → split_n slash 5 (five a b c d e) ≡ a ∷ b ∷ c ∷ d ∷ e ∷ []
split_n-five a b c d e ha hb hc hd =
    rw
      (
        five_lem a b c d e,
        split_n-append slash 3 a (b ++ slash ∷ (c ++ slash ∷ (d ++ slash ∷ e))) ha,
        split_n-append slash 2 b (c ++ slash ∷ (d ++ slash ∷ e)) hb,
        split_n-append slash 1 c (d ++ slash ∷ e) hc,
        split_n-append slash 0 d e hd,
        split_n_one e,
      )
      refl

-- A topic whose pieces are five is the topic of those pieces.
split_n-five_inverse :
    (t a b c d e : Text) (r : List Text)
    → split_n slash 5 t ≡ a ∷ b ∷ c ∷ d ∷ e ∷ r
    → (t ≡ five a b c d e) × Free slash a × Free slash b × Free slash c × Free slash d
split_n-five_inverse t a b c d e r h =
    let (s1, fa, e1, h1) = split_n_step slash 3 t a b (c ∷ d ∷ e ∷ r) h in
    let (s2, fb, e2, h2) = split_n_step slash 2 s1 b c (d ∷ e ∷ r) h1 in
    let (s3, fc, e3, h3) = split_n_step slash 1 s2 c d (e ∷ r) h2 in
    let (s4, fd, e4, h4) = split_n_step slash 0 s3 d e r h3 in
    let last : s4 ≡ e = cc (split_n_one s4) in (cc (five_lem a b c d e), fa, fb, fc, fd)

insert-five :
    (a b c d e m : Text)
    → Free slash a
    → Free slash b
    → Free slash c
    → Free slash d
    → mount_insert (five a b c d e) m ≡ five a b c d (m ++ slash ∷ e)
unfolding mount_insert
insert-five a b c d e m ha hb hc hd = rw (split_n-five a b c d e ha hb hc hd) (unfold five in refl)

strip-five :
    (a b c d e m : Text)
    → Free slash a
    → Free slash b
    → Free slash c
    → Free slash d
    → mount_strip (five a b c d e) m
      ≡ strip_rest (five a b c d e) a b c d (cut_prefix e (m ++ codes "/"))
unfolding mount_strip
strip-five a b c d e m ha hb hc hd = rw (split_n-five a b c d e ha hb hc hd) refl

cut_mount : (m e : Text) → cut_prefix (m ++ slash ∷ e) (m ++ codes "/") ≡ some e
cut_mount m e = rw (← append_assoc m (codes "/") e) (cut_prefix-append (m ++ codes "/") e)

render-five : (p : Parsed) → render p ≡ five p.prefix p.version p.contract p.node_id p.path
unfolding render five
render-five p = refl

insert-render :
    (p : Parsed) (m : Text)
    → IsCanonical p
    → mount_insert (render p) m ≡ render (record p { path = m ++ slash ∷ p.path })
insert-render p m c = rw (render-five p) (
    insert-five p.prefix p.version p.contract p.node_id p.path m c.prefix c.version c.contract
      c.node
    ∙ sym (render-five (record p { path = m ++ slash ∷ p.path })))

with_path-IsCanonical :
    (p : Parsed) (x : Text) → IsCanonical p → IsCanonical (record p { path = x })
with_path-IsCanonical p x c = record {
  prefix = c.prefix;
  version = c.version;
  contract = c.contract;
  node = c.node;
  marked = c.marked;
}

strip-render :
    (p : Parsed) (m : Text)
    → IsCanonical p
    → mount_strip (render p) m
      ≡ strip_rest
          (render p)
          p.prefix
          p.version
          p.contract
          p.node_id
          (cut_prefix p.path (m ++ codes "/"))
strip-render p m c = rw (render-five p) (
    strip-five p.prefix p.version p.contract p.node_id p.path m c.prefix c.version c.contract
      c.node)

strip-insert_render :
    (p : Parsed) (m : Text)
    → IsCanonical p
    → mount_strip (mount_insert (render p) m) m ≡ (render p, true)
strip-insert_render p m c =
    let q : Parsed = record p { path = m ++ slash ∷ p.path } in
    rw
      (insert-render p m c, strip-render q m (with_path-IsCanonical p q.path c), cut_mount m p.path)
      (unfold strip_rest render in refl)

-- Inserting a mount into a topic that parses and stripping it again gives the topic back.
pub strip-insert :
    (t m : Text) (p : Parsed) → parse t ≡ ok p → mount_strip (mount_insert t m) m ≡ (t, true)
strip-insert t m p h =
    let (e, c) = parse-render t p h in
    subst (λ x. mount_strip (mount_insert x m) m ≡ (x, true)) e (strip-insert_render p m c)

-- The topic that a hop up makes of one that parses, if it still fits, parses with the mount at the
-- head of the path, and with its prefix, version, contract and node as they were.
pub parse-insert :
    (t m : Text) (p : Parsed)
    → parse t ≡ ok p
    → length (mount_insert t m) ≤ max_topic_bytes
    → parse (mount_insert t m) ≡ ok (record p { path = m ++ slash ∷ p.path })
parse-insert t m p h fits =
    let (e, c) = parse-render t p h in
    let q : Parsed = record p { path = m ++ slash ∷ p.path } in
    let i : mount_insert t m ≡ render q =
      ap (λ x. mount_insert x m) (sym e) ∙ insert-render p m c in
    rw i (render-parse q (with_path-IsCanonical p q.path c) (rw (← i) fits))

strip_rest-true :
    (t t' a b c d : Text) (o : Option Text)
    → strip_rest t a b c d o ≡ (t', true)
    → (r : Text) × (o ≡ some r) × (t' ≡ join slash (a ∷ b ∷ c ∷ d ∷ r ∷ []))
unfolding strip_rest
strip_rest-true t t' a b c d none h = cc
strip_rest-true t t' a b c d (some r) h = (r, refl, cc)

strip_segments-true :
    (t t' m : Text) (segs : List Text) → strip_segments t m segs ≡ (t', true) → record {
      a : Text;
      b : Text;
      c : Text;
      d : Text;
      e : Text;
      more : List Text;
      eq : segs ≡ a ∷ b ∷ c ∷ d ∷ e ∷ more;
      hit : strip_rest t a b c d (cut_prefix e (m ++ codes "/")) ≡ (t', true);
    }
unfolding strip_segments
strip_segments-true t t' m (a ∷ b ∷ c ∷ d ∷ e ∷ r) h = record {
  a = a;
  b = b;
  c = c;
  d = d;
  e = e;
  more = r;
  eq = refl;
  hit = h;
}
strip_segments-true t t' m [] h = cc
strip_segments-true t t' m (a ∷ []) h = cc
strip_segments-true t t' m (a ∷ b ∷ []) h = cc
strip_segments-true t t' m (a ∷ b ∷ c ∷ []) h = cc
strip_segments-true t t' m (a ∷ b ∷ c ∷ d ∷ []) h = cc

-- What a hop down delivers is what a hop up would turn into the topic that came: a strip that
-- succeeds, on any topic, is undone by the insert.
pub insert-strip : (t t' m : Text) → mount_strip t m ≡ (t', true) → mount_insert t' m ≡ t
unfolding mount_strip
insert-strip t t' m h =
    let s = strip_segments-true t t' m (split_n slash 5 t) h in
    let (w, fa, fb, fc, fd) = split_n-five_inverse t s.a s.b s.c s.d s.e s.more s.eq in
    let (r, cut, out) =
      strip_rest-true t t' s.a s.b s.c s.d (cut_prefix s.e (m ++ codes "/")) s.hit in
    let e : s.e ≡ m ++ slash ∷ r =
      cut_prefix_sound s.e (m ++ codes "/") r cut ∙ append_assoc m (codes "/") r in
    let o : t' ≡ five s.a s.b s.c s.d r = unfold five in out in
    rw o (insert-five s.a s.b s.c s.d r m fa fb fc fd ∙ ap (five s.a s.b s.c s.d) (sym e) ∙ sym w)

strip_rest-is_some : (t a b c d : Text) (o : Option Text) → (strip_rest t a b c d o).1 ≡ is_some o
unfolding strip_rest
strip_rest-is_some t a b c d none = refl
strip_rest-is_some t a b c d (some r) = refl

strip-under_render :
    (p : Parsed) (m : Text)
    → IsCanonical p
    → is_empty m ≡ false
    → (mount_strip (render p) m).1 ≡ under_mount p.path m
unfolding under_mount
strip-under_render p m c h =
    rw (strip-render p m c, h)
      (strip_rest-is_some (render p) p.prefix p.version p.contract p.node_id
          (cut_prefix p.path (m ++ codes "/"))
        ∙ cut_prefix-has_prefix p.path (m ++ codes "/"))

-- The downlink delivers a topic that parses to a child with a mount exactly when `UnderMount`, by
-- which the drain scan and the routability check decide, says that its path lies under the mount.
pub strip-under_mount :
    (t m : Text) (p : Parsed)
    → parse t ≡ ok p
    → is_empty m ≡ false
    → (mount_strip t m).1 ≡ under_mount p.path m
strip-under_mount t m p h n =
    let (e, c) = parse-render t p h in
    subst (λ x. (mount_strip x m).1 ≡ under_mount p.path m) e (strip-under_render p m c n)

-- `UnderMount` is the strict order of paths by segments: the mount is not empty, and the path is
-- the mount, a slash and a rest.
pub under_mount_iff :
    (path m : Text)
    → (under_mount path m ≡ true) ↔ ((is_empty m ≡ false) × (r : Text) × (path ≡ m ++ slash ∷ r))
unfolding under_mount
under_mount_iff path m = (
  λ h.
      let (n, q) = and-eq-true (not (is_empty m)) (has_prefix path (m ++ codes "/")) h in
      let (r, e) = has_prefix_split path (m ++ codes "/") q in
      (ground arith, r, e ∙ append_assoc m (codes "/") r),
  λ (n, r, e). rw (n, e, ← append_assoc m (codes "/") r) (has_prefix-append (m ++ codes "/") r),
)
