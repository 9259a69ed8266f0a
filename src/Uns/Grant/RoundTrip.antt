-- ===== src/Uns/Grant/RoundTrip.antt =====
-- plugins/uns/authz.go: `ParseGrant` and `FormatGrant` against one another.
use colca.Prelude.{
  Result, Text, codes, text_beq, is_empty, split_n, split_n-append, split_n-Free, join, split-join,
  sort, sort-All, sort_of_sorted, sort-IsSorted, IsSorted, List, [], ◌∷◌, ◌++◌, Bool, true, false,
  all, all-All, All-all, All-map, one_of_all, ok, ◌≡◌, refl, sym, ap, subst, ◌∙◌, arith, inl, inr,
  ◌⊎◌, Free, has_byte, not, ◌↔◌, and-eq-true, sort-nonempty,
}
use colca.Uns.Grant.{
  Grant, GrantError, cmd_classes, is_cmd_class, parse_zone, plain_grant, admin_grant, parse_classes,
  cmd_grant, parse_parts, parse_grant, bare_element, zone_of_element, format_cmd, format_grant,
  colon, comma,
}
use colca.Uns.Grant.Zones.{IsZone, parse-zone_of_element, zone-Free}
use colca.Uns.Grant.Accepts.{IsGrant, read, write, admin, cmd, parse_grant-IsGrant}

-- The grant with its classes in order, as `FormatGrant` writes them.
abbrev pub sorted : Grant → Grant
sorted g = record g { classes = sort g.classes }

split_two :
    (v z : Text) → Free colon v → Free colon z → split_n colon 3 (v ++ colon ∷ z) ≡ v ∷ z ∷ []
split_two v z fv fz = rw (split_n-append colon 1 v z fv, split_n-Free colon 1 z fz) refl

split_three :
    (v z c : Text)
    → Free colon v
    → Free colon z
    → split_n colon 3 (v ++ colon ∷ (z ++ colon ∷ c)) ≡ v ∷ z ∷ c ∷ []
unfolding split_n
split_three v z c fv fz =
    rw (split_n-append colon 1 v (z ++ colon ∷ c) fv, split_n-append colon 0 z c fz) refl

plain_grant_zone :
    (v e : Text)
    → IsZone e
    → plain_grant v (zone_of_element (bare_element e) ∷ [])
      ≡ ok (record { verb = v; element = e; classes = [] })
unfolding plain_grant
plain_grant_zone v e z = rw (parse-zone_of_element e z) refl

parse_plain :
    (v e : Text)
    → (v ≡ codes "read") ⊎ (v ≡ codes "write")
    → IsZone e
    → parse_grant (v ++ colon ∷ zone_of_element (bare_element e))
      ≡ ok (record { verb = v; element = e; classes = [] })
unfolding parse_grant
parse_plain v e (inl q) z =
    rw
      (
        q,
        split_two (codes "read") (zone_of_element (bare_element e)) (unfold has_byte in refl)
            (zone-Free e z),
      )
      (unfold parse_parts text_beq in plain_grant_zone (codes "read") e z)
parse_plain v e (inr q) z =
    rw
      (
        q,
        split_two (codes "write") (zone_of_element (bare_element e)) (unfold has_byte in refl)
            (zone-Free e z),
      )
      (unfold parse_parts text_beq in plain_grant_zone (codes "write") e z)

no_comma : Text → Bool
no_comma c = not (has_byte comma c)

class-Free : (c : Text) → is_cmd_class c ≡ true → Free comma c
unfolding is_cmd_class no_comma
class-Free c h =
    ground (arith, one_of_all no_comma c cmd_classes h (unfold no_comma has_byte in refl))

has_text : Text → Bool
has_text c = not (is_empty c)

class-nonempty : (c : Text) → is_cmd_class c ≡ true → is_empty c ≡ false
unfolding is_cmd_class has_text
class-nonempty c h =
    ground (arith, one_of_all has_text c cmd_classes h (unfold has_text is_empty in refl))

join-nonempty :
    (c : Text) (cs : List Text) → is_empty c ≡ false → is_empty (join comma (c ∷ cs)) ≡ false
unfolding join is_empty
join-nonempty [] cs h = cc
join-nonempty (b ∷ c) [] h = refl
join-nonempty (b ∷ c) (d ∷ cs) h = refl

parse_classes_of :
    (c : Text) (cs : List Text)
    → all is_cmd_class (c ∷ cs) ≡ true
    → parse_classes (join comma (c ∷ cs)) ≡ ok (c ∷ cs)
unfolding parse_classes
parse_classes_of c cs h =
    let (first, _) = and-eq-true (is_cmd_class c) (all is_cmd_class cs) h in
    rw
      (
        join-nonempty c cs (class-nonempty c first),
        split-join comma c cs (All-map class-Free (c ∷ cs) (all-All is_cmd_class (c ∷ cs) h)),
        h,
      )
      refl

parse_cmd :
    (e c : Text) (cs : List Text)
    → IsZone e
    → all is_cmd_class (c ∷ cs) ≡ true
    → parse_grant
        (codes "cmd:" ++ (zone_of_element (bare_element e) ++ (colon ∷ join comma (c ∷ cs))))
      ≡ ok (record { verb = codes "cmd"; element = e; classes = c ∷ cs })
unfolding parse_grant
parse_cmd e c cs z h =
    rw
      (split_three (codes "cmd") (zone_of_element (bare_element e)) (join comma (c ∷ cs))
        (unfold has_byte in refl) (zone-Free e z))
      (unfold parse_parts text_beq cmd_grant in
        rw (parse-zone_of_element e z, parse_classes_of c cs h) refl)

-- What `FormatGrant` makes of a grant that reads back as that grant with its classes in order.
abbrev ReadsBack : Grant → Type 0
ReadsBack g = (s : Text) × (format_grant g ≡ ok s) × (parse_grant s ≡ ok (sorted g))

plain-ReadsBack :
    (v e : Text)
    → (v ≡ codes "read") ⊎ (v ≡ codes "write")
    → IsZone e
    → ReadsBack (record { verb = v; element = e; classes = [] })
unfolding format_grant sort
plain-ReadsBack v e (inl q) z = (
  v ++ colon ∷ zone_of_element (bare_element e),
  rw q (unfold text_beq in refl),
  parse_plain v e (inl q) z,
)
plain-ReadsBack v e (inr q) z = (
  v ++ colon ∷ zone_of_element (bare_element e),
  rw q (unfold text_beq in refl),
  parse_plain v e (inr q) z,
)

cmd-ReadsBack :
    (e c : Text) (cs : List Text)
    → IsZone e
    → all is_cmd_class (c ∷ cs) ≡ true
    → ReadsBack (record { verb = codes "cmd"; element = e; classes = c ∷ cs })
unfolding format_grant
cmd-ReadsBack e c cs z h =
    let (x, r, q) = sort-nonempty c cs in
    let good : all is_cmd_class (x ∷ r) ≡ true =
      subst (λ l. all is_cmd_class l ≡ true) q
        (All-all is_cmd_class (sort (c ∷ cs))
          (sort-All (λ a. is_cmd_class a ≡ true) (c ∷ cs) (all-All is_cmd_class (c ∷ cs) h))) in
    (
      codes "cmd:" ++ (zone_of_element (bare_element e) ++ (colon ∷ join comma (x ∷ r))),
      unfold text_beq format_cmd in rw (q, good) refl,
      rw q (parse_cmd e x r z good),
    )

grant_eta :
    (g : Grant) (v e : Text) (cs : List Text)
    → g.verb ≡ v
    → g.element ≡ e
    → g.classes ≡ cs
    → record { verb = v; element = e; classes = cs } ≡ g
grant_eta g v e cs p q r = ground arith

pub IsGrant-ReadsBack : (g : Grant) → IsGrant g → ReadsBack g
IsGrant-ReadsBack g (read v z c) =
    subst ReadsBack (grant_eta g (codes "read") g.element [] v refl c)
      (plain-ReadsBack (codes "read") g.element (inl refl) z)
IsGrant-ReadsBack g (write v z c) =
    subst ReadsBack (grant_eta g (codes "write") g.element [] v refl c)
      (plain-ReadsBack (codes "write") g.element (inr refl) z)
IsGrant-ReadsBack g (admin v e c) =
    subst ReadsBack (grant_eta g (codes "admin") (codes "#") [] v e c) (
      codes "admin:#",
      unfold format_grant text_beq bare_element is_empty in refl,
      unfold parse_grant split_n parse_parts text_beq admin_grant parse_zone sort in refl,
    )
IsGrant-ReadsBack g (cmd v z c cs e h) =
    subst ReadsBack (grant_eta g (codes "cmd") g.element (c ∷ cs) v refl e)
      (cmd-ReadsBack g.element c cs z (subst (λ l. all is_cmd_class l ≡ true) e h))

-- Every grant that `ParseGrant` returns is one that `FormatGrant` accepts, and what it writes parses
-- to the same grant with its classes sorted.
pub format-parse :
    (s : Text) (g : Grant)
    → parse_grant s ≡ ok g
    → (t : Text) × (format_grant g ≡ ok t) × (parse_grant t ≡ ok (sorted g))
format-parse s g h = IsGrant-ReadsBack g (parse_grant-IsGrant s g h)

ok-injective :
    (g g' : Grant) → ◌≡◌ {A = Result GrantError Grant} (ok g) (ok g') → g.classes ≡ g'.classes
ok-injective g g' h = ground arith

-- A grant that `ParseGrant` returns survives formatting and parsing unchanged exactly when its
-- classes are in the order that `FormatGrant` sorts them into.
pub format-parse_exact :
    (s t : Text) (g : Grant)
    → parse_grant s ≡ ok g
    → format_grant g ≡ ok t
    → (parse_grant t ≡ ok g) ↔ IsSorted g.classes
format-parse_exact s t g h f =
    let (t', f', back) = format-parse s g h in
    let same : t' ≡ t = ground arith in
    let back' : parse_grant t ≡ ok (sorted g) = ap parse_grant (sym same) ∙ back in
    (
      λ e.
          subst IsSorted (sym (ok-injective g (sorted g) (sym e ∙ back')))
            (sort-IsSorted g.classes),
      λ e. back' ∙ ap (λ l. ok (record g { classes = l })) (sort_of_sorted g.classes e),
    )
