-- ===== src/Uns/Grant/Accepts.antt =====
-- plugins/uns/authz.go: what `ParseGrant` accepts.
use colca.Prelude.{
  Text, codes, text_beq, split, split-nonempty, split_n, List, [], ◌∷◌, true, all, ok, ◌>>=◌,
  >>=-eq-ok, ◌≡◌, refl, subst, ◌∙◌, arith, Bool-cases, inl, inr,
}
use colca.Uns.Grant.{
  Grant, is_cmd_class, parse_zone, plain_grant, admin_grant, parse_classes, cmd_grant, parse_parts,
  parse_grant, colon, comma,
}
use colca.Uns.Grant.Zones.{IsZone, parse_zone-IsZone}

-- The grants that `ParseGrant` returns.
pub data IsGrant (g : Grant) : Type 0 where
  read : g.verb ≡ codes "read" → IsZone g.element → g.classes ≡ [] → IsGrant g
  write : g.verb ≡ codes "write" → IsZone g.element → g.classes ≡ [] → IsGrant g
  admin : g.verb ≡ codes "admin" → g.element ≡ codes "#" → g.classes ≡ [] → IsGrant g
  cmd :
      g.verb ≡ codes "cmd"
      → IsZone g.element
      → (c : Text) → (cs : List Text) → g.classes ≡ c ∷ cs
      → all is_cmd_class g.classes ≡ true
      → IsGrant g

plain-IsZone :
    (verb : Text) (args : List Text) (g : Grant)
    → plain_grant verb args ≡ ok g
    → (g.verb ≡ verb) × IsZone g.element × (g.classes ≡ [])
unfolding plain_grant
plain-IsZone verb [] g h = cc
plain-IsZone verb (z ∷ []) g h =
    let (e, p, q) =
      >>=-eq-ok (parse_zone z) (λ x. ok (record { verb = verb; element = x; classes = [] })) h in
    (ground arith, subst IsZone (ground arith) (parse_zone-IsZone z e p), ground arith)
plain-IsZone verb (z ∷ y ∷ r) g h = cc

admin-eq :
    (args : List Text) (g : Grant)
    → admin_grant args ≡ ok g
    → (g.verb ≡ codes "admin") × (g.element ≡ codes "#") × (g.classes ≡ [])
unfolding admin_grant
admin-eq [] g h = cc
admin-eq (z ∷ []) g h = ground arith
admin-eq (z ∷ y ∷ r) g h = cc

parse_classes-good :
    (list : Text) (cs : List Text)
    → parse_classes list ≡ ok cs
    → (all is_cmd_class cs ≡ true) × (cs ≡ split comma list)
unfolding parse_classes
parse_classes-good list cs h = ground arith

abbrev made_cmd : Text → List Text → Grant
made_cmd e cs = record { verb = codes "cmd"; element = e; classes = cs }

made_cmd-IsGrant :
    (e list : Text) (cs : List Text)
    → IsZone e
    → parse_classes list ≡ ok cs
    → IsGrant (made_cmd e cs)
made_cmd-IsGrant e list cs z h =
    let (good, eq) = parse_classes-good list cs h in
    let (x, r, q) = split-nonempty comma list in cmd refl z x r (eq ∙ q) good

cmd-IsGrant : (args : List Text) (g : Grant) → cmd_grant args ≡ ok g → IsGrant g
unfolding cmd_grant
cmd-IsGrant [] g h = cc
cmd-IsGrant (z ∷ []) g h = cc
cmd-IsGrant (z ∷ list ∷ []) g h =
    let (e, p, q) =
      >>=-eq-ok (parse_zone z) (λ x. parse_classes list >>= λ cs. ok (made_cmd x cs)) h in
    let (cs, p', q') = >>=-eq-ok (parse_classes list) (λ cs. ok (made_cmd e cs)) q in
    subst IsGrant (ground arith) (made_cmd-IsGrant e list cs (parse_zone-IsZone z e p) p')
cmd-IsGrant (z ∷ list ∷ x ∷ r) g h = cc

plain-read : (args : List Text) (g : Grant) → plain_grant (codes "read") args ≡ ok g → IsGrant g
plain-read args g h = let (v, z, c) = plain-IsZone (codes "read") args g h in read v z c

plain-write : (args : List Text) (g : Grant) → plain_grant (codes "write") args ≡ ok g → IsGrant g
plain-write args g h = let (v, z, c) = plain-IsZone (codes "write") args g h in write v z c

parse_parts-IsGrant : (parts : List Text) (g : Grant) → parse_parts parts ≡ ok g → IsGrant g
unfolding parse_parts
parse_parts-IsGrant [] g h = cc
parse_parts-IsGrant (v ∷ args) g h = elim (Bool-cases (text_beq v (codes "read"))) [
  | inl e ↦ plain-read args g (rw e at h)
  | inr n1 ↦ elim (Bool-cases (text_beq v (codes "write"))) [
    | inl e ↦ plain-write args g (rw (n1, e) at h)
    | inr n2 ↦ elim (Bool-cases (text_beq v (codes "admin"))) [
      | inl e ↦ let (p, q, c) = admin-eq args g (rw (n1, n2, e) at h) in admin p q c
      | inr n3 ↦ elim (Bool-cases (text_beq v (codes "cmd"))) [
        | inl e ↦ cmd-IsGrant args g (rw (n1, n2, n3, e) at h)
        | inr n4 ↦ absurd (cc (rw (n1, n2, n3, n4) at h))
      ]
    ]
  ]
]

pub parse_grant-IsGrant : (s : Text) (g : Grant) → parse_grant s ≡ ok g → IsGrant g
unfolding parse_grant
parse_grant-IsGrant s g h = parse_parts-IsGrant (split_n colon 3 s) g h
