-- ===== src/Uns/Entry/Validity.antt =====
-- plugins/uns/authz.go: what `Entry.Validate` guarantees of an enrolled entry.
use colca.Prelude.{
  Text, codes, text_beq, is_empty, List, [], ◌∷◌, true, false, not, ◌&&◌, Option, some, none,
  Result, ok, err, >>-eq-ok, refuse_if, refuse_if_ok, ◌≡◌, refl, arith, All, is_some, length, all,
  All-any-false, All-map,
}
use colca.Uns.Grant.{Grant, GrantError, parse_grant, node_relative, valid_element_id}
use colca.Uns.Entry.{
  Entry, Kind, EntryError, external, node, local, human, other, draining, is_human, is_local,
  is_node, is_draining, is_hex, check_kind, check_status, check_parsed, check_grants, validate,
  grants_admin, is_admin,
}

-- A grant that an enrolled identity may hold.
abbrev pub IsEnrollable : Text → Type 0
IsEnrollable s =
    (g : Grant) × (parse_grant s ≡ ok g)
    × (text_beq g.verb (codes "admin") ≡ false)
    × (node_relative g.element ≡ none)

not_some : (o : Option Text) → is_some o ≡ false → o ≡ none
not_some none h = refl
not_some (some t) h = cc

check_parsed-IsEnrollable :
    (s : Text) (r : Result GrantError Grant)
    → parse_grant s ≡ r
    → check_parsed r ≡ ok tt
    → IsEnrollable s
unfolding check_parsed
check_parsed-IsEnrollable s (err x) e h = cc
check_parsed-IsEnrollable s (ok g) e h =
    let (a, b) =
      >>-eq-ok (refuse_if (text_beq g.verb (codes "admin")) EntryError.admin_grant) _ h in
    (
      g,
      e,
      refuse_if_ok (text_beq g.verb (codes "admin")) EntryError.admin_grant a,
      not_some (node_relative g.element)
          (refuse_if_ok (is_some (node_relative g.element)) EntryError.relative_grant b),
    )

check_grants-All : (gs : List Text) → check_grants gs ≡ ok tt → All IsEnrollable gs
unfolding check_grants
check_grants-All [] h = tt
check_grants-All (g ∷ gs) h =
    let (a, b) = >>-eq-ok (check_parsed (parse_grant g)) (check_grants gs) h in
    (check_parsed-IsEnrollable g (parse_grant g) refl a, check_grants-All gs b)

grants_admin-IsEnrollable : (s : Text) → IsEnrollable s → grants_admin s ≡ false
unfolding grants_admin
grants_admin-IsEnrollable s (g, e, n, r) = rw (e, grants_admin) n

-- What holds of an entry that is enrolled.
pub record IsEnrolled (e : Entry) : Type 0 where
  pub named : is_empty e.ulid ≡ false
  pub no_person : is_human e.kind ≡ false
  -- a machine or a node has a key of 64 hex digits, a local service a name and no key
  pub keyed : is_local e.kind ≡ false → (length e.pubkey ≡ 64) × (all is_hex e.pubkey ≡ true)
  pub keyless : is_local e.kind ≡ true → (is_empty e.pubkey ≡ true) × (is_empty e.name ≡ false)
  pub placed : is_local e.kind ≡ false → is_empty e.element ≡ false
  pub drains : e.status ≡ draining → e.kind ≡ node
  pub grants : All IsEnrollable e.grants
  pub no_admin : is_admin (some e) ≡ false

module _ (e : Entry) where
  check_kind_sound :
      (k : Kind)
      → check_kind e k ≡ ok tt
      → (is_human k ≡ false)
        × (is_local k ≡ false → (length e.pubkey ≡ 64) × (all is_hex e.pubkey ≡ true))
        × (is_local k ≡ true → (is_empty e.pubkey ≡ true) × (is_empty e.name ≡ false))
  unfolding check_kind is_human is_local
  check_kind_sound external h = (refl, λ n. ground arith, λ n. cc)
  check_kind_sound node h = (refl, λ n. ground arith, λ n. cc)
  check_kind_sound local h = (refl, λ n. cc, λ n. ground arith)
  check_kind_sound human h = cc
  check_kind_sound (other t) h = cc

  is_node_sound : is_node e.kind ≡ true → e.kind ≡ node
  unfolding is_node
  is_node_sound h = ground arith

  no_admin_of : All IsEnrollable e.grants → is_admin (some e) ≡ false
  unfolding is_admin
  no_admin_of h = All-any-false grants_admin e.grants (All-map grants_admin-IsEnrollable e.grants h)

  -- An entry that `Validate` accepts is enrolled: it has an id and is no person; a machine or a node
  -- has a key of 64 hex digits and a place, a local service a name and no key; only a node drains; all its
  -- grants parse, none is an admin grant and none is relative to a node; and `IsAdmin` is false of it.
  pub validate-IsEnrolled : validate e ≡ ok tt → IsEnrolled e
  unfolding validate is_draining
  validate-IsEnrolled h =
      let (h1, r1) = >>-eq-ok (refuse_if (is_empty e.ulid) EntryError.no_ulid) _ h in
      let (h2, r2) = >>-eq-ok (check_kind e e.kind) _ r1 in
      let (h3, r3) =
        >>-eq-ok (refuse_if (is_empty e.element && not (is_local e.kind)) EntryError.unplaced) _
          r2 in
      let (h4, r4) =
        >>-eq-ok
          (refuse_if (not (is_empty e.element) && not (valid_element_id e.element))
            EntryError.bad_element)
          _ r3 in
      let (h5, r5) = >>-eq-ok (check_status e.status) _ r4 in
      let (h6, r6) =
        >>-eq-ok (refuse_if (is_draining e.status && not (is_node e.kind)) EntryError.cannot_drain)
          _ r5 in
      let (a, b, c) = check_kind_sound e.kind h2 in
      let all_good = check_grants-All e.grants r6 in
      record {
        named = refuse_if_ok (is_empty e.ulid) EntryError.no_ulid h1;
        no_person = a;
        keyed = b;
        keyless = c;
        placed = λ l. ground (
          arith,
          refuse_if_ok (is_empty e.element && not (is_local e.kind)) EntryError.unplaced h3,
        );
        drains = λ d. is_node_sound (
            ground (
              arith,
              refuse_if_ok (is_draining e.status && not (is_node e.kind)) EntryError.cannot_drain
                  h6,
            ));
        grants = all_good;
        no_admin = no_admin_of all_good;
      }
