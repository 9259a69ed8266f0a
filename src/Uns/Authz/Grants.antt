-- ===== src/Uns/Authz/Grants.antt =====
-- plugins/uns/authz.go: how the decisions of `Authorize` depend on the grants of the entry.
use colca.Prelude.{
  Text, codes, List, [], ◌∷◌, ◌++◌, Bool, true, any, any-append, Option, some, ok, ◌≡◌, refl, sym,
  ap, ◌∙◌, arith, Option-cases, inl, inr, In, Result-cases, append_assoc,
}
use colca.Uns.Topic.{Parsed, parse}
use colca.Uns.Entry.{Entry}
use colca.Uns.Grant.{Grant, parse_grant}
use colca.Uns.Authz.{
  Scope, Action, covered, read_zones, write_zones, own_read_zone, own_write_zone, grant_zones,
  zone_of_grant, grant_zone, sub_zone, authorize, authorize_sub, authorize_cmd, authorize_read,
  authorize_cmd_at, cmd_grant_at, cmd_grant_covers, holds_cmd_class, grant_names_class,
  local_service_read, sub, read_record, cmd, pub_, cover_path, cmd_class, read_authorized_act,
  fixed_path_prefix,
}

-- The entry with more grants.
abbrev pub with_grants : Entry → List Text → Entry
with_grants e more = record e { grants = e.grants ++ more }

module _ (sc : Option Scope) (e : Entry) (more : List Text) where
  grant_zone-with : (el : Text) → grant_zone sc (with_grants e more) el ≡ grant_zone sc e el
  unfolding grant_zone
  grant_zone-with el = refl

  zone_of_grant-with :
      (v g : Text) → zone_of_grant sc (with_grants e more) v g ≡ zone_of_grant sc e v g
  unfolding zone_of_grant grant_zone
  zone_of_grant-with v g = refl

  grant_zones-with :
      (v : Text) (gs : List Text) → grant_zones sc (with_grants e more) v gs ≡ grant_zones sc e v gs
  unfolding grant_zones
  grant_zones-with v [] = refl
  grant_zones-with v (g ∷ gs) = rw (zone_of_grant-with v g, grant_zones-with v gs) refl

  grant_zones-append :
      (v : Text) (gs : List Text)
      → grant_zones sc e v (gs ++ more) ≡ grant_zones sc e v gs ++ grant_zones sc e v more
  unfolding grant_zones
  grant_zones-append v [] = refl
  grant_zones-append v (g ∷ gs) = rw (grant_zones-append v gs) (
      sym (append_assoc (zone_of_grant sc e v g) (grant_zones sc e v gs) (grant_zones sc e v more)))

  more_zones :
      (v : Text) (own : List Text)
      → own ++ grant_zones sc (with_grants e more) v (e.grants ++ more)
        ≡ (own ++ grant_zones sc e v e.grants) ++ grant_zones sc e v more
  more_zones v own =
      ap (λ l. own ++ l) (grant_zones-with v (e.grants ++ more) ∙ grant_zones-append v e.grants)
      ∙ sym (append_assoc own (grant_zones sc e v e.grants) (grant_zones sc e v more))

  read_zones-with :
      read_zones sc (with_grants e more) ≡ read_zones sc e ++ grant_zones sc e (codes "read") more
  unfolding read_zones own_read_zone
  read_zones-with = more_zones (codes "read") (own_read_zone sc e)

  write_zones-with :
      write_zones sc (with_grants e more)
      ≡ write_zones sc e ++ grant_zones sc e (codes "write") more
  unfolding write_zones own_write_zone
  write_zones-with = more_zones (codes "write") (own_write_zone sc e)

  any_more : (p : Text → Bool) (xs ys : List Text) → any p xs ≡ true → any p (xs ++ ys) ≡ true
  any_more p xs ys h = any-append p xs ys ∙ rw h refl

  any_read :
      (p : Text → Bool)
      → any p (read_zones sc e) ≡ true
      → any p (read_zones sc (with_grants e more)) ≡ true
  any_read p h =
      rw read_zones-with (any_more p (read_zones sc e) (grant_zones sc e (codes "read") more) h)

  any_write :
      (p : Text → Bool)
      → any p (write_zones sc e) ≡ true
      → any p (write_zones sc (with_grants e more)) ≡ true
  any_write p h =
      rw write_zones-with (any_more p (write_zones sc e) (grant_zones sc e (codes "write") more) h)

  cmd_at-with :
      (c path : Text)
      → authorize_cmd_at sc (some e) c path ≡ true
      → authorize_cmd_at sc (some (with_grants e more)) c path ≡ true
  unfolding authorize_cmd_at cmd_grant_at cmd_grant_covers grant_zone
  cmd_at-with c path h = any_more (cmd_grant_at sc e c path) e.grants more h

  holds-with :
      (c : Text)
      → holds_cmd_class (some e) c ≡ true
      → holds_cmd_class (some (with_grants e more)) c ≡ true
  unfolding holds_cmd_class
  holds-with c h = any_more (grant_names_class c) e.grants more h

  covered_read :
      (path : Text)
      → covered (read_zones sc e) path ≡ true
      → covered (read_zones sc (with_grants e more)) path ≡ true
  unfolding covered
  covered_read path h = any_read (λ z. cover_path z path) h

  authorize_cmd-with :
      (p : Parsed) → authorize_cmd sc e p ≡ true → authorize_cmd sc (with_grants e more) p ≡ true
  unfolding authorize_cmd
  authorize_cmd-with p h = elim (Option-cases (read_authorized_act p.contract p.path)) [
    | inr (place, q) ↦ ground (arith, covered_read place)
    | inl q ↦ ground (
      arith,
      cmd_at-with (cmd_class p.contract) p.path,
      holds-with (cmd_class p.contract),
      holds-with (codes "annotate"),
      holds-with (codes "operate"),
      holds-with (codes "param"),
    )
  ]

  authorize_read-with :
      (root topic : Text) (p : Parsed)
      → authorize_read root sc e topic p ≡ true
      → authorize_read root sc (with_grants e more) topic p ≡ true
  unfolding authorize_read local_service_read
  authorize_read-with root topic p h = ground (arith, covered_read p.path)

  authorize_sub-with :
      (root topic : Text)
      → authorize_sub root sc e topic ≡ true
      → authorize_sub root sc (with_grants e more) topic ≡ true
  unfolding authorize_sub local_service_read
  authorize_sub-with root topic h = elim (Option-cases (fixed_path_prefix root topic)) [
    | inl q ↦ ground arith
    | inr (fixed, q) ↦ ground (arith, any_read (sub_zone fixed))
  ]

  authorize_pub-with :
      (p : Parsed)
      → covered (write_zones sc e) p.path ≡ true
      → covered (write_zones sc (with_grants e more)) p.path ≡ true
  unfolding covered
  authorize_pub-with p h = any_write (λ z. cover_path z p.path) h

  -- More grants never take a decision back: whatever the action and the topic, what an entry may do it
  -- may still do with further grants of any kind, well-formed or not.
  pub authorize_monotone :
      (root : Text) (a : Action) (topic : Text)
      → authorize root sc e a topic ≡ true
      → authorize root sc (with_grants e more) a topic ≡ true
  unfolding authorize
  authorize_monotone root sub topic h = authorize_sub-with root topic h
  authorize_monotone root read_record topic h = elim (Result-cases (parse topic)) [
    | inl (p, q) ↦ ground (arith, authorize_read-with root topic p)
    | inr (x, q) ↦ absurd (ground arith)
  ]
  authorize_monotone root cmd topic h = elim (Result-cases (parse topic)) [
    | inl (p, q) ↦ ground (arith, authorize_cmd-with p)
    | inr (x, q) ↦ absurd (ground arith)
  ]
  authorize_monotone root pub_ topic h = elim (Result-cases (parse topic)) [
    | inl (p, q) ↦ ground (arith, authorize_pub-with p)
    | inr (x, q) ↦ absurd (ground arith)
  ]

-- A command grant of the entry that covers the path and names the class.
abbrev pub Permits : Option Scope → Entry → Text → Text → Text → Type 0
Permits sc e class_ path s =
    (g : Grant) × (zone : Text) × (parse_grant s ≡ ok g)
    × (g.verb ≡ codes "cmd")
    × (grant_zone sc e g.element ≡ some zone)
    × (cover_path zone path ≡ true)
    × In class_ g.classes
