-- ===== src/Uns/Classes/Uplink.antt =====
-- plugins/uns/uns.go: which streams a child may write at its parent.
use colca.Prelude.{
  Text, text_beq, text_beq_sound, is_empty, List, [], ◌∷◌, ◌++◌, Bool, true, false, not, ◌&&◌, ◌||◌,
  any, if◌then◌else◌, ◌≡◌, refl, sym, subst, ap, ◌∙◌, arith, some, none, lookup, insert,
  lookup-insert, text_eq, map, In, any-In, In-any, and-eq-true, text_beq_refl, ◌↔◌, ◌≢◌, or-eq-true,
  or-false, Bool-cases, inl, inr, ok, length, ◌≤◌,
}
use colca.Uns.Topic.{Parsed, slash, parse, max_topic_bytes}
use colca.Uns.Mount.{mount_insert}
use colca.Uns.Mount.RoundTrip.{parse-insert}
use colca.Uns.Classes.{Class, flows_up, stream_for, class_of, manifest_classes, is_gap, log, one_of}
use colca.Uns.Classes.Streams.{
  StreamSet, member, add_stream, collect, uplink_stream_set, is_uplink_stream,
  partial_uplink_streams, uplink_carries_every_record, is_node_private, node_private_contracts,
  after_last, gap_stream, matches_uplink_stream,
}

-- A class puts a stream into a set.
abbrev puts : Text → Class → Bool
puts s c = not (is_empty (stream_for c)) && text_beq (stream_for c) s

member-insert :
    (k s : Text) (m : StreamSet) → member s (insert k true m) ≡ (text_beq k s || member s m)
unfolding member
member-insert k s m = rw (lookup-insert k s true m, member) (ground arith)

member-add_stream :
    (s : Text) (c : Class) (m : StreamSet) → member s (add_stream c m) ≡ (puts s c || member s m)
unfolding add_stream
member-add_stream s c m = ground (arith, member-insert (stream_for c) s m)

member-collect :
    (s : Text) (keep : Class → Bool) (cs : List Class) (m : StreamSet)
    → member s (collect keep cs m) ≡ (any (λ c. keep c && puts s c) cs || member s m)
unfolding collect
member-collect s keep [] m = refl
member-collect s keep (c ∷ cs) m = ground (
  arith,
  member-collect s keep cs (if keep c then add_stream c m else m),
  member-add_stream s c m,
)

member-empty : (s : Text) → member s [] ≡ false
unfolding member lookup
member-empty s = refl

member_uplink :
    (s : Text) → is_uplink_stream s ≡ (any (λ c. flows_up c && puts s c) manifest_classes || false)
unfolding is_uplink_stream uplink_stream_set
member_uplink s =
    member-collect s flows_up manifest_classes []
    ∙ ap (λ b. any (λ c. flows_up c && puts s c) manifest_classes || b) (member-empty s)

puts_stream : (c : Class) → is_empty (stream_for c) ≡ false → puts (stream_for c) c ≡ true
puts_stream c h = rw (h, text_beq_refl (stream_for c)) refl

uplink_of_class :
    (c : Class) (s : Text)
    → In c manifest_classes
    → flows_up c ≡ true
    → is_empty s ≡ false
    → stream_for c ≡ s
    → is_uplink_stream s ≡ true
uplink_of_class c s m f n e =
    let n' : is_empty (stream_for c) ≡ false = rw e n in
    let hit : any (λ d. flows_up d && puts (stream_for c) d) manifest_classes ≡ true =
      In-any (λ d. flows_up d && puts (stream_for c) d) manifest_classes c m
        (rw f (puts_stream c n')) in
    subst (λ x. is_uplink_stream x ≡ true) e
      (member_uplink (stream_for c) ∙ ap (λ b. b || false) hit)

not-true : (b : Bool) → not b ≡ true → b ≡ false
not-true b h = ground arith

-- The streams on which a child may replicate are exactly the fixed streams of the manifest's classes
-- that flow up.
pub is_uplink_stream_iff :
    (s : Text)
    → (is_uplink_stream s ≡ true) ↔ (
        (c : Class) × In c manifest_classes
        × (flows_up c ≡ true)
        × (is_empty s ≡ false)
        × (stream_for c ≡ s))
is_uplink_stream_iff s = (
  λ h.
      let found : any (λ d. flows_up d && puts s d) manifest_classes ≡ true =
        sym (member_uplink s ∙ or-false (any (λ d. flows_up d && puts s d) manifest_classes)) ∙ h in
      let (c, m, q) = any-In (λ d. flows_up d && puts s d) manifest_classes found in
      let (f, p) = and-eq-true (flows_up c) (puts s c) q in
      let (n, e) = and-eq-true (not (is_empty (stream_for c))) (text_beq (stream_for c) s) p in
      let eq : stream_for c ≡ s = text_beq_sound (stream_for c) s e in
      (c, m, f, subst (λ x. is_empty x ≡ false) eq (not-true (is_empty (stream_for c)) n), eq),
  λ (c, m, f, n, e). uplink_of_class c s m f n e,
)

In-manifest : (c : Class) → flows_up c ≡ true → is_gap c ≡ false → In c manifest_classes
unfolding flows_up is_gap
In-manifest c f g = ground arith

stream_for-nonempty :
    (c : Class) → flows_up c ≡ true → is_gap c ≡ false → is_empty (stream_for c) ≡ false
unfolding flows_up is_gap stream_for is_empty
stream_for-nonempty c f g = ground arith

matches_parts :
    (c : Class) (p : Parsed) (s : Text)
    → matches_uplink_stream c p s ≡ true
    → is_gap c ≡ false
    → (flows_up c ≡ true) × (text_beq (stream_for c) s ≡ true)
unfolding matches_uplink_stream
matches_parts c p s h g = ground arith

-- A record that matches the stream of its request lies on a stream that a child may write, unless it
-- is a gap marker, which rides the stream that it describes.
pub matches-is_uplink_stream :
    (c : Class) (p : Parsed) (s : Text)
    → matches_uplink_stream c p s ≡ true
    → is_gap c ≡ false
    → is_uplink_stream s ≡ true
matches-is_uplink_stream c p s h g =
    let (f, e) = matches_parts c p s h g in
    let eq : stream_for c ≡ s = text_beq_sound (stream_for c) s e in
    uplink_of_class c s (In-manifest c f g) f
      (subst (λ x. is_empty x ≡ false) eq (stream_for-nonempty c f g)) eq

after_last-append :
    (m s : Text)
    → after_last (m ++ slash ∷ s) ≡ some (elim (after_last s) [ some r ↦ r | none ↦ s ])
unfolding after_last
after_last-append [] s = ground arith
after_last-append (c ∷ m) s = rw (after_last-append m s) refl

gap_stream-mount :
    (p : Parsed) (m : Text) → gap_stream (record p { path = m ++ slash ∷ p.path }) ≡ gap_stream p
unfolding gap_stream
gap_stream-mount p m = rw (after_last-append m p.path, gap_stream) refl

matches-mount :
    (c : Class) (p : Parsed) (m s : Text)
    → matches_uplink_stream c (record p { path = m ++ slash ∷ p.path }) s
      ≡ matches_uplink_stream c p s
unfolding matches_uplink_stream
matches-mount c p m s = rw (gap_stream-mount p m) refl

-- A hop up that puts a mount before the path of a gap marker, which still fits, leaves the stream
-- that the marker names as it was, so it matches the same uplink streams at every level of the tree.
pub matches-insert :
    (t m s : Text) (p : Parsed) (c : Class)
    → parse t ≡ ok p
    → length (mount_insert t m) ≤ max_topic_bytes
    → (q : Parsed) × (parse (mount_insert t m) ≡ ok q)
      × (matches_uplink_stream c q s ≡ matches_uplink_stream c p s)
matches-insert t m s p c h fits =
    (record p { path = m ++ slash ∷ p.path }, parse-insert t m p h fits, matches-mount c p m s)

In-map :
    (k : Text) (xs : List Text) (f : Text → Class)
    → any (text_beq k) xs ≡ true
    → In (f k) (map f xs)
In-map k [] f h = cc
In-map k (x ∷ xs) f h = elim (or-eq-true (text_beq k x) (any (text_beq k) xs) h) [
  | inl e ↦ inl (ap f (sym (text_beq_sound k x e)))
  | inr m ↦ inr (In-map k xs f m)
]

-- What the partial set holds: the stream of the logs, those of the manifest's classes that do not
-- flow up, and those of the node-private contracts.
partial_member :
    (s : Text)
    → member s partial_uplink_streams ≡ (
        any (λ c. true && puts s c) (map class_of node_private_contracts)
        || (any (λ c. not (flows_up c) && puts s c) manifest_classes
            || (text_beq (stream_for log) s || member s [])))
unfolding partial_uplink_streams
partial_member s =
    member-collect s (λ c. true) (map class_of node_private_contracts)
      (collect (λ c. not (flows_up c)) manifest_classes (insert (stream_for log) true []))
    ∙ ap (λ b. any (λ c. true && puts s c) (map class_of node_private_contracts) || b)
        (member-collect s (λ c. not (flows_up c)) manifest_classes (insert (stream_for log) true [])
          ∙ ap (λ b. any (λ c. not (flows_up c) && puts s c) manifest_classes || b)
              (member-insert (stream_for log) s []))

or_parts :
    (m a b c d : Bool)
    → m ≡ (a || (b || (c || d)))
    → m ≡ false
    → (a ≡ false) × (b ≡ false) × (c ≡ false)
or_parts m a b c d e h = ground arith

not-In-any :
    (p : Class → Bool) (xs : List Class) (c : Class) → any p xs ≡ false → In c xs → p c ≡ true → ⊥
not-In-any p xs c h m q = cc (In-any p xs c m q)

partial_parts :
    (s : Text)
    → uplink_carries_every_record s ≡ true
    → (any (λ c. true && puts s c) (map class_of node_private_contracts) ≡ false)
      × (any (λ c. not (flows_up c) && puts s c) manifest_classes ≡ false)
      × (text_beq (stream_for log) s ≡ false)
unfolding uplink_carries_every_record
partial_parts s h =
    or_parts (member s partial_uplink_streams) _ _ _ _ (partial_member s)
      (not-true (member s partial_uplink_streams) h)

In-manifest_down :
    (c : Class) → flows_up c ≡ false → is_empty (stream_for c) ≡ false → In c manifest_classes
unfolding flows_up stream_for is_empty
In-manifest_down c f n = ground arith

-- Where the parent counts on gap-free offsets, it may: every contract whose records are stored on a
-- stream that `UplinkCarriesEveryRecord` names is of a class that flows up, is not private to its
-- node, and is no log, whose levels the child filters.
pub carries-flows_up :
    (s contract : Text)
    → uplink_carries_every_record s ≡ true
    → stream_for (class_of contract) ≡ s
    → is_empty s ≡ false
    → (flows_up (class_of contract) ≡ true)
      × (is_node_private contract ≡ false)
      × (class_of contract ≢ log)
carries-flows_up s contract h e n =
    let c = class_of contract in
    let (no_private, no_down, no_log) = partial_parts s h in
    let n' : is_empty (stream_for c) ≡ false = rw e n in
    let stored : puts s c ≡ true = subst (λ x. puts x c ≡ true) e (puts_stream c n') in
    (
      elim (Bool-cases (flows_up c)) [
        | inl f ↦ f
        | inr f ↦ absurd (
            not-In-any (λ d. not (flows_up d) && puts s d) manifest_classes c no_down
              (In-manifest_down c f n') (rw f stored))
      ],
      elim (Bool-cases (is_node_private contract)) [
        | inl f ↦ absurd (
            not-In-any (λ d. true && puts s d) (map class_of node_private_contracts) c no_private
              (In-map contract node_private_contracts class_of (unfold is_node_private one_of in f))
              stored)
        | inr f ↦ f
      ],
      λ l. cc (text_beq_refl s, ap stream_for l),
    )
