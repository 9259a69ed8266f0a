-- ===== src/Uns/Classes/Streams.antt =====
-- plugins/uns/uns.go: the stream sets derived from the classes, and which stream a record that a
-- child offers belongs to.
use colca.Prelude.{
  Text, codes, text_beq, is_empty, List, [], ◌∷◌, Bool, true, false, not, ◌==◌, if◌then◌else◌,
  Option, some, none, Table, lookup, insert, text_eq, sort, map,
}
use colca.Uns.Topic.{Parsed, slash}
use colca.Uns.Classes.{Class, flows_up, stream_for, class_of, manifest_classes, is_gap, log, one_of}

-- A Go `map[string]bool` that only ever holds `true`.
abbrev pub StreamSet : Type 0
StreamSet = Table Text Bool

unfoldable pub member : Text → StreamSet → Bool
member s set = elim (lookup s set) [ none ↦ false | some b ↦ b ]

-- `if stream := StreamFor(c); stream != "" { set[stream] = true }`
unfoldable pub add_stream : Class → StreamSet → StreamSet
add_stream c set = if is_empty (stream_for c) then set else insert (stream_for c) true set

unfoldable pub collect : (Class → Bool) → List Class → StreamSet → StreamSet
collect keep [] set = set
collect keep (c ∷ cs) set = collect keep cs (if keep c then add_stream c set else set)

unfoldable pub uplink_stream_set : StreamSet
uplink_stream_set = collect flows_up manifest_classes []

unfoldable pub is_uplink_stream : Text → Bool
is_uplink_stream stream = member stream uplink_stream_set

unfoldable pub uplink_streams : List Text
uplink_streams = sort (map (λ p. p.0) uplink_stream_set)

abbrev pub node_private_contracts : List Text
node_private_contracts = codes "_EditOperation" ∷ []

unfoldable pub is_node_private : Text → Bool
is_node_private contract = one_of contract node_private_contracts

unfoldable pub partial_uplink_streams : StreamSet
partial_uplink_streams =
    collect (λ c. true) (map class_of node_private_contracts)
      (collect (λ c. not (flows_up c)) manifest_classes (insert (stream_for log) true []))

unfoldable pub uplink_carries_every_record : Text → Bool
uplink_carries_every_record stream = not (member stream partial_uplink_streams)

-- What follows the last separator, if there is one.
unfoldable pub after_last : Text → Option Text
after_last [] = none
after_last (c ∷ s) = elim (after_last s) [
  | some r ↦ some r
  | none ↦ if c == slash then some s else none
]

unfoldable pub gap_stream : Parsed → Text
gap_stream p = elim (after_last p.path) [ some r ↦ r | none ↦ p.path ]

unfoldable pub matches_uplink_stream : Class → Parsed → Text → Bool
matches_uplink_stream c p stream =
    if not (flows_up c)
    then false
    else if is_gap c
    then text_beq (gap_stream p) stream
    else text_beq (stream_for c) stream
