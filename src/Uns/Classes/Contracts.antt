-- ===== src/Uns/Classes/Contracts.antt =====
-- plugins/uns/uns.go: `ClassOf` on the command contracts.
use colca.Prelude.{
  Text, codes, text_beq, text_beq_sound, has_prefix, List, [], ◌∷◌, Bool, true, false, not, any,
  all, ◌≡◌, refl, inl, inr, or-eq-true, and-eq-true, arith,
}
use colca.Uns.Classes.{
  class_of, is_command, one_of, alarm_contracts, entity_contracts, definition_contracts,
}

no_cmd : Text → Bool
unfolding has_prefix
no_cmd n = not (has_prefix n (codes "_Cmd"))

no_cmd-false : (n : Text) → no_cmd n ≡ true → has_prefix n (codes "_Cmd") ≡ false
unfolding no_cmd
no_cmd-false n h = ground arith

-- A name out of a list of names that are no commands is no command.
one_of-no_command :
    (contract : Text) (names : List Text)
    → all no_cmd names ≡ true
    → one_of contract names ≡ true
    → has_prefix contract (codes "_Cmd") ≡ false
unfolding one_of
one_of-no_command contract [] a h = cc
one_of-no_command contract (n ∷ ns) a h =
    let (first, rest) = and-eq-true (no_cmd n) (all no_cmd ns) a in
    elim (or-eq-true (text_beq contract n) (any (text_beq contract) ns) h) [
      | inl e ↦ rw (text_beq_sound contract n e) (no_cmd-false n first)
      | inr m ↦ one_of-no_command contract ns rest m
    ]

-- The commands are exactly the contracts whose name begins with `_Cmd`, whatever follows: no name
-- that `ClassOf` matches before the prefix is one.
pub class_of-command :
    (contract : Text) → is_command (class_of contract) ≡ has_prefix contract (codes "_Cmd")
unfolding class_of is_command no_cmd
class_of-command contract = ground (
  arith,
  one_of-no_command contract (codes "_Metric" ∷ []) refl,
  one_of-no_command contract alarm_contracts refl,
  one_of-no_command contract (codes "_Annotation" ∷ []) refl,
  one_of-no_command contract (codes "_Log" ∷ []) refl,
  one_of-no_command contract entity_contracts refl,
  one_of-no_command contract definition_contracts refl,
  one_of-no_command contract (codes "_Ack" ∷ []) refl,
  one_of-no_command contract (codes "_StreamGap" ∷ []) refl,
  one_of-no_command contract (codes "_AuditEvent" ∷ []) refl,
)
