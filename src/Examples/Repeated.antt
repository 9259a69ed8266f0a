-- ===== src/Examples/Repeated.antt =====
-- Examples of repeated commands at a door, internal/engine/ledger.go.
use colca.Prelude.{Text, codes, text_beq, is_empty, lookup, List, [], ◌∷◌, true, ◌≡◌, refl, arith}
use colca.Uns.Topic.{Parsed}
use colca.Engine.Ledger.{Op, LedgerEntry, admits, acks, Ledger, fresh_entry, run, acked}
use colca.Engine.Ledger.Memory.{InWindow}
use colca.Engine.Commands.{Setting, answered, admit_command}
use colca.Engine.Commands.Repeats.{admit_command-acked}

-- Payloads that are their correlation ids.
abbrev plain_ids : Setting
plain_ids = record {
  root = codes "colca";
  delivers = true;
  correlation_id = λ s. s;
  outcome_422 = λ id. id;
}

abbrev press : Parsed
press = record {
  prefix = codes "colca";
  version = codes "v1";
  contract = codes "_CmdOperate";
  node_id = codes "n1";
  path = codes "hall/press";
}

abbrev c1 : Text
c1 = codes "c1"

abbrev annas : Ledger
annas = record {
  entries = (c1, fresh_entry (codes "anna") 5) ∷ [];
  order = record { id = c1; at = 5 } ∷ [];
}

abbrev later : List Op
later = admits 7 (codes "c2") (codes "ben") ∷ acks c1 (codes "t") (codes "late") ∷ []

abbrev as_it_is : Text → Text
as_it_is payload = payload

admit_command-acked_example :
    ((admit_command plain_ids press c1
        (codes "anna")
        9
        (run as_it_is later (acked as_it_is c1 (codes "t") (codes "ok") annas))).0
      ≡ answered)
    × ((admit_command plain_ids press c1
          (codes "anna")
          9
          (run as_it_is later (acked as_it_is c1 (codes "t") (codes "ok") annas))).1
        ≡ record { topic = codes "t"; payload = codes "ok" } ∷ [])
admit_command-acked_example =
    admit_command-acked plain_ids as_it_is press 9 c1 c1 (codes "t") (codes "ok") annas
      (fresh_entry (codes "anna") 5) later refl refl (unfold is_empty in refl)
      (unfold lookup text_beq in refl) refl (unfold is_empty in refl)
      (unfold InWindow in (omega arith, (tt, tt))) (omega arith) (omega arith)

-- Anna's command, by whose id Carl was refused before, and has not got his ack.
abbrev carls_turn : LedgerEntry
carls_turn = record (fresh_entry (codes "anna") 5) {
  refused = record { actor = codes "carl"; ack = c1 } ∷ [];
}

abbrev carl_waits : Ledger
carl_waits = record { entries = (c1, carls_turn) ∷ []; order = record { id = c1; at = 5 } ∷ [] }
