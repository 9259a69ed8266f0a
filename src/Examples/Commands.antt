-- ===== src/Examples/Commands.antt =====
-- Examples of the command ledger, internal/engine/ledger.go.
use colca.Prelude.{
  length, ◌≤◌, Text, codes, text_beq, is_empty, lookup, insert, List, [], ◌∷◌, if◌then◌else◌, some,
  ◌≡◌, refl, arith,
}
use colca.Engine.Ledger.{
  ledger_limit, Ledger, Op, admits, forgets, acks, new, admit, admit_into, expire, expire_from,
  acked, run, new_command, repeat, foreign_use, fresh_entry,
}
use colca.Engine.Ledger.Ages.{IsYoung, IsRising, last_reading, run-IsYoung}
use colca.Engine.Ledger.Memory.{InWindow}
use colca.Engine.Ledger.Repeats.{resent-repeat, acked-repeat}

abbrev as_it_is : Text → Text
as_it_is payload = payload

abbrev anna : Text
anna = codes "anna"

abbrev ben : Text
ben = codes "ben"

abbrev c1 : Text
c1 = codes "c1"

abbrev other_ops : List Op
other_ops =
    admits 7 (codes "c2") ben ∷ acks c1 (codes "t") (codes "done") ∷ forgets (codes "c2") ∷ []

abbrev annas : Ledger
annas = record { entries = (c1, fresh_entry anna 5) ∷ []; order = record { id = c1; at = 5 } ∷ [] }

run-IsYoung_example :
    (length (admit 9 c1 anna (run as_it_is other_ops new)).1.entries ≤ ledger_limit)
    × IsYoung 9 (admit 9 c1 anna (run as_it_is other_ops new)).1.entries
run-IsYoung_example =
    run-IsYoung as_it_is other_ops 9 c1 anna (unfold IsRising in (omega arith, tt))
      (unfold last_reading in omega arith)

admitted_anna : (admit 5 c1 anna new).0.0 ≡ new_command
unfolding admit admit_into expire expire_from lookup
admitted_anna = refl

admitted_annas : (admit 5 c1 anna new).1 ≡ annas
unfolding admit admit_into expire expire_from lookup insert
admitted_annas = refl

resent-repeat_example :
    (admit 9 c1 ben (run as_it_is other_ops (admit 5 c1 anna new).1)).0.0
    ≡ (if text_beq anna ben then repeat else foreign_use)
resent-repeat_example =
    resent-repeat as_it_is 5 9 c1 anna ben new other_ops admitted_anna
      (unfold InWindow text_beq in (omega arith, (tt, (refl, tt))))
      (unfold admit admit_into expire expire_from lookup insert in omega arith) (omega arith)

acked-repeat_example :
    (admit 9 c1 anna (run as_it_is other_ops (acked as_it_is c1 (codes "t") (codes "ok") annas))).0
    ≡ (repeat, codes "t", some (codes "ok"))
acked-repeat_example =
    acked-repeat as_it_is 9 c1 (codes "t") (codes "ok") annas (fresh_entry anna 5) other_ops
      (unfold lookup text_beq in refl) refl (unfold is_empty in refl)
      (unfold InWindow text_beq in (omega arith, (tt, (refl, tt)))) (omega arith) (omega arith)
