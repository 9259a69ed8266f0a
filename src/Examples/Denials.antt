-- ===== src/Examples/Denials.antt =====
-- Examples of the counted denials, internal/engine/audit_repeats.go.
use colca.Prelude.{codes, text_beq, lookup, List, [], ◌∷◌, ◌++◌, true, false, ◌≡◌, refl, arith}
use colca.Engine.Audit.{
  AuditDenial, admit, admit_under, account, audit_key_of, subject_of, sprint, text, number,
}
use colca.Engine.Audit.Counts.{Event, denied, swept, denials, audited, audited-denials}
use colca.Engine.Audit.Quiet.{IsBefore, accounts, accounts-quiet}

abbrev refused_read : AuditDenial
refused_read = record {
  operation = codes "read";
  reason_code = codes "scope";
  actor_id = codes "anna";
  actor_label = [];
  actor_kind = codes "human";
  entity_type = [];
  entity_id = [];
  metadata = (codes "topic", text (codes "colca/v1")) ∷ [];
  peer = [];
}

abbrev unknown_peer : AuditDenial
unknown_peer = record refused_read { actor_id = []; peer = codes "f00d" }

abbrev morning : List Event
morning = denied refused_read 3 ∷ denied refused_read 4 ∷ denied unknown_peer 5 ∷ []

audited-denials_example : (audited (morning ++ swept 6 true ∷ []) []).0 ≡ denials morning
audited-denials_example = audited-denials morning 6

first_is_written : (admit refused_read 3 []).0.0 ≡ true
unfolding admit admit_under account lookup
first_is_written = refl

own_account : account (audit_key_of refused_read) [] ≡ audit_key_of refused_read
unfolding account lookup
own_account = refl

-- Another caller's denial and a sweep between the two.
abbrev minute : List Event
minute = denied unknown_peer 4 ∷ swept 5 false ∷ []

accounts-quiet_example :
    (admit refused_read 9 (accounts minute (admit refused_read 3 []).1)).0.0 ≡ false
accounts-quiet_example =
    accounts-quiet refused_read refused_read 3 9 minute [] own_account first_is_written refl
      (unfold IsBefore in (omega arith, ((omega arith, refl), tt))) (omega arith)

subject_of_topic : (audit_key_of refused_read).subject ≡ codes "topic=colca/v1;"
unfolding audit_key_of subject_of lookup sprint text_beq
subject_of_topic = refl

decimal_text : sprint (number 4711) ≡ codes "4711"
unfolding sprint
decimal_text = refl
