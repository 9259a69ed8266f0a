-- ===== src/Engine/Commands.antt =====
-- internal/engine/ledger.go and contracts.go: what the engine makes of the ledger's verdicts at a door, and
-- whom it delivers an ack to. Reading a correlation id from a payload and writing the outcome of a refused
-- reuse, both JSON, are arguments; so are the topic root and whether a broker delivers. Logs and metrics
-- are left out.
pub mod Repeats
pub mod Recipients
use colca.Prelude.{
  ℕ, Text, codes, text_beq, text_eq, is_empty, Table, lookup, List, [], ◌∷◌, ◌++◌, Bool, true,
  false, ◌||◌, ◌&&◌, not, if◌then◌else◌, Option, some, none, Result, ok, err,
}
use colca.Uns.Topic.{Parsed, parse}
use colca.Uns.Classes.{Class, Class.none as no_class, class_of, is_ack}
use colca.Engine.Ledger.{
  Ledger, Verdict, new_command, repeat, foreign_use, admit, refuse, recipient,
}

unfoldable pub builtin_only : Text → Bool
builtin_only contract =
    text_beq contract (codes "_StreamGap") || text_beq contract (codes "_EnrolledIdentity")

-- `Engine.ClassOf`, with the class of each rule of the loaded bundle.
unfoldable pub engine_class : Option (Table Text Class) → Text → Class
engine_class none contract = class_of contract
engine_class (some rules) contract =
    if builtin_only contract
    then class_of contract
    else elim (lookup contract rules) [ none ↦ no_class | some c ↦ c ]

-- What a door does next: accept the command under this id, answer a repeat, or refuse.
pub data Admission : Type 0 where
  proceed : Text → Admission
  answered : Admission
  rejected : Admission

pub record Delivery : Type 0 where
  pub topic : Text
  pub payload : Text

-- What stays the same while a node runs.
pub record Setting : Type 0 where
  pub root : Text
  pub delivers : Bool
  pub correlation_id : Text → Text
  pub outcome_422 : Text → Text

unfoldable pub ack_topic_of : Text → Parsed → Text
ack_topic_of root p =
    (root ++ codes "/v1/") ++ (codes "_Ack/" ++ (p.node_id ++ (codes "/" ++ p.path)))

unfoldable pub refuse_foreign_use : Setting → Parsed → Text → Text → Ledger → List Delivery × Ledger
refuse_foreign_use w p id actor l = if not w.delivers then ([], l) else (
  record { topic = ack_topic_of w.root p; payload = w.outcome_422 id } ∷ [],
  refuse id actor (w.outcome_422 id) l,
)

-- `ack != nil && e.deliver != nil`
unfoldable pub resend : Bool → Text → Option Text → List Delivery
resend delivers topic none = []
resend delivers topic (some a) = if delivers then record { topic = topic; payload = a } ∷ [] else []

unfoldable pub act_on :
    Setting
    → Parsed
    → Text
    → Text
    → (Verdict × Text × Option Text) × Ledger
    → Admission × List Delivery × Ledger
act_on w p id actor ((foreign_use, t, a), l) =
    let (out, l') = refuse_foreign_use w p id actor l in (rejected, out, l')
act_on w p id actor ((repeat, t, a), l) = (answered, resend w.delivers t a, l)
act_on w p id actor ((new_command, t, a), l) = (proceed id, [], l)

unfoldable pub admit_command :
    Setting → Parsed → Text → Text → ℕ → Ledger → Admission × List Delivery × Ledger
admit_command w p payload actor now l =
    let id = w.correlation_id payload in
    if is_empty id then (proceed [], [], l) else act_on w p id actor (admit now id actor l)

-- The recipient, whether the topic is an ack's, and the ledger, from which a refusal may be taken.
unfoldable pub ack_recipient :
    Setting → Option (Table Text Class) → Text → Text → Ledger → (Text × Bool) × Ledger
ack_recipient w bundle topic payload l = elim (parse topic) [
  | err x ↦ (([], false), l)
  | ok p ↦
      if not (is_ack (engine_class bundle p.contract))
      then (([], false), l)
      else if is_empty (w.correlation_id payload)
      then (([], true), l)
      else (
        ((recipient (w.correlation_id payload) payload l).0, true),
        (recipient (w.correlation_id payload) payload l).1,
      )
]
