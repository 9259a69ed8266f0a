-- ===== src/Engine/Ledger.antt =====
-- internal/engine/ledger.go: `commandLedger`, what the node remembers of a command by its correlation
-- id. Times are nanoseconds; each operation is given the clock's reading. The lock makes each operation
-- one step. `withoutResult`, a JSON rewrite of the payload, is an argument of `acked`.
pub mod Refusals
pub mod Bounds
pub mod Ages
pub mod Memory
pub mod Tracking
pub mod Repeats
use colca.Prelude.{
  ℕ, suc, ◌+◌, ◌*◌, ◌^◌, Text, text_beq, text_eq, is_empty, Table, lookup, insert, erase, length,
  List, [], ◌∷◌, ◌++◌, Bool, true, false, not, ◌&&◌, ◌||◌, ltb, leb, ◌==◌, if◌then◌else◌, Option,
  some, none, tail,
}

pub record Refusal : Type 0 where
  pub actor : Text
  pub ack : Text

pub record LedgerEntry : Type 0 where
  pub actor : Text
  pub at : ℕ
  pub ack_topic : Text
  pub ack : Option Text
  pub refused : List Refusal

pub record LedgerKey : Type 0 where
  pub id : Text
  pub at : ℕ

pub record Ledger : Type 0 where
  pub entries : Table Text LedgerEntry
  pub order : List LedgerKey

-- Ten minutes.
abbrev pub ledger_window : ℕ
ledger_window = 600 * 10 ^ 9

abbrev pub ledger_limit : ℕ
ledger_limit = 16384

abbrev pub refusal_limit : ℕ
refusal_limit = 16

abbrev pub new : Ledger
new = record { entries = []; order = [] }

pub data Verdict : Type 0 where
  new_command repeat foreign_use : Verdict

-- `now.Sub(key.at) < ledgerWindow && len(l.entries) < ledgerLimit`
unfoldable pub keeps : ℕ → LedgerKey → Table Text LedgerEntry → Bool
keeps now key entries = ltb now (key.at + ledger_window) && ltb (length entries) ledger_limit

unfoldable pub drop_key : LedgerKey → Table Text LedgerEntry → Table Text LedgerEntry
drop_key key entries = elim (lookup key.id entries) [
  | none ↦ entries
  | some held ↦ if held.at == key.at then erase key.id entries else entries
]

unfoldable pub expire_from : ℕ → Table Text LedgerEntry → List LedgerKey → Ledger
expire_from now entries [] = record { entries = entries; order = [] }
expire_from now entries (key ∷ order) =
    let rest = expire_from now (drop_key key entries) order in
    if keeps now key entries then record { entries = entries; order = key ∷ order } else rest

unfoldable pub expire : ℕ → Ledger → Ledger
expire now l = expire_from now l.entries l.order

abbrev pub fresh_entry : Text → ℕ → LedgerEntry
fresh_entry actor now = record { actor = actor; at = now; ack_topic = []; ack = none; refused = [] }

unfoldable pub admit_into :
    ℕ → Text → Text → Ledger → Option LedgerEntry → (Verdict × Text × Option Text) × Ledger
admit_into now id actor l none = (
  (new_command, [], none),
  record {
    entries = insert id (fresh_entry actor now) l.entries;
    order = l.order ++ record { id = id; at = now } ∷ [];
  },
)
admit_into now id actor l (some held) =
    if not (text_beq held.actor actor)
    then ((foreign_use, [], none), l)
    else ((repeat, held.ack_topic, held.ack), l)

unfoldable pub admit : ℕ → Text → Text → Ledger → (Verdict × Text × Option Text) × Ledger
unfolding admit_into
admit now id actor l = let l' = expire now l in admit_into now id actor l' (lookup id l'.entries)

unfoldable pub forget : Text → Ledger → Ledger
forget id l = record l { entries = erase id l.entries }

-- `append([]byte(nil), payload...)`: a copy, nil of an empty payload.
abbrev pub copy_bytes : Text → Option Text
copy_bytes [] = none
copy_bytes (c ∷ s) = some (c ∷ s)

unfoldable pub ack_entry : Text → Text → LedgerEntry → LedgerEntry
ack_entry topic payload held = elim held.ack [
  | none ↦ record held { ack_topic = topic; ack = copy_bytes payload }
  | some a ↦ held
]

-- An update of the entry that a pointer in the map leads to.
unfoldable pub update : Text → (LedgerEntry → LedgerEntry) → Ledger → Ledger
update id f l = elim (lookup id l.entries) [
  | none ↦ l
  | some held ↦ record l { entries = insert id (f held) l.entries }
]

unfoldable pub acked : (Text → Text) → Text → Text → Text → Ledger → Ledger
unfolding ack_entry
acked without_result id topic payload l = update id (ack_entry topic (without_result payload)) l

unfoldable pub refuse_entry : Text → Text → LedgerEntry → LedgerEntry
refuse_entry actor ack held = record held {
  refused =
      (if leb refusal_limit (length held.refused) then tail held.refused else held.refused)
      ++ record { actor = actor; ack = ack } ∷ [];
}

unfoldable pub refuse : Text → Text → Text → Ledger → Ledger
unfolding refuse_entry
refuse id actor ack l = update id (refuse_entry actor ack) l

-- The first refusal with these bytes, and the others.
unfoldable pub take_refusal : Text → List Refusal → Option (Text × List Refusal)
take_refusal payload [] = none
take_refusal payload (r ∷ rs) =
    let later = take_refusal payload rs in
    if text_beq r.ack payload
    then some (r.actor, rs)
    else elim later [ none ↦ none | some (a, rest) ↦ some (a, r ∷ rest) ]

unfoldable pub deliver_to :
    Text → Ledger → LedgerEntry → Option (Text × List Refusal) → Text × Ledger
deliver_to id l held none = (held.actor, l)
deliver_to id l held (some (a, rest)) =
    (a, record l { entries = insert id (record held { refused = rest }) l.entries })

unfoldable pub recipient : Text → Text → Ledger → Text × Ledger
unfolding deliver_to
recipient id payload l = elim (lookup id l.entries) [
  | none ↦ ([], l)
  | some held ↦ deliver_to id l held (take_refusal payload held.refused)
]

unfoldable pub look_up : Text → Ledger → Text × Text × Option Text
look_up id l = elim (lookup id l.entries) [
  | none ↦ ([], [], none)
  | some held ↦ (held.actor, held.ack_topic, held.ack)
]

-- The operations as data, for histories.
pub data Op : Type 0 where
  admits : ℕ → Text → Text → Op
  forgets : Text → Op
  acks : Text → Text → Text → Op
  refuses : Text → Text → Text → Op
  delivers : Text → Text → Op

unfoldable pub step : (Text → Text) → Op → Ledger → Ledger
step w (admits now id actor) l = (admit now id actor l).1
step w (forgets id) l = forget id l
step w (acks id topic payload) l = acked w id topic payload l
step w (refuses id actor ack) l = refuse id actor ack l
step w (delivers id payload) l = (recipient id payload l).1

unfoldable pub run : (Text → Text) → List Op → Ledger → Ledger
run w [] l = l
run w (o ∷ os) l = run w os (step w o l)
