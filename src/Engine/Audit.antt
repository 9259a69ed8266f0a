-- ===== src/Engine/Audit.antt =====
-- internal/engine/audit_repeats.go: `auditRepeats`, which counts the repeats of a denial instead of
-- writing each. Times are nanoseconds and the zero time is 0. The lock makes each operation one step;
-- the Go map that is nil before the first denial is the empty table.
pub mod Counts
pub mod Quiet
use colca.Prelude.{
  ℕ, zero, suc, ◌+◌, ◌*◌, ◌/◌, ◌%◌, ◌^◌, Text, codes, text_beq, text_beq_iff, text_beq_sound,
  text_beq_refl, text_eq, is_empty, Table, lookup, insert, length, List, [], ◌∷◌, ◌++◌, Bool, true,
  false, not, ◌&&◌, ◌||◌, ltb, leb, ◌==◌, if◌then◌else◌, Option, some, none, Eq, ◌≡◌, ◌↔◌, refl,
  arith,
}

-- What `Metadata` holds of type `any`: a string, a number, or another value as `fmt.Sprint` prints it.
pub data MetaValue : Type 0 where
  text : Text → MetaValue
  number : ℕ → MetaValue
  other : Text → MetaValue

pub record AuditDenial : Type 0 where
  pub operation : Text
  pub reason_code : Text
  pub actor_id : Text
  pub actor_label : Text
  pub actor_kind : Text
  pub entity_type : Text
  pub entity_id : Text
  pub metadata : Table Text MetaValue
  pub peer : Text

pub record AuditRepeatKey : Type 0 where
  pub operation : Text
  pub reason : Text
  pub door : Text
  pub who : Text
  pub entity_type : Text
  pub entity_id : Text
  pub subject : Text

pub record AuditRepeat : Type 0 where
  pub since : ℕ
  pub repeats : ℕ
  pub last : AuditDenial

-- Five minutes.
abbrev pub audit_repeat_window : ℕ
audit_repeat_window = 300 * 10 ^ 9

abbrev pub max_audit_repeat_keys : ℕ
max_audit_repeat_keys = 2048

-- Go's == of two keys.
unfoldable pub key_beq : AuditRepeatKey → AuditRepeatKey → Bool
key_beq a b =
    text_beq a.operation b.operation
    && (text_beq a.reason b.reason
        && (text_beq a.door b.door
            && (text_beq a.who b.who
                && (text_beq a.entity_type b.entity_type
                    && (text_beq a.entity_id b.entity_id && text_beq a.subject b.subject)))))

key_beq_iff : (a b : AuditRepeatKey) → (key_beq a b ≡ true) ↔ (a ≡ b)
unfolding key_beq
key_beq_iff a b = (
  λ h. ground (
    arith,
    text_beq_iff a.operation b.operation,
    text_beq_iff a.reason b.reason,
    text_beq_iff a.door b.door,
    text_beq_iff a.who b.who,
    text_beq_iff a.entity_type b.entity_type,
    text_beq_iff a.entity_id b.entity_id,
    text_beq_iff a.subject b.subject,
  ),
  λ q.
      rw
        (
          ← q,
          text_beq_refl a.operation,
          text_beq_refl a.reason,
          text_beq_refl a.door,
          text_beq_refl a.who,
          text_beq_refl a.entity_type,
          text_beq_refl a.entity_id,
          text_beq_refl a.subject,
        )
        refl,
)

instance pub audit_key_eq : Eq AuditRepeatKey
audit_key_eq = record { beq = key_beq; beq_iff = key_beq_iff }

abbrev pub AuditRepeats : Type 0
AuditRepeats = Table AuditRepeatKey AuditRepeat

-- Decimal digits, with the number as fuel, which is more than its digits are many.
digits : ℕ → ℕ → Text
digits zero n = []
digits (suc fuel) n =
    let rest = digits fuel (n / 10) in
    if ltb n 10 then (48 + n) ∷ [] else rest ++ (48 + n % 10) ∷ []

unfoldable pub sprint : MetaValue → Text
unfolding digits
sprint (text s) = s
sprint (number n) = digits (suc n) n
sprint (other s) = s

-- `door, _ := d.Metadata["door"].(string)`
unfoldable pub door_text : Option MetaValue → Text
door_text (some (text s)) = s
door_text _ = []

unfoldable pub audit_door : AuditDenial → Text
audit_door d = door_text (lookup (codes "door") d.metadata)

unfoldable pub subject_of : AuditDenial → List Text → Text
subject_of d [] = []
subject_of d (key ∷ keys) =
    elim (lookup key d.metadata) [ none ↦ [] | some v ↦ key ++ codes "=" ++ sprint v ++ codes ";" ]
    ++ subject_of d keys

unfoldable pub audit_key_of : AuditDenial → AuditRepeatKey
audit_key_of d = record {
  operation = d.operation;
  reason = d.reason_code;
  door = audit_door d;
  who = if is_empty d.actor_id then d.peer else d.actor_id;
  entity_type = d.entity_type;
  entity_id = d.entity_id;
  subject =
      subject_of d
        (codes "filter" ∷ codes "topic" ∷ codes "cursor" ∷ codes "stream" ∷ codes "contract" ∷ []);
}

-- The account shared by everyone refused the same way.
unfoldable pub shared_key : AuditRepeatKey → AuditRepeatKey
shared_key k = record k { who = []; entity_type = []; entity_id = []; subject = [] }

-- The key that a denial is counted under.
unfoldable pub account : AuditRepeatKey → AuditRepeats → AuditRepeatKey
account k m = elim (lookup k m) [
  | some held ↦ k
  | none ↦ if leb max_audit_repeat_keys (length m) then shared_key k else k
]

unfoldable pub admit_under :
    AuditRepeatKey
    → AuditDenial
    → ℕ
    → AuditRepeats
    → Option AuditRepeat
    → (Bool × ℕ × ℕ) × AuditRepeats
admit_under k d now m none =
    ((true, 0, 0), insert k (record { since = now; repeats = 0; last = d }) m)
admit_under k d now m (some held) =
    if ltb now (held.since + audit_repeat_window)
    then (
      (false, 0, 0),
      insert k (record { since = held.since; repeats = suc held.repeats; last = d }) m,
    )
    else (
      (true, held.repeats, held.since),
      insert k (record { since = now; repeats = 0; last = d }) m,
    )

unfoldable pub admit : AuditDenial → ℕ → AuditRepeats → (Bool × ℕ × ℕ) × AuditRepeats
unfolding admit_under
admit d now m = let k = account (audit_key_of d) m in admit_under k d now m (lookup k m)

-- The accounts that are left, and those that `due` returns, in the order of the map.
unfoldable pub due : ℕ → Bool → AuditRepeats → List AuditRepeat × AuditRepeats
due now all_ [] = ([], [])
due now all_ ((k, held) ∷ m) =
    let rest = due now all_ m in
    if not all_ && ltb now (held.since + audit_repeat_window)
    then (rest.0, (k, held) ∷ rest.1)
    else (if ltb 0 held.repeats then held ∷ rest.0 else rest.0, rest.1)

unfoldable pub with_audit_metadata : Table Text MetaValue → Text → MetaValue → Table Text MetaValue
with_audit_metadata metadata key value = insert key value metadata

unfoldable pub repeated_denial : AuditDenial → ℕ → ℕ → AuditDenial
repeated_denial d repeated since = if repeated == 0 then d else record d {
  metadata =
      insert (codes "repeated_since") (number (since / 10 ^ 6))
        (with_audit_metadata d.metadata (codes "repeated") (number repeated));
}
