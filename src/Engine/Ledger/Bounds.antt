-- ===== src/Engine/Ledger/Bounds.antt =====
-- internal/engine/ledger.go: how much the ledger holds.
use colca.Prelude.{
  ℕ, ◌<◌, Text, text_beq, text_eq, lookup, insert, length-insert-le, length-erase-le, length, List,
  [], ◌∷◌, not, Option, some, none, ◌≡◌, refl, arith, Bool-cases, Option-cases, inl, inr,
  length-insert-some,
}
use colca.Engine.Ledger.{
  Refusal, LedgerEntry, Ledger, ledger_limit, new, expire, admit, admit_into, forget, acked,
  ack_entry, refuse_entry, refuse, recipient, deliver_to, update, Op, admits, forgets, acks,
  refuses, delivers, step, run, take_refusal, fresh_entry,
}
use colca.Engine.Ledger.Tracking.{
  IsTracked, IsBounded, expire_from-room, insert-IsTracked, update-IsTracked, erase-IsTracked,
}

admit_into-IsBounded :
    (now : ℕ) (id actor : Text) (l : Ledger) (o : Option LedgerEntry)
    → IsTracked l.entries l.order
    → length l.entries < ledger_limit
    → IsBounded (admit_into now id actor l o).1
unfolding admit_into
admit_into-IsBounded now id actor l none t room = record {
  tracked = insert-IsTracked id (fresh_entry actor now) l.entries l.order t;
  bounded = omega (arith, length-insert-le id (fresh_entry actor now) l.entries);
}
admit_into-IsBounded now id actor l (some held) t room =
    elim (Bool-cases (not (text_beq held.actor actor))) [
      | inl q ↦ rw q (record { tracked = t; bounded = omega arith })
      | inr q ↦ rw q (record { tracked = t; bounded = omega arith })
    ]

pub admit-IsBounded :
    (now : ℕ) (id actor : Text) (l : Ledger) → IsBounded l → IsBounded (admit now id actor l).1
unfolding admit expire
admit-IsBounded now id actor l b =
    let (t, room) = expire_from-room now l.entries l.order b.tracked in
    admit_into-IsBounded now id actor (expire now l) (lookup id (expire now l).entries) t room

insert-IsBounded :
    (id : Text) (e x : LedgerEntry) (l : Ledger)
    → lookup id l.entries ≡ some x
    → e.at ≡ x.at
    → IsBounded l
    → IsBounded (record l { entries = insert id e l.entries })
insert-IsBounded id e x l found same b = record {
  tracked = update-IsTracked id e x l.entries l.order found same b.tracked;
  bounded = rw (length-insert-some id e x l.entries found) b.bounded;
}

pub update-IsBounded :
    (id : Text) (f : LedgerEntry → LedgerEntry) (l : Ledger)
    → ((x : LedgerEntry) → (f x).at ≡ x.at)
    → IsBounded l
    → IsBounded (update id f l)
unfolding update
update-IsBounded id f l keep b = elim (Option-cases (lookup id l.entries)) [
  | inl q ↦ rw (update, q) b
  | inr (x, q) ↦ rw (update, q) (insert-IsBounded id (f x) x l q (keep x) b)
]

forget-IsBounded : (id : Text) (l : Ledger) → IsBounded l → IsBounded (forget id l)
unfolding forget
forget-IsBounded id l b = record {
  tracked = erase-IsTracked id l.entries l.order b.tracked;
  bounded = omega (arith, length-erase-le id l.entries, b.bounded);
}

ack_entry-at : (topic payload : Text) (x : LedgerEntry) → (ack_entry topic payload x).at ≡ x.at
unfolding ack_entry
ack_entry-at topic payload x = elim (Option-cases x.ack) [
  | inl q ↦ rw q refl
  | inr (a, q) ↦ rw q refl
]

deliver_to-IsBounded :
    (id : Text) (l : Ledger) (held : LedgerEntry) (o : Option (Text × List Refusal))
    → lookup id l.entries ≡ some held
    → IsBounded l
    → IsBounded (deliver_to id l held o).1
unfolding deliver_to
deliver_to-IsBounded id l held none found b = b
deliver_to-IsBounded id l held (some (a, rest)) found b =
    insert-IsBounded id (record held { refused = rest }) held l found refl b

recipient-IsBounded :
    (id payload : Text) (l : Ledger) → IsBounded l → IsBounded (recipient id payload l).1
unfolding recipient
recipient-IsBounded id payload l b = elim (Option-cases (lookup id l.entries)) [
  | inl q ↦ rw (recipient, q) b
  | inr (x, q) ↦
      rw (recipient, q) (deliver_to-IsBounded id l x (take_refusal payload x.refused) q b)
]

pub step-IsBounded : (w : Text → Text) (o : Op) (l : Ledger) → IsBounded l → IsBounded (step w o l)
unfolding step acked refuse refuse_entry
step-IsBounded w (admits now id actor) l b = admit-IsBounded now id actor l b
step-IsBounded w (forgets id) l b = forget-IsBounded id l b
step-IsBounded w (acks id topic payload) l b =
    update-IsBounded id (ack_entry topic (w payload)) l (ack_entry-at topic (w payload)) b
step-IsBounded w (refuses id actor ack) l b =
    update-IsBounded id (refuse_entry actor ack) l (λ x. refl) b
step-IsBounded w (delivers id payload) l b = recipient-IsBounded id payload l b

pub run-IsBounded_from :
    (w : Text → Text) (os : List Op) (l : Ledger) → IsBounded l → IsBounded (run w os l)
unfolding run
run-IsBounded_from w [] l b = b
run-IsBounded_from w (o ∷ os) l b = run-IsBounded_from w os (step w o l) (step-IsBounded w o l b)

pub new-IsBounded : IsBounded new
unfolding lookup
new-IsBounded = record { tracked = record { key = λ id e h. cc }; bounded = omega arith }

-- Whatever commands, acks, refusals and deliveries come in whatever order, with any readings of the clock, a ledger
-- that began empty remembers at most 16384 commands, and each entry has a key of its time in the order of expiry.
run-IsBounded : (w : Text → Text) (os : List Op) → IsBounded (run w os new)
run-IsBounded w os = run-IsBounded_from w os new new-IsBounded
