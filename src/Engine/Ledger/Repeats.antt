-- ===== src/Engine/Ledger/Repeats.antt =====
-- internal/engine/ledger.go: what a command sent twice meets, for `admitCommand` to act on.
use colca.Prelude.{
  ℕ, ◌+◌, ◌≤◌, ◌<◌, Text, text_beq, text_eq, text_beq_refl, is_empty, lookup, lookup-insert,
  lookup-erase, length-insert-le, length-erase-le, length, List, [], ◌∷◌, All, false, not,
  if◌then◌else◌, Option, some, none, ◌≡◌, refl, arith, Bool-cases, inl, inr, length-insert-some,
}
use colca.Engine.Ledger.{
  LedgerEntry, Ledger, ledger_limit, ledger_window, expire, admit, admit_into, forget, acked,
  ack_entry, refuse_entry, refuse, update, Op, admits, forgets, acks, refuses, delivers, step, run,
  fresh_entry, new_command, repeat, foreign_use,
}
use colca.Engine.Ledger.Memory.{
  Remembers, InWindow, expire_from-keeps_young, update-Remembers, ack_entry-Keeps,
  refuse_entry-Keeps, recipient-Remembers, admit_into-Remembers,
}

expire-Remembers :
    (now : ℕ) (id : Text) (e : LedgerEntry) (l : Ledger)
    → now < e.at + ledger_window
    → length l.entries < ledger_limit
    → Remembers id e l
    → Remembers id e (expire now l) × (length (expire now l).entries ≤ length l.entries)
unfolding expire
expire-Remembers now id e l young room m =
    let (found, len) =
      expire_from-keeps_young now l.entries l.order id m.entry (omega (arith, m.same_at)) room
        m.found in
    (
      record {
        entry = m.entry;
        found = found;
        same_actor = m.same_actor;
        same_at = m.same_at;
        same_ack = m.same_ack;
      },
      len,
    )

-- A history of operations within the window, none of which forgets the id, and not so many that the
-- ledger could reach its limit.
step-Remembers :
    (w : Text → Text) (o : Op) (id : Text) (e : LedgerEntry) (l : Ledger)
    → InWindow id e.at o
    → length l.entries < ledger_limit
    → Remembers id e l
    → Remembers id e (step w o l) × (length (step w o l).entries ≤ length l.entries + 1)
unfolding step acked refuse forget admit InWindow
step-Remembers w (admits now j actor) id e l young room m =
    let (m1, len1) = expire-Remembers now id e l young room m in
    let (m2, len2) = admit_into-Remembers now j actor id e (expire now l) m1 in (m2, omega arith)
step-Remembers w (forgets j) id e l other room m = (
  record {
    entry = m.entry;
    found = rw (lookup-erase j id l.entries, other) m.found;
    same_actor = m.same_actor;
    same_at = m.same_at;
    same_ack = m.same_ack;
  },
  omega (arith, length-erase-le j l.entries),
)
step-Remembers w (acks j topic payload) id e l y room m =
    let (m1, len) =
      update-Remembers j (ack_entry topic (w payload)) id e l (ack_entry-Keeps topic (w payload))
        m in
    (m1, omega arith)
step-Remembers w (refuses j actor ack) id e l y room m =
    let (m1, len) =
      update-Remembers j (refuse_entry actor ack) id e l (refuse_entry-Keeps actor ack) m in
    (m1, omega arith)
step-Remembers w (delivers j payload) id e l y room m =
    let (m1, len) = recipient-Remembers j payload id e l m in (m1, omega arith)

run-Remembers :
    (w : Text → Text) (os : List Op) (id : Text) (e : LedgerEntry) (l : Ledger)
    → All (InWindow id e.at) os
    → length l.entries + length os < ledger_limit
    → Remembers id e l
    → Remembers id e (run w os l) × (length (run w os l).entries < ledger_limit)
unfolding run
run-Remembers w [] id e l ins room m = (m, omega arith)
run-Remembers w (o ∷ os) id e l (i, ins) room m =
    let (m1, len) = step-Remembers w o id e l i (omega arith) m in
    run-Remembers w os id e (step w o l) ins (omega arith) m1

admit-held :
    (now : ℕ) (id actor : Text) (l : Ledger) (e : LedgerEntry)
    → now < e.at + ledger_window
    → length l.entries < ledger_limit
    → (m : Remembers id e l)
    → (admit now id actor l).0 ≡ (
        if text_beq e.actor actor
        then (repeat, m.entry.ack_topic, m.entry.ack)
        else (foreign_use, [], none))
unfolding admit expire admit_into
admit-held now id actor l e young room m =
    let (found, len) =
      expire_from-keeps_young now l.entries l.order id m.entry (omega (arith, m.same_at)) room
        m.found in
    rw (found, m.same_actor)
      (elim (Bool-cases (text_beq e.actor actor)) [ inl q ↦ rw q refl | inr q ↦ rw q refl ])

admitted_entry :
    (now : ℕ) (id actor : Text) (l : Ledger) (o : Option LedgerEntry)
    → lookup id l.entries ≡ o
    → (admit_into now id actor l o).0.0 ≡ new_command
    → Remembers id (fresh_entry actor now) (admit_into now id actor l o).1
      × (length (admit_into now id actor l o).1.entries ≤ length l.entries + 1)
unfolding admit_into
admitted_entry now id actor l none q new_ = (
  record {
    entry = fresh_entry actor now;
    found = rw (lookup-insert id id (fresh_entry actor now) l.entries, text_beq_refl id) refl;
    same_actor = refl;
    same_at = refl;
    same_ack = λ a h. cc;
  },
  length-insert-le id (fresh_entry actor now) l.entries,
)
admitted_entry now id actor l (some held) q new_ =
    absurd (elim (Bool-cases (not (text_beq held.actor actor))) [
      | inl r ↦ cc (r, new_)
      | inr r ↦ cc (r, new_)
    ])

ack_entry-first :
    (topic p : Text) (e : LedgerEntry)
    → e.ack ≡ none
    → is_empty p ≡ false
    → ack_entry topic p e ≡ record e { ack_topic = topic; ack = some p }
unfolding ack_entry is_empty
ack_entry-first topic [] e h full = cc
ack_entry-first topic (c ∷ s) e h full = rw (ack_entry, h) refl

-- A resent command never runs twice. After a command is admitted as new, and any history of at most as
-- many operations as the ledger has room for, none later than ten minutes after it and none forgetting
-- its id, the same id is a repeat if the same actor sends it, and a foreign use if another one does.
pub resent-repeat :
    (w : Text → Text) (t now : ℕ) (id actor other : Text) (l : Ledger) (os : List Op)
    → (admit t id actor l).0.0 ≡ new_command
    → All (InWindow id t) os
    → length (admit t id actor l).1.entries + length os < ledger_limit
    → now < t + ledger_window
    → (admit now id other (run w os (admit t id actor l).1)).0.0
      ≡ (if text_beq actor other then repeat else foreign_use)
unfolding admit
resent-repeat w t now id actor other l os new_ ins room young =
    let (m0, len0) =
      admitted_entry t id actor (expire t l) (lookup id (expire t l).entries) refl new_ in
    let (m, len) = run-Remembers w os id (fresh_entry actor t) (admit t id actor l).1 ins room m0 in
    rw (admit-held now id other (run w os (admit t id actor l).1) (fresh_entry actor t) young len m)
      (elim (Bool-cases (text_beq actor other)) [ inl q ↦ rw q refl | inr q ↦ rw q refl ])

-- The first ack answers every repeat. Once a held command without an ack gets one that is not empty,
-- then after any history as in `resent-repeat`, further acks included, its sender's repeat is answered
-- with that ack, on its topic.
pub acked-repeat :
    (w : Text → Text) (now : ℕ) (id topic payload : Text) (l : Ledger) (e : LedgerEntry)
    (os : List Op)
    → lookup id l.entries ≡ some e
    → e.ack ≡ none
    → is_empty (w payload) ≡ false
    → All (InWindow id e.at) os
    → length l.entries + length os < ledger_limit
    → now < e.at + ledger_window
    → (admit now id e.actor (run w os (acked w id topic payload l))).0
      ≡ (repeat, topic, some (w payload))
unfolding acked update
acked-repeat w now id topic payload l e os found no_ack full ins room young =
    let held : LedgerEntry = record e { ack_topic = topic; ack = some (w payload) } in
    let stored = ack_entry-first topic (w payload) e no_ack full in
    let m0 : Remembers id held (acked w id topic payload l) =
      rw (update, found, stored)
        (record {
          entry = held;
          found = rw (lookup-insert id id held l.entries, text_beq_refl id) refl;
          same_actor = refl;
          same_at = refl;
          same_ack = λ a h. (h, refl);
        }) in
    let same_length : length (acked w id topic payload l).entries ≡ length l.entries =
      rw (update, found, stored) (length-insert-some id held e l.entries found) in
    let (m, len) = run-Remembers w os id held (acked w id topic payload l) ins (omega arith) m0 in
    let (had, on_topic) = m.same_ack (w payload) refl in
    rw
      (
        admit-held now id e.actor (run w os (acked w id topic payload l)) held young len m,
        text_beq_refl e.actor,
        had,
        on_topic,
      )
      refl
