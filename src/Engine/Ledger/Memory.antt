-- ===== src/Engine/Ledger/Memory.antt =====
-- internal/engine/ledger.go: what the ledger keeps of a command while other commands come and go.
use colca.Prelude.{
  ℕ, ◌+◌, ◌≤◌, ◌<◌, Text, text_beq, text_eq, text_beq_sound, Table, lookup, insert, lookup-insert,
  lookup-erase, length-insert-le, length-erase-le, length, List, [], ◌∷◌, false, not, Option, some,
  none, ◌≡◌, refl, arith, Bool-cases, Option-cases, inl, inr, length-insert-some,
}
use colca.Engine.Ledger.{
  Refusal, LedgerEntry, LedgerKey, Ledger, ledger_limit, ledger_window, keeps, drop_key,
  expire_from, admit_into, ack_entry, refuse_entry, recipient, deliver_to, update, Op, admits,
  forgets, take_refusal, fresh_entry,
}

-- The entry of an id is still that of the command in `e`, with its ack if it had one.
pub record Remembers (id : Text) (e : LedgerEntry) (l : Ledger) : Type 0 where
  pub entry : LedgerEntry
  pub found : lookup id l.entries ≡ some entry
  pub same_actor : entry.actor ≡ e.actor
  pub same_at : entry.at ≡ e.at
  pub same_ack :
      (a : Text) → e.ack ≡ some a → (entry.ack ≡ some a) × (entry.ack_topic ≡ e.ack_topic)

-- An operation that is not later than the window of a command of time `t`, and does not forget `id`.
unfoldable pub InWindow : Text → ℕ → Op → Type 0
InWindow id t (admits now j actor) = now < t + ledger_window
InWindow id t (forgets j) = text_beq j id ≡ false
InWindow id t _ = Unit

length-drop_key :
    (k : LedgerKey) (entries : Table Text LedgerEntry)
    → length (drop_key k entries) ≤ length entries
unfolding drop_key
length-drop_key k entries = ground (arith, length-erase-le k.id entries)

drop_key-keeps_others :
    (k : LedgerKey) (entries : Table Text LedgerEntry) (id : Text) (e : LedgerEntry)
    → lookup id entries ≡ some e
    → (k.at ≡ e.at → ⊥)
    → lookup id (drop_key k entries) ≡ some e
unfolding drop_key
drop_key-keeps_others k entries id e h n = elim (Bool-cases (text_beq k.id id)) [
  | inl same ↦
      let q : k.id ≡ id = text_beq_sound k.id id same in
      ground (arith, lookup-erase k.id id entries)
  | inr other ↦ ground (arith, lookup-erase k.id id entries)
]

-- Expiry drops no entry younger than the window from a ledger under its limit.
pub expire_from-keeps_young :
    (now : ℕ) (entries : Table Text LedgerEntry) (order : List LedgerKey) (id : Text)
    (e : LedgerEntry)
    → now < e.at + ledger_window
    → length entries < ledger_limit
    → lookup id entries ≡ some e
    → (lookup id (expire_from now entries order).entries ≡ some e)
      × (length (expire_from now entries order).entries ≤ length entries)
unfolding expire_from
expire_from-keeps_young now entries [] id e young room h = (h, omega arith)
expire_from-keeps_young now entries (k ∷ order) id e young room h =
    elim (Bool-cases (keeps now k entries)) [
      | inl q ↦ rw q (h, omega arith)
      | inr q ↦
          let old : k.at + ledger_window ≤ now = unfold keeps in ground arith in
          let shorter = length-drop_key k entries in
          let (found, len) =
            expire_from-keeps_young now (drop_key k entries) order id e young (omega arith)
              (drop_key-keeps_others k entries id e h (λ q. omega arith)) in
          rw q (found, omega arith)
    ]

-- An update keeps what is remembered of an id, if it keeps that of the entry.
pub record Keeps (f : LedgerEntry → LedgerEntry) : Type 0 where
  keeps_actor : (x : LedgerEntry) → (f x).actor ≡ x.actor
  keeps_at : (x : LedgerEntry) → (f x).at ≡ x.at
  keeps_ack :
      (x : LedgerEntry) (a : Text)
      → x.ack ≡ some a
      → ((f x).ack ≡ some a) × ((f x).ack_topic ≡ x.ack_topic)

insert-Remembers :
    (j : Text) (f : LedgerEntry → LedgerEntry) (x : LedgerEntry) (id : Text) (e : LedgerEntry)
    (l : Ledger)
    → Keeps f
    → lookup j l.entries ≡ some x
    → Remembers id e l
    → Remembers id e (record l { entries = insert j (f x) l.entries })
insert-Remembers j f x id e l k found m = elim (Bool-cases (text_beq j id)) [
  | inl q ↦
      let same : some x ≡ some m.entry = cc (found, m.found, text_beq_sound j id q) in
      let x_is : x ≡ m.entry = cc same in
      record {
        entry = f x;
        found = rw (lookup-insert j id (f x) l.entries, q) refl;
        same_actor = cc (k.keeps_actor x, x_is, m.same_actor);
        same_at = cc (k.keeps_at x, x_is, m.same_at);
        same_ack = λ a h.
            let (had, topic) = m.same_ack a h in
            let (has, kept) = k.keeps_ack x a (cc (x_is, had)) in (has, cc (kept, x_is, topic));
      }
  | inr q ↦ record {
    entry = m.entry;
    found = rw (lookup-insert j id (f x) l.entries, q) m.found;
    same_actor = m.same_actor;
    same_at = m.same_at;
    same_ack = m.same_ack;
  }
]

pub update-Remembers :
    (j : Text) (f : LedgerEntry → LedgerEntry) (id : Text) (e : LedgerEntry) (l : Ledger)
    → Keeps f
    → Remembers id e l
    → Remembers id e (update j f l) × (length (update j f l).entries ≡ length l.entries)
unfolding update
update-Remembers j f id e l k m = elim (Option-cases (lookup j l.entries)) [
  | inl q ↦ rw (update, q) (m, refl)
  | inr (x, q) ↦
      rw (update, q) (insert-Remembers j f x id e l k q m, length-insert-some j (f x) x l.entries q)
]

pub ack_entry-Keeps : (topic payload : Text) → Keeps (ack_entry topic payload)
unfolding ack_entry
ack_entry-Keeps topic payload = record {
  keeps_actor = λ x. elim (Option-cases x.ack) [ inl q ↦ rw q refl | inr (a, q) ↦ rw q refl ];
  keeps_at = λ x. elim (Option-cases x.ack) [ inl q ↦ rw q refl | inr (a, q) ↦ rw q refl ];
  keeps_ack = λ x a h. rw h (refl, refl);
}

pub refuse_entry-Keeps : (actor ack : Text) → Keeps (refuse_entry actor ack)
unfolding refuse_entry
refuse_entry-Keeps actor ack = record {
  keeps_actor = λ x. refl;
  keeps_at = λ x. refl;
  keeps_ack = λ x a h. (h, refl);
}

deliver_to-Remembers :
    (j : Text) (id : Text) (e : LedgerEntry) (l : Ledger) (held : LedgerEntry)
    (o : Option (Text × List Refusal))
    → lookup j l.entries ≡ some held
    → Remembers id e l
    → Remembers id e (deliver_to j l held o).1
      × (length (deliver_to j l held o).1.entries ≡ length l.entries)
unfolding deliver_to
deliver_to-Remembers j id e l held none q m = (m, refl)
deliver_to-Remembers j id e l held (some (a, rest)) q m =
    let f : LedgerEntry → LedgerEntry = λ x. record x { refused = rest } in
    (
      insert-Remembers j f held id e l
          (record { keeps_actor = λ x. refl; keeps_at = λ x. refl; keeps_ack = λ x b h. (h, refl) })
          q m,
      length-insert-some j (f held) held l.entries q,
    )

pub recipient-Remembers :
    (j payload : Text) (id : Text) (e : LedgerEntry) (l : Ledger)
    → Remembers id e l
    → Remembers id e (recipient j payload l).1
      × (length (recipient j payload l).1.entries ≡ length l.entries)
unfolding recipient
recipient-Remembers j payload id e l m = elim (Option-cases (lookup j l.entries)) [
  | inl q ↦ rw (recipient, q) (m, refl)
  | inr (x, q) ↦
      rw (recipient, q) (deliver_to-Remembers j id e l x (take_refusal payload x.refused) q m)
]

pub admit_into-Remembers :
    (now : ℕ) (j actor : Text) (id : Text) (e : LedgerEntry) (l : Ledger)
    → Remembers id e l
    → Remembers id e (admit_into now j actor l (lookup j l.entries)).1
      × (length (admit_into now j actor l (lookup j l.entries)).1.entries ≤ length l.entries + 1)
unfolding admit_into
admit_into-Remembers now j actor id e l m = elim (Option-cases (lookup j l.entries)) [
  | inl q ↦
      let other : text_beq j id ≡ false = elim (Bool-cases (text_beq j id)) [
        | inl r ↦ absurd (cc (q, m.found, text_beq_sound j id r))
        | inr r ↦ r
      ] in
      rw q (
        record {
          entry = m.entry;
          found = rw (lookup-insert j id (fresh_entry actor now) l.entries, other) m.found;
          same_actor = m.same_actor;
          same_at = m.same_at;
          same_ack = m.same_ack;
        },
        length-insert-le j (fresh_entry actor now) l.entries,
      )
  | inr (x, q) ↦ rw q (elim (Bool-cases (not (text_beq x.actor actor))) [
    | inl r ↦ rw r (m, omega arith)
    | inr r ↦ rw r (m, omega arith)
  ])
]
