-- ===== src/Engine/Ledger/Tracking.antt =====
-- internal/engine/ledger.go: the order of expiry and the entries that it is to drop.
use colca.Prelude.{
  ℕ, ◌≤◌, ◌<◌, Text, text_beq, text_eq, text_beq_refl, text_beq_sound, Table, lookup, insert, erase,
  lookup-insert, lookup-erase, length, List, [], ◌∷◌, ◌++◌, Option, some, none, ◌≡◌, refl, sym, ap,
  subst, ◌∙◌, arith, Bool-cases, inl, inr, In, In-append_left, In-append_right, table-empty,
}
use colca.Engine.Ledger.{LedgerEntry, LedgerKey, Ledger, ledger_limit, keeps, drop_key, expire_from}

-- Each entry has its key, with its time, in the order of expiry.
pub record IsTracked (entries : Table Text LedgerEntry) (order : List LedgerKey) : Type 0 where
  pub key :
      (id : Text) (e : LedgerEntry)
      → lookup id entries ≡ some e
      → In (record { id = id; at = e.at }) order

-- What dropping a key leaves, and that it leaves no entry of that key's id and time.
pub lookup-drop_key :
    (k : LedgerKey) (entries : Table Text LedgerEntry) (id : Text) (e : LedgerEntry)
    → lookup id (drop_key k entries) ≡ some e
    → (lookup id entries ≡ some e) × (k.id ≡ id → k.at ≡ e.at → ⊥)
unfolding drop_key
lookup-drop_key k entries id e h = elim (Bool-cases (text_beq k.id id)) [
  | inl same ↦
      let q : k.id ≡ id = text_beq_sound k.id id same in
      ground (arith, lookup-erase k.id id entries)
  | inr other ↦
      let n : k.id ≡ id → ⊥ = λ q. cc (ap (λ x. text_beq x id) q, text_beq_refl id) in
      (ground (arith, lookup-erase k.id id entries), λ q _. n q)
]

pub drop_key-IsTracked :
    (k : LedgerKey) (entries : Table Text LedgerEntry) (order : List LedgerKey)
    → IsTracked entries (k ∷ order)
    → IsTracked (drop_key k entries) order
drop_key-IsTracked k entries order t = record {
  key = λ id e h.
      let (old, gone) = lookup-drop_key k entries id e h in
      elim (t.key id e old) [
        | inl q ↦ absurd (gone (ap (λ r. r.id) q) (ap (λ r. r.at) q))
        | inr m ↦ m
      ];
}

pub nothing-tracked : (entries : Table Text LedgerEntry) → IsTracked entries [] → entries ≡ []
nothing-tracked entries t = table-empty entries λ id. no_entry id (lookup id entries) refl
  where
    no_entry :
        (id : Text) (o : Option LedgerEntry) → lookup id entries ≡ o → lookup id entries ≡ none
    no_entry id none h = h
    no_entry id (some e) h = absurd (t.key id e h)

-- The state of a ledger, tracked and bounded.
pub record IsBounded (l : Ledger) : Type 0 where
  pub tracked : IsTracked l.entries l.order
  pub bounded : length l.entries ≤ ledger_limit

-- After expiry the ledger has room for one more entry.
pub expire_from-room :
    (now : ℕ) (entries : Table Text LedgerEntry) (order : List LedgerKey)
    → IsTracked entries order
    → IsTracked (expire_from now entries order).entries (expire_from now entries order).order
      × (length (expire_from now entries order).entries < ledger_limit)
unfolding expire_from
expire_from-room now entries [] t = (t, rw (nothing-tracked entries t) (omega arith))
expire_from-room now entries (k ∷ order) t = elim (Bool-cases (keeps now k entries)) [
  | inl q ↦ rw q (t, unfold keeps in ground arith)
  | inr q ↦
      rw q (expire_from-room now (drop_key k entries) order (drop_key-IsTracked k entries order t))
]

pub insert-IsTracked :
    (id : Text) (e : LedgerEntry) (entries : Table Text LedgerEntry) (order : List LedgerKey)
    → IsTracked entries order
    → IsTracked (insert id e entries) (order ++ record { id = id; at = e.at } ∷ [])
insert-IsTracked id e entries order t = record {
  key = λ j x h. elim (Bool-cases (text_beq id j)) [
    | inl q ↦
        let same : some e ≡ some x = cc (lookup-insert id j e entries, q, h) in
        subst (λ y. In (record { id = j; at = y.at }) (order ++ record { id = id; at = e.at } ∷ []))
          (some_inj same)
          (subst
            (λ i. In (record { id = i; at = e.at }) (order ++ record { id = id; at = e.at } ∷ []))
            (text_beq_sound id j q) (In-append_right _ order _ (inl refl)))
    | inr q ↦ In-append_left _ order _ (t.key j x (cc (lookup-insert id j e entries, q, h)))
  ];
}
  where
    some_inj : {x y : LedgerEntry} → some x ≡ some y → x ≡ y
    some_inj h = cc

-- An update that leaves the time leaves an entry where it is.
pub update-IsTracked :
    (id : Text) (e x : LedgerEntry) (entries : Table Text LedgerEntry) (order : List LedgerKey)
    → lookup id entries ≡ some x
    → e.at ≡ x.at
    → IsTracked entries order
    → IsTracked (insert id e entries) order
update-IsTracked id e x entries order found same t = record {
  key = λ j y h. elim (Bool-cases (text_beq id j)) [
    | inl q ↦
        let e_is_y : some e ≡ some y = cc (lookup-insert id j e entries, q, h) in
        let at_y : x.at ≡ y.at = sym same ∙ ap (λ o. at_of o) e_is_y in
        subst (λ n. In (record { id = j; at = n }) order) at_y
          (t.key j x (subst (λ i. lookup i entries ≡ some x) (text_beq_sound id j q) found))
    | inr q ↦ t.key j y (cc (lookup-insert id j e entries, q, h))
  ];
}
  where
    at_of : Option LedgerEntry → ℕ
    at_of none = 0
    at_of (some y) = y.at

pub erase-IsTracked :
    (id : Text) (entries : Table Text LedgerEntry) (order : List LedgerKey)
    → IsTracked entries order
    → IsTracked (erase id entries) order
erase-IsTracked id entries order t = record { key = λ j x h. t.key j x (still_there j x h) }
  where
    still_there :
        (j : Text) (x : LedgerEntry)
        → lookup j (erase id entries) ≡ some x
        → lookup j entries ≡ some x
    still_there j x h = ground (arith, lookup-erase id j entries)
