-- ===== src/Engine/Ledger/Ages.antt =====
-- internal/engine/ledger.go: how long the ledger holds an entry.
use colca.Prelude.{
  ℕ, ◌+◌, ◌≤◌, ◌<◌, Text, text_beq, text_eq, Table, lookup, lookup-insert, length, List, [], ◌∷◌,
  ◌++◌, Option, some, none, ◌≡◌, refl, ap, arith, Bool-cases, Option-cases, inl, inr, In, not,
}
use colca.Engine.Ledger.{
  LedgerEntry, LedgerKey, Ledger, Refusal, ledger_limit, ledger_window, keeps, drop_key,
  expire_from, expire, new, admit, admit_into, fresh_entry, forget, acked, refuse, recipient,
  deliver_to, take_refusal, update, Op, admits, forgets, acks, refuses, delivers, step, run,
}
use colca.Engine.Ledger.Tracking.{IsTracked, IsBounded, drop_key-IsTracked, nothing-tracked}
use colca.Engine.Ledger.Bounds.{step-IsBounded, new-IsBounded}

-- The times of the keys rise from `lo` to `hi`.
unfoldable pub Ascends : ℕ → ℕ → List LedgerKey → Type 0
Ascends lo hi [] = lo ≤ hi
Ascends lo hi (k ∷ ks) = (lo ≤ k.at) × Ascends k.at hi ks

Ascends-from :
    (lo lo' hi : ℕ) (ks : List LedgerKey) → lo' ≤ lo → Ascends lo hi ks → Ascends lo' hi ks
unfolding Ascends
Ascends-from lo lo' hi [] l h = omega arith
Ascends-from lo lo' hi (k ∷ ks) l (a, h) = (omega arith, h)

Ascends-to : (lo hi hi' : ℕ) (ks : List LedgerKey) → hi ≤ hi' → Ascends lo hi ks → Ascends lo hi' ks
unfolding Ascends
Ascends-to lo hi hi' [] l h = omega arith
Ascends-to lo hi hi' (k ∷ ks) l (a, h) = (a, Ascends-to k.at hi hi' ks l h)

Ascends-append :
    (lo hi : ℕ) (ks : List LedgerKey) (k : LedgerKey)
    → Ascends lo hi ks
    → hi ≤ k.at
    → Ascends lo k.at (ks ++ k ∷ [])
unfolding Ascends
Ascends-append lo hi [] k h l = omega arith
Ascends-append lo hi (j ∷ ks) k (a, h) l = (a, Ascends-append j.at hi ks k h l)

Ascends-In :
    (lo hi : ℕ) (ks : List LedgerKey) (k : LedgerKey) → Ascends lo hi ks → In k ks → lo ≤ k.at
unfolding Ascends
Ascends-In lo hi [] k h m = absurd m
Ascends-In lo hi (j ∷ ks) k (a, h) (inl q) =
    let same : j.at ≡ k.at = ap (λ r. r.at) q in omega arith
Ascends-In lo hi (j ∷ ks) k (a, h) (inr m) = omega (arith, Ascends-In j.at hi ks k h m)

-- Each entry is younger than the window.
unfoldable pub IsYoung : ℕ → Table Text LedgerEntry → Type 0
IsYoung now entries =
    (id : Text) (e : LedgerEntry) → lookup id entries ≡ some e → now < e.at + ledger_window

-- Expiry leaves young entries, and the order as it was behind what it drops.
expire_from-IsYoung :
    (now lo hi : ℕ) (entries : Table Text LedgerEntry) (order : List LedgerKey)
    → IsTracked entries order
    → Ascends lo hi order
    → IsYoung now (expire_from now entries order).entries
      × Ascends lo hi (expire_from now entries order).order
unfolding expire_from IsYoung lookup Ascends
expire_from-IsYoung now lo hi entries [] t h =
    (λ id e q. absurd (cc (rw (nothing-tracked entries t) at q)), h)
expire_from-IsYoung now lo hi entries (k ∷ order) t (a, h) =
    elim (Bool-cases (keeps now k entries)) [
      | inl q ↦
          let young : now < k.at + ledger_window = unfold keeps in ground arith in
          rw q (
            λ id e found.
                let oldest = Ascends-In k.at hi (k ∷ order) _ (omega arith, h) (t.key id e found) in
                omega (arith, young, oldest),
            (a, h),
          )
      | inr q ↦ rw q (
          expire_from-IsYoung now lo hi (drop_key k entries) order
            (drop_key-IsTracked k entries order t) (Ascends-from k.at lo hi order a h))
    ]

-- A history in which the clock is not set back.
unfoldable pub IsRising : ℕ → List Op → Type 0
IsRising clock [] = Unit
IsRising clock (admits now id actor ∷ os) = (clock ≤ now) × IsRising now os
IsRising clock (_ ∷ os) = IsRising clock os

-- The last reading of the clock in a history.
unfoldable pub last_reading : ℕ → List Op → ℕ
last_reading clock [] = clock
last_reading clock (admits now id actor ∷ os) = last_reading now os
last_reading clock (_ ∷ os) = last_reading clock os

-- The state of a ledger whose last reading of the clock was `clock`.
record IsAged (clock : ℕ) (l : Ledger) : Type 0 where
  bounded : IsBounded l
  ascends : Ascends 0 clock l.order

admit_into-IsYoung :
    (now clock : ℕ) (id actor : Text) (l : Ledger) (o : Option LedgerEntry)
    → clock ≤ now
    → IsYoung now l.entries
    → Ascends 0 clock l.order
    → IsYoung now (admit_into now id actor l o).1.entries
      × Ascends 0 now (admit_into now id actor l o).1.order
unfolding admit_into IsYoung
admit_into-IsYoung now clock id actor l none c y h = (
  λ j e found. elim (Bool-cases (text_beq id j)) [
    | inl q ↦
        let same : some (fresh_entry actor now) ≡ some e =
          cc (lookup-insert id j (fresh_entry actor now) l.entries, q, found) in
        let at_now : now ≡ e.at = ap (λ o. at_of o) same in omega arith
    | inr q ↦ y j e (cc (lookup-insert id j (fresh_entry actor now) l.entries, q, found))
  ],
  Ascends-append 0 clock l.order (record { id = id; at = now }) h c,
)
  where
    at_of : Option LedgerEntry → ℕ
    at_of none = 0
    at_of (some x) = x.at
admit_into-IsYoung now clock id actor l (some held) c y h =
    elim (Bool-cases (not (text_beq held.actor actor))) [
      | inl q ↦ rw q (y, Ascends-to 0 clock now l.order c h)
      | inr q ↦ rw q (y, Ascends-to 0 clock now l.order c h)
    ]

admit-IsYoung :
    (now clock : ℕ) (id actor : Text) (l : Ledger)
    → clock ≤ now
    → IsAged clock l
    → IsYoung now (admit now id actor l).1.entries × Ascends 0 now (admit now id actor l).1.order
unfolding admit expire
admit-IsYoung now clock id actor l c a =
    let (young, ascends) =
      expire_from-IsYoung now 0 clock l.entries l.order a.bounded.tracked a.ascends in
    admit_into-IsYoung now clock id actor (expire now l) (lookup id (expire now l).entries) c young
      ascends

update-order :
    (id : Text) (f : LedgerEntry → LedgerEntry) (l : Ledger) → (update id f l).order ≡ l.order
unfolding update
update-order id f l = elim (Option-cases (lookup id l.entries)) [
  | inl q ↦ rw (update, q) refl
  | inr (x, q) ↦ rw (update, q) refl
]

deliver_to-order :
    (id : Text) (l : Ledger) (held : LedgerEntry) (o : Option (Text × List Refusal))
    → (deliver_to id l held o).1.order ≡ l.order
unfolding deliver_to
deliver_to-order id l held none = refl
deliver_to-order id l held (some (a, rest)) = refl

recipient-order : (id payload : Text) (l : Ledger) → (recipient id payload l).1.order ≡ l.order
unfolding recipient
recipient-order id payload l = elim (Option-cases (lookup id l.entries)) [
  | inl q ↦ rw (recipient, q) refl
  | inr (x, q) ↦ rw (recipient, q) (deliver_to-order id l x (take_refusal payload x.refused))
]

run-IsAged :
    (w : Text → Text) (clock : ℕ) (os : List Op) (l : Ledger)
    → IsRising clock os
    → IsAged clock l
    → IsAged (last_reading clock os) (run w os l)
unfolding run IsRising last_reading step acked refuse forget
run-IsAged w clock [] l r a = a
run-IsAged w clock (admits now id actor ∷ os) l (c, r) a =
    run-IsAged w now os (admit now id actor l).1 r (record {
      bounded = step-IsBounded w (admits now id actor) l a.bounded;
      ascends = (admit-IsYoung now clock id actor l c a).1;
    })
run-IsAged w clock (forgets id ∷ os) l r a =
    run-IsAged w clock os (forget id l) r
      (record { bounded = step-IsBounded w (forgets id) l a.bounded; ascends = a.ascends })
run-IsAged w clock (acks id topic payload ∷ os) l r a =
    run-IsAged w clock os (acked w id topic payload l) r (record {
      bounded = step-IsBounded w (acks id topic payload) l a.bounded;
      ascends = rw (update-order id _ l) a.ascends;
    })
run-IsAged w clock (refuses id actor ack ∷ os) l r a =
    run-IsAged w clock os (refuse id actor ack l) r (record {
      bounded = step-IsBounded w (refuses id actor ack) l a.bounded;
      ascends = rw (update-order id _ l) a.ascends;
    })
run-IsAged w clock (delivers id payload ∷ os) l r a =
    run-IsAged w clock os (recipient id payload l).1 r (record {
      bounded = step-IsBounded w (delivers id payload) l a.bounded;
      ascends = rw (recipient-order id payload l) a.ascends;
    })

-- The ledger is bounded in number and in age. Whatever commands, acks, refusals and deliveries come in whatever order
-- to a ledger that began empty, if the clock is not set back, then behind the next command it holds at most
-- 16384 entries, each admitted less than ten minutes before.
pub run-IsYoung :
    (w : Text → Text) (os : List Op) (now : ℕ) (id actor : Text)
    → IsRising 0 os
    → last_reading 0 os ≤ now
    → (length (admit now id actor (run w os new)).1.entries ≤ ledger_limit)
      × IsYoung now (admit now id actor (run w os new)).1.entries
unfolding step
run-IsYoung w os now id actor r c =
    let a =
      run-IsAged w 0 os new r
        (record { bounded = new-IsBounded; ascends = unfold Ascends in omega arith }) in
    (
      (step-IsBounded w (admits now id actor) (run w os new) a.bounded).bounded,
      (admit-IsYoung now (last_reading 0 os) id actor (run w os new) c a).0,
    )
