-- ===== src/Engine/Ledger/Refusals.antt =====
-- internal/engine/ledger.go: whom the acks of a reused correlation id are delivered to.
use colca.Prelude.{
  ℕ, zero, suc, ◌+◌, ◌≤◌, ◌<◌, Text, text_eq, text_beq_refl, lookup, insert, lookup-insert, length,
  length-append, List, [], ◌∷◌, ◌++◌, map, append-nil, append_assoc, false, leb, some, ◌≡◌, refl,
  sym, ap, subst, arith,
}
use colca.Engine.Ledger.{
  Refusal, LedgerEntry, Ledger, refusal_limit, refuse, refuse_entry, recipient, deliver_to, update,
  take_refusal,
}

-- The refusal that `actor` is owed, with the bytes `ack`.
owed : Text → Text → Refusal
owed ack actor = record { actor = actor; ack = ack }

-- Refusals of one id with one ack, as `refuseForeignUse` writes them, for the actors in turn.
unfoldable pub refuse_each : Text → Text → List Text → Ledger → Ledger
refuse_each id ack [] l = l
refuse_each id ack (a ∷ actors) l = refuse_each id ack actors (refuse id a ack l)

-- The recipients of `n` deliveries of the same ack.
unfoldable pub recipients : Text → Text → ℕ → Ledger → List Text
recipients id ack zero l = []
recipients id ack (suc n) l = (recipient id ack l).0 ∷ recipients id ack n (recipient id ack l).1

abbrev with_refused : LedgerEntry → List Refusal → LedgerEntry
with_refused e rs = record e { refused = rs }

set_refused : Text → LedgerEntry → List Refusal → Ledger → Ledger
set_refused id e rs l = record l { entries = insert id (with_refused e rs) l.entries }

lookup-set_refused :
    (id : Text) (e : LedgerEntry) (rs : List Refusal) (l : Ledger)
    → lookup id (set_refused id e rs l).entries ≡ some (with_refused e rs)
unfolding set_refused
lookup-set_refused id e rs l =
    rw (lookup-insert id id (with_refused e rs) l.entries, text_beq_refl id) refl

-- A refusal of a held command that owes fewer than the limit is added behind the others.
refuse-held :
    (id a ack : Text) (l : Ledger) (e : LedgerEntry)
    → lookup id l.entries ≡ some e
    → length e.refused < refusal_limit
    → refuse id a ack l ≡ set_refused id e (e.refused ++ owed ack a ∷ []) l
unfolding refuse update refuse_entry owed set_refused
refuse-held id a ack l e found room =
    let under : leb refusal_limit (length e.refused) ≡ false = ground arith in
    rw (update, found, under) refl

-- A delivery whose bytes the first refusal has goes to that refusal's sender, and takes it away.
recipient-held :
    (id a ack : Text) (l : Ledger) (e : LedgerEntry) (rs : List Refusal)
    → lookup id l.entries ≡ some e
    → e.refused ≡ owed ack a ∷ rs
    → recipient id ack l ≡ (a, set_refused id e rs l)
unfolding recipient deliver_to take_refusal owed set_refused
recipient-held id a ack l e rs found owes = rw (recipient, found, owes, text_beq_refl ack) refl

refuse_each-held :
    (id ack : Text) (actors : List Text) (l : Ledger) (e : LedgerEntry)
    → lookup id l.entries ≡ some e
    → length e.refused + length actors ≤ refusal_limit
    → lookup id (refuse_each id ack actors l).entries
      ≡ some (with_refused e (e.refused ++ map (owed ack) actors))
unfolding refuse_each owed
refuse_each-held id ack [] l e found room = rw (append-nil e.refused) found
refuse_each-held id ack (a ∷ actors) l e found room =
    let more = e.refused ++ owed ack a ∷ [] in
    subst
      (λ m.
        lookup id (refuse_each id ack actors m).entries
        ≡ some (with_refused e (e.refused ++ map (owed ack) (a ∷ actors))))
      (sym (refuse-held id a ack l e found (omega arith)))
      (subst
        (λ rs.
          lookup id (refuse_each id ack actors (set_refused id e more l)).entries
          ≡ some (with_refused e rs))
        (append_assoc e.refused (owed ack a ∷ []) (map (owed ack) actors))
        (refuse_each-held id ack actors (set_refused id e more l) (with_refused e more)
          (lookup-set_refused id e more l)
          (omega (arith, length-append e.refused (owed ack a ∷ [])))))

recipients-owed :
    (id ack : Text) (actors : List Text) (l : Ledger) (e : LedgerEntry)
    → lookup id l.entries ≡ some e
    → e.refused ≡ map (owed ack) actors
    → recipients id ack (suc (length actors)) l ≡ actors ++ e.actor ∷ []
unfolding recipients
recipients-owed id ack [] l e found owes =
    unfold recipient deliver_to take_refusal in rw (recipient, found, owes) refl
recipients-owed id ack (a ∷ actors) l e found owes =
    let rest = map (owed ack) actors in
    rw (recipient-held id a ack l e rest found owes) (
      ap (λ t. a ∷ t)
        (recipients-owed id ack actors (set_refused id e rest l) (with_refused e rest)
          (lookup-set_refused id e rest l) refl))

-- Each refusal reaches the sender it is owed to. Where a held command owes no refusal, and other
-- senders, at most sixteen, are refused its id in turn with one ack, the deliveries of that ack go to
-- those senders in that order, and the next one to the command's own sender.
pub refuse_each-recipients :
    (id ack : Text) (actors : List Text) (l : Ledger) (e : LedgerEntry)
    → lookup id l.entries ≡ some e
    → e.refused ≡ []
    → length actors ≤ refusal_limit
    → recipients id ack (suc (length actors)) (refuse_each id ack actors l) ≡ actors ++ e.actor ∷ []
refuse_each-recipients id ack actors l e found none_owed room =
    recipients-owed id ack actors (refuse_each id ack actors l)
      (with_refused e (map (owed ack) actors))
      (subst
        (λ rs.
          lookup id (refuse_each id ack actors l).entries
          ≡ some (with_refused e (rs ++ map (owed ack) actors)))
        none_owed (refuse_each-held id ack actors l e found (rw none_owed (omega arith))))
      refl
