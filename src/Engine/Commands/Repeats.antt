-- ===== src/Engine/Commands/Repeats.antt =====
-- internal/engine/ledger.go: a command sent again at a door.
use colca.Prelude.{
  ℕ, ◌+◌, ◌<◌, Text, text_eq, is_empty, lookup, length, List, [], ◌∷◌, All, true, false, Option,
  some, none, ◌≡◌, refl, ap,
}
use colca.Uns.Topic.{Parsed}
use colca.Engine.Ledger.{
  Ledger, LedgerEntry, Op, Verdict, repeat, admit, acked, run, ledger_limit, ledger_window,
}
use colca.Engine.Ledger.Memory.{InWindow}
use colca.Engine.Ledger.Repeats.{acked-repeat}
use colca.Engine.Commands.{Setting, answered, admit_command, act_on, resend}

-- A repeat is answered from the ledger. Once a held command without an ack got one that is not empty, its sender's
-- repeat, after any history as in `resent-repeat`, is not accepted again: the door delivers that first ack on
-- its topic, and nothing else.
pub admit_command-acked :
    (w : Setting) (f : Text → Text) (p : Parsed) (now : ℕ) (id command topic payload : Text)
    (l : Ledger) (e : LedgerEntry) (os : List Op)
    → w.delivers ≡ true
    → w.correlation_id command ≡ id
    → is_empty id ≡ false
    → lookup id l.entries ≡ some e
    → e.ack ≡ none
    → is_empty (f payload) ≡ false
    → All (InWindow id e.at) os
    → length l.entries + length os < ledger_limit
    → now < e.at + ledger_window
    → ((admit_command w p command e.actor now (run f os (acked f id topic payload l))).0 ≡ answered)
      × ((admit_command w p command e.actor now (run f os (acked f id topic payload l))).1
          ≡ record { topic = topic; payload = f payload } ∷ [])
unfolding admit_command act_on resend
admit_command-acked w f p now id command topic payload l e os d c n found no_ack full ins room
      young =
    let answer = acked-repeat f now id topic payload l e os found no_ack full ins room young in
    rw (c, n) (acted (admit now id e.actor (run f os (acked f id topic payload l))) answer)
  where
    acted :
        (r : (Verdict × Text × Option Text) × Ledger)
        → r.0 ≡ (repeat, topic, some (f payload))
        → ((act_on w p id e.actor r).0 ≡ answered)
          × ((act_on w p id e.actor r).1 ≡ record { topic = topic; payload = f payload } ∷ [])
    acted ((v, t, a), l') h =
        let hv : v ≡ repeat = ap (λ x. x.0) h in
        let ht : t ≡ topic = ap (λ x. x.1) h in
        let ha : a ≡ some (f payload) = ap (λ x. x.2) h in rw (hv, ht, ha, d) (refl, refl)
