-- ===== src/Engine/Commands/Recipients.antt =====
-- internal/engine/ledger.go: whom the refusal of a reused id goes to.
use colca.Prelude.{tail, leb, text_beq, if◌then◌else◌, Text, codes, text_eq, length, List, [], ◌∷◌}
use colca.Uns.Topic.{Parsed}
use colca.Engine.Ledger.{Ledger, Refusal, refusal_limit}

-- The parts of the topic that an ack of a command goes out on.
abbrev ack_of : Text → Parsed → Parsed
ack_of root p = record p { prefix = root; version = codes "v1"; contract = codes "_Ack" }

-- Whose refusal with these bytes comes first, the last one being `actor`'s.
pub first_owed : Text → List Refusal → Text → Text
first_owed ack [] actor = actor
first_owed ack (r ∷ rs) actor =
    let later = first_owed ack rs actor in if text_beq r.ack ack then r.actor else later

-- The refusals that stay owed when another is added.
abbrev pub still_owed : List Refusal → List Refusal
still_owed rs = if leb refusal_limit (length rs) then tail rs else rs
