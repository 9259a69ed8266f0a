-- ===== src/Uns/Topic.antt =====
-- plugins/uns/uns.go: the topic grammar colca/v1/_Contract/{node-id}/{path...}.
pub mod RoundTrip
use colca.Prelude.{
  ℕ, ◌^◌, ◌-◌, Text, codes, split, join, has_prefix, length, List, [], ◌∷◌, Result, ok, err, ltb,
  if◌then◌else◌,
}

pub record Parsed : Type 0 where
  pub prefix : Text
  pub version : Text
  pub contract : Text
  pub node_id : Text
  pub path : Text

-- The reasons for which `Parse` refuses a topic.
pub data GrammarError : Type 0 where
  too_long few_segments no_contract : GrammarError

abbrev pub max_topic_bytes : ℕ
max_topic_bytes = 65535

abbrev pub slash : ℕ
slash = b'/'

unfoldable pub parse_segments : List Text → Result GrammarError Parsed
parse_segments (a ∷ b ∷ c ∷ d ∷ e ∷ r) =
    if has_prefix c (codes "_")
    then ok
        (record { prefix = a; version = b; contract = c; node_id = d; path = join slash (e ∷ r) })
    else err no_contract
parse_segments _ = err few_segments

unfoldable pub parse : Text → Result GrammarError Parsed
parse topic =
    if ltb max_topic_bytes (length topic) then err too_long else parse_segments (split slash topic)

-- The topic that a decomposition spells.
unfoldable pub render : Parsed → Text
render p = join slash (p.prefix ∷ p.version ∷ p.contract ∷ p.node_id ∷ p.path ∷ [])
