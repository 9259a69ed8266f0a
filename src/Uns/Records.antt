-- ===== src/Uns/Records.antt =====
-- plugins/uns/uns.go, redelivery.go, replication_policy.go: what the store asks of the topic of a record it
-- files. The fields that `json.Unmarshal` reads of a payload are given by a `Payloads`.
use colca.Prelude.{
  Text, codes, text_beq, is_empty, has_prefix, split, length, ltb, List, [], ◌∷◌, ◌++◌, Bool, true,
  false, not, ◌||◌, Result, ok, err, Option, some, none, if◌then◌else◌,
}
use colca.Uns.Topic.{Parsed, parse, max_topic_bytes, slash}
use colca.Uns.Classes.{class_of, is_command}

-- What the encoder finds of a payload: the `signal_id` of a metric (none for a payload it does not decode), and
-- the `replication_policy` of a signal, if it has one.
pub record Payloads : Type 0 where
  pub metric_signal : Text → Option Text
  pub signal_policy : Text → Result Text (Option Text)

unfoldable pub keeps_actor_witness : Text → Bool
keeps_actor_witness topic = elim (parse topic) [
  | ok p ↦ is_command (class_of p.contract)
  | err _ ↦ false
]

unfoldable pub metric_signal_id : Payloads → Text → Text → Text
metric_signal_id payloads topic payload = elim (parse topic) [
  | err _ ↦ []
  | ok p ↦
      if text_beq p.contract (codes "_Metric")
      then elim (payloads.metric_signal payload) [ none ↦ [] | some signal ↦ signal ]
      else []
]

-- strings.HasSuffix
unfoldable pub has_suffix : Text → Text → Bool
has_suffix [] suffix = is_empty suffix
has_suffix (c ∷ s) suffix = let rest = has_suffix s suffix in text_beq (c ∷ s) suffix || rest

-- strings.Contains
unfoldable pub contains : Text → Text → Bool
contains [] part = is_empty part
contains (c ∷ s) part = let rest = contains s part in has_prefix (c ∷ s) part || rest

unfoldable pub fetch_logs_ack : Text → Option Text
fetch_logs_ack topic =
    if not (has_suffix topic (codes "/fetchLogs")) || not (contains topic (codes "/_Ack/"))
    then none
    else elim (parse topic) [
      | err _ ↦ none
      | ok p ↦ if text_beq p.contract (codes "_Ack") then some p.path else none
    ]

-- The identity a record is a command for, from its first segments.
unfoldable pub target_of : List Text → Option Text
target_of (prefix ∷ version ∷ contract ∷ node ∷ element ∷ rest) =
    if not (has_prefix contract (codes "_"))
      || is_empty node
      || not (is_command (class_of contract))
    then none
    else some node
target_of _ = none

unfoldable pub command_target : Text → Option Text
command_target topic =
    if ltb max_topic_bytes (length topic) then none else target_of (split slash topic)

unfoldable pub decides_replication : Text → Bool
decides_replication topic = elim (parse topic) [
  | ok p ↦ text_beq p.contract (codes "_Signal")
  | err _ ↦ false
]

unfoldable pub signal_topic_for_metric : Text → Parsed → Text
signal_topic_for_metric root p =
    (root ++ codes "/v1/" ++ codes "_Signal/") ++ p.node_id ++ slash ∷ p.path

-- Path, node and topic of the signal that decides how a metric replicates.
unfoldable pub metric_signal_key : Text → Text → Option (Text × (Text × Text))
metric_signal_key root topic = elim (parse topic) [
  | err _ ↦ none
  | ok p ↦
      if text_beq p.contract (codes "_Metric")
      then some (p.path, (p.node_id, signal_topic_for_metric root p))
      else none
]

-- The reasons for which a signal's policy is not read.
pub data PolicyError : Type 0 where
  undecodable : PolicyError
  unknown_policy : Text → PolicyError

unfoldable pub signal_source_local_only : Payloads → Text → Result PolicyError Bool
signal_source_local_only payloads signal = elim (payloads.signal_policy signal) [
  | err _ ↦ err undecodable
  | ok none ↦ ok false
  | ok (some policy) ↦
      if text_beq policy (codes "replicate_to_parents")
      then ok false
      else if text_beq policy (codes "source_local_only")
      then ok true
      else err (unknown_policy policy)
]
