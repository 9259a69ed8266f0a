-- ===== src/Uns/Classes.antt =====
-- plugins/uns/uns.go: the routing classes of contracts, and what the core asks about them.
pub mod Streams
pub mod Contracts
pub mod Uplink
use colca.Prelude.{
  Text, codes, text_beq, has_prefix, List, [], ◌∷◌, Bool, true, false, not, ◌&&◌, ◌||◌, any,
  if◌then◌else◌,
}

pub data Class : Type 0 where
  none data_ entity definition cmd ack gap audit alarm log annotation : Class

pub Class-discrete : Discrete Class
Class-discrete = hlevel

-- contract == a || contract == b || ...
unfoldable pub one_of : Text → List Text → Bool
one_of contract names = any (text_beq contract) names

abbrev pub entity_contracts : List Text
entity_contracts =
    codes "_EnrolledIdentity"
    ∷ codes "_Node"
    ∷ codes "_ServiceDetails"
    ∷ codes "_SystemElement"
    ∷ codes "_Signal"
    ∷ codes "_Constant"
    ∷ codes "_ExternalReference"
    ∷ codes "_Resource"
    ∷ codes "_EditOperation"
    ∷ codes "_AlarmNotificationConfig"
    ∷ codes "_NotificationConfigStatus"
    ∷ codes "_Finding"
    ∷ codes "_AlarmState"
    ∷ codes "_AlarmSilence"
    ∷ codes "_AlarmSubscription"
    ∷ []

abbrev pub definition_contracts : List Text
definition_contracts =
    codes "_Group"
    ∷ codes "_MetadataType"
    ∷ codes "_AnnotationType"
    ∷ codes "_DataModel"
    ∷ codes "_ExternalSystem"
    ∷ codes "_SemanticTag"
    ∷ codes "_PersonalAccessToken"
    ∷ []

abbrev pub alarm_contracts : List Text
alarm_contracts = codes "_AlarmStateChange" ∷ codes "_NotificationDispatched" ∷ []

unfoldable pub class_of : Text → Class
class_of contract =
    if one_of contract (codes "_Metric" ∷ [])
    then data_
    else if one_of contract alarm_contracts
    then alarm
    else if one_of contract (codes "_Annotation" ∷ [])
    then annotation
    else if one_of contract (codes "_Log" ∷ [])
    then log
    else if one_of contract entity_contracts
    then entity
    else if one_of contract definition_contracts
    then definition
    else if one_of contract (codes "_Ack" ∷ [])
    then ack
    else if one_of contract (codes "_StreamGap" ∷ [])
    then gap
    else if one_of contract (codes "_AuditEvent" ∷ [])
    then audit
    else if has_prefix contract (codes "_Cmd")
    then cmd
    else none

unfoldable pub is_state : Class → Bool
is_state data_ = true
is_state entity = true
is_state definition = true
is_state _ = false

unfoldable pub is_command : Class → Bool
is_command cmd = true
is_command _ = false

unfoldable pub is_ack : Class → Bool
is_ack ack = true
is_ack _ = false

unfoldable pub is_owned_state : Class → Bool
is_owned_state data_ = true
is_owned_state entity = true
is_owned_state _ = false

unfoldable pub is_definition : Class → Bool
is_definition definition = true
is_definition _ = false

unfoldable pub is_gap : Class → Bool
is_gap gap = true
is_gap _ = false

unfoldable pub flows_up : Class → Bool
flows_up data_ = true
flows_up entity = true
flows_up ack = true
flows_up gap = true
flows_up audit = true
flows_up alarm = true
flows_up annotation = true
flows_up log = true
flows_up _ = false

unfoldable pub stream_for : Class → Text
stream_for data_ = codes "metrics"
stream_for entity = codes "entities"
stream_for definition = codes "definitions"
stream_for cmd = codes "commands"
stream_for ack = codes "commands"
stream_for audit = codes "audit"
stream_for alarm = codes "alarms"
stream_for annotation = codes "annotations"
stream_for log = codes "logs"
stream_for gap = []
stream_for none = []

-- The values of `manifestClasses`, which Go ranges over in any order.
abbrev pub manifest_classes : List Class
manifest_classes = data_ ∷ entity ∷ definition ∷ cmd ∷ ack ∷ audit ∷ alarm ∷ annotation ∷ log ∷ []
