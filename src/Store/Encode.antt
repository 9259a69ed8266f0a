-- ===== src/Store/Encode.antt =====
-- internal/store/store.go, targetindex.go: what the store is given, and the writes and the bytes of one record, addRecord.
use colca.Prelude.{
  ℕ, ◌+◌, ◌==◌, Text, codes, text_eq, is_empty, pair_eq, length, List, [], ◌∷◌, ◌++◌, Bool, true,
  false, some, none, is_some, if◌then◌else◌, ◌&&◌, not, ◌||◌,
}
use colca.Uns.Records.{
  Payloads, keeps_actor_witness, metric_signal_id, fetch_logs_ack, command_target,
}
use colca.Store.Keys.{stream_key}
use colca.Store.Data.{
  Record, RecEnc, KvEnc, KvKey, Write, set_record, set_signal, set_target, set_kv, delete_kv,
}

-- What the store is given: the reading of payloads, the root of topics, the length of a record as JSON and
-- the configured cap on a payload, 0 for none.
pub record Setting : Type 0 where
  pub payloads : Payloads
  pub root : Text
  pub json_len : RecEnc → ℕ
  pub max_record_bytes : ℕ

unfoldable pub signal_id_of : Payloads → Record → Text
signal_id_of payloads r =
    let id = metric_signal_id payloads r.topic r.payload in
    if is_some (fetch_logs_ack r.topic) && is_empty id then codes "_fetchLogsAck" else id

unfoldable pub record_target : Text → Text
record_target topic = elim (command_target topic) [ none ↦ [] | some target ↦ target ]

unfoldable pub actor_witness : Record → Text × List Text
actor_witness r =
    let no_classes : Bool = elim r.actor_classes [ [] ↦ true | _ ↦ false ] in
    if (is_empty r.actor_email && no_classes) || not (keeps_actor_witness r.topic)
    then ([], [])
    else (r.actor_email, r.actor_classes)

unfoldable pub origin_or : ℕ → ℕ → ℕ
origin_or origin off = if origin == 0 then off else origin

unfoldable pub encode : Payloads → ℕ → Record → RecEnc
encode payloads off r =
    let (email, classes) = actor_witness r in
    record {
      source_local_only = r.source_local_only;
      topic = r.topic;
      payload = r.payload;
      ts = r.ts;
      written_by = r.written_by;
      origin_offset = origin_or r.origin_offset off;
      actor_id = r.actor_id;
      actor_label = r.actor_label;
      actor_kind = r.actor_kind;
      actor_groups = r.actor_groups;
      actor_client = r.actor_client;
      actor_email = email;
      actor_classes = classes;
      actor_credential = if keeps_actor_witness r.topic then r.actor_credential else [];
      door = r.door;
      signal_id = signal_id_of payloads r;
    }

unfoldable pub encode_kv : ℕ → Record → KvEnc
encode_kv off r = record {
  topic = r.topic;
  payload = r.payload;
  ts = r.ts;
  offset = off;
  origin_offset = origin_or r.origin_offset off;
  written_by = r.written_by;
  actor_id = r.actor_id;
  actor_label = r.actor_label;
  actor_kind = r.actor_kind;
}

abbrev pub kv_key_of : Record → KvKey
kv_key_of r = (r.kv_path, (r.kv_node, r.topic))

unfoldable pub index_writes : Payloads → Text → ℕ → Record → List Write
index_writes payloads stream off r =
    let id = signal_id_of payloads r in
    let target = record_target r.topic in
    (if is_empty id then [] else set_signal (stream, (id, off)) ∷ [])
    ++ (if is_empty target then [] else set_target (stream, (target, off)) ∷ [])

unfoldable pub kv_writes : ℕ → Record → List Write
kv_writes off r =
    if is_empty r.kv_path
    then []
    else if r.delete
    then delete_kv (kv_key_of r) ∷ []
    else set_kv (kv_key_of r) (encode_kv off r) ∷ []

unfoldable pub add_record : Setting → Text → ℕ → Record → List Write
add_record w stream off r =
    (set_record stream off (encode w.payloads off r) ∷ index_writes w.payloads stream off r)
    ++ kv_writes off r

-- The bytes that a record is counted for.
unfoldable pub record_cost : Setting → Text → ℕ → Record → ℕ
record_cost w stream off r = length (stream_key stream off) + w.json_len (encode w.payloads off r)
