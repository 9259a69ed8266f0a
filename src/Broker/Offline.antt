-- ===== src/Broker/Offline.antt =====
-- internal/mqttsrv/offline.go: `offlineSessions`, the account of what is queued for clients that are away. The
-- lock makes each operation one step. A client is a number, as Go compares pointers. Of mochi, the MQTT
-- server: `current` is what Clients.Get returns, and `deletes` what Inflight.Delete of a packet id
-- returns. Sizes are natural numbers, and a difference stops at 0.
pub mod Publishes
pub mod Sums
pub mod Totals
use colca.Prelude.{
  ℕ, zero, suc, ◌+◌, ◌-◌, Text, text_eq, Table, lookup, insert, erase, length, List, [], ◌∷◌, ◌++◌,
  Bool, true, false, not, ◌&&◌, ◌||◌, ltb, leb, ◌==◌, if◌then◌else◌, Option, some, none, is_some,
}

abbrev pub offline_message_overhead : ℕ
offline_message_overhead = 1024

pub record Packet : Type 0 where
  pub packet_id : ℕ
  pub topic_name : Text
  pub payload : Text
  pub qos : ℕ

pub record OfflineSession : Type 0 where
  pub client : ℕ
  pub messages : ℕ
  pub bytes : ℕ
  pub dropped : ℕ
  pub full : Bool

pub record OfflineSessions : Type 0 where
  pub max_messages : ℕ
  pub max_bytes : ℕ
  pub max_total_bytes : ℕ
  pub sessions : Table Text OfflineSession
  pub total : ℕ
  pub queue : ℕ

abbrev pub new : ℕ → ℕ → ℕ → OfflineSessions
new max_messages max_bytes max_total_bytes = record {
  max_messages = max_messages;
  max_bytes = max_bytes;
  max_total_bytes = max_total_bytes;
  sessions = [];
  total = 0;
  queue = 0;
}

unfoldable pub offline_cost : Packet → ℕ
offline_cost pk = length pk.payload + length pk.topic_name + offline_message_overhead

unfoldable pub fits : OfflineSession → ℕ → OfflineSessions → Bool
fits s cost o =
    ltb s.messages o.max_messages
    && (leb (s.bytes + cost) o.max_bytes && leb (o.total + cost) o.max_total_bytes)

unfoldable pub forget : Text → OfflineSession → OfflineSessions → OfflineSessions
forget id s o = record o {
  sessions = erase id o.sessions;
  total = o.total - s.bytes;
  queue = o.queue - s.messages;
}

-- One message more for a session, in its account and in the whole.
unfoldable pub queued : OfflineSession → ℕ → OfflineSession
queued s cost = record s { messages = s.messages + 1; bytes = s.bytes + cost }

unfoldable pub with_queued : ℕ → OfflineSessions → OfflineSessions
with_queued cost o = record o { total = o.total + cost; queue = o.queue + 1 }

unfoldable pub drop_one : OfflineSession → OfflineSession
drop_one s = record s { dropped = s.dropped + 1; full = true }

-- The loop of `wentOffline` over what the session holds.
unfoldable pub take_over :
    (ℕ → Bool) → List Packet → OfflineSession → OfflineSessions → OfflineSession × OfflineSessions
take_over deletes [] s o = (s, o)
take_over deletes (pk ∷ pks) s o =
    if fits s (offline_cost pk) o
    then take_over deletes pks (queued s (offline_cost pk)) (with_queued (offline_cost pk) o)
    else if deletes pk.packet_id
    then take_over deletes pks (drop_one s) o
    else take_over deletes pks s o

unfoldable pub forget_if_held : Text → Option OfflineSession → OfflineSessions → OfflineSessions
forget_if_held id none o = o
forget_if_held id (some s) o = forget id s o

unfoldable pub enter : Text → OfflineSession × OfflineSessions → OfflineSessions
enter id (s, o) = record o { sessions = insert id s o.sessions }

unfoldable pub went_offline :
    (ℕ → Bool) → Text → ℕ → List Packet → OfflineSessions → OfflineSessions
went_offline deletes id client inflight o = enter id (
    take_over deletes inflight
      (record { client = client; messages = 0; bytes = 0; dropped = 0; full = false })
      (forget_if_held id (lookup id o.sessions) o))

unfoldable pub came_back : Text → OfflineSessions → OfflineSessions
came_back id o = forget_if_held id (lookup id o.sessions) o

-- `subscribed && sub.Qos != 0`
unfoldable pub is_queued_for : Option ℕ → Bool
is_queued_for none = false
is_queued_for (some qos) = not (qos == 0)

unfoldable pub is_client : Option ℕ → ℕ → Bool
is_client none client = false
is_client (some c) client = c == client

-- One session of the loop of `boundOfflineQueues`, on the subscribers and the account.
unfoldable pub bound_one :
    (Text → Option ℕ)
    → ℕ
    → Text
    → Option OfflineSession
    → Table Text ℕ × OfflineSessions
    → Table Text ℕ × OfflineSessions
bound_one current cost id none (subs, o) = (subs, o)
bound_one current cost id (some s) (subs, o) =
    if not (is_queued_for (lookup id subs))
    then (subs, o)
    else if not (is_client (current id) s.client)
    then (subs, forget id s o)
    else if not (fits s cost o)
    then (erase id subs, record o { sessions = insert id (drop_one s) o.sessions })
    else (subs, record (with_queued cost o) { sessions = insert id (queued s cost) o.sessions })

unfoldable pub keys_of : Table Text OfflineSession → List Text
keys_of [] = []
keys_of ((id, s) ∷ m) = id ∷ keys_of m

unfoldable pub bound_each :
    (Text → Option ℕ)
    → ℕ
    → List Text
    → Table Text ℕ × OfflineSessions
    → Table Text ℕ × OfflineSessions
bound_each current cost [] st = st
bound_each current cost (id ∷ ids) st =
    bound_each current cost ids (bound_one current cost id (lookup id st.1.sessions) st)

unfoldable pub bound_offline_queues :
    (Text → Option ℕ) → Packet → Table Text ℕ → OfflineSessions → Table Text ℕ × OfflineSessions
bound_offline_queues current pk subs o =
    if length o.sessions == 0 || pk.qos == 0
    then (subs, o)
    else bound_each current (offline_cost pk) (keys_of o.sessions) (subs, o)

unfoldable pub end_if_client : Text → ℕ → Option OfflineSession → OfflineSessions → OfflineSessions
end_if_client id client none o = o
end_if_client id client (some s) o = if s.client == client then forget id s o else o

unfoldable pub end_offline : Text → ℕ → OfflineSessions → OfflineSessions
end_offline id client o = end_if_client id client (lookup id o.sessions) o
