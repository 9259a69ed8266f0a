-- ===== src/Examples/Away.antt =====
-- Examples of the sessions of absent clients, internal/mqttsrv/offline.go.
use colca.Prelude.{
  ℕ, Text, codes, text_beq, text_eq, lookup, insert, erase, List, [], ◌∷◌, Table, true, Option,
  some, none, ◌≡◌, refl,
}
use colca.Broker.Offline.{
  OfflineSessions, Packet, new, went_offline, take_over, forget_if_held, enter, fits, offline_cost,
  queued, with_queued, drop_one, bound_offline_queues, bound_each, bound_one, keys_of,
  is_queued_for, is_client,
}
use colca.Broker.Offline.Totals.{IsAccounted}
use colca.Broker.Offline.Publishes.{Event, leaves, returns, publishes, after, after-IsAccounted}

abbrev message : ℕ → Packet
message id = record { packet_id = id; topic_name = codes "t"; payload = codes "xyz"; qos = 1 }

abbrev subscribed : Table Text ℕ
subscribed = (codes "hmi", 1) ∷ (codes "log", 1) ∷ []

abbrev same_client : Text → Option ℕ
same_client id = some 7

abbrev afternoon : List Event
afternoon =
    leaves (λ id. true) (codes "hmi") 7 (message 1 ∷ message 2 ∷ [])
    ∷ publishes same_client (message 3) subscribed
    ∷ returns (codes "hmi")
    ∷ []

after-IsAccounted_example : IsAccounted (after afternoon (new 2 4000 10000))
after-IsAccounted_example = after-IsAccounted afternoon 2 4000 10000

-- With two messages held, the third is not queued, and the connected client still gets it.
hmi_is_full :
    (bound_offline_queues same_client
      (message 3)
      subscribed
      (went_offline (λ id. true) (codes "hmi") 7 (message 1 ∷ message 2 ∷ []) (new 2 4000 10000))).0
    ≡ (codes "log", 1) ∷ []
unfolding bound_offline_queues bound_each bound_one keys_of is_queued_for is_client went_offline
    take_over forget_if_held enter fits offline_cost queued with_queued drop_one lookup insert erase
    text_beq
hmi_is_full = refl

abbrev hmi_away : OfflineSessions
hmi_away = went_offline (λ id. true) (codes "hmi") 7 (message 1 ∷ message 2 ∷ []) (new 2 4000 10000)

log_is_there : lookup (codes "log") hmi_away.sessions ≡ none
unfolding went_offline take_over forget_if_held enter fits offline_cost queued with_queued drop_one
    lookup insert erase text_beq
log_is_there = refl
