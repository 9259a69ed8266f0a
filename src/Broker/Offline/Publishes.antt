-- ===== src/Broker/Offline/Publishes.antt =====
-- internal/mqttsrv/offline.go: what the account comes to over a history, and whom a publish still reaches.
use colca.Prelude.{
  ℕ, Text, text_beq, text_eq, text_beq_sound, Table, lookup, lookup-insert, lookup-erase, length,
  List, [], ◌∷◌, Bool, false, not, ◌||◌, ◌==◌, Option, none, ◌≡◌, refl, ◌∙◌, arith, Bool-cases,
  Option-cases, inl, inr,
}
use colca.Broker.Offline.{
  Packet, OfflineSessions, new, offline_cost, fits, forget, queued, drop_one, went_offline,
  came_back, is_queued_for, is_client, bound_one, keys_of, bound_each, bound_offline_queues,
  end_if_client, end_offline,
}
use colca.Broker.Offline.Sums.{sum_of, IsDistinct}
use colca.Broker.Offline.Totals.{
  IsAccounted, went_offline-IsAccounted, bound_one-IsAccounted, forget-IsAccounted,
  forget_if_held-IsAccounted,
}

bound_each-IsAccounted :
    (current : Text → Option ℕ) (cost : ℕ) (ids : List Text) (st : Table Text ℕ × OfflineSessions)
    → IsAccounted st.1
    → IsAccounted (bound_each current cost ids st).1
unfolding bound_each
bound_each-IsAccounted current cost [] st h = h
bound_each-IsAccounted current cost (id ∷ ids) st h =
    bound_each-IsAccounted current cost ids (bound_one current cost id (lookup id st.1.sessions) st)
      (bound_one-IsAccounted current cost id st.0 st.1 h)

bound_offline_queues-IsAccounted :
    (current : Text → Option ℕ) (pk : Packet) (subs : Table Text ℕ) (o : OfflineSessions)
    → IsAccounted o
    → IsAccounted (bound_offline_queues current pk subs o).1
unfolding bound_offline_queues
bound_offline_queues-IsAccounted current pk subs o h =
    elim (Bool-cases (length o.sessions == 0 || pk.qos == 0)) [
      | inl q ↦ rw q h
      | inr q ↦
          rw q (bound_each-IsAccounted current (offline_cost pk) (keys_of o.sessions) (subs, o) h)
    ]

end_offline-IsAccounted :
    (id : Text) (client : ℕ) (o : OfflineSessions)
    → IsAccounted o
    → IsAccounted (end_offline id client o)
unfolding end_offline end_if_client
end_offline-IsAccounted id client o h = elim (Option-cases (lookup id o.sessions)) [
  | inl q ↦ rw q h
  | inr (s, q) ↦ rw q (elim (Bool-cases (s.client == client)) [
    | inl r ↦ rw r (forget-IsAccounted id s o q h)
    | inr r ↦ rw r h
  ])
]

-- What happens to the account: a client leaves with what it holds, comes back, or its session ends; or
-- a message is published. What mochi answers goes with each.
pub data Event : Type 0 where
  leaves : (ℕ → Bool) → Text → ℕ → List Packet → Event
  returns : Text → Event
  ends : Text → ℕ → Event
  publishes : (Text → Option ℕ) → Packet → Table Text ℕ → Event

pub after : List Event → OfflineSessions → OfflineSessions
after [] o = o
after (leaves deletes id client inflight ∷ es) o =
    after es (went_offline deletes id client inflight o)
after (returns id ∷ es) o = after es (came_back id o)
after (ends id client ∷ es) o = after es (end_offline id client o)
after (publishes current pk subs ∷ es) o = after es (bound_offline_queues current pk subs o).1

after-IsAccounted_from :
    (es : List Event) (o : OfflineSessions) → IsAccounted o → IsAccounted (after es o)
unfolding after came_back
after-IsAccounted_from [] o h = h
after-IsAccounted_from (leaves deletes id client inflight ∷ es) o h =
    after-IsAccounted_from es (went_offline deletes id client inflight o)
      (went_offline-IsAccounted deletes id client inflight o h)
after-IsAccounted_from (returns id ∷ es) o h =
    after-IsAccounted_from es (came_back id o) (forget_if_held-IsAccounted id o h)
after-IsAccounted_from (ends id client ∷ es) o h =
    after-IsAccounted_from es (end_offline id client o) (end_offline-IsAccounted id client o h)
after-IsAccounted_from (publishes current pk subs ∷ es) o h =
    after-IsAccounted_from es (bound_offline_queues current pk subs o).1
      (bound_offline_queues-IsAccounted current pk subs o h)

-- What the broker queues for absent clients is bounded, and counted right. Whatever clients leave, return and end, and
-- whatever is published, in any order, each session holds at most `maxMessages` and `maxBytes`, the totals are
-- the sums over the sessions, and the whole is at most `maxTotalBytes`.
pub after-IsAccounted :
    (es : List Event) (max_messages max_bytes max_total : ℕ)
    → IsAccounted (after es (new max_messages max_bytes max_total))
after-IsAccounted es max_messages max_bytes max_total =
    after-IsAccounted_from es (new max_messages max_bytes max_total) (
      unfold sum_of IsDistinct lookup in
      record {
        distinct = tt;
        total_bytes = refl;
        total_messages = refl;
        each = λ id s q. cc;
        bounded = omega arith;
      })

-- One session's turn touches no other subscriber and starts no account.
bound_one-others :
    (current : Text → Option ℕ) (cost : ℕ) (id j : Text) (st : Table Text ℕ × OfflineSessions)
    → lookup j st.1.sessions ≡ none
    → (lookup j (bound_one current cost id (lookup id st.1.sessions) st).0 ≡ lookup j st.0)
      × (lookup j (bound_one current cost id (lookup id st.1.sessions) st).1.sessions ≡ none)
unfolding bound_one forget
bound_one-others current cost id j st away = elim (Option-cases (lookup id st.1.sessions)) [
  | inl q ↦ rw (bound_one, q) (refl, away)
  | inr (s, q) ↦
      let other : text_beq id j ≡ false = elim (Bool-cases (text_beq id j)) [
        | inl r ↦ absurd (cc (text_beq_sound id j r, q, away))
        | inr r ↦ r
      ] in
      elim (Bool-cases (not (is_queued_for (lookup id st.0)))) [
        | inl r1 ↦ rw (bound_one, q, r1) (refl, away)
        | inr r1 ↦ elim (Bool-cases (not (is_client (current id) s.client))) [
          | inl r2 ↦
              rw (bound_one, q, r1, r2) (refl, rw (lookup-erase id j st.1.sessions, other) away)
          | inr r2 ↦ elim (Bool-cases (not (fits s cost st.1))) [
            | inl r3 ↦
                rw (bound_one, q, r1, r2, r3)
                  (
                    rw (lookup-erase id j st.0, other) refl,
                    rw (lookup-insert id j (drop_one s) st.1.sessions, other) away,
                  )
            | inr r3 ↦
                rw (bound_one, q, r1, r2, r3)
                  (refl, rw (lookup-insert id j (queued s cost) st.1.sessions, other) away)
          ]
        ]
      ]
]

bound_each-others :
    (current : Text → Option ℕ) (cost : ℕ) (ids : List Text) (j : Text)
    (st : Table Text ℕ × OfflineSessions)
    → lookup j st.1.sessions ≡ none
    → lookup j (bound_each current cost ids st).0 ≡ lookup j st.0
unfolding bound_each
bound_each-others current cost [] j st away = refl
bound_each-others current cost (id ∷ ids) j st away =
    let (same, still) = bound_one-others current cost id j st away in
    bound_each-others current cost ids j (bound_one current cost id (lookup id st.1.sessions) st)
      still
    ∙ same

-- A publish is taken from no connected client. A subscriber without an account keeps the subscription that it
-- had, or had not, whatever is published and whatever the sessions of others hold.
pub bound_offline_queues-keeps :
    (current : Text → Option ℕ) (pk : Packet) (subs : Table Text ℕ) (o : OfflineSessions)
    (id : Text)
    → lookup id o.sessions ≡ none
    → lookup id (bound_offline_queues current pk subs o).0 ≡ lookup id subs
unfolding bound_offline_queues
bound_offline_queues-keeps current pk subs o id away =
    elim (Bool-cases (length o.sessions == 0 || pk.qos == 0)) [
      | inl q ↦ rw q refl
      | inr q ↦
          rw q (bound_each-others current (offline_cost pk) (keys_of o.sessions) id (subs, o) away)
    ]
