-- ===== src/Broker/Offline/Totals.antt =====
-- internal/mqttsrv/offline.go: the bounds on what is queued for clients that are away.
use colca.Prelude.{
  ℕ, ◌+◌, ◌≤◌, Text, text_beq, text_eq, text_beq_refl, Table, lookup, insert, lookup-insert,
  lookup-erase, List, [], ◌∷◌, Bool, true, false, not, Option, some, none, ◌≡◌, refl, arith,
  Bool-cases, Option-cases, inl, inr,
}
use colca.Broker.Offline.{
  Packet, OfflineSession, OfflineSessions, offline_cost, fits, forget, queued, with_queued,
  drop_one, take_over, forget_if_held, enter, went_offline, is_queued_for, is_client, bound_one,
}
use colca.Broker.Offline.Sums.{
  sum_of, number, IsDistinct, sum-insert, sum-erase, insert-IsDistinct, erase-IsDistinct,
}

abbrev bytes_of : OfflineSession → ℕ
bytes_of s = s.bytes

abbrev messages_of : OfflineSession → ℕ
messages_of s = s.messages

-- A session within the bounds of one.
pub record IsBounded (s : OfflineSession) (o : OfflineSessions) : Type 0 where
  pub few : s.messages ≤ o.max_messages
  pub small : s.bytes ≤ o.max_bytes

-- The totals are those of the sessions, and all are within their bounds.
pub record IsAccounted (o : OfflineSessions) : Type 0 where
  pub distinct : IsDistinct o.sessions
  pub total_bytes : o.total ≡ sum_of (λ s. s.bytes) o.sessions
  pub total_messages : o.queue ≡ sum_of (λ s. s.messages) o.sessions
  pub each : (id : Text) (s : OfflineSession) → lookup id o.sessions ≡ some s → IsBounded s o
  pub bounded : o.total ≤ o.max_total_bytes

-- The same while one session is not yet in the map but counted.
record IsPending (id : Text) (s : OfflineSession) (o : OfflineSessions) : Type 0 where
  distinct : IsDistinct o.sessions
  absent : lookup id o.sessions ≡ none
  total_bytes : o.total ≡ sum_of (λ s. s.bytes) o.sessions + s.bytes
  total_messages : o.queue ≡ sum_of (λ s. s.messages) o.sessions + s.messages
  each : (j : Text) (t : OfflineSession) → lookup j o.sessions ≡ some t → IsBounded t o
  this : IsBounded s o
  bounded : o.total ≤ o.max_total_bytes

pub forget-IsAccounted :
    (id : Text) (s : OfflineSession) (o : OfflineSessions)
    → lookup id o.sessions ≡ some s
    → IsAccounted o
    → IsAccounted (forget id s o)
unfolding forget number
forget-IsAccounted id s o q h =
    let b = rw q at (sum-erase (λ t. t.bytes) id o.sessions h.distinct) in
    let n = rw q at (sum-erase (λ t. t.messages) id o.sessions h.distinct) in
    record {
      distinct = erase-IsDistinct id o.sessions h.distinct;
      total_bytes = omega (arith, b, h.total_bytes);
      total_messages = omega (arith, n, h.total_messages);
      each = λ j t r.
          let held : lookup j o.sessions ≡ some t = ground (arith, lookup-erase id j o.sessions) in
          let b = h.each j t held in record { few = b.few; small = b.small };
      bounded = omega (arith, h.bounded);
    }

pub forget_if_held-IsAccounted :
    (id : Text) (o : OfflineSessions)
    → IsAccounted o
    → IsAccounted (forget_if_held id (lookup id o.sessions) o)
unfolding forget_if_held
forget_if_held-IsAccounted id o h = elim (Option-cases (lookup id o.sessions)) [
  | inl q ↦ rw q h
  | inr (s, q) ↦ rw q (forget-IsAccounted id s o q h)
]

-- A session that is put in place of another, or of none, with the totals that follow.
replace-IsAccounted :
    (id : Text) (s : OfflineSession) (o o' : OfflineSessions)
    → IsAccounted o
    → o'.sessions ≡ insert id s o.sessions
    → (o'.max_messages ≡ o.max_messages) × (o'.max_bytes ≡ o.max_bytes)
    → o'.total + number (λ t. t.bytes) (lookup id o.sessions) ≡ o.total + s.bytes
    → o'.queue + number (λ t. t.messages) (lookup id o.sessions) ≡ o.queue + s.messages
    → IsBounded s o
    → o'.total ≤ o'.max_total_bytes
    → IsAccounted o'
replace-IsAccounted id s o o' h at (mm, mb) tb tm bs bt = record {
  distinct = rw at (insert-IsDistinct id s o.sessions h.distinct);
  total_bytes = rw at (omega (arith, sum-insert (λ t. t.bytes) id s o.sessions, h.total_bytes, tb));
  total_messages =
      rw at (omega (arith, sum-insert (λ t. t.messages) id s o.sessions, h.total_messages, tm));
  each = λ j t r.
      let found = lookup-insert id j s o.sessions in
      elim (Bool-cases (text_beq id j)) [
        | inl q ↦
            let same : some s ≡ some t = cc (found, q, r, at) in
            let is_s : s ≡ t = cc same in
            record { few = rw (← is_s, mm) bs.few; small = rw (← is_s, mb) bs.small }
        | inr q ↦
            let b = h.each j t (cc (found, q, r, at)) in
            record { few = rw mm b.few; small = rw mb b.small }
      ];
  bounded = bt;
}

-- What fits leaves every bound kept.
fits-room :
    (s : OfflineSession) (cost : ℕ) (o : OfflineSessions)
    → fits s cost o ≡ true
    → (s.messages + 1 ≤ o.max_messages)
      × (s.bytes + cost ≤ o.max_bytes)
      × (o.total + cost ≤ o.max_total_bytes)
unfolding fits
fits-room s cost o h = ground arith

take_over-IsPending :
    (deletes : ℕ → Bool) (pks : List Packet) (id : Text) (s : OfflineSession) (o : OfflineSessions)
    → IsPending id s o
    → IsPending id (take_over deletes pks s o).0 (take_over deletes pks s o).1
unfolding take_over
take_over-IsPending deletes [] id s o h = h
take_over-IsPending deletes (pk ∷ pks) id s o h = elim (Bool-cases (fits s (offline_cost pk) o)) [
  | inl q ↦
      rw (take_over, q)
        (take_over-IsPending deletes pks id (queued s (offline_cost pk))
          (with_queued (offline_cost pk) o) (more q))
  | inr q ↦ elim (Bool-cases (deletes pk.packet_id)) [
    | inl r ↦ rw (take_over, q, r) (take_over-IsPending deletes pks id (drop_one s) o less)
    | inr r ↦ rw (take_over, q, r) (take_over-IsPending deletes pks id s o h)
  ]
]
  where
    more :
        fits s (offline_cost pk) o ≡ true
        → IsPending id (queued s (offline_cost pk)) (with_queued (offline_cost pk) o)
    more q =
        unfold queued with_queued in
        let (few, small, all_) = fits-room s (offline_cost pk) o q in
        record {
          distinct = h.distinct;
          absent = h.absent;
          total_bytes = omega (arith, h.total_bytes);
          total_messages = omega (arith, h.total_messages);
          each = λ j t r. let b = h.each j t r in record { few = b.few; small = b.small };
          this = record { few = few; small = small };
          bounded = all_;
        }

    less : IsPending id (drop_one s) o
    less =
        unfold drop_one in
        record {
          distinct = h.distinct;
          absent = h.absent;
          total_bytes = h.total_bytes;
          total_messages = h.total_messages;
          each = h.each;
          this = record { few = h.this.few; small = h.this.small };
          bounded = h.bounded;
        }

enter-IsAccounted :
    (id : Text) (s : OfflineSession) (o : OfflineSessions)
    → IsPending id s o
    → IsAccounted (enter id (s, o))
unfolding enter number
enter-IsAccounted id s o h =
    let b = rw h.absent at (sum-insert (λ t. t.bytes) id s o.sessions) in
    let n = rw h.absent at (sum-insert (λ t. t.messages) id s o.sessions) in
    record {
      distinct = insert-IsDistinct id s o.sessions h.distinct;
      total_bytes = omega (arith, b, h.total_bytes);
      total_messages = omega (arith, n, h.total_messages);
      each = λ j t r.
          let found = lookup-insert id j s o.sessions in
          elim (Bool-cases (text_beq id j)) [
            | inl q ↦
                let same : some s ≡ some t = cc (found, q, r) in
                let is_s : s ≡ t = cc same in
                record { few = rw (← is_s) h.this.few; small = rw (← is_s) h.this.small }
            | inr q ↦
                let b = h.each j t (cc (found, q, r)) in record { few = b.few; small = b.small }
          ];
      bounded = h.bounded;
    }

forget_if_held-absent :
    (id : Text) (o : OfflineSessions)
    → lookup id (forget_if_held id (lookup id o.sessions) o).sessions ≡ none
unfolding forget_if_held forget
forget_if_held-absent id o = elim (Option-cases (lookup id o.sessions)) [
  | inl q ↦ rw (forget_if_held, q) q
  | inr (s, q) ↦ rw (forget_if_held, q, lookup-erase id id o.sessions, text_beq_refl id) refl
]

pub went_offline-IsAccounted :
    (deletes : ℕ → Bool) (id : Text) (client : ℕ) (inflight : List Packet) (o : OfflineSessions)
    → IsAccounted o
    → IsAccounted (went_offline deletes id client inflight o)
unfolding went_offline
went_offline-IsAccounted deletes id client inflight o h =
    let o' = forget_if_held id (lookup id o.sessions) o in
    let h' = forget_if_held-IsAccounted id o h in
    let s : OfflineSession = record {
      client = client;
      messages = 0;
      bytes = 0;
      dropped = 0;
      full = false;
    } in
    let fresh : IsPending id s o' = record {
      distinct = h'.distinct;
      absent = forget_if_held-absent id o;
      total_bytes = omega (arith, h'.total_bytes);
      total_messages = omega (arith, h'.total_messages);
      each = h'.each;
      this = record { few = omega arith; small = omega arith };
      bounded = h'.bounded;
    } in
    enter-IsAccounted id (take_over deletes inflight s o').0 (take_over deletes inflight s o').1
      (take_over-IsPending deletes inflight id s o' fresh)

pub bound_one-IsAccounted :
    (current : Text → Option ℕ) (cost : ℕ) (id : Text) (subs : Table Text ℕ) (o : OfflineSessions)
    → IsAccounted o
    → IsAccounted (bound_one current cost id (lookup id o.sessions) (subs, o)).1
unfolding bound_one number
bound_one-IsAccounted current cost id subs o h = elim (Option-cases (lookup id o.sessions)) [
  | inl q ↦ rw (bound_one, q) h
  | inr (s, q) ↦ elim (Bool-cases (not (is_queued_for (lookup id subs)))) [
    | inl r1 ↦ rw (bound_one, q, r1) h
    | inr r1 ↦ elim (Bool-cases (not (is_client (current id) s.client))) [
      | inl r2 ↦ rw (bound_one, q, r1, r2) (forget-IsAccounted id s o q h)
      | inr r2 ↦ elim (Bool-cases (not (fits s cost o))) [
        | inl r3 ↦
            rw (bound_one, q, r1, r2, r3)
              (unfold drop_one in
                replace-IsAccounted id (drop_one s) o
                  (record o { sessions = insert id (drop_one s) o.sessions }) h refl (refl, refl)
                  (rw q refl) (rw q refl)
                  (record { few = (h.each id s q).few; small = (h.each id s q).small }) h.bounded)
        | inr r3 ↦
            let (few, small, all_) = fits-room s cost o (ground arith) in
            rw (bound_one, q, r1, r2, r3)
              (unfold with_queued queued in
                replace-IsAccounted id (queued s cost) o
                  (record (with_queued cost o) { sessions = insert id (queued s cost) o.sessions })
                  h refl (refl, refl) (rw q (omega arith)) (rw q (omega arith))
                  (record { few = few; small = small }) all_)
      ]
    ]
  ]
]
