-- ===== src/Store/Streams/Refreshed.antt =====
-- internal/store/store.go: an append behind a check of the current state.
use colca.Prelude.{
  ℕ, ◌+◌, ◌==◌, ==_iff, Text, text_eq, pair_eq, is_empty, set_at, set_at_same, set_at_other, List,
  [], ◌∷◌, Bool, true, false, Bool-cases, Option, some, none, Option-cases, if◌then◌else◌,
  Result-cases, ◌≡◌, refl, ◌∙◌, inl, inr, ◌⊎◌,
}
use colca.Store.Data.{Record, KvEnc, KvKey, Store, apply_batch, apply_write}
use colca.Store.Streams.{
  appended, decided, check_append, append_advancing_locked, advance_writes, write_records,
  kv_offsets, append_if_kv_unchanged,
}
use colca.Store.Encode.{
  Setting, add_record, index_writes, kv_writes, signal_id_of, record_target, kv_key_of, origin_or,
  encode_kv,
}

-- The entry of current state that a record leaves.
abbrev pub entry_of : ℕ → Record → Option KvEnc
entry_of off r = if r.delete then none else some (encode_kv off r)

pub appended-kv :
    (w : Setting) (now : ℕ) (stream : Text) (r : Record) (s : Store)
    → is_empty r.kv_path ≡ false
    → (appended w now stream (r ∷ []) none s).db.kv
      ≡ set_at (kv_key_of r) (entry_of (s.next stream) r) s.db.kv
unfolding appended write_records add_record index_writes kv_writes advance_writes apply_batch
    apply_write
appended-kv w now stream r s path =
    by_tests (is_empty (signal_id_of w.payloads r)) (is_empty (record_target r.topic)) r.delete refl
      refl refl
  where
    by_tests :
        (a b d : Bool)
        → is_empty (signal_id_of w.payloads r) ≡ a
        → is_empty (record_target r.topic) ≡ b
        → r.delete ≡ d
        → (appended w now stream (r ∷ []) none s).db.kv
          ≡ set_at (kv_key_of r) (entry_of (s.next stream) r) s.db.kv
    by_tests true true true p q d = rw (path, p, q, d) refl
    by_tests true true false p q d = rw (path, p, q, d) refl
    by_tests true false true p q d = rw (path, p, q, d) refl
    by_tests true false false p q d = rw (path, p, q, d) refl
    by_tests false true true p q d = rw (path, p, q, d) refl
    by_tests false true false p q d = rw (path, p, q, d) refl
    by_tests false false true p q d = rw (path, p, q, d) refl
    by_tests false false false p q d = rw (path, p, q, d) refl

-- The version of an entry that a refresh restates: the record as that version's owner numbered it.
abbrev pub restating : KvEnc → Record → Record
restating held r = record r { origin_offset = origin_or held.origin_offset held.offset }

-- A refresh of an entry of current state: the entry stands where it was seen, its successor is at the stream's
-- next offset and keeps the origin of the version it restates, and no other entry changes.
pub record IsRefreshed (stream : Text) (r : Record) (seen : ℕ) (s s' : Store) : Type 0 where
  pub held : KvEnc
  pub here : s.db.kv (kv_key_of r) ≡ some held
  pub stands : held.offset ≡ seen
  pub restated : s'.db.kv (kv_key_of r) ≡ entry_of (s.next stream) (restating held r)
  pub others : (key : KvKey) → pair_eq.beq (kv_key_of r) key ≡ false → s'.db.kv key ≡ s.db.kv key
  pub next : s'.next stream ≡ s.next stream + 1

decided-one :
    (local : Option (List Bool)) (r : Record)
    → (l : Bool) × (decided local (r ∷ []) ≡ record r { source_local_only = l } ∷ [])
unfolding decided
decided-one none r = (r.source_local_only, refl)
decided-one (some []) r = (r.source_local_only, refl)
decided-one (some (l ∷ [])) r = (l, refl)
decided-one (some (l ∷ _ ∷ _)) r = (l, refl)

appended-IsRefreshed :
    (w : Setting) (now : ℕ) (stream : Text) (r : Record) (seen : ℕ) (s : Store) (held : KvEnc)
    (local : Option (List Bool))
    → is_empty r.kv_path ≡ false
    → s.db.kv (kv_key_of r) ≡ some held
    → held.offset ≡ seen
    → IsRefreshed stream r seen s
        (appended w now stream (decided local (restating held r ∷ [])) none s)
appended-IsRefreshed w now stream r seen s held local path here stands =
    let (l, one) = decided-one local (restating held r) in
    let new : Record = record (restating held r) { source_local_only = l } in
    let written = appended-kv w now stream new s path in
    let restated : entry_of (s.next stream) new ≡ entry_of (s.next stream) (restating held r) =
      unfold encode_kv in refl in
    rw one (record {
      held = held;
      here = here;
      stands = stands;
      restated =
          rw written (set_at_same (kv_key_of r) (entry_of (s.next stream) new) s.db.kv ∙ restated);
      others = λ key other.
          rw written (set_at_other (kv_key_of r) key (entry_of (s.next stream) new) s.db.kv other);
      next = unfold appended in set_at_same stream (s.next stream + 1) s.next;
    })

-- An append that was to follow only an unchanged entry of current state leaves the store as it was, or the entry
-- stands at the offset that was seen and the append restates it.
pub append_if_kv_unchanged-IsRefreshed :
    (w : Setting) (disk : Bool) (now : ℕ) (stream : Text) (r : Record) (seen : ℕ) (s : Store)
    → ((append_if_kv_unchanged w disk now stream r seen s).1 ≡ s)
      ⊎ IsRefreshed stream r seen s (append_if_kv_unchanged w disk now stream r seen s).1
unfolding append_if_kv_unchanged kv_offsets append_advancing_locked
append_if_kv_unchanged-IsRefreshed w disk now stream r seen s =
    elim (Bool-cases (is_empty r.kv_path)) [
      | inl q ↦ inl (rw q refl)
      | inr path ↦ elim (Option-cases (s.db.kv (kv_key_of r))) [
        | inl k ↦ inl (rw (path, k) refl)
        | inr (e, k) ↦ elim (Bool-cases (e.offset == seen)) [
          | inr other ↦ inl (rw (path, k, other) refl)
          | inl same ↦ elim (Bool-cases (s.next stream == 0)) [
            | inl z ↦ inl (rw (path, k, same, z) refl)
            | inr z ↦ elim (Result-cases (check_append w s.db stream (restating e r ∷ []))) [
              | inr (why, c) ↦ inl (rw (path, k, same, z, c) refl)
              | inl (local, c) ↦ elim (Bool-cases disk) [
                | inr d ↦ inl (rw (path, k, same, z, c, d) refl)
                | inl d ↦ inr (
                    rw (path, k, same, z, c, d)
                      (appended-IsRefreshed w now stream r seen s e local path k
                        ((==_iff e.offset seen).0 same)))
              ]
            ]
          ]
        ]
      ]
    ]
