-- ===== src/Store/Keys/Distinct.antt =====
-- internal/store/keys.go and the other files that make keys: what each key names.
use colca.Prelude.{
  false, ℕ, ◌<◌, ◌^◌, Text, codes, has_byte, text_beq, [], ◌∷◌, ◌++◌, append_assoc, Free, ◌==◌,
  if◌then◌else◌, Option, some, none, ◌≡◌, refl, sym, ap, ◌∙◌, arith,
}
use colca.Store.Keys.{
  be64, stream_key, meta_key, kv_key, cursor_key, ct_key, hwm_key, store_id_key, child_store_key,
  lwm_key, bytes_key, rp_key, journal_key, incarnation_change_key, parent_state_key, acked_key,
  offset_of,
}
use colca.Store.Keys.Others.{
  sig_key, sig_from_key, indexed_key, target_key, target_from_key, kv_index_key,
  kv_index_recovery_key, reg_key, revoked_key, set_aside_key, jwks_key, ancestry_key,
  standalone_key,
}
use colca.Store.Keys.Offsets.{last_eight}

-- What a key names.
pub data Named : Type 0 where
  record_at span_at : Text → ℕ → Named
  meta child_store low_mark size pending parent_state : Text → Named
  cursor cursor_time high_mark acknowledged : Text → Text → Named
  current : Text → Text → Text → Named
  signal_at target_at set_aside_at : Text → Text → ℕ → Named
  signals_from targets_from indexed registered revoked issuer_keys : Text → Named
  current_by : Text → Text → Text → Text → Named
  store_id incarnation_change index_recovery ancestry standalone : Named

pub key_text : Named → Text
key_text (record_at stream off) = stream_key stream off
key_text (span_at stream first) = journal_key stream first
key_text (meta stream) = meta_key stream
key_text (child_store child) = child_store_key child
key_text (low_mark stream) = lwm_key stream
key_text (size stream) = bytes_key stream
key_text (pending stream) = rp_key stream
key_text (parent_state parent) = parent_state_key parent
key_text (cursor name stream) = cursor_key name stream
key_text (cursor_time name stream) = ct_key name stream
key_text (high_mark child stream) = hwm_key child stream
key_text (acknowledged parent stream) = acked_key parent stream
key_text (current path node topic) = kv_key path node topic
key_text store_id = store_id_key
key_text incarnation_change = incarnation_change_key
key_text (signal_at stream signal off) = sig_key stream signal off
key_text (target_at stream target off) = target_key stream target off
key_text (set_aside_at parent stream off) = set_aside_key parent stream off
key_text (signals_from stream) = sig_from_key stream
key_text (targets_from stream) = target_from_key stream
key_text (indexed stream) = indexed_key stream
key_text (registered ulid) = reg_key ulid
key_text (revoked ulid) = revoked_key ulid
key_text (issuer_keys url) = jwks_key url
key_text (current_by contract path node topic) = kv_index_key contract path node topic
key_text index_recovery = kv_index_recovery_key
key_text ancestry = ancestry_key
key_text standalone = standalone_key

-- Every part that another follows has no zero byte, offsets are below 2⁶⁴, and no journal's stream is called jwks.
unfoldable pub IsPlain : Named → Type 0
IsPlain (record_at stream off) = Free 0 stream × (off < 256 ^ 8)
IsPlain (span_at stream first) =
    Free 0 stream × (first < 256 ^ 8) × (text_beq stream (codes "jwks") ≡ false)
IsPlain (signal_at stream signal off) = Free 0 stream × Free 0 signal × (off < 256 ^ 8)
IsPlain (target_at stream target off) = Free 0 stream × Free 0 target × (off < 256 ^ 8)
IsPlain (set_aside_at parent stream off) = Free 0 parent × Free 0 stream × (off < 256 ^ 8)
IsPlain (current_by contract path node topic) = Free 0 contract × Free 0 path × Free 0 node
IsPlain (cursor name stream) = Free 0 name
IsPlain (cursor_time name stream) = Free 0 name
IsPlain (high_mark child stream) = Free 0 child
IsPlain (acknowledged parent stream) = Free 0 parent
IsPlain (current path node topic) = Free 0 path × Free 0 node
IsPlain _ = Unit

-- What stands before and behind the first zero byte.
cut_zero : Text → Option (Text × Text)
cut_zero [] = none
cut_zero (c ∷ s) =
    let later = cut_zero s in
    if c == 0 then some ([], s) else elim later [ none ↦ none | some (a, b) ↦ some (c ∷ a, b) ]

cut_zero-append : (p r : Text) → Free 0 p → cut_zero (p ++ 0 ∷ r) ≡ some (p, r)
unfolding cut_zero has_byte
cut_zero-append [] r f = refl
cut_zero-append (c ∷ p) r f = ground (arith, cut_zero-append p r)

with_two : (Text → Text → Named) → Text → Option Named
with_two f t = elim (cut_zero t) [ none ↦ none | some (a, b) ↦ some (f a b) ]

with_offset : (Text → ℕ → Named) → Text → Option Named
with_offset f t = elim (cut_zero t) [
  | none ↦ none
  | some (a, b) ↦ elim (offset_of b) [ none ↦ none | some off ↦ some (f a off) ]
]

with_three : (Text → Text → Text → Named) → Text → Option Named
with_three f t = elim (cut_zero t) [
  | none ↦ none
  | some (a, b) ↦ elim (cut_zero b) [ none ↦ none | some (c, d) ↦ some (f a c d) ]
]

with_two_offset : (Text → Text → ℕ → Named) → Text → Option Named
with_two_offset f t = elim (cut_zero t) [ none ↦ none | some (a, b) ↦ with_offset (f a) b ]

with_four : (Text → Text → Text → Text → Named) → Text → Option Named
with_four f t = elim (cut_zero t) [ none ↦ none | some (a, b) ↦ with_three (f a) b ]

-- A key of the journals' family: its stream, or what else the family holds.
journal_family : Text → Option Named
journal_family t = elim (cut_zero t) [
  | none ↦ if text_beq t (codes "ancestry") then some ancestry else some standalone
  | some (a, b) ↦
      if text_beq a (codes "jwks")
      then some (issuer_keys b)
      else elim (offset_of b) [ none ↦ none | some off ↦ some (span_at a off) ]
]

-- The kinds of the other files.
read_other : Text → Text → Option Named
read_other kind t =
    if text_beq kind (codes "si")
    then with_two_offset signal_at t
    else if text_beq kind (codes "ti")
    then with_two_offset target_at t
    else if text_beq kind (codes "ua")
    then with_two_offset set_aside_at t
    else if text_beq kind (codes "sf")
    then some (signals_from t)
    else if text_beq kind (codes "tf")
    then some (targets_from t)
    else if text_beq kind (codes "ix")
    then some (indexed t)
    else if text_beq kind (codes "r")
    then some (registered t)
    else if text_beq kind (codes "rv")
    then some (revoked t)
    else if text_beq kind (codes "x")
    then with_four current_by t
    else some index_recovery

-- Reads a key back: its kind stands before the first zero byte.
read_kind : Text → Text → Option Named
read_kind kind t =
    if text_beq kind (codes "s")
    then with_offset record_at t
    else if text_beq kind (codes "j")
    then journal_family t
    else if text_beq kind (codes "m")
    then some (meta t)
    else if text_beq kind (codes "u")
    then some (child_store t)
    else if text_beq kind (codes "l")
    then some (low_mark t)
    else if text_beq kind (codes "b")
    then some (size t)
    else if text_beq kind (codes "rp")
    then some (pending t)
    else if text_beq kind (codes "p")
    then some (parent_state t)
    else if text_beq kind (codes "c")
    then with_two cursor t
    else if text_beq kind (codes "ct")
    then with_two cursor_time t
    else if text_beq kind (codes "h")
    then with_two high_mark t
    else if text_beq kind (codes "pa")
    then with_two acknowledged t
    else if text_beq kind (codes "k")
    then with_three current t
    else if text_beq kind (codes "i")
    then some store_id
    else if text_beq kind (codes "ic")
    then some incarnation_change
    else read_other kind t

read_key : Text → Option Named
read_key t = elim (cut_zero t) [ none ↦ none | some (kind, r) ↦ read_kind kind r ]

read_two :
    (f : Text → Text → Named) (a b : Text) → Free 0 a → with_two f (a ++ 0 ∷ b) ≡ some (f a b)
unfolding with_two
read_two f a b h = rw (with_two, cut_zero-append a b h) refl

read_offset :
    (f : Text → ℕ → Named) (a : Text) (off : ℕ)
    → Free 0 a
    → off < 256 ^ 8
    → with_offset f ((a ++ 0 ∷ []) ++ be64 off) ≡ some (f a off)
unfolding with_offset
read_offset f a off h k =
    rw (append_assoc a (0 ∷ []) (be64 off))
      (rw (with_offset, cut_zero-append a (be64 off) h, last_eight [] off k) refl)

read_three :
    (f : Text → Text → Text → Named) (a b c : Text)
    → Free 0 a
    → Free 0 b
    → with_three f (a ++ 0 ∷ b ++ 0 ∷ c) ≡ some (f a b c)
unfolding with_three
read_three f a b c h k =
    rw (append_assoc a (0 ∷ b) (0 ∷ c))
      (rw (with_three, cut_zero-append a (b ++ 0 ∷ c) h, cut_zero-append b c k) refl)

read_two_offset :
    (f : Text → Text → ℕ → Named) (a b : Text) (off : ℕ)
    → Free 0 a
    → Free 0 b
    → off < 256 ^ 8
    → with_two_offset f (a ++ 0 ∷ (b ++ 0 ∷ []) ++ be64 off) ≡ some (f a b off)
unfolding with_two_offset
read_two_offset f a b off h k l = rw (append_assoc a (0 ∷ b ++ 0 ∷ []) (be64 off)) (
    rw (with_two_offset, cut_zero-append a ((b ++ 0 ∷ []) ++ be64 off) h)
      (read_offset (f a) b off k l))

read_four :
    (f : Text → Text → Text → Text → Named) (a b c d : Text)
    → Free 0 a
    → Free 0 b
    → Free 0 c
    → with_four f (a ++ 0 ∷ b ++ 0 ∷ c ++ 0 ∷ d) ≡ some (f a b c d)
unfolding with_four
read_four f a b c d h k l = rw (append_assoc a (0 ∷ b) (0 ∷ c)) (
    rw (append_assoc a (0 ∷ b ++ 0 ∷ c) (0 ∷ d))
      (rw (with_four, cut_zero-append a (b ++ 0 ∷ c ++ 0 ∷ d) h) (read_three (f a) b c d k l)))

read_span :
    (stream : Text) (first : ℕ)
    → Free 0 stream
    → first < 256 ^ 8
    → text_beq stream (codes "jwks") ≡ false
    → journal_family ((stream ++ 0 ∷ []) ++ be64 first) ≡ some (span_at stream first)
unfolding journal_family
read_span stream first h k other =
    rw (append_assoc stream (0 ∷ []) (be64 first)) (
      rw (journal_family, cut_zero-append stream (be64 first) h, other, last_eight [] first k) refl)

read-key_text : (k : Named) → IsPlain k → read_key (key_text k) ≡ some k
unfolding read_key key_text IsPlain read_kind text_beq cut_zero stream_key meta_key kv_key
    cursor_key ct_key hwm_key child_store_key lwm_key bytes_key rp_key journal_key parent_state_key
    acked_key sig_key sig_from_key indexed_key target_key target_from_key kv_index_key reg_key
    revoked_key set_aside_key jwks_key read_other journal_family
read-key_text (record_at stream off) (f, h) = read_offset record_at stream off f h
read-key_text (span_at stream first) (f, h, o) = read_span stream first f h o
read-key_text (meta stream) p = refl
read-key_text (child_store child) p = refl
read-key_text (low_mark stream) p = refl
read-key_text (size stream) p = refl
read-key_text (pending stream) p = refl
read-key_text (parent_state parent) p = refl
read-key_text (cursor name stream) f = read_two cursor name stream f
read-key_text (cursor_time name stream) f = read_two cursor_time name stream f
read-key_text (high_mark child stream) f = read_two high_mark child stream f
read-key_text (acknowledged parent stream) f = read_two acknowledged parent stream f
read-key_text (current path node topic) (f, g) = read_three current path node topic f g
read-key_text store_id p = refl
read-key_text incarnation_change p = refl
read-key_text (signal_at stream signal off) (f, g, h) =
    read_two_offset signal_at stream signal off f g h
read-key_text (target_at stream target off) (f, g, h) =
    read_two_offset target_at stream target off f g h
read-key_text (set_aside_at parent stream off) (f, g, h) =
    read_two_offset set_aside_at parent stream off f g h
read-key_text (signals_from stream) p = refl
read-key_text (targets_from stream) p = refl
read-key_text (indexed stream) p = refl
read-key_text (registered ulid) p = refl
read-key_text (revoked ulid) p = refl
read-key_text (issuer_keys url) p = refl
read-key_text (current_by contract path node topic) (f, g, h) =
    read_four current_by contract path node topic f g h
read-key_text index_recovery p = refl
read-key_text ancestry p = refl
read-key_text standalone p = refl

-- No two things that the store keeps share a key: records, spans, cursors, marks, current state, the entries of the
-- indexes, identities, and what is kept of parents and of token issuers. Where each part that another follows has no
-- zero byte, offsets are below 2⁶⁴ and no journal is of a stream called jwks, equal keys name the same thing. The two
-- marks of older versions, which are only deleted, are not among them.
pub key_text_injective : (j k : Named) → IsPlain j → IsPlain k → key_text j ≡ key_text k → j ≡ k
key_text_injective j k p q same =
    let both : some j ≡ some k = sym (read-key_text j p) ∙ ap read_key same ∙ read-key_text k q in
    cc both
