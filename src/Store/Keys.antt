-- ===== src/Store/Keys.antt =====
-- internal/store/keys.go: the keys under which everything is stored, and their order, which is that of
-- their bytes. An offset is a number below 2⁶⁴.
pub mod Offsets
pub mod Others
pub mod Distinct
pub mod Ranges
use colca.Prelude.{
  ℕ, zero, suc, ◌+◌, ◌-◌, ◌*◌, ◌/◌, ◌%◌, ◌^◌, Text, codes, length, drop, List, [], ◌∷◌, ◌++◌, Bool,
  true, false, ltb, ◌==◌, if◌then◌else◌, Option, some, none,
}

-- The last `n` bytes of a number, the highest first.
unfoldable pub big_endian : ℕ → ℕ → Text
big_endian zero v = []
big_endian (suc n) v = big_endian n (v / 256) ++ v % 256 ∷ []

abbrev pub be64 : ℕ → Text
be64 v = big_endian 8 v

-- `binary.BigEndian.Uint64`, behind the bytes that make `acc`.
unfoldable pub from_big_endian : ℕ → Text → ℕ
from_big_endian acc [] = acc
from_big_endian acc (b ∷ bs) = from_big_endian (acc * 256 + b) bs

unfoldable pub stream_key : Text → ℕ → Text
stream_key stream off = (codes "s" ++ 0 ∷ stream ++ 0 ∷ []) ++ be64 off

unfoldable pub offset_of : Text → Option ℕ
offset_of key =
    if ltb (length key) 8 then none else some (from_big_endian 0 (drop (length key - 8) key))

unfoldable pub meta_key : Text → Text
meta_key stream = codes "m" ++ 0 ∷ stream

unfoldable pub kv_key : Text → Text → Text → Text
kv_key path node_id topic = codes "k" ++ 0 ∷ path ++ 0 ∷ node_id ++ 0 ∷ topic

unfoldable pub kv_prefix : Text → Text
kv_prefix prefix = codes "k" ++ 0 ∷ prefix

unfoldable pub cursor_key : Text → Text → Text
cursor_key name stream = codes "c" ++ 0 ∷ name ++ 0 ∷ stream

unfoldable pub ct_key : Text → Text → Text
ct_key name stream = codes "ct" ++ 0 ∷ name ++ 0 ∷ stream

unfoldable pub hwm_key : Text → Text → Text
hwm_key child stream = codes "h" ++ 0 ∷ child ++ 0 ∷ stream

unfoldable pub hwm_child_end : Text → Text
hwm_child_end child = codes "h" ++ 0 ∷ child ++ 1 ∷ []

abbrev pub store_id_key : Text
store_id_key = codes "i" ++ 0 ∷ []

unfoldable pub child_store_key : Text → Text
child_store_key child = codes "u" ++ 0 ∷ child

unfoldable pub lwm_key : Text → Text
lwm_key stream = codes "l" ++ 0 ∷ stream

unfoldable pub bytes_key : Text → Text
bytes_key stream = codes "b" ++ 0 ∷ stream

unfoldable pub rp_key : Text → Text
rp_key stream = codes "rp" ++ 0 ∷ stream

unfoldable pub journal_key : Text → ℕ → Text
journal_key stream first = (codes "j" ++ 0 ∷ stream ++ 0 ∷ []) ++ be64 first

unfoldable pub journal_bounds : Text → Text × Text
journal_bounds stream = (codes "j" ++ 0 ∷ stream ++ 0 ∷ [], codes "j" ++ 0 ∷ stream ++ 1 ∷ [])

abbrev pub incarnation_change_key : Text
incarnation_change_key = codes "ic" ++ 0 ∷ []

unfoldable pub parent_state_key : Text → Text
parent_state_key parent = codes "p" ++ 0 ∷ parent

unfoldable pub acked_key : Text → Text → Text
acked_key parent stream = codes "pa" ++ 0 ∷ parent ++ 0 ∷ stream

abbrev pub acked_bounds : Text × Text
acked_bounds = (codes "pa" ++ 0 ∷ [], codes "pa" ++ 1 ∷ [])

-- The order of the keys, `bytes.Compare(a, b) < 0`.
unfoldable pub precedes : Text → Text → Bool
precedes [] [] = false
precedes [] (b ∷ bs) = true
precedes (a ∷ as_) [] = false
precedes (a ∷ as_) (b ∷ bs) =
    let rest = precedes as_ bs in if ltb a b then true else if a == b then rest else false
