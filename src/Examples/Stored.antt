-- ===== src/Examples/Stored.antt =====
-- Examples of the store's keys, internal/store/keys.go.
use colca.Prelude.{codes, has_byte, true, some, ◌≡◌, refl, arith}
use colca.Store.Keys.{stream_key, journal_key, offset_of, precedes}
use colca.Store.Keys.Offsets.{stream_key-precedes}
use colca.Store.Keys.Distinct.{cursor, IsPlain, key_text_injective}

stream_key-precedes_example :
    (precedes (stream_key (codes "kv") 255) (stream_key (codes "kv") 256) ≡ true)
    × (precedes (journal_key (codes "kv") 255) (journal_key (codes "kv") 256) ≡ true)
    × (offset_of (stream_key (codes "kv") 255) ≡ some 255)
stream_key-precedes_example = stream_key-precedes (codes "kv") 255 256 (omega arith) (omega arith)

key_text_injective_example : cursor (codes "hist") (codes "kv") ≡ cursor (codes "hist") (codes "kv")
key_text_injective_example =
    key_text_injective (cursor (codes "hist") (codes "kv")) (cursor (codes "hist") (codes "kv"))
      (unfold IsPlain has_byte in refl) (unfold IsPlain has_byte in refl) refl
