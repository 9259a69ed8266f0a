-- ===== src/Store/Keys/Others.antt =====
-- internal/store: the keys that files other than keys.go make. sigindex.go, targetindex.go and kvindex.go keep the
-- indexes, registry.go the identities, setaside.go, jwks.go, ancestry.go and standalone.go what a node keeps of its
-- parents and of a token's issuer.
use colca.Prelude.{ℕ, Text, codes, [], ◌∷◌, ◌++◌}
use colca.Store.Keys.{be64}

unfoldable pub sig_key : Text → Text → ℕ → Text
sig_key stream signal off = codes "si" ++ 0 ∷ stream ++ 0 ∷ (signal ++ 0 ∷ []) ++ be64 off

unfoldable pub sig_from_key : Text → Text
sig_from_key stream = codes "sf" ++ 0 ∷ stream

unfoldable pub indexed_key : Text → Text
indexed_key stream = codes "ix" ++ 0 ∷ stream

unfoldable pub target_key : Text → Text → ℕ → Text
target_key stream target off = codes "ti" ++ 0 ∷ stream ++ 0 ∷ (target ++ 0 ∷ []) ++ be64 off

unfoldable pub target_from_key : Text → Text
target_from_key stream = codes "tf" ++ 0 ∷ stream

-- The key of an entry whose topic has the contract.
unfoldable pub kv_index_key : Text → Text → Text → Text → Text
kv_index_key contract path node topic =
    codes "x" ++ 0 ∷ contract ++ 0 ∷ path ++ 0 ∷ node ++ 0 ∷ topic

abbrev pub kv_index_recovery_key : Text
kv_index_recovery_key = codes "xr" ++ 0 ∷ []

unfoldable pub reg_key : Text → Text
reg_key ulid = codes "r" ++ 0 ∷ ulid

unfoldable pub revoked_key : Text → Text
revoked_key ulid = codes "rv" ++ 0 ∷ ulid

unfoldable pub set_aside_key : Text → Text → ℕ → Text
set_aside_key parent stream off = codes "ua" ++ 0 ∷ parent ++ 0 ∷ (stream ++ 0 ∷ []) ++ be64 off

-- In the family of the journals, whose streams are others.
unfoldable pub jwks_key : Text → Text
jwks_key url = codes "j" ++ 0 ∷ codes "jwks" ++ 0 ∷ url

abbrev pub ancestry_key : Text
ancestry_key = codes "j" ++ 0 ∷ codes "ancestry"

abbrev pub standalone_key : Text
standalone_key = codes "j" ++ 0 ∷ codes "standalone"
