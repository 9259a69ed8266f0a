-- ===== src/Uns/Entry.antt =====
-- plugins/uns/authz.go: registry entries, the doors, and the checks on an entry. A nil `*Entry` is
-- `none`. plugins/uns/root.go: the topic root.
pub mod Validity
use colca.Prelude.{
  ℕ, zero, suc, ◌+◌, Text, codes, text_beq, contains_any, is_empty, length, List, [], ◌∷◌, ◌++◌,
  Bool, true, false, not, ◌&&◌, ◌||◌, any, all, ◌==◌, leb, ltb, Option, some, none, Result, ok, err,
  ◌>>=◌, ◌>>◌, refuse_if, if◌then◌else◌, is_some,
}
use colca.Uns.Grant.{Grant, GrantError, parse_grant, node_relative, valid_element_id}

pub data Kind : Type 0 where
  external node local human : Kind
  other : Text → Kind

pub data Status : Type 0 where
  unset active draining : Status
  unknown : Text → Status

pub record Entry : Type 0 where
  pub ulid : Text
  pub pubkey : Text
  pub kind : Kind
  pub name : Text
  pub element : Text
  pub grants : List Text
  pub display_name : Text
  pub signed_in_here : Bool
  pub status : Status

unfoldable pub is_human : Kind → Bool
is_human human = true
is_human _ = false

unfoldable pub is_local : Kind → Bool
is_local local = true
is_local _ = false

unfoldable pub is_node : Kind → Bool
is_node node = true
is_node _ = false

unfoldable pub is_external : Kind → Bool
is_external external = true
is_external _ = false

unfoldable pub is_draining : Status → Bool
is_draining draining = true
is_draining _ = false

pub data Door : Type 0 where
  mqtt http repl local_door : Door

may_use : Door → Kind → Bool
unfolding is_external is_node is_local
may_use mqtt k = is_external k
may_use http k = is_external k
may_use repl k = is_node k
may_use local_door k = is_local k

unfoldable pub may_use_door : Option Entry → Door → Bool
unfolding may_use
may_use_door none d = false
may_use_door (some e) d = may_use d e.kind

unfoldable pub may_publish_contract : Option Entry → Text → Bool
may_publish_contract none contract = false
may_publish_contract (some e) contract =
    if is_human e.kind then not (text_beq contract (codes "_CmdConfigure")) else true

-- `CursorPrefix`
unfoldable pub cursor_prefix : Entry → Text
cursor_prefix e =
    if is_local e.kind then (codes "c/" ++ e.name) ++ codes "/" else e.ulid ++ codes "/"

-- The reasons for which `Entry.Validate` refuses an entry.
pub data EntryError : Type 0 where
  no_ulid bad_key no_name bad_name has_key human_entry bad_kind unplaced bad_element : EntryError
  bad_status cannot_drain admin_grant relative_grant : EntryError
  bad_grant : GrantError → EntryError

-- A digit that hex.DecodeString reads.
unfoldable pub is_hex : ℕ → Bool
is_hex c = leb b'0' c && leb c b'9' || (leb b'a' c && leb c b'f' || leb b'A' c && leb c b'F')

unfoldable pub check_kind : Entry → Kind → Result EntryError (Unit {0})
check_kind e external =
    refuse_if (not (length e.pubkey == 64)) bad_key >> refuse_if (not (all is_hex e.pubkey)) bad_key
check_kind e node =
    refuse_if (not (length e.pubkey == 64)) bad_key >> refuse_if (not (all is_hex e.pubkey)) bad_key
check_kind e local =
    refuse_if (is_empty e.name) no_name
    >> refuse_if (contains_any e.name (codes "/+#")) bad_name
    >> refuse_if (not (is_empty e.pubkey)) has_key
check_kind e human = err human_entry
check_kind e (other k) = err bad_kind

unfoldable pub check_status : Status → Result EntryError (Unit {0})
check_status (unknown s) = err bad_status
check_status _ = ok tt

check_parsed : Result GrantError Grant → Result EntryError (Unit {0})
check_parsed (err x) = err (bad_grant x)
check_parsed (ok g) =
    refuse_if (text_beq g.verb (codes "admin")) admin_grant
    >> refuse_if (is_some (node_relative g.element)) relative_grant

unfoldable pub check_grants : List Text → Result EntryError (Unit {0})
unfolding check_parsed
check_grants [] = ok tt
check_grants (g ∷ gs) = check_parsed (parse_grant g) >> check_grants gs

unfoldable pub validate : Entry → Result EntryError (Unit {0})
validate e =
    refuse_if (is_empty e.ulid) no_ulid
    >> (check_kind e e.kind
        >> (refuse_if (is_empty e.element && not (is_local e.kind)) unplaced
            >> (refuse_if (not (is_empty e.element) && not (valid_element_id e.element)) bad_element
                >> (check_status e.status
                    >> (refuse_if (is_draining e.status && not (is_node e.kind)) cannot_drain
                        >> check_grants e.grants)))))

-- `IsAdmin`
grants_admin : Text → Bool
grants_admin g = elim (parse_grant g) [ ok pg ↦ text_beq pg.verb (codes "admin") | err x ↦ false ]

unfoldable pub is_admin : Option Entry → Bool
unfolding grants_admin
is_admin none = false
is_admin (some e) = any grants_admin e.grants

-- `ValidRoot` on the bytes of the root; every byte that it admits is a character of its own.
letter_or_digit : ℕ → Bool
letter_or_digit c =
    leb b'a' c && leb c b'z' || (leb b'A' c && leb c b'Z' || leb b'0' c && leb c b'9')

root_byte : ℕ → Bool
root_byte c = letter_or_digit c || (c == b'-' || (c == b'_' || c == b'.'))

unfoldable pub valid_root : Text → Bool
unfolding letter_or_digit root_byte
valid_root [] = false
valid_root (c ∷ r) = leb (length (c ∷ r)) 64 && (letter_or_digit c && all root_byte r)
