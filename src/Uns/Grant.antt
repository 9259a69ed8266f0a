-- ===== src/Uns/Grant.antt =====
-- plugins/uns/authz.go: the grant grammar, `ParseGrant` and `FormatGrant`.
pub mod Zones
pub mod Accepts
pub mod RoundTrip
use colca.Prelude.{
  ℕ, Text, codes, text_beq, has_prefix, cut_prefix, contains_any, is_empty, split, split_n, join,
  sort, List, [], ◌∷◌, ◌++◌, Bool, true, false, not, ◌&&◌, ◌||◌, any, all, Option, some, none,
  Result, ok, err, ◌>>=◌, if◌then◌else◌,
}
use colca.Uns.Topic.{slash}

pub record Grant : Type 0 where
  pub verb : Text
  pub element : Text
  pub classes : List Text

-- The reasons for which a grant is refused.
pub data GrantError : Type 0 where
  bad_verb bad_shape empty_zone unknown_zone bad_path bad_element zoned_admin no_class : GrantError
  unknown_class : GrantError

abbrev pub colon : ℕ
colon = b':'

abbrev pub comma : ℕ
comma = b','

-- The keys of `cmdClasses`.
abbrev pub cmd_classes : List Text
cmd_classes =
    codes "acknowledge"
    ∷ codes "annotate"
    ∷ codes "param"
    ∷ codes "operate"
    ∷ codes "maintain"
    ∷ codes "configure"
    ∷ codes "admin"
    ∷ []

unfoldable pub is_cmd_class : Text → Bool
is_cmd_class c = any (text_beq c) cmd_classes

abbrev pub node_zone : Text
node_zone = codes "$node"

-- `NodeRelative`: the local path below the node, if the element is node-relative.
unfoldable pub node_relative : Text → Option Text
node_relative element =
    if text_beq element node_zone then some [] else cut_prefix element (node_zone ++ codes "/")

unfoldable pub valid_element_id : Text → Bool
valid_element_id id = not (contains_any id (codes "/+#:"))

-- strings.TrimSuffix
unfoldable pub trim_suffix : Text → Text → Text
trim_suffix suffix [] = []
trim_suffix suffix (c ∷ s) = if text_beq (c ∷ s) suffix then [] else c ∷ trim_suffix suffix s

unfoldable pub bad_segment : Text → Bool
bad_segment seg = is_empty seg || contains_any seg (codes "+#:$")

node_path : Text → Text → Result GrantError Text
node_path z [] = ok node_zone
node_path z (c ∷ path) = if any bad_segment (split slash (c ∷ path)) then err bad_path else ok z

unfoldable pub parse_node_zone : Text → Result GrantError Text
unfolding node_path
parse_node_zone z = elim (node_relative z) [
  | none ↦ err unknown_zone
  | some path ↦ node_path z path
]

-- The zone behind its trailing `/#`.
unfoldable pub parse_trimmed : Text → Result GrantError Text
parse_trimmed z =
    if is_empty z
    then err empty_zone
    else if has_prefix z (codes "$")
    then parse_node_zone z
    else if not (valid_element_id z)
    then err bad_element
    else ok z

unfoldable pub parse_zone : Text → Result GrantError Text
parse_zone z =
    if text_beq z (codes "#") then ok (codes "#") else parse_trimmed (trim_suffix (codes "/#") z)

-- `verb:<zone>`
plain_grant : Text → List Text → Result GrantError Grant
plain_grant verb (z ∷ []) = do
  element ← parse_zone z
  ok (record { verb = verb; element = element; classes = [] })
plain_grant verb _ = err bad_shape

admin_grant : List Text → Result GrantError Grant
admin_grant (z ∷ []) = do
  element ← parse_zone z
  (if text_beq element (codes "#")
      then ok (record { verb = codes "admin"; element = codes "#"; classes = [] })
      else err zoned_admin)
admin_grant _ = err bad_shape

parse_classes : Text → Result GrantError (List Text)
parse_classes list =
    if is_empty list
    then err no_class
    else if all is_cmd_class (split comma list)
    then ok (split comma list)
    else err unknown_class

cmd_grant : List Text → Result GrantError Grant
unfolding parse_classes
cmd_grant (z ∷ list ∷ []) = do
  element ← parse_zone z
  classes ← parse_classes list
  ok (record { verb = codes "cmd"; element = element; classes = classes })
cmd_grant _ = err bad_shape

parse_parts : List Text → Result GrantError Grant
unfolding plain_grant admin_grant cmd_grant
parse_parts [] = err bad_verb
parse_parts (verb ∷ args) =
    if text_beq verb (codes "read")
    then plain_grant (codes "read") args
    else if text_beq verb (codes "write")
    then plain_grant (codes "write") args
    else if text_beq verb (codes "admin")
    then admin_grant args
    else if text_beq verb (codes "cmd")
    then cmd_grant args
    else err bad_verb

unfoldable pub parse_grant : Text → Result GrantError Grant
unfolding parse_parts
parse_grant s = parse_parts (split_n colon 3 s)

-- `#` and no element both mean the whole namespace.
unfoldable pub bare_element : Text → Text
bare_element element = if text_beq element (codes "#") then [] else element

unfoldable pub zone_of_element : Text → Text
zone_of_element element = if is_empty element then codes "#" else element ++ codes "/#"

format_cmd : Text → List Text → Result GrantError Text
format_cmd zone [] = err no_class
format_cmd zone (c ∷ cs) =
    if all is_cmd_class (sort (c ∷ cs))
    then ok (codes "cmd:" ++ (zone ++ (colon ∷ join comma (sort (c ∷ cs)))))
    else err unknown_class

unfoldable pub format_grant : Grant → Result GrantError Text
unfolding format_cmd
format_grant g =
    let element = bare_element g.element in
    let zone = zone_of_element element in
    if text_beq g.verb (codes "read")
    then ok (codes "read:" ++ zone)
    else if text_beq g.verb (codes "write")
    then ok (codes "write:" ++ zone)
    else if text_beq g.verb (codes "admin")
    then (if is_empty element then ok (codes "admin:#") else err zoned_admin)
    else if text_beq g.verb (codes "cmd")
    then format_cmd zone g.classes
    else err bad_verb
