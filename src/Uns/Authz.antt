-- ===== src/Uns/Authz.antt =====
-- plugins/uns/authz.go: the one decision function `Authorize` and what it is made of. The topic root,
-- which is set once for the process, is an argument.
pub mod Cover
pub mod Matching
pub mod Subscribe
pub mod Contracts
pub mod Grants
use colca.Prelude.{
  ℕ, zero, suc, ◌+◌, Text, codes, text_beq, has_prefix, contains_any, has_byte, is_empty, split,
  join, length, List, [], ◌∷◌, ◌++◌, Bool, true, false, not, ◌&&◌, ◌||◌, any, leb, ltb, ◌==◌,
  Option, some, none, Result, ok, err, if◌then◌else◌, is_ok,
}
use colca.Uns.Topic.{Parsed, slash, parse}
use colca.Uns.Classes.{class_of, is_command}
use colca.Uns.Grant.{Grant, parse_grant, node_relative, valid_element_id}
use colca.Uns.Entry.{Entry, is_human, is_local}

-- What a node knows about where elements are (`Scope` without `Binds`, which no decision here asks).
pub record Scope : Type 0 where
  pub reaches : Text → Bool
  pub path_of : Text → Option Text

abbrev pub whole : Text
whole = codes "#"

unfoldable pub cover_path : Text → Text → Bool
cover_path zone path =
    if text_beq zone whole then true else text_beq path zone || has_prefix path (zone ++ codes "/")

scope_zone : Scope → Text → Option Text
scope_zone sc element = if sc.reaches element then some whole else sc.path_of element

unfoldable pub zone_of : Option Scope → Text → Option Text
unfolding scope_zone
zone_of none element = if text_beq element whole then some whole else none
zone_of (some sc) element =
    if text_beq element whole
    then some whole
    else if is_empty element
    then none
    else scope_zone sc element

unfoldable pub node_path_zone : Text → Text
node_path_zone path = if is_empty path then whole else path

unfoldable pub grant_zone : Option Scope → Entry → Text → Option Text
grant_zone sc e element = elim (node_relative element) [
  | none ↦ zone_of sc element
  | some path ↦ if is_human e.kind && e.signed_in_here then some (node_path_zone path) else none
]

abbrev pub to_list : Option Text → List Text
to_list none = []
to_list (some z) = z ∷ []

-- The zones that one grant of the verb adds; one that does not parse counts as absent.
unfoldable pub zone_of_grant : Option Scope → Entry → Text → Text → List Text
zone_of_grant sc e verb g = elim (parse_grant g) [
  | err x ↦ []
  | ok pg ↦ if text_beq pg.verb verb then to_list (grant_zone sc e pg.element) else []
]

unfoldable pub grant_zones : Option Scope → Entry → Text → List Text → List Text
grant_zones sc e verb [] = []
grant_zones sc e verb (g ∷ gs) = zone_of_grant sc e verb g ++ grant_zones sc e verb gs

-- The zone of the entry's own place, for reading and for writing.
unfoldable pub own_read_zone : Option Scope → Entry → List Text
own_read_zone sc e =
    if is_local e.kind && is_empty e.element then whole ∷ [] else to_list (zone_of sc e.element)

unfoldable pub own_write_zone : Option Scope → Entry → List Text
own_write_zone sc e =
    if not (is_local e.kind)
    then []
    else if is_empty e.element
    then whole ∷ []
    else to_list (zone_of sc e.element)

unfoldable pub read_zones : Option Scope → Entry → List Text
read_zones sc e = own_read_zone sc e ++ grant_zones sc e (codes "read") e.grants

unfoldable pub write_zones : Option Scope → Entry → List Text
write_zones sc e = own_write_zone sc e ++ grant_zones sc e (codes "write") e.grants

unfoldable pub cmd_grant_covers : Option Scope → Entry → Text → Text → Grant → Bool
cmd_grant_covers sc e class_ path pg = elim (grant_zone sc e pg.element) [
  | none ↦ false
  | some zone ↦
      if not (cover_path zone path) then false else any (λ c. text_beq c class_) pg.classes
]

unfoldable pub cmd_grant_at : Option Scope → Entry → Text → Text → Text → Bool
cmd_grant_at sc e class_ path g = elim (parse_grant g) [
  | err x ↦ false
  | ok pg ↦
      if not (text_beq pg.verb (codes "cmd")) then false else cmd_grant_covers sc e class_ path pg
]

unfoldable pub authorize_cmd_at : Option Scope → Option Entry → Text → Text → Bool
authorize_cmd_at sc none class_ path = false
authorize_cmd_at sc (some e) class_ path = any (cmd_grant_at sc e class_ path) e.grants

unfoldable pub grant_names_class : Text → Text → Bool
grant_names_class class_ g = elim (parse_grant g) [
  | err x ↦ false
  | ok pg ↦
      if not (text_beq pg.verb (codes "cmd"))
      then false
      else any (λ c. text_beq c class_) pg.classes
]

unfoldable pub holds_cmd_class : Option Entry → Text → Bool
holds_cmd_class none class_ = false
holds_cmd_class (some e) class_ = any (grant_names_class class_) e.grants

unfoldable pub cmd_class : Text → Text
cmd_class contract =
    if text_beq contract (codes "_CmdAcknowledge")
    then codes "acknowledge"
    else if text_beq contract (codes "_CmdParam")
    then codes "param"
    else if text_beq contract (codes "_CmdOperate")
    then codes "operate"
    else if text_beq contract (codes "_CmdMaintain")
    then codes "maintain"
    else if text_beq contract (codes "_CmdConfigure") || text_beq contract (codes "_CmdEdit")
    then codes "configure"
    else codes "admin"

-- `cutLast`: what stands before and behind the last slash.
unfoldable pub cut_last : Text → Option (Text × Text)
cut_last [] = none
cut_last (c ∷ s) = elim (cut_last s) [
  | some (before, after) ↦ some (c ∷ before, after)
  | none ↦ if c == slash then some ([], s) else none
]

unfoldable pub read_act_place : Option (Text × Text) → Option Text
read_act_place none = none
read_act_place (some (place, action)) =
    if not (text_beq action (codes "subscribe") || text_beq action (codes "unsubscribe"))
      || is_empty place
    then none
    else some place

unfoldable pub read_authorized_act : Text → Text → Option Text
read_authorized_act contract path =
    if not (text_beq contract (codes "_CmdOperate")) then none else read_act_place (cut_last path)

unfoldable pub authorized_at_executor : Text → Bool
authorized_at_executor contract = text_beq contract (codes "_CmdEdit")

unfoldable pub service_details : Text → List Text → Bool
service_details root (a ∷ b ∷ c ∷ d ∷ r) =
    text_beq a root && (text_beq b (codes "v1") && text_beq c (codes "_ServiceDetails"))
service_details root _ = false

unfoldable pub local_service_read : Text → Entry → Text → Bool
local_service_read root e topic =
    if not (is_local e.kind) then false else service_details root (split slash topic)

unfoldable pub is_reserved_filter : Text → Bool
is_reserved_filter filter = has_prefix filter (codes "$")

-- The loop of `fixedPathPrefix`, at the segment with index `i`.
unfoldable pub fixed_segments : ℕ → List Text → List Text
fixed_segments i [] = []
fixed_segments i (s ∷ r) =
    let rest = fixed_segments (suc i) r in
    if text_beq s (codes "#")
    then []
    else if ltb i 4
    then rest
    else if text_beq s (codes "+")
    then []
    else s ∷ rest

first_reaches : Text → List Text → Bool
first_reaches root [] = false
first_reaches root (s ∷ r) = text_beq s root || (text_beq s (codes "+") || text_beq s (codes "#"))

-- The fixed path, or `none` for a filter that matches nothing under the root.
unfoldable pub fixed_path_prefix : Text → Text → Option Text
unfolding first_reaches
fixed_path_prefix root filter =
    if not (first_reaches root (split slash filter))
    then none
    else some (join slash (fixed_segments 0 (split slash filter)))

filter_contract_of : Text → List Text → Option Text
filter_contract_of root (a ∷ b ∷ c ∷ r) =
    if not (text_beq a root || text_beq a (codes "+"))
    then none
    else if text_beq b (codes "#") || (text_beq c (codes "+") || text_beq c (codes "#"))
    then none
    else some c
filter_contract_of root _ = none

unfoldable pub filter_contract : Text → Text → Option Text
unfolding filter_contract_of
filter_contract root filter = filter_contract_of root (split slash filter)

pub data Action : Type 0 where
  sub read_record cmd pub_ : Action

unfoldable pub covered : List Text → Text → Bool
covered zones path = any (λ z. cover_path z path) zones

unfoldable pub sub_zone : Text → Text → Bool
sub_zone fixed z = if text_beq z whole then true else not (is_empty fixed) && cover_path z fixed

authorize_sub : Text → Option Scope → Entry → Text → Bool
authorize_sub root sc e topic =
    if is_reserved_filter topic
    then false
    else if local_service_read root e topic
    then true
    else elim (fixed_path_prefix root topic) [
      | none ↦ true
      | some fixed ↦ any (sub_zone fixed) (read_zones sc e)
    ]

authorize_cmd : Option Scope → Entry → Parsed → Bool
authorize_cmd sc e p =
    if not (is_command (class_of p.contract))
    then false
    else elim (read_authorized_act p.contract p.path) [
      | some place ↦ covered (read_zones sc e) place
      | none ↦
          if authorized_at_executor p.contract
          then holds_cmd_class (some e) (cmd_class p.contract)
            || (holds_cmd_class (some e) (codes "annotate")
                || (holds_cmd_class (some e) (codes "operate")
                    || holds_cmd_class (some e) (codes "param")))
          else authorize_cmd_at sc (some e) (cmd_class p.contract) p.path
    ]

authorize_read : Text → Option Scope → Entry → Text → Parsed → Bool
authorize_read root sc e topic p =
    if local_service_read root e topic then true else covered (read_zones sc e) p.path

unfoldable pub authorize : Text → Option Scope → Entry → Action → Text → Bool
unfolding authorize_sub authorize_cmd authorize_read
authorize root sc e read_record topic = elim (parse topic) [
  | err x ↦ false
  | ok p ↦ authorize_read root sc e topic p
]
authorize root sc e sub topic = authorize_sub root sc e topic
authorize root sc e cmd topic = elim (parse topic) [ err x ↦ false | ok p ↦ authorize_cmd sc e p ]
authorize root sc e pub_ topic = elim (parse topic) [
  | err x ↦ false
  | ok p ↦ covered (write_zones sc e) p.path
]

unfoldable pub authorize_browse : Option Scope → Entry → Text → Bool
authorize_browse sc e path =
    any (λ z. cover_path z path || has_prefix z (path ++ codes "/")) (read_zones sc e)
