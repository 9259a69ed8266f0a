-- ===== src/Examples/Grants.antt =====
-- plugins/uns/authz.go: grants, entries and decisions on concrete inputs.
use colca.Prelude.{
  Text, codes, text_beq, has_prefix, has_byte, contains_any, cut_prefix, is_empty, split, split_n,
  join, sort, true, false, [], ◌∷◌, ◌++◌, ok, err, ◌≡◌, refl, ◌↔◌, inl, inr, some, none, IsSorted,
}
use colca.Uns.Topic.{Parsed, parse, parse_segments, slash}
use colca.Uns.Grant.{
  Grant, parse_grant, format_grant, parse_zone, parse_trimmed, trim_suffix, valid_element_id,
  is_cmd_class, node_relative, bare_element, zone_of_element, bad_element, unknown_class,
  parse_node_zone, bad_segment, bad_path,
}
use colca.Uns.Grant.RoundTrip.{sorted, format-parse, format-parse_exact}
use colca.Uns.Entry.{
  Entry, local, human, unset, is_local, is_draining, validate, check_kind, check_status,
  check_grants, valid_root,
}
use colca.Uns.Entry.Validity.{IsEnrolled, validate-IsEnrolled}
use colca.Uns.Authz.{
  Scope, authorize, sub, read_record, read_zones, own_read_zone, grant_zones, zone_of_grant,
  grant_zone, zone_of, covered, cover_path, sub_zone, is_reserved_filter, local_service_read,
  fixed_path_prefix, fixed_segments, filter_contract,
}
use colca.Uns.Authz.Matching.{Matches}
use colca.Uns.Authz.Subscribe.{subscribe_sound}
use colca.Uns.Authz.Contracts.{filter_contract_sound}
use colca.Uns.Authz.Grants.{with_grants, authorize_monotone}

abbrev press_cmd : Text
press_cmd = codes "cmd:el1/#:operate,annotate"

abbrev press_grant : Grant
press_grant = record {
  verb = codes "cmd";
  element = codes "el1";
  classes = codes "operate" ∷ codes "annotate" ∷ [];
}

parse_press : parse_grant press_cmd ≡ ok press_grant
unfolding parse_grant split_n text_beq parse_zone parse_trimmed trim_suffix valid_element_id
    contains_any has_byte is_empty has_prefix is_cmd_class split
parse_press = refl

format_press : format_grant press_grant ≡ ok (codes "cmd:el1/#:annotate,operate")
unfolding format_grant text_beq bare_element zone_of_element is_empty sort is_cmd_class join
format_press = refl

parse_refusals :
    (parse_grant (codes "read:a/b/#") ≡ err bad_element)
    × (parse_grant (codes "cmd:el1/#:fly") ≡ err unknown_class)
    × (parse_grant (codes "read:$node/a//b/#") ≡ err bad_path)
unfolding parse_grant split_n text_beq parse_zone parse_trimmed parse_node_zone bad_segment
    node_relative cut_prefix trim_suffix valid_element_id contains_any has_byte is_empty has_prefix
    is_cmd_class split
parse_refusals = (refl, refl, refl)

format-parse_example :
    (t : Text) × (format_grant press_grant ≡ ok t) × (parse_grant t ≡ ok (sorted press_grant))
format-parse_example = format-parse press_cmd press_grant parse_press

format-parse_exact_example :
    (parse_grant (codes "cmd:el1/#:annotate,operate") ≡ ok press_grant)
    ↔ IsSorted press_grant.classes
format-parse_exact_example =
    format-parse_exact press_cmd (codes "cmd:el1/#:annotate,operate") press_grant parse_press
      format_press

abbrev operator : Entry
operator = record {
  ulid = codes "u1";
  pubkey = [];
  kind = human;
  name = [];
  element = [];
  grants = codes "read:el1/#" ∷ press_cmd ∷ [];
  display_name = codes "Ada";
  signed_in_here = true;
  status = unset;
}

abbrev bridge : Entry
bridge = record operator {
  kind = local;
  name = codes "press-bridge";
  element = codes "el1";
  grants = codes "write:el2/#" ∷ [];
}

abbrev hall : Scope
hall = record {
  reaches = λ el. false;
  path_of = λ el. elim (text_beq el (codes "el1")) [ true ↦ some (codes "line1") | false ↦ none ];
}

abbrev root : Text
root = codes "colca"

abbrev line_filter : Text
line_filter = codes "colca/v1/+/+/line1/#"

abbrev temp_topic : Text
temp_topic = codes "colca/v1/_Metric/n1/line1/temp"

abbrev temp : Parsed
temp = record {
  prefix = codes "colca";
  version = codes "v1";
  contract = codes "_Metric";
  node_id = codes "n1";
  path = codes "line1/temp";
}

parse-temp : parse temp_topic ≡ ok temp
unfolding parse parse_segments split join has_prefix
parse-temp = refl

valid_bridge : validate bridge ≡ ok tt
unfolding validate check_kind check_status check_grants is_empty is_draining is_local contains_any
    has_byte parse_grant split_n text_beq parse_zone parse_trimmed trim_suffix valid_element_id
    has_prefix node_relative cut_prefix
valid_bridge = refl

validate-IsEnrolled_example : IsEnrolled bridge
validate-IsEnrolled_example = validate-IsEnrolled bridge valid_bridge

may_subscribe : authorize root (some hall) operator sub line_filter ≡ true
unfolding authorize is_reserved_filter local_service_read fixed_path_prefix fixed_segments
    read_zones own_read_zone grant_zones zone_of_grant grant_zone zone_of sub_zone cover_path
    is_empty is_local has_prefix parse_grant split_n split join text_beq parse_zone parse_trimmed
    trim_suffix valid_element_id contains_any has_byte is_cmd_class node_relative cut_prefix
may_subscribe = refl

Matches-line : Matches (split slash line_filter) (split slash temp_topic)
unfolding split
Matches-line =
    inr (inr refl, inr (inr refl, inr (inl refl, inr (inl refl, inr (inr refl, inl refl)))))

subscribe_sound_example : authorize root (some hall) operator read_record temp_topic ≡ true
subscribe_sound_example =
    subscribe_sound root (some hall) operator line_filter temp_topic temp
      (unfold valid_root in refl) parse-temp refl Matches-line may_subscribe

filter_contract_sound_example : codes "_Metric" ≡ codes "_Metric"
filter_contract_sound_example =
    filter_contract_sound root (codes "colca/v1/_Metric/#") temp_topic (codes "_Metric") temp
      (unfold valid_root in refl) parse-temp
      (unfold split in inr (inr refl, inr (inr refl, inr (inr refl, inl refl))))
      (unfold filter_contract split text_beq in refl)

authorize_monotone_example :
    authorize root (some hall) (with_grants operator (codes "nonsense" ∷ [])) sub line_filter ≡ true
authorize_monotone_example =
    authorize_monotone (some hall) operator (codes "nonsense" ∷ []) root sub line_filter
      may_subscribe

covered_temp :
    covered (read_zones (some hall) operator) (codes "line1" ++ slash ∷ codes "temp") ≡ true
unfolding covered read_zones own_read_zone grant_zones zone_of_grant grant_zone zone_of cover_path
    is_empty is_local has_prefix parse_grant split_n split text_beq parse_zone parse_trimmed
    trim_suffix valid_element_id contains_any has_byte is_cmd_class node_relative cut_prefix
covered_temp = refl
