-- ===== src/Examples/Topics.antt =====
-- plugins/uns/uns.go: topics, mounts and classes on concrete inputs.
use colca.Prelude.{
  Text, codes, text_beq, has_prefix, split, split_n, join, cut_prefix, lookup, insert, sort, true,
  [], ◌∷◌, ok, ◌≡◌, refl, ◌↔◌, arith, length, ◌≤◌, is_empty,
}
use colca.Uns.Topic.{Parsed, parse, parse_segments, render, max_topic_bytes}
use colca.Uns.Topic.RoundTrip.{IsCanonical, parse_iff}
use colca.Uns.Mount.{mount_insert, mount_strip}
use colca.Uns.Mount.RoundTrip.{strip-insert, insert-strip}
use colca.Uns.Classes.{one_of, Class, class_of, is_gap, entity, flows_up, stream_for}
use colca.Uns.Classes.Streams.{
  uplink_stream_set, collect, add_stream, member, partial_uplink_streams, uplink_streams,
  matches_uplink_stream, uplink_carries_every_record,
}

abbrev temp_topic : Text
temp_topic = codes "colca/v1/_Metric/n-edge1/line1/press3/temp"

abbrev temp : Parsed
temp = record {
  prefix = codes "colca";
  version = codes "v1";
  contract = codes "_Metric";
  node_id = codes "n-edge1";
  path = codes "line1/press3/temp";
}

parse-temp : parse temp_topic ≡ ok temp
unfolding parse parse_segments split join has_prefix
parse-temp = refl

insert_temp :
    mount_insert temp_topic (codes "hall2")
    ≡ codes "colca/v1/_Metric/n-edge1/hall2/line1/press3/temp"
unfolding mount_insert split_n join
insert_temp = refl

strip_temp :
    mount_strip temp_topic (codes "line1") ≡ (codes "colca/v1/_Metric/n-edge1/press3/temp", true)
unfolding mount_strip split_n join cut_prefix
strip_temp = refl

parse_iff_example :
    (parse temp_topic ≡ ok temp)
    ↔ ((render temp ≡ temp_topic) × IsCanonical temp × (length temp_topic ≤ max_topic_bytes))
parse_iff_example = parse_iff temp_topic temp

strip-insert_example :
    mount_strip (mount_insert temp_topic (codes "hall2")) (codes "hall2") ≡ (temp_topic, true)
strip-insert_example = strip-insert temp_topic (codes "hall2") temp parse-temp

insert-strip_example :
    mount_insert (codes "colca/v1/_Metric/n-edge1/press3/temp") (codes "line1") ≡ temp_topic
insert-strip_example =
    insert-strip temp_topic (codes "colca/v1/_Metric/n-edge1/press3/temp") (codes "line1")
      strip_temp

class_of_tests :
    (class_of (codes "_Signal") ≡ entity)
    × (class_of (codes "_CmdOperate") ≡ Class.cmd)
    × (class_of (codes "_Nothing") ≡ Class.none)
unfolding class_of one_of text_beq has_prefix
class_of_tests = (refl, refl, refl)

uplink_streams_test :
    uplink_streams
    ≡ codes "alarms"
      ∷ codes "annotations"
      ∷ codes "audit"
      ∷ codes "commands"
      ∷ codes "entities"
      ∷ codes "logs"
      ∷ codes "metrics"
      ∷ []
unfolding uplink_streams uplink_stream_set collect add_stream sort insert text_beq flows_up
    stream_for is_empty
uplink_streams_test = refl

matches_entity : matches_uplink_stream entity temp (codes "entities") ≡ true
unfolding matches_uplink_stream flows_up is_gap stream_for text_beq
matches_entity = refl

abbrev gap_topic : Text
gap_topic = codes "colca/v1/_StreamGap/n-edge1/metrics"

abbrev gap_parsed : Parsed
gap_parsed = record temp { contract = codes "_StreamGap"; path = codes "metrics" }

parse_gap : parse gap_topic ≡ ok gap_parsed
unfolding parse parse_segments split join has_prefix
parse_gap = refl

fits_gap : length (mount_insert gap_topic (codes "hall2")) ≤ max_topic_bytes
unfolding mount_insert split_n join
fits_gap = omega arith

carries_metrics : uplink_carries_every_record (codes "metrics") ≡ true
unfolding uplink_carries_every_record partial_uplink_streams collect add_stream insert member lookup
    text_beq flows_up stream_for is_empty class_of one_of
carries_metrics = refl

metric_stream : stream_for (class_of (codes "_Metric")) ≡ codes "metrics"
unfolding class_of one_of text_beq stream_for
metric_stream = refl
