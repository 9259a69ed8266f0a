-- ===== src/Store/Journal.antt =====
-- internal/store/store.go: the journal of what pruning removed, and the gaps it explains.
pub mod Partition
pub mod Written
pub mod Gaps
use colca.Prelude.{
  ℕ, zero, suc, ◌+◌, ◌-◌, ltb, leb, ◌==◌, min, max, Text, length, List, [], ◌∷◌, ◌++◌, Bool, true,
  false, Option, some, none, if◌then◌else◌, ◌&&◌, ◌||◌,
}
use colca.Store.Data.{PruneSpan, Db, Write, set_span, delete_span, Store}

abbrev pub journal_cap : ℕ
journal_cap = 64

unfoldable pub merge_spans : PruneSpan → PruneSpan → PruneSpan
merge_spans oldest next = record {
  from = oldest.from;
  to = next.to;
  first_ts = min oldest.first_ts next.first_ts;
  last_ts = max oldest.last_ts next.last_ts;
  coalesced = true;
  shed = 0;
}

-- The two oldest spans are merged while there are more than the cap, with the deletion of the second's key. Each round
-- takes one span away, so as many rounds as there are spans are enough.
unfoldable pub merge_down : ℕ → Text → List PruneSpan → List PruneSpan × List Write
merge_down (suc rounds) stream (oldest ∷ next ∷ spans) =
    let (merged, writes) = merge_down rounds stream (merge_spans oldest next ∷ spans) in
    if leb (length (oldest ∷ next ∷ spans)) journal_cap
    then (oldest ∷ next ∷ spans, [])
    else (merged, delete_span stream next.from ∷ writes)
merge_down _ stream spans = (spans, [])

-- `entries[0]` is written when spans were merged.
unfoldable pub first_span_writes : Text → List PruneSpan × List Write → List Write
first_span_writes stream (oldest ∷ _, _ ∷ _) = set_span stream oldest ∷ []
first_span_writes stream _ = []

unfoldable pub journal_writes : Text → List PruneSpan → PruneSpan → List Write
journal_writes stream held span =
    let all_spans = held ++ span ∷ [] in
    let merged = merge_down (length all_spans) stream all_spans in
    merged.1 ++ first_span_writes stream merged ++ set_span stream span ∷ []

pub record GapSpan : Type 0 where
  pub stream : Text
  pub from_offset : ℕ
  pub to_offset : ℕ
  pub first_ts : ℕ
  pub last_ts : ℕ
  pub approx : Bool

unfoldable pub holds : PruneSpan → ℕ → Bool
holds span off = leb span.from off && leb off span.to

unfoldable pub note_span : PruneSpan → GapSpan → GapSpan
note_span span g = record g {
  first_ts = if holds span g.from_offset then span.first_ts else g.first_ts;
  approx = if holds span g.from_offset then span.coalesced else g.approx;
  last_ts = if holds span g.to_offset then span.last_ts else g.last_ts;
}

unfoldable pub note_spans : List PruneSpan → GapSpan → GapSpan
note_spans [] g = g
note_spans (span ∷ spans) g = note_spans spans (note_span span g)

unfoldable pub gap : Text → ℕ → Store → Option GapSpan
gap stream position s =
    let from = max position 1 in
    if s.lwm stream == 0 || leb (s.lwm stream) from
    then none
    else some (
        note_spans (s.db.journals stream) (record {
          stream = stream;
          from_offset = from;
          to_offset = s.lwm stream - 1;
          first_ts = 0;
          last_ts = 0;
          approx = false;
        }))
