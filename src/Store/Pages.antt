-- ===== src/Store/Pages.antt =====
-- internal/store/store.go, readpage.go: the pages in which a consumer reads a stream.
pub mod Whole
pub mod Through
use colca.Prelude.{
  ℕ, zero, suc, ◌+◌, ◌%◌, ltb, leb, ◌==◌, Text, length, List, [], ◌∷◌, ◌++◌, Bool, true, false,
  Option, some, none, if◌then◌else◌, ◌&&◌, not, ◌||◌, map,
}
use colca.Store.Data.{RecEnc, Stored, Store}

pub record PageBytes : Type 0 where
  pub max_bytes : ℕ
  pub used : ℕ

-- Whether an entry still belongs on a page of `n`, and the bytes behind it.
unfoldable pub take_bytes : ℕ → ℕ → PageBytes → Bool × PageBytes
take_bytes size n p =
    if ltb 0 p.max_bytes && ltb 0 n && ltb p.max_bytes (p.used + size)
    then (false, p)
    else (true, record p { used = p.used + size })

-- What a read is given: its bounds, 0 for none but of `limit`; the filter on a record's head, if any, and
-- whether a stored value shows its head without being decoded; the filter on records, if any; the size of a
-- stored value; and whether the context has ended when so many records have been scanned.
pub record Query : Type 0 where
  pub limit : ℕ
  pub max_scan : ℕ
  pub head : Option (Text → Text → Bool)
  pub peeks : RecEnc → Bool
  pub filter_record : Option (Stored → Bool)
  pub size : RecEnc → ℕ
  pub cancelled : ℕ → Bool

pub record Page : Type 0 where
  pub out : List Stored
  pub next : ℕ
  pub scanned : ℕ
  pub stopped : Bool
  pub bytes : PageBytes
  pub failed : Bool

unfoldable pub head_keeps : Query → Stored → Bool
head_keeps q r = elim q.head [
  | none ↦ true
  | some keeps ↦ not (q.peeks r.enc && not (keeps r.enc.topic r.enc.signal_id))
]

unfoldable pub record_keeps : Query → Stored → Bool
record_keeps q r = elim q.filter_record [ none ↦ true | some keeps ↦ keeps r ]

unfoldable pub is_kept : Query → Stored → Bool
is_kept q r = head_keeps q r && record_keeps q r

pub data Step : Type 0 where
  done more : Page → Step

unfoldable pub is_full : Query → Page → Bool
is_full q pg = leb q.limit (length pg.out) || (ltb 0 q.max_scan && leb q.max_scan pg.scanned)

-- The loop's body, for a record that is kept if the page has room.
unfoldable pub put_on_page : Query → Stored → Page → Step
put_on_page q r pg =
    let (room, bytes) = take_bytes (q.size r.enc) (length pg.out) pg.bytes in
    if room
    then more (record pg { out = pg.out ++ r ∷ []; next = r.offset + 1; bytes = bytes })
    else done (record pg { stopped = true })

unfoldable pub scan_record : Query → Stored → Page → Step
scan_record q r pg =
    if (pg.scanned % 1024 == 0) && q.cancelled pg.scanned
    then done (record pg { out = []; failed = true })
    else if not (is_kept q r)
    then more (record pg { next = r.offset + 1 })
    else put_on_page q r pg

unfoldable pub read_step : Query → Stored → Page → Step
read_step q r pg =
    if is_full q pg
    then done (record pg { stopped = true })
    else scan_record q r (record pg { scanned = pg.scanned + 1 })

unfoldable pub read_on : Query → List Stored → Page → Page
read_on q [] pg = record pg { stopped = leb q.limit (length pg.out) }
read_on q (r ∷ rs) pg = elim (read_step q r pg) [ done pg' ↦ pg' | more pg' ↦ read_on q rs pg' ]

-- The records with offsets in [from, upTo).
unfoldable pub between : ℕ → ℕ → List Stored → List Stored
between from up_to [] = []
between from up_to (r ∷ rs) =
    let rest = between from up_to rs in
    if leb from r.offset && ltb r.offset up_to then r ∷ rest else rest

abbrev pub fresh_page : ℕ → ℕ → Page
fresh_page from max_bytes = record {
  out = [];
  next = from;
  scanned = 0;
  stopped = false;
  bytes = record { max_bytes = max_bytes; used = 0 };
  failed = false;
}

unfoldable pub read_range : Query → ℕ → ℕ → ℕ → List Stored → Page
read_range q max_bytes from up_to rs = read_on q (between from up_to rs) (fresh_page from max_bytes)

-- Up to the published head.
unfoldable pub read_records_bounded : Query → ℕ → Text → ℕ → Store → Page
read_records_bounded q max_bytes stream from s =
    read_range q max_bytes from (s.next stream) (s.db.records stream)

unfoldable pub first_match : Query → ℕ → ℕ → List Stored → Option Stored
first_match q from up_to rs =
    let page = read_range (record q { limit = 1; max_scan = 0 }) 0 from up_to rs in
    if leb up_to from
    then none
    else if page.failed
    then none
    else elim page.out [ [] ↦ none | r ∷ _ ↦ some r ]

-- A consumer that reads page after page until one brings it no further.
unfoldable pub read_through : Query → ℕ → ℕ → Text → ℕ → Store → List Stored
read_through q max_bytes zero stream from s = []
read_through q max_bytes (suc pages) stream from s =
    let page = read_records_bounded q max_bytes stream from s in
    let rest = read_through q max_bytes pages stream page.next s in
    if page.next == from then page.out else page.out ++ rest
