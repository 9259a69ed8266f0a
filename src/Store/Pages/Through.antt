-- ===== src/Store/Pages/Through.antt =====
-- internal/store/store.go: a consumer that reads a stream to its head.
use native.Mathlib.Nat.{le_refl}
use colca.Prelude.{
  ℕ, zero, suc, ◌+◌, ◌≤◌, ◌<◌, ltb, leb, ◌==◌, ==_iff, Text, length, List, [], ◌∷◌, ◌++◌,
  append-nil, true, false, Bool-cases, if◌then◌else◌, ◌&&◌, ◌≡◌, ◌≢◌, refl, sym, ◌∙◌, inl, inr,
  arith,
}
use colca.Store.Data.{Stored, Store}
use colca.Store.Streams.Order.{IsRun}
use colca.Store.Pages.{
  Query, Page, more, is_kept, is_full, take_bytes, put_on_page, scan_record, read_step, read_on,
  between, fresh_page, read_range, read_records_bounded, read_through,
}
use colca.Store.Pages.Whole.{
  kept, IsFrom, from_offset, from_offset-skip, IsWhole, read_on-IsWhole, read_on-more,
}

IsRun-IsFrom : (lo hi : ℕ) (rs : List Stored) → IsRun lo hi rs → IsFrom lo rs
unfolding IsRun IsFrom
IsRun-IsFrom lo hi [] h = tt
IsRun-IsFrom lo hi (r ∷ rs) (a, h) = (a, IsRun-IsFrom (r.offset + 1) hi rs h)

IsFrom-lower : (lo lo' : ℕ) (rs : List Stored) → lo' ≤ lo → IsFrom lo rs → IsFrom lo' rs
unfolding IsFrom
IsFrom-lower lo lo' [] l h = tt
IsFrom-lower lo lo' (r ∷ rs) l (a, h) = (omega arith, h)

between-IsFrom_all :
    (lo from up_to : ℕ) (rs : List Stored) → IsFrom lo rs → IsFrom lo (between from up_to rs)
unfolding IsFrom between
between-IsFrom_all lo from up_to [] h = tt
between-IsFrom_all lo from up_to (r ∷ rs) (a, h) =
    let rest = between-IsFrom_all (r.offset + 1) from up_to rs h in
    elim (Bool-cases (leb from r.offset && ltb r.offset up_to)) [
      | inl q ↦ rw q (a, rest)
      | inr q ↦ rw q (IsFrom-lower (r.offset + 1) lo _ (omega arith) rest)
    ]

between-IsFrom :
    (lo from up_to : ℕ) (rs : List Stored) → IsFrom lo rs → IsFrom from (between from up_to rs)
unfolding IsFrom between
between-IsFrom lo from up_to [] h = tt
between-IsFrom lo from up_to (r ∷ rs) (a, h) =
    let rest = between-IsFrom_all (r.offset + 1) from up_to rs h in
    let skipped = between-IsFrom (r.offset + 1) from up_to rs h in
    elim (Bool-cases (leb from r.offset && ltb r.offset up_to)) [
      | inl q ↦ rw q (ground arith, rest)
      | inr q ↦ rw q skipped
    ]

from_offset-between :
    (n from up_to : ℕ) (rs : List Stored)
    → from ≤ n
    → from_offset n (between from up_to rs) ≡ between n up_to rs
unfolding from_offset between
from_offset-between n from up_to [] l = refl
from_offset-between n from up_to (r ∷ rs) l =
    let rest = from_offset-between n from up_to rs l in ground arith

length-from_offset-le : (n : ℕ) (rs : List Stored) → length (from_offset n rs) ≤ length rs
unfolding from_offset
length-from_offset-le n [] = omega arith
length-from_offset-le n (r ∷ rs) = let rest = length-from_offset-le n rs in ground arith

-- An entry of any size belongs on a page that holds none.
take_bytes-first :
    (size max_bytes : ℕ)
    → take_bytes size 0 (record { max_bytes = max_bytes; used = 0 })
      ≡ (true, record { max_bytes = max_bytes; used = 0 + size })
unfolding take_bytes
take_bytes-first size max_bytes = elim (Bool-cases (ltb 0 max_bytes)) [
  | inl b ↦ rw b refl
  | inr b ↦ rw b refl
]

kept_nil : (q : Query) → kept q [] ≡ []
unfolding kept
kept_nil q = refl

module _ (q : Query) (alive : (n : ℕ) → q.cancelled n ≡ false) (some_room : 0 < q.limit) where
  fresh-is_full : (from max_bytes : ℕ) → is_full q (fresh_page from max_bytes) ≡ false
  unfolding is_full
  fresh-is_full from max_bytes = ground arith

  -- The first record of a fresh page is read, whatever it weighs.
  read_step-fresh :
      (r : Stored) (from max_bytes : ℕ)
      → (pg : Page) × (read_step q r (fresh_page from max_bytes) ≡ more pg)
        × (pg.next ≡ r.offset + 1)
  read_step-fresh r from max_bytes = elim (Bool-cases (is_kept q r)) [
    | inl k ↦ (
      record (fresh_page from max_bytes) {
        scanned = 1;
        out = r ∷ [];
        next = r.offset + 1;
        bytes = record { max_bytes = max_bytes; used = 0 + q.size r.enc };
      },
      unfold read_step scan_record put_on_page in
          rw (fresh-is_full from max_bytes, k, take_bytes-first (q.size r.enc) max_bytes) refl,
      refl,
    )
    | inr k ↦ (
      record (fresh_page from max_bytes) { scanned = 1; next = r.offset + 1 },
      unfold read_step scan_record in rw (fresh-is_full from max_bytes, k) refl,
      refl,
    )
  ]

  read_on-advances :
      (r : Stored) (rs : List Stored) (from max_bytes : ℕ)
      → IsFrom from (r ∷ rs)
      → r.offset + 1 ≤ (read_on q (r ∷ rs) (fresh_page from max_bytes)).next
  unfolding IsFrom IsWhole
  read_on-advances r rs from max_bytes h =
      let (pg, e, n) = read_step-fresh r from max_bytes in
      let behind = read_on-IsWhole q alive rs (r.offset + 1) pg h.1 (omega (arith, n)) in
      rw (read_on-more q r rs (fresh_page from max_bytes) pg e) (omega (arith, n, behind.0))

  -- What a page leaves is less than what it had before it.
  read_on-fewer :
      (rs : List Stored) (from max_bytes : ℕ)
      → IsFrom from rs
      → (read_on q rs (fresh_page from max_bytes)).next ≢ from
      → length (from_offset (read_on q rs (fresh_page from max_bytes)).next rs) < length rs
  read_on-fewer [] from max_bytes h n = absurd (n (unfold read_on in refl))
  read_on-fewer (r ∷ rs) from max_bytes h n =
      let past = read_on-advances r rs from max_bytes h in
      let after = (read_on q (r ∷ rs) (fresh_page from max_bytes)).next in
      let skip = from_offset-skip after r rs (omega (arith, past)) in
      let few = length-from_offset-le after rs in rw skip (omega (arith, few))

  read_on-idle :
      (rs : List Stored) (from max_bytes : ℕ)
      → IsFrom from rs
      → (read_on q rs (fresh_page from max_bytes)).next ≡ from
      → rs ≡ []
  read_on-idle [] from max_bytes h e = refl
  read_on-idle (r ∷ rs) from max_bytes h e =
      let past = read_on-advances r rs from max_bytes h in
      let low : from ≤ r.offset = unfold IsFrom in h.0 in absurd (omega (arith, past, e, low))

  page_of : ℕ → ℕ → Text → Store → Page
  page_of max_bytes from stream s =
      read_on q (between from (s.next stream) (s.db.records stream)) (fresh_page from max_bytes)

  read_through-step :
      (max_bytes pages : ℕ) (stream : Text) (from : ℕ) (s : Store)
      → read_through q max_bytes (suc pages) stream from s ≡ (
          if (page_of max_bytes from stream s).next == from
          then (page_of max_bytes from stream s).out
          else (page_of max_bytes from stream s).out
            ++ read_through q max_bytes pages stream (page_of max_bytes from stream s).next s)
  unfolding read_through read_records_bounded read_range page_of
  read_through-step max_bytes pages stream from s = refl

  page_of-IsWhole :
      (max_bytes from : ℕ) (stream : Text) (lo : ℕ) (s : Store)
      → IsRun lo (s.next stream) (s.db.records stream)
      → (from ≤ (page_of max_bytes from stream s).next)
        × (((page_of max_bytes from stream s).out
              ++ kept q (
                  between
                    (page_of max_bytes from stream s).next
                    (s.next stream)
                    (s.db.records stream)))
            ≡ kept q (between from (s.next stream) (s.db.records stream)))
  unfolding page_of IsWhole
  page_of-IsWhole max_bytes from stream lo s run =
      let up_to = s.next stream in
      let rs = s.db.records stream in
      let ascending = between-IsFrom lo from up_to rs (IsRun-IsFrom lo up_to rs run) in
      let (on, whole) =
        read_on-IsWhole q alive (between from up_to rs) from (fresh_page from max_bytes) ascending
          (le_refl from) in
      (on, rw (← from_offset-between (page_of max_bytes from stream s).next from up_to rs on) whole)

  page_of-fewer :
      (max_bytes from : ℕ) (stream : Text) (lo : ℕ) (s : Store)
      → IsRun lo (s.next stream) (s.db.records stream)
      → (page_of max_bytes from stream s).next ≢ from
      → length
          (between (page_of max_bytes from stream s).next (s.next stream) (s.db.records stream))
        < length (between from (s.next stream) (s.db.records stream))
  page_of-fewer max_bytes from stream lo s run n =
      let up_to = s.next stream in
      let rs = s.db.records stream in
      let ascending = between-IsFrom lo from up_to rs (IsRun-IsFrom lo up_to rs run) in
      rw
        (← from_offset-between (page_of max_bytes from stream s).next from up_to rs
          (page_of-IsWhole max_bytes from stream lo s run).0)
        (unfold page_of in read_on-fewer (between from up_to rs) from max_bytes ascending n)

  page_of-idle :
      (max_bytes from : ℕ) (stream : Text) (lo : ℕ) (s : Store)
      → IsRun lo (s.next stream) (s.db.records stream)
      → (page_of max_bytes from stream s).next ≡ from
      → between from (s.next stream) (s.db.records stream) ≡ []
  page_of-idle max_bytes from stream lo s run e =
      let up_to = s.next stream in
      let rs = s.db.records stream in
      read_on-idle (between from up_to rs) from max_bytes
        (between-IsFrom lo from up_to rs (IsRun-IsFrom lo up_to rs run)) (unfold page_of in e)

  -- A consumer that may read as many pages as there are records from its position on, and one more, gets every
  -- record from its position up to the published head that the filters keep, each once and in order, whatever the
  -- bounds on a page's records, bytes and scan are, as long as a page may hold a record and the reads are not
  -- cancelled.
  pub read_through-kept :
      (max_bytes pages : ℕ) (stream : Text) (from lo : ℕ) (s : Store)
      → IsRun lo (s.next stream) (s.db.records stream)
      → length (between from (s.next stream) (s.db.records stream)) < pages
      → read_through q max_bytes pages stream from s
        ≡ kept q (between from (s.next stream) (s.db.records stream))
  read_through-kept max_bytes zero stream from lo s run fuel = absurd (omega (arith, fuel))
  read_through-kept max_bytes (suc pages) stream from lo s run fuel =
      let page = page_of max_bytes from stream s in
      let whole = (page_of-IsWhole max_bytes from stream lo s run).1 in
      read_through-step max_bytes pages stream from s ∙ elim (Bool-cases (page.next == from)) [
        | inl e ↦
            let stands = (==_iff page.next from).0 e in
            let nothing = page_of-idle max_bytes from stream lo s run stands in
            let ended = rw (stands, nothing, kept_nil q) at whole in
            rw (e, nothing, kept_nil q) (sym (append-nil page.out) ∙ ended)
        | inr e ↦
            let moved : page.next ≢ from = λ z. ground arith in
            let few = page_of-fewer max_bytes from stream lo s run moved in
            rw
              (
                e,
                read_through-kept max_bytes pages stream page.next lo s run
                    (omega (arith, few, fuel)),
              )
              whole
      ]
