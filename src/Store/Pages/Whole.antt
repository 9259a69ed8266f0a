-- ===== src/Store/Pages/Whole.antt =====
-- internal/store/store.go: the pages of a consumer that goes on where the last one ended.
use native.Mathlib.Nat.{le_refl}
use colca.Prelude.{
  ℕ, ◌+◌, ◌≤◌, ◌<◌, ◌%◌, ◌&&◌, leb, ◌==◌, length, List, [], ◌∷◌, ◌++◌, append-nil, append_assoc,
  Bool, true, false, Bool-cases, if◌then◌else◌, ◌≡◌, refl, sym, ap, ◌∙◌, inl, inr, arith,
}
use colca.Store.Data.{Stored}
use colca.Store.Pages.{
  Query, Page, Step, done, more, is_kept, is_full, take_bytes, put_on_page, scan_record, read_step,
  read_on,
}

-- The records that the filters keep.
unfoldable pub kept : Query → List Stored → List Stored
kept q [] = []
kept q (r ∷ rs) = let rest = kept q rs in if is_kept q r then r ∷ rest else rest

-- Ascending offsets from `lo` on.
unfoldable pub IsFrom : ℕ → List Stored → Type 0
IsFrom lo [] = Unit
IsFrom lo (r ∷ rs) = (lo ≤ r.offset) × IsFrom (r.offset + 1) rs

-- The records from an offset on.
unfoldable pub from_offset : ℕ → List Stored → List Stored
from_offset n [] = []
from_offset n (r ∷ rs) = let rest = from_offset n rs in if leb n r.offset then r ∷ rest else rest

from_offset-all : (n lo : ℕ) (rs : List Stored) → n ≤ lo → IsFrom lo rs → from_offset n rs ≡ rs
unfolding from_offset IsFrom
from_offset-all n lo [] l h = refl
from_offset-all n lo (r ∷ rs) l (a, h) =
    let rest = from_offset-all n (r.offset + 1) rs (omega arith) h in ground arith

pub from_offset-skip :
    (n : ℕ) (r : Stored) (rs : List Stored)
    → r.offset < n
    → from_offset n (r ∷ rs) ≡ from_offset n rs
unfolding from_offset
from_offset-skip n r rs h = ground arith

kept-cons :
    (q : Query) (r : Stored) (rs : List Stored) → kept q (r ∷ rs) ≡ kept q (r ∷ []) ++ kept q rs
unfolding kept
kept-cons q r rs = ground arith

read_on-done :
    (q : Query) (r : Stored) (rs : List Stored) (pg pg' : Page)
    → read_step q r pg ≡ done pg'
    → read_on q (r ∷ rs) pg ≡ pg'
unfolding read_on
read_on-done q r rs pg pg' e =
    ap (λ s. elim s as (λ _. Page) [ done p ↦ p | more p ↦ read_on q rs p ]) e

pub read_on-more :
    (q : Query) (r : Stored) (rs : List Stored) (pg pg' : Page)
    → read_step q r pg ≡ more pg'
    → read_on q (r ∷ rs) pg ≡ read_on q rs pg'
unfolding read_on
read_on-more q r rs pg pg' e =
    ap (λ s. elim s as (λ _. Page) [ done p ↦ p | more p ↦ read_on q rs p ]) e

and_false : (b : Bool) → (b && false) ≡ false
and_false true = refl
and_false false = refl

-- What one step of a read may be: the end of the page, with what it holds, or the record.
unfoldable IsStep : Query → Stored → Page → Step → Type 0
IsStep q r pg (done pg') = (pg'.out ≡ pg.out) × (pg'.next ≡ pg.next)
IsStep q r pg (more pg') = (pg'.out ≡ pg.out ++ kept q (r ∷ [])) × (pg'.next ≡ r.offset + 1)

module _ (q : Query) (alive : (n : ℕ) → q.cancelled n ≡ false) where
  put_on_page-IsStep :
      (r : Stored) (pg : Page) → is_kept q r ≡ true → IsStep q r pg (put_on_page q r pg)
  put_on_page-IsStep r pg k =
      elim (Bool-cases (take_bytes (q.size r.enc) (length pg.out) pg.bytes).0) [
        | inl t ↦ unfold put_on_page IsStep kept in rw (t, k) (refl, refl)
        | inr t ↦ unfold put_on_page IsStep in rw t (refl, refl)
      ]

  scan_record-IsStep : (r : Stored) (pg : Page) → IsStep q r pg (scan_record q r pg)
  scan_record-IsStep r pg = elim (Bool-cases (is_kept q r)) [
    | inl k ↦
        unfold scan_record in
        rw (alive pg.scanned, and_false (pg.scanned % 1024 == 0), k) (put_on_page-IsStep r pg k)
    | inr k ↦
        unfold scan_record in
        rw (alive pg.scanned, and_false (pg.scanned % 1024 == 0), k)
          (unfold IsStep kept in rw k (sym (append-nil pg.out), refl))
  ]

  read_step-IsStep : (r : Stored) (pg : Page) → IsStep q r pg (read_step q r pg)
  read_step-IsStep r pg = elim (Bool-cases (is_full q pg)) [
    | inl f ↦ unfold read_step IsStep in rw f (refl, refl)
    | inr f ↦
        unfold read_step IsStep in
        rw f (unfold IsStep in scan_record-IsStep r (record pg { scanned = pg.scanned + 1 }))
  ]

  -- A page and what is left behind its end are together what was there.
  unfoldable pub IsWhole : List Stored → Page → Page → Type 0
  IsWhole rs pg pg' =
      (pg.next ≤ pg'.next) × ((pg'.out ++ kept q (from_offset pg'.next rs)) ≡ (pg.out ++ kept q rs))

  pub read_on-IsWhole :
      (rs : List Stored) (lo : ℕ) (pg : Page)
      → IsFrom lo rs
      → pg.next ≤ lo
      → IsWhole rs pg (read_on q rs pg)
  unfolding IsWhole IsStep IsFrom
  read_on-IsWhole [] lo pg h l = unfold read_on from_offset in (le_refl pg.next, refl)
  read_on-IsWhole (r ∷ rs) lo pg h l =
      one_step r rs lo pg h l (read_step q r pg) refl (read_step-IsStep r pg)
        (λ pg1 e. read_on-IsWhole rs (r.offset + 1) pg1 h.1 (omega (arith, e)))
    where
      one_step :
          (r : Stored) (rs : List Stored) (lo : ℕ) (pg : Page)
          → IsFrom lo (r ∷ rs)
          → pg.next ≤ lo
          → (step : Step) → read_step q r pg ≡ step
          → IsStep q r pg step
          → ((pg1 : Page) → pg1.next ≡ r.offset + 1 → IsWhole rs pg1 (read_on q rs pg1))
          → IsWhole (r ∷ rs) pg (read_on q (r ∷ rs) pg)
      one_step r rs lo pg h l (done pg1) e i ih = rw (read_on-done q r rs pg pg1 e) (
        omega (arith, i.1),
        rw (i.0, i.1, from_offset-all pg.next lo (r ∷ rs) l (unfold IsFrom in h)) refl,
      )
      one_step r rs lo pg h l (more pg1) e i ih =
          let behind = ih pg1 i.1 in
          let skip : from_offset (read_on q rs pg1).next (r ∷ rs)
              ≡ from_offset (read_on q rs pg1).next rs =
            from_offset-skip (read_on q rs pg1).next r rs (omega (arith, i.1, behind.0)) in
          rw (read_on-more q r rs pg pg1 e) (
            omega (arith, h.0, l, i.1, behind.0),
            rw skip (
                behind.1
                ∙ rw i.0 (
                    append_assoc pg.out (kept q (r ∷ [])) (kept q rs)
                    ∙ ap (λ k. pg.out ++ k) (sym (kept-cons q r rs)))),
          )
