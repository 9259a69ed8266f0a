-- ===== src/Store/Policy/Targets.antt =====
-- internal/store/store.go: what the retention policy lets go of a stream.
use native.Mathlib.Nat.{le_refl}
use colca.Prelude.{
  ℕ, ◌+◌, ◌≤◌, ◌<◌, ltb, leb, Text, List, [], ◌∷◌, Bool, true, false, Bool-cases, not, ◌&&◌, ◌||◌,
  ◌⊎◌, ◌≡◌, refl, sym, inl, inr, arith,
}
use colca.Store.Data.{Stored, Store}
use colca.Store.Encode.{Setting}
use colca.Store.Streams.Order.{IsRun, IsRun-le}
use colca.Store.Pages.{between}
use colca.Store.Policy.{
  Policy, PolicyScan, PolicyStep, stop, go_on, age_wants, size_wants, policy_wanted, policy_step,
  policy_over, policy_scan, stored_size, add_stats,
}

module _ (p : Policy) where
  -- One step either ends the scan where it is, or takes a record that the policy wants and no cursor holds.
  unfoldable IsPolicyStep : ℕ → Stored → PolicyScan → PolicyStep → Type 0
  IsPolicyStep size r a (stop b) = b.target ≡ a.target
  IsPolicyStep size r a (go_on b) =
      (b.target ≡ r.offset + 1)
      × (b.stats.shed ≡ a.stats.shed + size)
      × (r.offset < p.clamp)
      × ((age_wants p r || size_wants p a.stats.shed) ≡ true)

  policy_step-IsPolicyStep :
      (size : ℕ) (r : Stored) (a : PolicyScan) → IsPolicyStep size r a (policy_step p size r a)
  unfolding policy_step policy_wanted IsPolicyStep add_stats
  policy_step-IsPolicyStep size r a =
      elim (Bool-cases (ltb 0 p.max_scan && leb p.max_scan a.scanned)) [
        | inl c ↦ rw c refl
        | inr c ↦ elim (Bool-cases (not (age_wants p r) && not (size_wants p a.stats.shed))) [
          | inl k ↦ rw (c, k) refl
          | inr k ↦ elim (Bool-cases (leb p.clamp r.offset)) [
            | inl h ↦ rw (c, k, h) refl
            | inr h ↦
                rw (c, k, h)
                  (refl, refl, ground arith, wanted (age_wants p r) (size_wants p a.stats.shed) k)
          ]
        ]
      ]
    where
      wanted : (x y : Bool) → (not x && not y) ≡ false → (x || y) ≡ true
      wanted true y h = refl
      wanted false true h = refl
      wanted false false h = cc

  -- Up to the target every record is wanted by age, or by size when those before it are gone, and lies below the
  -- clamp.
  unfoldable pub IsWanted : Setting → Text → ℕ → ℕ → List Stored → Type 0
  IsWanted w stream target shed [] = Unit
  IsWanted w stream target shed (r ∷ rs) =
      (target ≤ r.offset)
      ⊎ ((r.offset < p.clamp)
          × ((age_wants p r || size_wants p shed) ≡ true)
          × IsWanted w stream target (shed + stored_size w stream r) rs)

  -- Where a scan of records from `lo` on ends.
  record Ends (w : Setting) (stream : Text) (hi : ℕ) (rs : List Stored) (a b : PolicyScan)
      : Type 0 where
    onward : a.target ≤ b.target
    below : b.target ≤ hi
    unheld : (b.target ≡ a.target) ⊎ (b.target ≤ p.clamp)
    wanted : IsWanted w stream b.target a.stats.shed rs

  policy_over-Ends :
      (w : Setting) (stream : Text) (lo hi : ℕ) (rs : List Stored) (a : PolicyScan)
      → IsRun lo hi rs
      → a.target ≤ lo
      → Ends w stream hi rs a (policy_over w p stream rs a)
  unfolding IsRun IsWanted IsPolicyStep policy_over
  policy_over-Ends w stream lo hi [] a run l = record {
    onward = le_refl a.target;
    below = omega (arith, run, l);
    unheld = inl refl;
    wanted = tt;
  }
  policy_over-Ends w stream lo hi (r ∷ rs) a run l =
      let size = stored_size w stream r in
      step r rs a run.0 (IsRun-le (r.offset + 1) hi rs run.1) l (policy_step p size r a) refl
        (policy_step-IsPolicyStep size r a)
        (λ b e. policy_over-Ends w stream (r.offset + 1) hi rs b run.1 (omega (arith, e)))
    where
      step :
          (r : Stored) (rs : List Stored) (a : PolicyScan)
          → lo ≤ r.offset
          → r.offset + 1 ≤ hi
          → a.target ≤ lo
          → (t : PolicyStep) → policy_step p (stored_size w stream r) r a ≡ t
          → IsPolicyStep (stored_size w stream r) r a t
          → ((b : PolicyScan)
              → b.target ≡ r.offset + 1
              → Ends w stream hi rs b (policy_over w p stream rs b))
          → Ends w stream hi (r ∷ rs) a (policy_over w p stream (r ∷ rs) a)
      step r rs a low high l (stop b) e i ih =
          rw (policy_over, e)
            (record {
              onward = omega (arith, i);
              below = omega (arith, i, low, high, l);
              unheld = inl i;
              wanted = inl (omega (arith, i, low, l));
            })
      step r rs a low high l (go_on b) e (t, shed, held, want) ih =
          let rest = ih b t in
          rw (policy_over, e)
            (record {
              onward = omega (arith, rest.onward, t, low, l);
              below = rest.below;
              unheld = elim rest.unheld [
                | inl same ↦ inr (omega (arith, same, t, held))
                | inr low_ ↦ inr low_
              ];
              wanted = inr (held, want, rw (sym shed) rest.wanted);
            })

between-inside :
    (from up_to lo : ℕ) (rs : List Stored)
    → from ≤ lo
    → IsRun lo up_to rs
    → between from up_to rs ≡ rs
unfolding IsRun between
between-inside from up_to lo [] l run = refl
between-inside from up_to lo (r ∷ rs) l (a, run) =
    let rest = between-inside from up_to (r.offset + 1) rs (omega arith) run in
    let high = IsRun-le (r.offset + 1) up_to rs run in ground arith

pub between-all : (lo hi : ℕ) (rs : List Stored) → IsRun lo hi rs → between lo hi rs ≡ rs
between-all lo hi rs run = between-inside lo hi lo rs (le_refl lo) run

-- The offset that the policy would prune a sound stream to lies between the low-water mark and the head, and passes
-- no clamp. Every record before it is wanted by its age, or by the stream's size once the records before it are
-- gone.
pub policy_scan-IsWanted :
    (w : Setting) (p : Policy) (stream : Text) (s : Store)
    → IsRun (s.lwm stream) (s.next stream) (s.db.records stream)
    → let target = (policy_scan w p stream (s.lwm stream) (s.next stream) s).target in
      (s.lwm stream ≤ target)
      × (target ≤ s.next stream)
      × ((target ≡ s.lwm stream) ⊎ (target ≤ p.clamp))
      × IsWanted p w stream target 0 (s.db.records stream)
unfolding policy_scan
policy_scan-IsWanted w p stream s run =
    let ends =
      policy_over-Ends p w stream (s.lwm stream) (s.next stream) (s.db.records stream) _ run
        (le_refl (s.lwm stream)) in
    rw (between-all (s.lwm stream) (s.next stream) (s.db.records stream) run)
      (ends.onward, ends.below, ends.unheld, ends.wanted)
