-- ===== src/Mem/Selection.antt =====
-- `normfs/src/mem/mod.rs`: what a read of a range from memory finds.
use normfs.Prelude.{
  ◌+◌, ◌-◌, ◌%◌, ◌^◌, ◌≤◌, ◌<◌, ◌≡◌, ◌∙◌, ◌&&◌, ◌∷◌, ◌==◌, if◌then◌else◌, [], ℕ, suc, refl, sym, ap,
  inl, inr, Bool, true, false, some, List, arith, leb, Bool-cases, All,
}
use mathlib.Core.Option
use native.Mathlib.Decide.{dec_lt}
use normfs.UBig.{UBig}
use normfs.UintN.{UintN, value, IsCanonical, Represents}
use normfs.UintN.Value.{IsCanonical-IsInRange}
use normfs.UintN.Order.{lt, gt, eq, cmp_lem, eq_lem}
use normfs.UintN.Step.{step_by}
use normfs.UintN.Step.Range.{step_by_lem}
use normfs.Mem.{Entry}
use normfs.Mem.Invariant.{IsConsecutive}
use normfs.Mem.Read.{advance, collect, skip_before, Item}
use normfs.Mem.Range.{InStep, InStep-add, InStep-least, Reaches, advance_lem}

abbrev pub is_wanted : ℕ → ℕ → ℕ → ℕ → Bool
is_wanted start end step n = leb start n && leb n end && (n - start) % step == 0

module _ {U : Type 0} ⦃b : UBig U⦄ where
  -- The entries of a list that lie in the range and in step, in order.
  unfoldable pub wanted : ℕ → ℕ → ℕ → List (Entry U) → List (Item U)
  wanted start end step [] = []
  wanted start end step (e ∷ es) =
      let rest = wanted start end step es in
      if is_wanted start end step (value e.id) then (e.id, e.contents) ∷ rest else rest

  wanted_past :
      (start end step m : ℕ) (es : List (Entry U))
      → IsConsecutive m es
      → end < m
      → wanted start end step es ≡ []
  unfolding wanted
  wanted_past start end step m [] h past = refl
  wanted_past start end step m (e ∷ es) h past =
      ground (arith, wanted_past start end step (suc m) es h.1)

  -- Every id is at most a bound.
  abbrev pub IsBelow : ℕ → List (Entry U) → Type 0
  IsBelow fuel es = All (λ e. value e.id ≤ fuel) es

  wanted_before :
      (start : UintN U) (end step : ℕ) (e : Entry U) (es : List (Entry U))
      → lt e.id start ≡ true
      → wanted (value start) end step (e ∷ es) ≡ wanted (value start) end step es
  unfolding wanted
  wanted_before start end step e es before = ground (arith, cmp_lem e.id start)

  -- Skipping the entries before the range loses none that is wanted.
  pub skip_before_lem :
      (start : UintN U) (end step m fuel : ℕ) (es : List (Entry U))
      → IsConsecutive m es
      → IsBelow fuel es
      → (k : ℕ) × IsConsecutive k (skip_before start es)
        × IsBelow fuel (skip_before start es)
        × (value start ≤ k)
        × (wanted (value start) end step (skip_before start es) ≡ wanted (value start) end step es)
  unfolding skip_before
  skip_before_lem start end step m fuel [] h f = (value start, tt, tt, omega arith, refl)
  skip_before_lem start end step m fuel (e ∷ es) h f = elim (Bool-cases (lt e.id start)) [
    | inl before ↦
        let (k, c, below, le, w) = skip_before_lem start end step (suc m) fuel es h.1 f.1 in
        rw before (k, c, below, le, w ∙ sym (wanted_before start end step e es before))
    | inr after ↦ rw after (m, h, f, ground (arith, cmp_lem e.id start), refl)
  ]

  -- One round of the loop, with its `break` and without.
  pub collect_stop :
      (fuel : ℕ) (past_end : UintN U → Bool) (stop : ℕ → Entry U → Bool) (step count : ℕ)
      (current : UintN U) (e : Entry U) (es : List (Entry U))
      → stop count e ≡ true
      → collect fuel past_end stop step count current (e ∷ es) ≡ some []
  unfolding collect
  collect_stop fuel past_end stop step count current e es h = rw h

  pub collect_round :
      (fuel : ℕ) (past_end : UintN U → Bool) (stop : ℕ → Entry U → Bool) (step count : ℕ)
      (current : UintN U) (e : Entry U) (es : List (Entry U)) {c : UintN U}
      → stop count e ≡ false
      → advance fuel past_end current e.id step ≡ some c
      → collect fuel past_end stop step count current (e ∷ es) ≡ (
          if eq c e.id
          then Option.map
              (λ items. (e.id, e.contents) ∷ items)
              (collect fuel past_end stop step (count + 1) (step_by c step) es)
          else collect fuel past_end stop step count c es)
  unfolding collect
  collect_round fuel past_end stop step count current e es h a = rw (h, a)

  pub wanted-cons :
      (start end step : ℕ) (e : Entry U) (es : List (Entry U))
      → wanted start end step (e ∷ es) ≡ (
          if is_wanted start end step (value e.id)
          then (e.id, e.contents) ∷ wanted start end step es
          else wanted start end step es)
  unfolding wanted
  wanted-cons start end step e es = refl

  -- The test of a round on the least number of the progression.
  pub Reaches-eq :
      (start step m : ℕ) (c id : UintN U)
      → Represents id m
      → start ≤ m
      → Reaches start step m c
      → eq c id ≡ ((m - start) % step == 0)
  Reaches-eq start step m c id h hs r =
      eq_lem c id (IsCanonical-IsInRange c r.canonical) (IsCanonical-IsInRange id h.1)
      ∙ ap (λ k. value c == k) h.0
      ∙ InStep-least start step m (value c) hs r.above r.near r.in_step

  -- From an id of the progression that is at most the first wanted one, the loop collects the wanted
  -- entries, all of them, in order.
  pub collect_lem :
      (fuel : ℕ) (end : UintN U) (step count m start : ℕ) (current : UintN U) (es : List (Entry U))
      → IsConsecutive m es
      → IsBelow fuel es
      → 0 < step
      → step < 2 ^ 64
      → IsCanonical current
      → InStep start step (value current)
      → start ≤ m
      → value current < m + step
      → collect (suc fuel) (λ c. gt c end) (λ n e. gt e.id end) step count current es
        ≡ some (wanted start (value end) step es)
  collect_lem fuel end step count m start current [] h f pos small hc hi hs near =
      unfold collect wanted in refl
  collect_lem fuel end step count m start current (e ∷ es) h f pos small hc hi hs near =
      let past_end = λ (c : UintN U). gt c end in
      let stop = λ (n : ℕ) (a : Entry U). gt a.id end in
      elim (dec_lt (value end) m) [
        | yes past ↦
            collect_stop (suc fuel) past_end stop step count current e es
              (ground (arith, h.0, cmp_lem e.id end))
            ∙ ap some (sym (wanted_past start (value end) step m (e ∷ es) h past))
        | no inside ↦
            let keeps : (c : UintN U) → value c < value e.id → past_end c ≡ false =
              λ c below. ground (arith, h.0, cmp_lem c end) in
            let (c, reached, r) =
              advance_lem fuel past_end current e.id start step keeps hc hi pos small
                (omega (arith, f.0)) (omega (arith, h.0)) in
            let at : Reaches start step m c = rw h.0.0 at r in
            let (vn, cn) = step_by_lem c step r.canonical small in
            let skipped =
              collect_lem fuel end step count (suc m) start c es h.1 f.1 pos small at.canonical
                at.in_step (omega arith) (omega (arith, at.near)) in
            let taken = λ (e' : value c ≡ m).
              collect_lem fuel end step (count + 1) (suc m) start (step_by c step) es h.1 f.1 pos
                small cn (rw vn (InStep-add start step (value c) at.in_step)) (omega arith)
                (omega (arith, vn)) in
            collect_round (suc fuel) past_end stop step count current e es
              (ground (arith, h.0, cmp_lem e.id end)) reached
            ∙ elim (Bool-cases ((m - start) % step == 0)) [
              | inl on ↦
                  let is_m : value c ≡ m = ground (
                    arith,
                    on,
                    InStep-least start step m (value c) hs at.above at.near at.in_step,
                  ) in
                  ground (
                    arith,
                    h.0,
                    on,
                    Reaches-eq start step m c e.id h.0 hs at,
                    taken is_m,
                    wanted-cons start (value end) step e es,
                  )
              | inr off ↦ ground (
                arith,
                h.0,
                off,
                Reaches-eq start step m c e.id h.0 hs at,
                skipped,
                wanted-cons start (value end) step e es,
              )
            ]
      ]
