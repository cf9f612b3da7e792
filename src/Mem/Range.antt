-- ===== src/Mem/Range.antt =====
-- `normfs/src/mem/mod.rs`: the progression of ids that a read goes through, and its inner loop.
use normfs.Prelude.{
  ◌+◌, ◌-◌, ◌%◌, ◌^◌, ◌≤◌, ◌<◌, ◌≡◌, ◌∙◌, ◌==◌, ℕ, suc, sym, ap, inl, inr, Bool, false, some, arith,
  ltb, Bool-cases, zero,
}
use native.Mathlib.Nat.{zero-add, mod-add-mod, add-mod_right, mod-eq_of_lt}
use native.Mathlib.Decide.{dec_lt}
use normfs.UBig.{UBig}
use normfs.UintN.{UintN, value, IsCanonical}
use normfs.UintN.Order.{lt, cmp_lem}
use normfs.UintN.Step.{step_by}
use normfs.UintN.Step.Range.{step_by_lem}
use normfs.Mem.Read.{advance}

-- A number of the progression from `start`.
pub record InStep (start step n : ℕ) : Type 0 where
  pub after : start ≤ n
  pub in_step : (n - start) % step ≡ 0

pub InStep-add : (start step n : ℕ) → InStep start step n → InStep start step (n + step)
InStep-add start step n h = record {
  after = omega (arith, h.after);
  in_step = ap (λ k. k % step) (sum_first (h.after)) ∙ add-mod_right (n - start) step ∙ h.in_step;
}
  where
    sum_first : start ≤ n → n + step - start ≡ n - start + step
    sum_first le = omega arith

-- A number of the progression less than a step above another number of it is that number.
InStep-close :
    (start step m c : ℕ)
    → start ≤ m
    → m ≤ c
    → c < m + step
    → InStep start step c
    → (m - start) % step ≡ 0
    → c ≡ m
InStep-close start step m c hs hm hc h e =
    let sum : (m - start + (c - m)) % step ≡ 0 = ap (λ k. k % step) (omega arith) ∙ h.in_step in
    let small : (0 + (c - m)) % step ≡ 0 =
      ap (λ k. (k + (c - m)) % step) (sym e) ∙ mod-add-mod (m - start) step (c - m) ∙ sum in
    let rest : c - m ≡ 0 =
      sym (mod-eq_of_lt {n = c - m} {m = step} (omega arith)) ∙ rw zero-add at small in
    omega (arith, rest)

-- The least number of the progression from `m` on is `m` exactly if `m` is in it.
pub InStep-least :
    (start step m c : ℕ)
    → start ≤ m
    → m ≤ c
    → c < m + step
    → InStep start step c
    → (c == m) ≡ ((m - start) % step == 0)
InStep-least start step m c hs hm hc h =
    ground (arith, h.in_step, InStep-close start step m c hs hm hc h, λ (e : c ≡ m). in_step e)
  where
    in_step : c ≡ m → (m - start) % step ≡ 0
    in_step e = ap (λ k. (k - start) % step) (sym e) ∙ h.in_step

module _ {U : Type 0} ⦃b : UBig U⦄ where
  -- What the inner loop ends on: the least number of the progression that is not below a target.
  pub record Reaches (start step target : ℕ) (c : UintN U) : Type 0 where
    pub canonical : IsCanonical c
    pub in_step : InStep start step (value c)
    pub above : target ≤ value c
    pub near : value c < target + step

  pub lt_lem : (x y : UintN U) → lt x y ≡ ltb (value x) (value y)
  lt_lem x y = rw cmp_lem (ground arith)

  -- The loop may be left early only at or above its target, and each round is a step nearer.
  pub advance_lem :
      (fuel : ℕ) (past_end : UintN U → Bool) (current target : UintN U) (start step : ℕ)
      → ((c : UintN U) → value c < value target → past_end c ≡ false)
      → IsCanonical current
      → InStep start step (value current)
      → 0 < step
      → step < 2 ^ 64
      → value target ≤ fuel + value current
      → value current < value target + step
      → (c : UintN U) × (advance (suc fuel) past_end current target step ≡ some c)
        × Reaches start step (value target) c
  unfolding advance
  advance_lem zero past_end current target start step hp hc hi pos small hf near = (
    current,
    ground (arith, cmp_lem current target),
    record { canonical = hc; in_step = hi; above = omega arith; near = near },
  )
  advance_lem (suc fuel) past_end current target start step hp hc hi pos small hf near =
      let next = step_by current step in
      let (vn, cn) = step_by_lem current step hc small in
      let next_in_step : InStep start step (value next) =
        rw vn (InStep-add start step (value current) hi) in
      elim (dec_lt (value current) (value target)) [
        | no done ↦ (
          current,
          ground (arith, cmp_lem current target),
          record { canonical = hc; in_step = hi; above = omega arith; near = near },
        )
        | yes more ↦ elim (dec_lt (value next) (value target)) [
          | yes below ↦
              let (c, e, r) =
                advance_lem fuel past_end next target start step hp cn next_in_step pos small
                  (omega arith) (omega arith) in
              (c, ground (arith, cmp_lem current target, hp next below, e), r)
          | no reached ↦
              let (c, e, r) =
                advance_lem fuel past_end next target start step hp cn next_in_step pos small
                  (omega arith) (omega arith) in
              elim (Bool-cases (past_end next)) [
                | inl past ↦ (
                  next,
                  ground (arith, cmp_lem current target, past),
                  record {
                    canonical = cn;
                    in_step = next_in_step;
                    above = omega arith;
                    near = omega (arith, vn);
                  },
                )
                | inr inside ↦ (c, ground (arith, cmp_lem current target, inside, e), r)
              ]
        ]
      ]
