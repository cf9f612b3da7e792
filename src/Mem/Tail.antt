-- ===== src/Mem/Tail.antt =====
-- `normfs/src/mem/mod.rs`: what a read from the tail finds.
use normfs.Prelude.{
  ◌+◌, ◌-◌, ◌%◌, ◌^◌, ◌≤◌, ◌<◌, ◌≡◌, ◌∙◌, ◌&&◌, ◌∷◌, ◌==◌, if◌then◌else◌, [], ℕ, suc, refl, sym, ap,
  inl, inr, true, false, some, List, arith, ltb, leb, Bool-cases, take, zero,
}
use normfs.UBig.{UBig}
use normfs.UintN.{UintN, value, IsCanonical}
use normfs.UintN.Step.{step_by}
use normfs.UintN.Step.Range.{step_by_lem}
use normfs.Mem.{Entry}
use normfs.Mem.Invariant.{IsConsecutive}
use normfs.Mem.Read.{collect}
use normfs.Mem.Range.{InStep, InStep-add, InStep-least, Reaches, advance_lem}
use normfs.Mem.Selection.{wanted, IsBelow, wanted-cons, Reaches-eq, collect_stop, collect_round}

-- At most `limit` in all, of which `count` are taken; zero is no limit.
abbrev pub limited {ℓ} : {A : Type ℓ} → ℕ → ℕ → List A → List A
limited limit count xs = if ltb 0 limit then take (limit - count) xs else xs

take-nil {ℓ} : {A : Type ℓ} (n : ℕ) → take {A = A} n [] ≡ []
take-nil zero = refl
take-nil (suc n) = refl

limited-nil {ℓ} : {A : Type ℓ} (limit count : ℕ) → limited {A = A} limit count [] ≡ []
limited-nil limit count = rw (take-nil (limit - count)) (ground arith)

limited-full {ℓ} :
    {A : Type ℓ} (limit count : ℕ) (xs : List A)
    → (ltb 0 limit && leb limit count) ≡ true
    → limited limit count xs ≡ []
limited-full limit count xs h =
    let none_left : limit - count ≡ 0 = ground arith in rw none_left (ground arith)

limited-cons {ℓ} :
    {A : Type ℓ} (limit count : ℕ) (x : A) (xs : List A)
    → (ltb 0 limit && leb limit count) ≡ false
    → limited limit count (x ∷ xs) ≡ x ∷ limited limit (count + 1) xs
limited-cons limit count x xs h = elim (Bool-cases (ltb 0 limit)) [
  | inl some_limit ↦
      let left : limit - count ≡ suc (limit - (count + 1)) = ground arith in
      rw (some_limit, left) refl
  | inr no_limit ↦ rw no_limit refl
]

module _ {U : Type 0} ⦃b : UBig U⦄ where
  pub collect_tail_lem :
      (fuel end limit step count m start : ℕ) (current : UintN U) (es : List (Entry U))
      → IsConsecutive m es
      → IsBelow fuel es
      → IsBelow end es
      → 0 < step
      → step < 2 ^ 64
      → IsCanonical current
      → InStep start step (value current)
      → start ≤ m
      → value current < m + step
      → collect (suc fuel) (λ c. false) (λ n e. ltb 0 limit && leb limit n) step count current es
        ≡ some (limited limit count (wanted start end step es))
  collect_tail_lem fuel end limit step count m start current [] h f g pos small hc hi hs near =
      unfold collect wanted in ap some (sym (limited-nil limit count))
  collect_tail_lem fuel end limit step count m start current (e ∷ es) h f g pos small hc hi hs
        near =
      let past_end = λ (c : UintN U). false in
      let stop = λ (n : ℕ) (a : Entry U). ltb 0 limit && leb limit n in
      elim (Bool-cases (ltb 0 limit && leb limit count)) [
        | inl full ↦
            collect_stop (suc fuel) past_end stop step count current e es full
            ∙ ap some (sym (limited-full limit count (wanted start end step (e ∷ es)) full))
        | inr open_still ↦
            let (c, reached, r) =
              advance_lem fuel past_end current e.id start step (λ c below. refl) hc hi pos small
                (omega (arith, f.0)) (omega (arith, h.0)) in
            let at : Reaches start step m c = rw h.0.0 at r in
            let (vn, cn) = step_by_lem c step r.canonical small in
            let skipped =
              collect_tail_lem fuel end limit step count (suc m) start c es h.1 f.1 g.1 pos small
                at.canonical at.in_step (omega arith) (omega (arith, at.near)) in
            let taken = λ (e' : value c ≡ m).
              collect_tail_lem fuel end limit step (count + 1) (suc m) start (step_by c step) es h.1
                f.1 g.1 pos small cn (rw vn (InStep-add start step (value c) at.in_step))
                (omega arith) (omega (arith, vn)) in
            collect_round (suc fuel) past_end stop step count current e es open_still reached
            ∙ elim (Bool-cases ((m - start) % step == 0)) [
              | inl on ↦
                  let is_m : value c ≡ m = ground (
                    arith,
                    on,
                    InStep-least start step m (value c) hs at.above at.near at.in_step,
                  ) in
                  ground (
                    arith,
                    h.0,
                    g.0,
                    on,
                    Reaches-eq start step m c e.id h.0 hs at,
                    taken is_m,
                    wanted-cons start end step e es,
                    limited-cons limit count (e.id, e.contents) (wanted start end step es)
                        open_still,
                  )
              | inr off ↦ ground (
                arith,
                h.0,
                off,
                Reaches-eq start step m c e.id h.0 hs at,
                skipped,
                wanted-cons start end step e es,
              )
            ]
      ]
