-- ===== src/Lookup/Order.antt =====
-- `normfs/src/lookup.rs`: files whose ids are in order, and the file that an id is in.
use normfs.Prelude.{◌≤◌, ◌<◌, ◌≡◌, ℕ, ap, arith}
use native.Mathlib.Decide.{dec_lt}

-- The files from `first` to `last` have the ids from `start` to `end`, in order, and the id `t` is
-- in the file `n`.
pub record IsIn (first last : ℕ) (start end : ℕ → ℕ) (t n : ℕ) : Type 0 where
  pub least : first ≤ n
  pub most : n ≤ last
  pub from : start n ≤ t
  pub until : t ≤ end n
  pub filled : (m : ℕ) → first ≤ m → m ≤ last → start m ≤ end m
  pub sorted : (m k : ℕ) → first ≤ m → m < k → k ≤ last → end m < start k

module _ {first last : ℕ} {start end : ℕ → ℕ} {t n : ℕ}
    (is_in : IsIn first last start end t n) where
  pub before_start : (m : ℕ) → first ≤ m → m ≤ last → t < start m → n < m
  before_start m lo hi h = elim (dec_lt n m) [
    | yes lt ↦ lt
    | no ge ↦ elim (dec_lt m n) [
      | yes gt ↦
          absurd
            (omega (arith, is_in.filled m lo hi, is_in.sorted m n lo gt is_in.most, is_in.from))
      | no le ↦ let same : m ≡ n = omega arith in absurd (omega (arith, ap start same, is_in.from))
    ]
  ]

  pub from_start : (m : ℕ) → first ≤ m → m ≤ last → start m ≤ t → m ≤ n
  from_start m lo hi h = elim (dec_lt n m) [
    | yes lt ↦ absurd (omega (arith, is_in.sorted n m is_in.least lt hi, is_in.until))
    | no ge ↦ omega arith
  ]

  pub within : (m : ℕ) → first ≤ m → m ≤ last → start m ≤ t → t ≤ end m → m ≡ n
  within m lo hi h k = elim (dec_lt m n) [
    | yes lt ↦ absurd (omega (arith, is_in.sorted m n lo lt is_in.most, is_in.from))
    | no ge ↦ omega (arith, from_start m lo hi h)
  ]

  pub after_end : (m : ℕ) → first ≤ m → m ≤ last → end m < t → m < n
  after_end m lo hi h =
      let le = from_start m lo hi (omega (arith, is_in.filled m lo hi)) in
      elim (dec_lt m n) [
        | yes lt ↦ lt
        | no ge ↦ let same : m ≡ n = omega arith in absurd (omega (arith, ap end same, is_in.until))
      ]
