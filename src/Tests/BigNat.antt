-- ===== src/Tests/BigNat.antt =====
-- The natural numbers as an implementation of `UBig`.
use normfs.Prelude.{
  ◌-◌, ◌/◌, ◌%◌, ◌^◌, ◌≤◌, ◌<◌, ◌≡◌, ◌≢◌, ◌∷◌, ◌++◌, ◌==◌, if◌then◌else◌, [], ◌+◌, ℕ, suc, compare,
  refl, none, some, List, arith, ltb, length, All, length-append, IsByte, le_value, pow256-suc,
  zero,
}
use normfs.UBig.{UBig}
use native.Mathlib.Nat.{le_refl}

-- The digits of a number in base 256, the lowest first and the highest first. As many rounds as the
-- number says are enough.
unfoldable pub le_digits : ℕ → ℕ → List ℕ
le_digits zero n = []
le_digits (suc fuel) n =
    let rest = le_digits fuel (n / 256) in if n == 0 then [] else (n % 256) ∷ rest

unfoldable pub be_digits : ℕ → ℕ → List ℕ
be_digits zero n = []
be_digits (suc fuel) n =
    let rest = be_digits fuel (n / 256) in if n == 0 then [] else rest ++ ((n % 256) ∷ [])

pub le_value-le_digits : (fuel n : ℕ) → n ≤ fuel → le_value (le_digits fuel n) ≡ n
unfolding le_digits le_value
le_value-le_digits zero n h = omega arith
le_value-le_digits (suc fuel) n h = ground (arith, le_value-le_digits fuel (n / 256))

pub le_digits-IsByte : (fuel n : ℕ) → All IsByte (le_digits fuel n)
unfolding le_digits
le_digits-IsByte zero n = tt
le_digits-IsByte (suc fuel) n = ground (arith, le_digits-IsByte fuel (n / 256))

pub length-le_digits : (fuel n k : ℕ) → n < 256 ^ k → length (le_digits fuel n) ≤ k
unfolding le_digits
length-le_digits zero n k h = omega arith
length-le_digits (suc fuel) n zero h = ground arith
length-le_digits (suc fuel) n (suc k) h =
    ground (arith, length-le_digits fuel (n / 256) k, pow256-suc k)

pub length-be_digits : (fuel n : ℕ) → length (be_digits fuel n) ≡ length (le_digits fuel n)
unfolding be_digits le_digits
length-be_digits zero n = refl
length-be_digits (suc fuel) n = ground (
  arith,
  length-be_digits fuel (n / 256),
  length-append (be_digits fuel (n / 256)) ((n % 256) ∷ []),
)

pub value-rem : (a c : ℕ) → c ≢ 0 → ◌≡◌ {A = ℕ} (a % c) (a % c)
value-rem a c h = refl

pub value-sub : (a c : ℕ) → c ≤ a → ◌≡◌ {A = ℕ} (a - c) (a - c)
value-sub a c h = refl

instance abbrev pub big_nat : UBig ℕ
big_nat = record {
  value = λ n. n;
  from = λ n. n;
  add = ◌+◌;
  sub = ◌-◌;
  rem = ◌%◌;
  half = λ n. n / 2;
  eq = ◌==◌;
  cmp = compare;
  try_into = λ w n. if ltb n (2 ^ w) then some n else none;
  to_le_bytes = λ n. le_digits n n;
  to_be_bytes = λ n. be_digits n n;
  from_le_bytes = le_value;
  value-from = λ n. refl;
  value-add = λ a c. refl;
  value-sub = value-sub;
  value-rem = value-rem;
  value-half = λ a. refl;
  eq_lem = λ a c. refl;
  cmp_lem = λ a c. refl;
  try_into_lem = λ w a. refl;
  le_value-to_le_bytes = λ a. le_value-le_digits a a (le_refl a);
  to_le_bytes-IsByte = λ a. le_digits-IsByte a a;
  length-to_le_bytes = λ k a h. length-le_digits a a k h;
  length-to_be_bytes = λ a. length-be_digits a a;
  value-from_le_bytes = λ bs. refl;
}
