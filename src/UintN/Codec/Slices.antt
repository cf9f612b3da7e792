-- ===== src/UintN/Codec/Slices.antt =====
-- The fixed-width field at an offset of a slice, as `from_le_bytes` on a sub-slice reads it.
use normfs.Prelude.{
  ◌+◌, ◌^◌, ◌≤◌, ◌<◌, ◌≡◌, ◌++◌, ℕ, refl, sym, List, arith, length, take, drop, All, length-take,
  take-append, drop-append, All-drop, IsByte, le_bytes, length-le_bytes, le_value-le_bytes,
  le_value-lt, All-take,
}
use native.Mathlib.Nat.{pow-le-pow_right}
use normfs.UintN.Codec.{u64_at}

-- Behind a prefix the field is the one at the start of the rest.
pub u64_at-append : (xs ys : List ℕ) (i : ℕ) → i ≡ length xs → u64_at (xs ++ ys) i ≡ u64_at ys 0
unfolding u64_at
u64_at-append xs ys i e = rw (e, drop-append xs ys)

pub take-append_of_length {ℓ} :
    {A : Type ℓ} (xs ys : List A) (n : ℕ) → n ≡ length xs → take n (xs ++ ys) ≡ xs
take-append_of_length xs ys n e = rw (e, take-append xs ys)

pub drop-append_of_length {ℓ} :
    {A : Type ℓ} (xs ys : List A) (n : ℕ) → n ≡ length xs → drop n (xs ++ ys) ≡ ys
drop-append_of_length xs ys n e = rw (e, drop-append xs ys)

-- A field at the start is read back.
pub u64_at-le_bytes : (v : ℕ) (ys : List ℕ) → v < 2 ^ 64 → u64_at (le_bytes 8 v ++ ys) 0 ≡ v
unfolding u64_at
u64_at-le_bytes v ys h =
    rw (take-append_of_length (le_bytes 8 v) ys 8 (sym (length-le_bytes 8 v)))
      (le_value-le_bytes 8 v h)

length-take-le {ℓ} : {A : Type ℓ} (n : ℕ) (xs : List A) → length (take n xs) ≤ n
length-take-le n xs = omega (arith, length-take n xs)

-- A field of bytes is a `u64`.
pub u64_at-lt : (slice : List ℕ) (i : ℕ) → All IsByte slice → u64_at slice i < 2 ^ 64
unfolding u64_at
u64_at-lt slice i h =
    let field = take 8 (drop i slice) in
    let fits = le_value-lt field (All-take IsByte 8 (drop i slice) (All-drop IsByte i slice h)) in
    let short = pow-le-pow_right {n = 256} (omega arith) (length-take-le 8 (drop i slice)) in
    omega (arith, fits, short)

-- Three fields and what follows them, as the fixed part of a file's header holds them.
abbrev pub three_fields : ℕ → ℕ → ℕ → List ℕ → List ℕ
three_fields x y z rest = le_bytes 8 x ++ (le_bytes 8 y ++ (le_bytes 8 z ++ rest))

pub length-three_fields :
    (x y z : ℕ) (rest : List ℕ) → length (three_fields x y z rest) ≡ 24 + length rest
unfolding le_bytes
length-three_fields x y z rest = omega arith

pub three_fields_lem :
    (x y z : ℕ) (rest : List ℕ)
    → x < 2 ^ 64
    → y < 2 ^ 64
    → z < 2 ^ 64
    → (u64_at (three_fields x y z rest) 0 ≡ x)
      × (u64_at (three_fields x y z rest) 8 ≡ y)
      × (u64_at (three_fields x y z rest) 16 ≡ z)
      × (drop 24 (three_fields x y z rest) ≡ rest)
unfolding u64_at le_bytes
three_fields_lem x y z rest hx hy hz =
    (le_value-le_bytes 8 x hx, le_value-le_bytes 8 y hy, le_value-le_bytes 8 z hz, refl)
