-- ===== src/Wal/Buffer/Release.antt =====
-- `normfs-wal/src/writer_buffer.rs`: what the buffer releases, and what it keeps.
use normfs.Prelude.{
  ◌+◌, ◌≤◌, ◌<◌, ◌≡◌, ◌≢◌, ◌⊎◌, ◌∙◌, ◌∷◌, ◌++◌, ◌==◌, [], ℕ, suc, refl, ap, inl, inr, Option, none,
  some, List, arith, Bool-cases, length, take, All,
}
use mathlib.Core.List.{Permᴰ}
use mathlib.Core.Path.{subst}
use native.Mathlib.Decide.{dec_lt}
use normfs.UBig.{UBig}
use normfs.UintN.{UintN, value, IsCanonical}
use normfs.UintN.Value.{is_zero_lem, IsCanonical-IsInRange}
use normfs.UintN.Order.{eq_lem}
use normfs.UintN.Arith.{increment}
use normfs.UintN.Arith.Sum.{increment_lem}
use normfs.UintN.Last.{IsCanonicalOption, next_value}
use normfs.Wal.Buffer.{Item, OrderedBuffer, IsSorted, SortById, is_next, take_ready, wait_for_order}

pub All-Permᴰ {ℓ κ} :
    {A : Type ℓ} (P : A → Type κ) {xs ys : List A} → Permᴰ xs ys → All P xs → All P ys
All-Permᴰ P Permᴰ.nil h = h
All-Permᴰ P (Permᴰ.cons e p) h = (subst P e h.0, All-Permᴰ P p h.1)
All-Permᴰ P (Permᴰ.swap e f) h = (subst P f h.1.0, (subst P e h.0, h.1.1))
All-Permᴰ P (Permᴰ.trans p q) h = All-Permᴰ P q (All-Permᴰ P p h)

module _ {U : Type 0} ⦃b : UBig U⦄ where
  abbrev pub IsItem : Item U → Type 0
  IsItem item = IsCanonical item.0

  -- Every id of the buffer is in canonical form.
  pub record IsValid (buffer : OrderedBuffer U) : Type 0 where
    pub last : IsCanonicalOption buffer.last_written_id
    pub items : All IsItem buffer.pending

  -- The ids are `n`, `n + 1`, and so on.
  abbrev pub IsCounted : ℕ → List (Item U) → Type 0
  IsCounted n [] = Unit {0}
  IsCounted n (x ∷ xs) = (value x.0 ≡ n) × IsCounted (suc n) xs

  pub is_next_lem :
      (last_id : Option (UintN U)) (id : UintN U)
      → IsCanonicalOption last_id
      → IsCanonical id
      → is_next last_id id ≡ (value id == next_value last_id)
  unfolding is_next
  is_next_lem none id h k = is_zero_lem id
  is_next_lem (some l) id h k =
      let (e, c) = increment_lem l h in
      eq_lem id (increment l) (IsCanonical-IsInRange id k) (IsCanonical-IsInRange (increment l) c)
      ∙ ap (λ n. value id == n) e

  -- What is taken counts up from the next id; with what stays it is the list; and the first that stays
  -- does not come next.
  pub record Taken (last_id : Option (UintN U)) (xs : List (Item U))
      (r : List (Item U) × List (Item U) × Option (UintN U)) : Type 0 where
    pub counted : IsCounted (next_value last_id) r.0
    pub next : next_value r.2 ≡ next_value last_id + length r.0
    pub parts : xs ≡ r.0 ++ r.1
    pub last : IsCanonicalOption r.2
    pub stopped : All (λ x. value x.0 ≢ next_value r.2) (take 1 r.1)

  pub take_ready_lem :
      (last_id : Option (UintN U)) (xs : List (Item U))
      → IsCanonicalOption last_id
      → All IsItem xs
      → Taken last_id xs (take_ready last_id xs)
  unfolding take_ready
  take_ready_lem last_id [] h k = record {
    counted = tt;
    next = omega arith;
    parts = refl;
    last = h;
    stopped = tt;
  }
  take_ready_lem last_id (x ∷ xs) h k =
      let more = take_ready_lem (some x.0) xs k.0 k.1 in
      let is = is_next_lem last_id x.0 h k.0 in
      elim (Bool-cases (is_next last_id x.0)) [
        | inl next_one ↦
            let e : value x.0 ≡ next_value last_id = ground (arith, is, next_one) in
            rw next_one (record {
              counted = (
                e,
                subst (λ n. IsCounted n (take_ready (some x.0) xs).0) (omega arith) more.counted,
              );
              next = omega (arith, more.next, e);
              parts = ap (λ ys. x ∷ ys) more.parts;
              last = more.last;
              stopped = more.stopped;
            })
        | inr other ↦ rw other (record {
          counted = tt;
          next = omega arith;
          parts = refl;
          last = h;
          stopped = (ground (arith, is), tt);
        })
      ]

  -- The same of `wait_for_order`, on the sorted list.
  pub wait_for_order-eq :
      (s : SortById U) (entry : Item U) (buffer : OrderedBuffer U)
      → let sorted = s.sort (buffer.pending ++ (entry ∷ [])) in
        wait_for_order s entry buffer ≡ (
          (take_ready buffer.last_written_id sorted).0,
          record {
            pending = (take_ready buffer.last_written_id sorted).1;
            last_written_id = (take_ready buffer.last_written_id sorted).2;
          },
        )
  unfolding wait_for_order
  wait_for_order-eq s entry buffer = refl

  pub All-append_parts {κ} :
      (P : Item U → Type κ) (xs ys : List (Item U)) → All P (xs ++ ys) → All P xs × All P ys
  All-append_parts P [] ys h = (tt, h)
  All-append_parts P (x ∷ xs) ys h = let (k, l) = All-append_parts P xs ys h.1 in ((h.0, k), l)

  pub IsSorted-append : (xs ys : List (Item U)) → IsSorted (xs ++ ys) → IsSorted ys
  IsSorted-append [] ys h = h
  IsSorted-append (x ∷ xs) ys h = IsSorted-append xs ys h.1

  -- What stays of a sorted list is beyond the next id, or begins with an id below it.
  abbrev pub IsBlocked : OrderedBuffer U → Type 0
  IsBlocked buffer =
      (x : Item U) × (xs : List (Item U)) × (buffer.pending ≡ x ∷ xs)
      × (value x.0 < next_value buffer.last_written_id)

  abbrev pub IsWaiting : OrderedBuffer U → Type 0
  IsWaiting buffer = All (λ x. next_value buffer.last_written_id < value x.0) buffer.pending

  everywhere_below :
      (n m : ℕ) (xs : List (Item U))
      → n < m
      → All (λ x. m ≤ value x.0) xs
      → All (λ x. n < value x.0) xs
  everywhere_below n m [] h k = tt
  everywhere_below n m (x ∷ xs) h k = (omega (arith, k.0), everywhere_below n m xs h k.1)

  pub rest_cases :
      (n : ℕ) (xs : List (Item U))
      → IsSorted xs
      → All (λ x. value x.0 ≢ n) (take 1 xs)
      → All (λ x. n < value x.0) xs
        ⊎ ((y : Item U) × (ys : List (Item U)) × (xs ≡ y ∷ ys) × (value y.0 < n))
  rest_cases n [] h k = inl tt
  rest_cases n (x ∷ xs) h k = elim (dec_lt n (value x.0)) [
    | yes above ↦ inl (above, everywhere_below n (value x.0) xs above h.0)
    | no under ↦ inr (x, xs, refl, omega (arith, k.0))
  ]
