-- ===== src/Tests/Buffer.antt =====
-- `normfs-wal/src/writer_buffer.rs` at concrete inputs, with insertion as the sort.
use normfs.Prelude.{
  ◌≤◌, ◌≡◌, ◌⊎◌, ◌∷◌, if◌then◌else◌, [], ℕ, refl, inl, inr, some, List, arith, leb, leb→le,
  Bool-cases,
}
use mathlib.Core.List.{Permᴰ}
use mathlib.Core.List.Permᴰ
use normfs.Tests.BigNat.{big_nat}
use normfs.UintN.{u8, value}
use normfs.Wal.Buffer.{Item, OrderedBuffer, IsSorted, SortById, wait_for_order, entries_to_write}
use normfs.Wal.Buffer.Release.{IsValid, IsWaiting, IsBlocked, All-Permᴰ}
use normfs.Wal.Buffer.Writes.{
  Writes, wait_for_order_lem, wait_for_order-IsBlocked, entries_to_write_lem, everywhere_at_most,
}

insert : Item ℕ → List (Item ℕ) → List (Item ℕ)
insert x [] = x ∷ []
insert x (y ∷ ys) =
    let rest = insert x ys in if leb (value x.0) (value y.0) then x ∷ y ∷ ys else y ∷ rest

pub insertion_sort : List (Item ℕ) → List (Item ℕ)
insertion_sort [] = []
insertion_sort (x ∷ xs) = insert x (insertion_sort xs)

insert-Permᴰ : (x : Item ℕ) (ys : List (Item ℕ)) → Permᴰ (x ∷ ys) (insert x ys)
unfolding insert
insert-Permᴰ x [] = Permᴰ.refl (x ∷ [])
insert-Permᴰ x (y ∷ ys) = elim (Bool-cases (leb (value x.0) (value y.0))) [
  | inl early ↦ rw early (Permᴰ.refl (x ∷ y ∷ ys))
  | inr later ↦ rw later (Permᴰ.trans (Permᴰ.swap refl refl) (Permᴰ.cons refl (insert-Permᴰ x ys)))
]

pub insertion_sort-Permᴰ : (xs : List (Item ℕ)) → Permᴰ xs (insertion_sort xs)
unfolding insertion_sort
insertion_sort-Permᴰ [] = Permᴰ.nil
insertion_sort-Permᴰ (x ∷ xs) =
    Permᴰ.trans (Permᴰ.cons refl (insertion_sort-Permᴰ xs)) (insert-Permᴰ x (insertion_sort xs))

insert-IsSorted : (x : Item ℕ) (ys : List (Item ℕ)) → IsSorted ys → IsSorted (insert x ys)
unfolding insert
insert-IsSorted x [] h = (tt, tt)
insert-IsSorted x (y ∷ ys) h = elim (Bool-cases (leb (value x.0) (value y.0))) [
  | inl early ↦
      rw early (
        (leb→le _ _ early, everywhere_at_most (value x.0) (value y.0) ys (leb→le _ _ early) h.0),
        h,
      )
  | inr later ↦ rw later (
    All-Permᴰ (λ z. value y.0 ≤ value z.0) (insert-Permᴰ x ys) (ground (arith, later), h.0),
    insert-IsSorted x ys h.1,
  )
]

pub insertion_sort-IsSorted : (xs : List (Item ℕ)) → IsSorted (insertion_sort xs)
unfolding insertion_sort
insertion_sort-IsSorted [] = tt
insertion_sort-IsSorted (x ∷ xs) =
    insert-IsSorted x (insertion_sort xs) (insertion_sort-IsSorted xs)

abbrev pub by_insertion : SortById ℕ
by_insertion = record {
  sort = insertion_sort;
  sort-Permᴰ = insertion_sort-Permᴰ;
  sort-IsSorted = insertion_sort-IsSorted;
}

abbrev pub item : ℕ → Item ℕ
item n = (u8 n, n ∷ [])

-- Entry 5 is the last one written; 7 and 8 wait.
abbrev seven_waits : OrderedBuffer ℕ
seven_waits = record { pending = item 7 ∷ item 8 ∷ []; last_written_id = some (u8 5) }

seven_waits-IsValid : IsValid seven_waits
seven_waits-IsValid = record { last = omega arith; items = (omega arith, (omega arith, tt)) }

-- Entry 4 came twice.
abbrev four_again : OrderedBuffer ℕ
four_again = record { pending = item 4 ∷ item 7 ∷ []; last_written_id = some (u8 5) }

four_again-IsValid : IsValid four_again
four_again-IsValid = record { last = omega arith; items = (omega arith, (omega arith, tt)) }

entries_to_write_lem_example :
    Writes by_insertion (item 9) seven_waits (entries_to_write by_insertion (item 9) seven_waits)
entries_to_write_lem_example =
    entries_to_write_lem by_insertion (item 9) seven_waits seven_waits-IsValid (omega arith)

wait_for_order_lem_example :
    IsWaiting (wait_for_order by_insertion (item 6) seven_waits).1
    ⊎ IsBlocked (wait_for_order by_insertion (item 6) seven_waits).1
wait_for_order_lem_example =
    wait_for_order_lem by_insertion (item 6) seven_waits seven_waits-IsValid (omega arith)

wait_for_order-IsBlocked_example :
    ((wait_for_order by_insertion (item 6) four_again).0 ≡ [])
    × IsBlocked (wait_for_order by_insertion (item 6) four_again).1
unfolding value
wait_for_order-IsBlocked_example =
    wait_for_order-IsBlocked by_insertion (item 6) four_again four_again-IsValid (omega arith)
      (item 4, item 7 ∷ [], refl, omega arith)
