-- ===== src/UintN/Last.antt =====
-- The last id of a queue as an optional `UintN`, as the memory queue and the log writer keep it.
use normfs.Prelude.{◌+◌, ℕ, Option, none, some}
use normfs.UBig.{UBig}
use normfs.UintN.{UintN, value, IsCanonical}

module _ {U : Type 0} ⦃b : UBig U⦄ where
  abbrev pub IsCanonicalOption : Option (UintN U) → Type 0
  IsCanonicalOption none = Unit {0}
  IsCanonicalOption (some id) = IsCanonical id

  -- The number that the next entry gets.
  abbrev pub next_value : Option (UintN U) → ℕ
  next_value none = 0
  next_value (some id) = value id + 1
