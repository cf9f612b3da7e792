-- ===== src/Lookup/Located.antt =====
-- `normfs/src/lookup.rs`: the search among files of which none is missing.
use normfs.Prelude.{
  ◌+◌, ◌-◌, ◌≤◌, ◌<◌, ◌≡◌, if◌then◌else◌, ℕ, ap, inl, inr, Option, none, some, arith, Option-cases,
  first, last, ok,
}
use native.Mathlib.Decide.{dec_lt}
use normfs.Lookup.Order.{IsIn, before_start, from_start, within, after_end}
use normfs.UBig.{UBig}
use normfs.UintN.{UintN, value, IsCanonical}
use normfs.UintN.Order.{cmp_lem, lt}
use normfs.UintN.Arith.{increment}
use normfs.UintN.Arith.Sum.{increment_lem}
use normfs.Lookup.{Files, Place, in_store, in_cloud, in_wal, Bounds, Round, found, again, place}
use normfs.Lookup.Search.{ask_next, halve_open, adjacent, halve}

module _ {U : Type 0} ⦃b : UBig U⦄ (files : Files U) where
  -- What the cascade finds for the file `n`.
  abbrev pub IsAt : (start end : ℕ → ℕ) → ℕ → Place U → Type 0
  IsAt start end n (in_store s e) = (value s ≡ start n) × (value e ≡ end n)
  IsAt start end n (in_cloud s e) = (value s ≡ start n) × (value e ≡ end n)
  IsAt start end n (in_wal s) = value s ≡ start n
  IsAt start end n p = ⊥

  -- Every file is in the store, in the log or in the cloud.
  abbrev pub AllLocated : (first last : ℕ) (start end : ℕ → ℕ) → Type 0
  AllLocated first last start end =
      (id : UintN U)
      → IsCanonical id
      → first ≤ value id
      → value id ≤ last
      → (p : Place U) × (place files id ≡ ok p) × IsAt start end (value id) p

  module _ (first last : ℕ) (start end : ℕ → ℕ) (target_id : UintN U) (n : ℕ)
      (is_in : IsIn first last start end (value target_id) n)
      (located : AllLocated first last start end) where
    -- The bounds enclose the file.
    pub record Encloses (bounds : Bounds U) : Type 0 where
      pub left : IsCanonical bounds.left_file_id
      pub right : IsCanonical bounds.right_file_id
      pub lo : first ≤ value bounds.left_file_id
      pub left_le : value bounds.left_file_id ≤ n
      pub le_right : n ≤ value bounds.right_file_id
      pub hi : value bounds.right_file_id ≤ last
      pub left_end :
          (id : UintN U) → bounds.left_end ≡ some id → value id ≡ end (value bounds.left_file_id)
      pub right_start : value bounds.right_start ≡ start (value bounds.right_file_id)

    abbrev pub Good : Bounds U → Round U → Type 0
    Good bounds (found none) = ⊥
    Good bounds (found (some id)) = value id ≡ n
    Good bounds (again next) =
        Encloses next
        × (value next.right_file_id - value next.left_file_id
            < value bounds.right_file_id - value bounds.left_file_id)

    pub adjacent_lem :
        (bounds : Bounds U)
        → Encloses bounds
        → value bounds.left_file_id + 1 ≡ value bounds.right_file_id
        → value (adjacent target_id bounds) ≡ n
    unfolding adjacent
    adjacent_lem bounds enc next = elim (Option-cases bounds.left_end) [
      | inl none_end ↦ elim (dec_lt (value target_id) (value bounds.right_start)) [
        | yes below ↦ ground (
          arith,
          none_end,
          cmp_lem target_id bounds.right_start,
          before_start is_in (value bounds.right_file_id) (omega (arith, enc.lo)) enc.hi
              (omega (arith, enc.right_start)),
          enc.left_le,
        )
        | no above ↦ ground (
          arith,
          none_end,
          cmp_lem target_id bounds.right_start,
          from_start is_in (value bounds.right_file_id) (omega (arith, enc.lo)) enc.hi
              (omega (arith, enc.right_start)),
          enc.le_right,
        )
      ]
      | inr (id, e) ↦
          let same = enc.left_end id e in
          elim (dec_lt (value id) (value target_id)) [
            | yes above ↦ ground (
              arith,
              e,
              cmp_lem target_id id,
              after_end is_in (value bounds.left_file_id) enc.lo (omega (arith, next, enc.hi))
                  (omega (arith, same)),
              enc.le_right,
            )
            | no below ↦ elim (dec_lt (value bounds.left_file_id) n) [
              | yes right ↦ absurd (
                  omega (
                    arith,
                    same,
                    is_in.from,
                    is_in.sorted (value bounds.left_file_id) n enc.lo right is_in.most,
                  ))
              | no left ↦ ground (arith, e, cmp_lem target_id id, enc.left_le)
            ]
          ]
    ]

    move_right :
        (bounds : Bounds U) (mid s : UintN U)
        → Encloses bounds
        → IsCanonical mid
        → n ≤ value mid
        → value bounds.left_file_id < value mid
        → value mid < value bounds.right_file_id
        → value s ≡ start (value mid)
        → Good bounds (again (record bounds { right_file_id = mid; right_start = s }))
    move_right bounds mid s enc canonical inside above below at_start = (
      record {
        left = enc.left;
        right = canonical;
        lo = enc.lo;
        left_le = enc.left_le;
        le_right = inside;
        hi = omega (arith, enc.hi);
        left_end = enc.left_end;
        right_start = at_start;
      },
      omega arith,
    )

    move_left :
        (bounds : Bounds U) (mid : UintN U) (mid_end : Option (UintN U))
        → Encloses bounds
        → IsCanonical mid
        → value mid ≤ n
        → value bounds.left_file_id < value mid
        → value mid < value bounds.right_file_id
        → ((id : UintN U) → mid_end ≡ some id → value id ≡ end (value mid))
        → Good bounds (again (record bounds { left_file_id = mid; left_end = mid_end }))
    move_left bounds mid mid_end enc canonical inside above below at_end = (
      record {
        left = canonical;
        right = enc.right;
        lo = omega (arith, enc.lo);
        left_le = inside;
        le_right = enc.le_right;
        hi = enc.hi;
        left_end = at_end;
        right_start = enc.right_start;
      },
      omega arith,
    )

    pub halve_lem :
        (bounds : Bounds U) (mid s e : UintN U)
        → Encloses bounds
        → IsCanonical mid
        → value bounds.left_file_id < value mid
        → value mid < value bounds.right_file_id
        → value s ≡ start (value mid)
        → value e ≡ end (value mid)
        → Good bounds (halve target_id bounds mid s e)
    unfolding halve
    halve_lem bounds mid s e enc canonical above below at_start at_end =
        let lo : first ≤ value mid = omega (arith, enc.lo) in
        let hi : value mid ≤ last = omega (arith, enc.hi) in
        let from = cmp_lem target_id s in
        let until = cmp_lem target_id e in
        elim (dec_lt (value target_id) (value s)) [
          | yes early ↦
              let left = before_start is_in (value mid) lo hi (omega (arith, at_start)) in
              let same : halve target_id bounds mid s e
                  ≡ again (record bounds { right_file_id = mid; right_start = s }) =
                ground (arith, from) in
              rw same (move_right bounds mid s enc canonical (omega arith) above below at_start)
          | no late ↦ elim (dec_lt (value e) (value target_id)) [
            | yes behind ↦
                let right = after_end is_in (value mid) lo hi (omega (arith, at_end)) in
                let same : halve target_id bounds mid s e
                    ≡ again (record bounds { left_file_id = mid; left_end = some e }) =
                  ground (arith, from, until) in
                rw same (
                  move_left bounds mid (some e) enc canonical (omega arith) above below
                    (λ id h. ground (arith, h, at_end)))
            | no inside ↦
                let same : halve target_id bounds mid s e ≡ found (some mid) =
                  ground (arith, from, until) in
                rw same
                  (within is_in (value mid) lo hi (omega (arith, at_start)) (omega (arith, at_end)))
          ]
        ]

    -- The next file decides by its start, wherever it is.
    ask_next-start :
        (bounds : Bounds U) (mid next : UintN U) (p : Place U)
        → place files next ≡ ok p
        → IsAt start end (value next) p
        → (s : UintN U) × (value s ≡ start (value next))
          × (ask_next files target_id bounds mid next ≡ (
              if lt target_id s
              then ok (found (some mid))
              else ok (again (record bounds { left_file_id = mid; left_end = none }))))
    unfolding ask_next
    ask_next-start bounds mid next (in_store s e) q at = (s, at.0, ground (arith, q))
    ask_next-start bounds mid next (in_cloud s e) q at = (s, at.0, ground (arith, q))
    ask_next-start bounds mid next (in_wal s) q at = (s, at, ground (arith, q))
    ask_next-start bounds mid next p q at = absurd at

    pub halve_open_lem :
        (bounds : Bounds U) (mid s : UintN U)
        → Encloses bounds
        → IsCanonical mid
        → value bounds.left_file_id < value mid
        → value mid < value bounds.right_file_id
        → value s ≡ start (value mid)
        → (r : Round U) × (halve_open files target_id bounds mid s ≡ ok r) × Good bounds r
    unfolding halve_open
    halve_open_lem bounds mid s enc canonical above below at_start =
        let lo : first ≤ value mid = omega (arith, enc.lo) in
        let hi : value mid < last = omega (arith, enc.hi) in
        let from = cmp_lem target_id s in
        let next = increment mid in
        let (grown, next-canonical) = increment_lem mid canonical in
        let (p, q, at) =
          located next next-canonical (omega (arith, grown)) (omega (arith, grown)) in
        let (s', at_next, asked) = ask_next-start bounds mid next p q at in
        let until = cmp_lem target_id s' in
        let inside = cmp_lem next bounds.right_file_id in
        let start_next = ap start grown in
        elim (dec_lt (value target_id) (value s)) [
          | yes early ↦
              let left =
                before_start is_in (value mid) lo (omega arith) (omega (arith, at_start)) in
              (
                again (record bounds { right_file_id = mid; right_start = s }),
                ground (arith, from),
                move_right bounds mid s enc canonical (omega arith) above below at_start,
              )
          | no late ↦
              let reached =
                from_start is_in (value mid) lo (omega arith) (omega (arith, at_start)) in
              elim (dec_lt (value target_id) (value s')) [
                | yes inside' ↦
                    let left =
                      before_start is_in (value next) (omega (arith, grown)) (omega (arith, grown))
                        (omega (arith, at_next)) in
                    (
                      found (some mid),
                      ground (arith, from, until, inside, asked, grown),
                      omega (arith, grown, left, reached),
                    )
                | no behind ↦ (
                  again (record bounds { left_file_id = mid; left_end = none }),
                  ground (arith, from, until, inside, asked, grown),
                  move_left bounds mid none enc canonical reached above below
                      (λ id h. ground (arith, h)),
                )
              ]
        ]
