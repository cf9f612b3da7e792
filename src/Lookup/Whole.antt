-- ===== src/Lookup/Whole.antt =====
-- `normfs/src/lookup.rs`: `find_file_with_s3` returns the file that holds the id.
use normfs.Prelude.{
  ◌-◌, ◌<◌, ◌≡◌, ℕ, suc, inl, inr, Option, none, some, arith, Option-cases, ok, zero, Outcome-cases,
}
use normfs.UBig.{UBig}
use native.Mathlib.Decide.{dec_lt}
use normfs.UintN.{IsCanonical}
use normfs.UintN.Order.{cmp_lem}
use normfs.Lookup.Order.{IsIn, from_start, before_start, within}
use normfs.Lookup.Located.{AllLocated, Encloses}
use normfs.Lookup.Correct.{binary_search_lem}
use normfs.UintN.{UintN, value}
use normfs.Lookup.{
  Files, Place, in_store, in_cloud, in_wal, place, place_behind, cloud_place,
  find_valid_file_backward,
}
use normfs.Lookup.{is_after, is_within}
use normfs.Lookup.Find.{file_ids, find_file_with_s3, find_from_last, first_file}
use normfs.Lookup.Located.{IsAt}

-- The file is in the store or in the log.
abbrev pub IsLocal : {U : Type 0} → Place U → Type 0
IsLocal (in_store s e) = Unit {0}
IsLocal (in_wal s) = Unit {0}
IsLocal p = ⊥

module _ {U : Type 0} ⦃b : UBig U⦄ (files : Files U) (start end : ℕ → ℕ) where
  -- The start of a file, and its end where that is known.
  abbrev IsRange : ℕ → UintN U → Option (UintN U) → Type 0
  IsRange n s none = value s ≡ start n
  IsRange n s (some e) = (value s ≡ start n) × (value e ≡ end n)

  IsRange-start : {n : ℕ} (s : UintN U) (e : Option (UintN U)) → IsRange n s e → value s ≡ start n
  IsRange-start s none at = at
  IsRange-start s (some e) at = at.0

  IsRange-end :
      {n : ℕ} (s : UintN U) (e : Option (UintN U)) (id : UintN U)
      → IsRange n s e
      → e ≡ some id
      → value id ≡ end n
  IsRange-end s none id at h = ground (arith, h)
  IsRange-end s (some e) id at h = ground (arith, h, at)

  first_file_at :
      (first_id last_id : UintN U) (p : Place U) (range r : Option (UintN U × UintN U))
      → files.get_file_range first_id ≡ ok r
      → files.get_file_range last_id ≡ ok range
      → place_behind files r first_id ≡ ok p
      → IsAt files start end (value first_id) p
      → (s : UintN U) × (e : Option (UintN U)) × (first_file files first_id last_id
          ≡ ok (some (s, e)))
        × IsRange (value first_id) s e
  unfolding first_file
  first_file_at first_id last_id (in_store s e) range r o there behind at =
      (s, some e, ground (arith, o, there, behind), at)
  first_file_at first_id last_id (in_cloud s e) range r o there behind at =
      (s, some e, ground (arith, o, there, behind), at)
  first_file_at first_id last_id (in_wal s) range r o there behind at =
      (s, none, ground (arith, o, there, behind), at)
  first_file_at first_id last_id p range r o there behind at = absurd at

  first_file_lem :
      (first_id last_id : UintN U) (p : Place U) (range : Option (UintN U × UintN U))
      → place files first_id ≡ ok p
      → IsAt files start end (value first_id) p
      → files.get_file_range last_id ≡ ok range
      → (s : UintN U) × (e : Option (UintN U)) × (first_file files first_id last_id
          ≡ ok (some (s, e)))
        × IsRange (value first_id) s e
  unfolding first_file place
  first_file_lem first_id last_id p range q at there =
      elim (Outcome-cases (files.get_file_range first_id)) [
        | inl o ↦ ground (arith, q, o)
        | inr (inl (x, o)) ↦ ground (arith, q, o)
        | inr (inr (r, o)) ↦
            let behind : place_behind files r first_id ≡ ok p = ground (arith, q, o) in
            first_file_at first_id last_id p range r o there behind at
      ]

  last_lem :
      (fuel : ℕ) (id min_id : UintN U) (p : Place U)
      → place files id ≡ ok p
      → IsAt files start end (value id) p
      → IsLocal p
      → (s : UintN U) × (e : Option (UintN U)) × (find_valid_file_backward files
            (suc fuel)
            id
            min_id
          ≡ some (ok (some (id, s, e))))
        × IsRange (value id) s e
  unfolding place place_behind cloud_place find_valid_file_backward
  last_lem fuel id min_id (in_store s e) q at here = (s, some e, ground (arith, q), at)
  last_lem fuel id min_id (in_wal s) q at here = (s, none, ground (arith, q), at)
  last_lem fuel id min_id p q at here = absurd here

  range_of :
      (id : UintN U) (p : Place U)
      → place files id ≡ ok p
      → (range : Option (UintN U × UintN U)) × (files.get_file_range id ≡ ok range)
  unfolding place
  range_of id p q = elim (Outcome-cases (files.get_file_range id)) [
    | inl o ↦ ground (arith, q, o)
    | inr (inl (x, o)) ↦ ground (arith, q, o)
    | inr (inr (r, o)) ↦ (r, o)
  ]

  module _ (first_id last_id target_id : UintN U) (n : ℕ)
      (is_in : IsIn (value first_id) (value last_id) start end (value target_id) n)
      (located : AllLocated files (value first_id) (value last_id) start end) where
    find_from_last_lem :
        (fuel : ℕ) (first_start last_start : UintN U) (first_end last_end : Option (UintN U))
        → IsCanonical first_id
        → IsCanonical last_id
        → IsRange (value first_id) first_start first_end
        → IsRange (value last_id) last_start last_end
        → value last_id - value first_id < fuel
        → (id : UintN U) × (find_from_last files fuel target_id first_id first_end
              (last_id, last_start, last_end)
            ≡ some (ok (some id)))
          × (value id ≡ n)
    unfolding find_from_last is_after
    find_from_last_lem fuel first_start last_start first_end last_end canonical canonical' at at'
          enough =
        let least = is_in.least in
        let most = is_in.most in
        let known : value last_start ≡ start (value last_id) =
          IsRange-start last_start last_end at' in
        let enc : Encloses files (value first_id) (value last_id) start end target_id n is_in
            located
            (record {
              left_file_id = first_id;
              right_file_id = last_id;
              left_end = first_end;
              right_start = last_start;
            }) =
          record {
            left = canonical;
            right = canonical';
            lo = omega arith;
            left_le = least;
            le_right = most;
            hi = omega arith;
            left_end = λ id h. IsRange-end first_start first_end id at h;
            right_start = known;
          } in
        let (id, q, same) =
          binary_search_lem files (value first_id) (value last_id) start end target_id n is_in
            located fuel _ enc enough in
        let from = cmp_lem target_id last_start in
        elim (dec_lt (value last_start) (value target_id)) [
          | yes behind ↦
              let reached =
                from_start is_in (value last_id) (omega arith) (omega arith)
                  (omega (arith, known)) in
              (last_id, ground (arith, from), omega arith)
          | no before ↦ elim (Option-cases last_end) [
            | inl none_end ↦ (id, ground (arith, from, none_end, q), same)
            | inr (e, some_end) ↦
                let at_end = IsRange-end last_start last_end e at' some_end in
                let until = cmp_lem target_id e in
                let filled = is_in.filled (value last_id) (omega arith) (omega arith) in
                (id, ground (arith, from, some_end, until, at_end, known, filled, q), same)
          ]
        ]

    -- Where the files between the first and the last id are all in the store, in the log or in the
    -- cloud, with ids in order, the last of them not in the cloud alone, `find_file_with_s3` finds for
    -- an id that is in one of them that file, given more fuel than the file ids are apart.
    pub find_file_with_s3_lem :
        (fuel : ℕ) (p : Place U)
        → file_ids files ≡ ok (some (first_id, last_id))
        → IsCanonical first_id
        → IsCanonical last_id
        → place files last_id ≡ ok p
        → IsLocal p
        → value last_id - value first_id < fuel
        → (id : UintN U) × (find_file_with_s3 files fuel target_id ≡ some (ok (some id)))
          × (value id ≡ n)
    unfolding find_file_with_s3 is_within
    find_file_with_s3_lem zero p ids canonical canonical' q here enough = absurd (omega arith)
    find_file_with_s3_lem (suc fuel) p ids canonical canonical' q here enough =
        let least = is_in.least in
        let most = is_in.most in
        let (p1, q1, at1) = located first_id canonical (omega arith) (omega arith) in
        let (p2, q2, at2) = located last_id canonical' (omega arith) (omega arith) in
        let same : p2 ≡ p = ground (arith, q, q2) in
        let (range, r) = range_of last_id p q in
        let (s1, e1, found1, range1) = first_file_lem first_id last_id p1 range q1 at1 r in
        let (s2, e2, found2, range2) = last_lem fuel last_id first_id p q (rw same at at2) here in
        let (id, q', right) =
          find_from_last_lem (suc fuel) s1 s2 e1 e2 canonical canonical' range1 range2 enough in
        let known = IsRange-start s1 e1 range1 in
        let from = cmp_lem target_id s1 in
        elim (dec_lt (value target_id) (value s1)) [
          | yes early ↦
              let left =
                before_start is_in (value first_id) (omega arith) (omega arith)
                  (omega (arith, known)) in
              absurd (omega arith)
          | no late ↦ elim (Option-cases e1) [
            | inl none_end ↦ (id, ground (arith, ids, found1, from, none_end, found2, q'), right)
            | inr (e, some_end) ↦
                let at_end = IsRange-end s1 e1 e range1 some_end in
                let until = cmp_lem target_id e in
                elim (dec_lt (value e) (value target_id)) [
                  | yes behind ↦
                      (id, ground (arith, ids, found1, from, some_end, until, found2, q'), right)
                  | no inside ↦ (
                    first_id,
                    ground (arith, ids, found1, from, some_end, until),
                    within is_in (value first_id) (omega arith) (omega arith) (omega (arith, known))
                        (omega (arith, at_end)),
                  )
                ]
          ]
        ]
