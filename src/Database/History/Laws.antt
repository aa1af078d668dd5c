-- ===== src/Database/History/Laws.antt =====
-- Which records the averages are taken of, and what the averages are (central_database.py).
use mathlib.Core.List.{foldl, Perm, perm_middle}
use mathlib.Core.List.Perm as Permutation
use mec_measurements.Prelude.{
  ℕ, String, Bool, true, false, ◌&&◌, Option, none, some, List, [], ◌∷◌, ◌++◌, ◌≡◌, ◌≢◌, refl, ◌⊎◌,
  inl, inr, map, filter, length, All, Bool-cases, arith, eq_iff, eq_refl,
}
use mec_measurements.Prelude.Lists.Newest.Laws.{IsNewest, limit-IsNewest}
use mec_measurements.Platform.{Platform, Real}
use mec_measurements.Effects.{Result, return, raise, zero_division_error}
use mec_measurements.Database.Rows.{NetworkRecord, DbCentral}
use mec_measurements.Database.History.{
  equals, sum_from, average, between, recent, query_bw, query_rtt, mean_bw, mean_rtt,
}

equals_sound : (u v : Option String) → equals u v ≡ true → u ≡ v
equals_sound none none h = refl
equals_sound none (some v) h = absurd (ground arith)
equals_sound (some u) none h = absurd (ground arith)
equals_sound (some u) (some v) h = ground (arith, eq_iff u v)

equals_refl : (u : Option String) → equals u u ≡ true
equals_refl none = refl
equals_refl (some u) = eq_refl u

module _ ⦃p : Platform⦄ where
  open p use {of_ℕ, plus, over}

  module _ (source dest : Option String) where
    -- The record is one of the path from the source to the destination.
    abbrev pub IsOfPath : NetworkRecord → Type 0
    IsOfPath r = (r.src_node ≡ source) × (r.dest_node ≡ dest)

    -- The rows are those of the path among the records, and the others are those that are not.
    pub record IsPath (records rows : List NetworkRecord) : Type 0 where
      pub others : List NetworkRecord
      pub whole : Perm (rows ++ others) records
      pub of_path : All IsOfPath rows
      pub apart : All (λ r. IsOfPath r → ⊥) others

    abbrev test : NetworkRecord → Bool
    test r = equals r.src_node source && equals r.dest_node dest

    test_sound : (r : NetworkRecord) → test r ≡ true → IsOfPath r
    test_sound r h = (
      equals_sound r.src_node source (ground arith),
      equals_sound r.dest_node dest (ground arith),
    )

    test_complete : (r : NetworkRecord) → test r ≡ false → IsOfPath r → ⊥
    test_complete r h (e, f) =
        let same : test r ≡ true = rw (e, f, equals_refl source, equals_refl dest) refl in
        absurd (ground arith)

    filter-IsPath : (records : List NetworkRecord) → IsPath records (filter test records)
    filter-IsPath [] = record { others = []; whole = Permutation.nil; of_path = tt; apart = tt }
    filter-IsPath (r ∷ rest) =
        let known = filter-IsPath rest in
        elim (Bool-cases (test r)) [
          | inl e ↦ rw e (record {
            others = known.others;
            whole = Permutation.cons r known.whole;
            of_path = (test_sound r e, known.of_path);
            apart = known.apart;
          })
          | inr e ↦ rw e (record {
            others = r ∷ known.others;
            whole =
                Permutation.trans (perm_middle (filter test rest) known.others)
                  (Permutation.cons r known.whole);
            of_path = known.of_path;
            apart = (test_complete r e, known.apart);
          })
        ]

  sum_from-foldl : (acc : Real) (xs : List Real) → sum_from acc xs ≡ foldl plus acc xs
  sum_from-foldl acc [] = refl
  sum_from-foldl acc (x ∷ xs) = sum_from-foldl (plus acc x) xs

  -- The sum of the values from the left, divided by their number.
  abbrev pub mean : List Real → Real
  mean xs = over (foldl plus (of_ℕ 0) xs) (of_ℕ (length xs))

  average-mean : (xs : List Real) → average xs ≡ mean xs
  unfolding average
  average-mean xs = rw (average, sum_from-foldl (of_ℕ 0) xs) refl

  -- What the two look-ups give for the records that are taken.
  abbrev pub IsAveraged : List NetworkRecord → Real → Result Real → Type 0
  IsAveraged taken bw rtt =
      ((taken ≡ []) × (bw ≡ over (of_ℕ 1) (of_ℕ 1000)) × (rtt ≡ raise zero_division_error))
      ⊎ ((taken ≢ [])
          × (bw ≡ mean (map (λ r. r.bw) taken))
          × (rtt ≡ return (mean (map (λ r. r.latency) taken))))

  means-IsAveraged :
      (taken : List NetworkRecord) → IsAveraged taken (mean_bw taken) (mean_rtt taken)
  means-IsAveraged [] = inl (refl, refl, refl)
  means-IsAveraged (r ∷ rs) = inr (
    (λ h. ground arith),
    average-mean (map (λ r. r.bw) (r ∷ rs)),
    rw (average-mean (map (λ r. r.latency) (r ∷ rs))) refl,
  )

  -- The bandwidth and the round-trip time from one node to another are the means of the same records:
  -- of all records of that path as many as there are up to the size, none of which is older than one
  -- that is left out. Where there is none, the bandwidth is 0.001, and the round-trip time is a
  -- division by zero.
  pub query-IsNewest :
      (db : DbCentral) (source dest : Option String) (size : ℕ)
      → (rows : List NetworkRecord) × (taken : List NetworkRecord) × IsPath source dest
          db.network_monitor rows
        × IsNewest (λ r. r.timestamp) size rows taken
        × IsAveraged taken (query_bw db source dest size) (query_rtt db source dest size)
  unfolding query_bw query_rtt recent between
  query-IsNewest db source dest size = (
    between db source dest,
    recent db source dest size,
    filter-IsPath source dest db.network_monitor,
    limit-IsNewest (λ r. r.timestamp) size (between db source dest),
    means-IsAveraged (recent db source dest size),
  )
