-- ===== src/Planner/DataRate.antt =====
-- The data rate of a signal: wifi_rssi_to_bw of stats_edge.py and datarate_model of
-- communication_models.py, over the table of wifi_spec.py. A signal is a number of Python, which a
-- parameter orders; a threshold is the number of dBm below zero. A data rate is a number of units of
-- 10 bit/s, of which 0.00001 Mbit/s is the first.
use mec_measurements.Prelude.{
  ℕ, ◌≤◌, String, Bool, true, List, [], ◌∷◌, ◌≡◌, refl, ◌&&◌, leb, if◌then◌else◌, arith, find,
  get_or, Bool-cases, inl, inr,
}
use mathlib.Core.Option
use mathlib.Core.List.{reverse}

-- MCSSpec; the two rates are those with the guard intervals of 800 ns and 400 ns.
pub record McsSpec : Type 0 where
  pub index : ℕ
  pub modulation : String
  pub dr_800ns : ℕ
  pub dr_400ns : ℕ

abbrev mcs_spec : ℕ → String → ℕ → ℕ → McsSpec
mcs_spec index modulation dr_800ns dr_400ns = record {
  index = index;
  modulation = modulation;
  dr_800ns = dr_800ns;
  dr_400ns = dr_400ns;
}

-- RSSI_MAP_80211n_HT40_1_1_extend[0][1]
abbrev weakest : McsSpec
weakest = mcs_spec 0 "xxx" 100000 1

-- RSSI_MAP_80211n_HT40_1_1_extend, with the entries of MCS_40_1_1_extend
abbrev rssi_map : List (ℕ × McsSpec)
rssi_map =
    (99, weakest)
    ∷ (83, mcs_spec 1 "xxx" 100000 100)
    ∷ (82, mcs_spec 2 "xxx" 100000 5000)
    ∷ (81, mcs_spec 3 "xxx" 100000 25000)
    ∷ (80, mcs_spec 4 "xxx" 100000 50000)
    ∷ (79, mcs_spec 5 "xxx" 100000 100000)
    ∷ (78, mcs_spec 6 "xxx" 100000 400000)
    ∷ (77, mcs_spec 7 "BPSK" 1350000 1500000)
    ∷ (76, mcs_spec 8 "QPSK" 2700000 3000000)
    ∷ (74, mcs_spec 9 "QPSK" 4050000 4500000)
    ∷ (71, mcs_spec 10 "16QAM" 5400000 6000000)
    ∷ (67, mcs_spec 11 "16QAM" 8100000 9000000)
    ∷ (63, mcs_spec 12 "64QAM" 10800000 12000000)
    ∷ (62, mcs_spec 13 "64QAM" 12150000 13500000)
    ∷ (61, mcs_spec 14 "64QAM" 13500000 15000000)
    ∷ []

-- The data rate of the first entry
abbrev top_rate : List (ℕ × McsSpec) → ℕ
top_rate [] = weakest.dr_400ns
top_rate ((t, spec) ∷ rest) = spec.dr_400ns

-- Each rate is at least every later one, and the last at least that of the weakest signal.
abbrev descends : List (ℕ × McsSpec) → Bool
descends [] = true
descends ((t, spec) ∷ []) = leb weakest.dr_400ns spec.dr_400ns
descends ((t, spec) ∷ (t', next) ∷ rest) =
    leb next.dr_400ns spec.dr_400ns && descends ((t', next) ∷ rest)

-- `lt` compares two numbers, and `below_zero n` is the number -n.
module _ {Number : Type 0} (lt : Number → Number → Bool) (below_zero : ℕ → Number) where
  -- The loop of wifi_rssi_to_bw, with its return.
  abbrev first_reached : Number → List (ℕ × McsSpec) → ℕ
  first_reached rssi [] = weakest.dr_400ns
  first_reached rssi ((t, spec) ∷ rest) =
      let other = first_reached rssi rest in if lt (below_zero t) rssi then spec.dr_400ns else other

  unfoldable pub wifi_rssi_to_bw : Number → ℕ
  wifi_rssi_to_bw rssi = first_reached rssi (reverse rssi_map)

  -- The test of the generator expression.
  abbrev reaches : Number → ℕ × McsSpec → Bool
  reaches rssi e = lt (below_zero e.0) rssi

  unfoldable pub datarate_model : Number → ℕ
  datarate_model rssi =
      let rate = get_or (Option.map (λ e. e.1) (find (reaches rssi) (reverse rssi_map))) weakest in
      rate.dr_400ns

  first_reached-find :
      (rssi : Number) (specs : List (ℕ × McsSpec))
      → first_reached rssi specs
        ≡ (get_or (Option.map (λ e. e.1) (find (reaches rssi) specs)) weakest).dr_400ns
  first_reached-find rssi [] = refl
  first_reached-find rssi ((t, spec) ∷ rest) = elim (Bool-cases (lt (below_zero t) rssi)) [
    | inl e ↦ rw e refl
    | inr e ↦ rw (e, first_reached-find rssi rest) refl
  ]

  -- The planner and the simulation give every signal the same data rate.
  pub wifi_rssi_to_bw-datarate_model : (rssi : Number) → wifi_rssi_to_bw rssi ≡ datarate_model rssi
  unfolding wifi_rssi_to_bw datarate_model
  wifi_rssi_to_bw-datarate_model rssi = first_reached-find rssi (reverse rssi_map)

  -- Neither a later rate nor that of a signal below all thresholds is above the first.
  first_reached-bounded :
      (rssi : Number) (specs : List (ℕ × McsSpec))
      → descends specs ≡ true
      → first_reached rssi specs ≤ top_rate specs
  first_reached-bounded rssi [] h = ground arith
  first_reached-bounded rssi ((t, spec) ∷ []) h = ground arith
  first_reached-bounded rssi ((t, spec) ∷ (t', next) ∷ rest) h =
      ground (arith, first_reached-bounded rssi ((t', next) ∷ rest))

  descends_tail :
      (t : ℕ) (spec : McsSpec) (rest : List (ℕ × McsSpec))
      → descends ((t, spec) ∷ rest) ≡ true
      → descends rest ≡ true
  descends_tail t spec [] h = refl
  descends_tail t spec ((t', next) ∷ rest) h = ground arith

  descends-at_least :
      (t : ℕ) (spec : McsSpec) (rest : List (ℕ × McsSpec))
      → descends ((t, spec) ∷ rest) ≡ true
      → weakest.dr_400ns ≤ spec.dr_400ns
  descends-at_least t spec [] h = ground arith
  descends-at_least t spec ((t', next) ∷ rest) h = ground (arith, descends-at_least t' next rest)

  first_reached-at_least :
      (rssi : Number) (specs : List (ℕ × McsSpec))
      → descends specs ≡ true
      → weakest.dr_400ns ≤ first_reached rssi specs
  first_reached-at_least rssi [] h = ground arith
  first_reached-at_least rssi ((t, spec) ∷ rest) h =
      let here = descends-at_least t spec rest h in
      let later = first_reached-at_least rssi rest (descends_tail t spec rest h) in
      elim (Bool-cases (lt (below_zero t) rssi)) [ inl e ↦ rw e here | inr e ↦ rw e later ]

  module _ (trans : (a b c : Number) → lt a b ≡ true → lt b c ≡ true → lt a c ≡ true) where
    first_reached-monotone :
        (weak strong : Number) (specs : List (ℕ × McsSpec))
        → lt weak strong ≡ true
        → descends specs ≡ true
        → first_reached weak specs ≤ first_reached strong specs
    first_reached-monotone weak strong [] e h = ground arith
    first_reached-monotone weak strong ((t, spec) ∷ rest) e h =
        let bounded = first_reached-bounded weak ((t, spec) ∷ rest) h in
        let later = first_reached-monotone weak strong rest e (descends_tail t spec rest h) in
        elim (Bool-cases (lt (below_zero t) strong)) [
          | inl f ↦ rw f bounded
          | inr f ↦ elim (Bool-cases (lt (below_zero t) weak)) [
            | inl g ↦ absurd (ground (arith, trans (below_zero t) weak strong g e))
            | inr g ↦ rw (f, g) later
          ]
        ]

    -- If the order is transitive, a stronger signal has no lower data rate, and none has a rate below
    -- 10 bit/s or above 150 Mbit/s.
    pub wifi_rssi_to_bw-monotone :
        (weak strong : Number)
        → lt weak strong ≡ true
        → (wifi_rssi_to_bw weak ≤ wifi_rssi_to_bw strong)
          × (1 ≤ wifi_rssi_to_bw weak)
          × (wifi_rssi_to_bw strong ≤ 15000000)
    unfolding wifi_rssi_to_bw
    wifi_rssi_to_bw-monotone weak strong e = (
      first_reached-monotone weak strong (reverse rssi_map) e refl,
      first_reached-at_least weak (reverse rssi_map) refl,
      first_reached-bounded strong (reverse rssi_map) refl,
    )
