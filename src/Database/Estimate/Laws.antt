-- ===== src/Database/Estimate/Laws.antt =====
-- What the estimates of one user keep.
use mec_measurements.Prelude.{
  ℕ, String, true, false, none, some, List, [], ◌∷◌, ◌==◌, ◌&&◌, ◌≡◌, refl, All, if◌then◌else◌,
  arith, eq_iff, eq_refl, Bool-cases, inl, inr, find-upsert_self, find-upsert_apart, zero, suc, ◌⊎◌,
}
use mec_measurements.Platform.{Platform, Real}
use mec_measurements.Database.Estimate.{
  Entry, EstimateTime, init, between, assign, time_of, update_time, update_t_pre_mig,
  get_est_pre_mig_time, get_est_mig_time, max_from, largest, get_max_est_pre_mig_time,
}

module _ ⦃p : Platform⦄ where
  open p use {of_ℕ, lt}

  between_apart :
      (a b c d : String)
      → (a == c && b == d) ≡ false
      → (e : Entry) → between a b e ≡ true
      → between c d e ≡ false
  between_apart a b c d h e t = ground (
    arith,
    eq_iff e.source a,
    eq_iff e.dest b,
    eq_iff e.source c,
    eq_iff e.dest d,
    eq_iff a c,
    eq_iff b d,
  )

  time_of-assign :
      (a b : String) (t : Real) (d : List Entry) (source dest : String)
      → time_of source dest (assign a b t d)
        ≡ (if a == source && b == dest then some t else time_of source dest d)
  time_of-assign a b t d source dest = elim (Bool-cases (a == source && b == dest)) [
    | inl hit ↦ ground (
      arith,
      eq_iff a source,
      eq_iff b dest,
      eq_refl source,
      eq_refl dest,
      find-upsert_self (between source dest) (record { source = source; dest = dest; time = t }) d,
    )
    | inr miss ↦ rw (
      miss,
      find-upsert_apart (between a b) (between source dest) (between_apart a b source dest miss)
          (record { source = a; dest = b; time = t }) d (ground (arith, eq_refl a, eq_refl b)),
    )
  ]

  -- After update_time both estimates of the pair are the new ones, and those of every other pair are
  -- as before. From a server to itself the estimate stays zero.
  pub get_est-update_time :
      (est : EstimateTime) (a b : String) (t_pre t : Real) (source dest : String)
      → (get_est_pre_mig_time (update_time est a b t_pre t) source dest ≡ (
          if source == dest
          then some (of_ℕ 0)
          else if a == source && b == dest
          then some t_pre
          else get_est_pre_mig_time est source dest))
        × (get_est_mig_time (update_time est a b t_pre t) source dest ≡ (
            if source == dest
            then some (of_ℕ 0)
            else if a == source && b == dest
            then some t
            else get_est_mig_time est source dest))
  unfolding get_est_pre_mig_time get_est_mig_time update_time
  get_est-update_time est a b t_pre t source dest = (
    ground (arith, time_of-assign a b t_pre est.t_pre_mig source dest),
    ground (arith, time_of-assign a b t est.t_mig source dest),
  )

  -- update_t_pre_mig changes the one estimate of the pair, and no estimated migration time.
  pub get_est-update_t_pre_mig :
      (est : EstimateTime) (a b : String) (t_pre : Real) (source dest : String)
      → (get_est_pre_mig_time (update_t_pre_mig est a b t_pre) source dest ≡ (
          if source == dest
          then some (of_ℕ 0)
          else if a == source && b == dest
          then some t_pre
          else get_est_pre_mig_time est source dest))
        × (get_est_mig_time (update_t_pre_mig est a b t_pre) source dest
            ≡ get_est_mig_time est source dest)
  unfolding get_est_pre_mig_time get_est_mig_time update_t_pre_mig
  get_est-update_t_pre_mig est a b t_pre source dest =
      (ground (arith, time_of-assign a b t_pre est.t_pre_mig source dest), refl)

-- The comparison of floats is a linear order, as it is where no value is NaN.
pub record IsOrdered ⦃p : Platform⦄ : Type 0 where
  pub lt_irrefl : (a : Real) → p.lt a a ≡ false
  pub lt_asymm : (a b : Real) → p.lt a b ≡ true → p.lt b a ≡ false
  pub le_trans : (a b c : Real) → p.lt b a ≡ false → p.lt c b ≡ false → p.lt c a ≡ false

module _ ⦃p : Platform⦄ (order : IsOrdered) where
  open p use {lt}

  -- `m` is at least each time of the list.
  abbrev pub Bounds : Real → List Entry → Type 0
  Bounds m d = All (λ e. lt m e.time ≡ false) d

  max_from-grows : (best : Real) (d : List Entry) → lt (max_from best d) best ≡ false
  unfolding max_from
  max_from-grows best [] = order.lt_irrefl best
  max_from-grows best (e ∷ rest) = elim (Bool-cases (lt best e.time)) [
    | inl more ↦ rw more (
        order.le_trans best e.time (max_from e.time rest) (order.lt_asymm best e.time more)
          (max_from-grows e.time rest))
    | inr less ↦ rw less (max_from-grows best rest)
  ]

  max_from-Bounds : (best : Real) (d : List Entry) (m : Real) → m ≡ max_from best d → Bounds m d
  unfolding max_from
  max_from-Bounds best [] m h = tt
  max_from-Bounds best (e ∷ rest) m h = elim (Bool-cases (lt best e.time)) [
    | inl more ↦
        let found : m ≡ max_from e.time rest = rw more at h in
        (rw found (max_from-grows e.time rest), max_from-Bounds e.time rest m found)
    | inr less ↦
        let found : m ≡ max_from best rest = rw less at h in
        (
          rw found
              (order.le_trans e.time best (max_from best rest) less (max_from-grows best rest)),
          max_from-Bounds best rest m found,
        )
  ]

  -- `m` is the time of an entry.
  abbrev pub Attains : Real → List Entry → Type 0
  Attains m [] = ⊥
  Attains m (e ∷ rest) = (m ≡ e.time) ⊎ Attains m rest

  max_from-attained :
      (best : Real) (d : List Entry) (m : Real) → m ≡ max_from best d → (m ≡ best) ⊎ Attains m d
  unfolding max_from
  max_from-attained best [] m h = inl h
  max_from-attained best (e ∷ rest) m h = elim (Bool-cases (lt best e.time)) [
    | inl more ↦ inr (max_from-attained e.time rest m (rw more at h))
    | inr less ↦ elim (max_from-attained best rest m (rw less at h)) [
      | inl first ↦ inl first
      | inr later ↦ inr (inr later)
    ]
  ]

  largest_lem :
      (d : List Entry)
      → ((largest d ≡ none) × (d ≡ []))
        ⊎ ((m : Real) × (largest d ≡ some m) × Attains m d × Bounds m d)
  unfolding largest
  largest_lem [] = inl (refl, refl)
  largest_lem (e ∷ rest) =
      let m = max_from e.time rest in
      inr (
        m,
        refl,
        max_from-attained e.time rest m refl,
        (max_from-grows e.time rest, max_from-Bounds e.time rest m refl),
      )

  -- The largest estimated pre-migration time is `None` exactly where there is no estimate; else it
  -- is one of the estimates, and none exceeds it.
  pub get_max_est_pre_mig_time_lem :
      (est : EstimateTime)
      → ((get_max_est_pre_mig_time est ≡ none) × (est.t_pre_mig ≡ []))
        ⊎ ((m : Real) × (get_max_est_pre_mig_time est ≡ some m)
            × Attains m est.t_pre_mig
            × Bounds m est.t_pre_mig)
  unfolding get_max_est_pre_mig_time
  get_max_est_pre_mig_time_lem est = largest_lem est.t_pre_mig

module _ ⦃p : Platform⦄ where
  -- `n` reports for one pair of servers.
  pub reports : ℕ → EstimateTime → String → String → Real → Real → EstimateTime
  unfolding update_time
  reports zero est source dest t_pre t = est
  reports (suc n) est source dest t_pre t =
      update_time (reports n est source dest t_pre t) source dest t_pre t

  -- `no_connect` counts the calls of update_time and not the pairs of servers: after `n + 1` reports
  -- for one pair it is `n + 1`, while there is one entry.
  pub no_connect-reports :
      (n : ℕ) (user source dest : String) (t_pre t : Real)
      → ((reports (suc n) (init user) source dest t_pre t).no_connect ≡ suc n)
        × ((reports (suc n) (init user) source dest t_pre t).t_mig
            ≡ record { source = source; dest = dest; time = t } ∷ [])
  unfolding reports init
  no_connect-reports zero user source dest t_pre t = (refl, refl)
  no_connect-reports (suc n) user source dest t_pre t =
      let (count, one) = no_connect-reports n user source dest t_pre t in
      (omega arith, rw one (ground (arith, eq_refl source, eq_refl dest)))
