-- ===== src/Database/Estimate.antt =====
-- EstimateTime of central_database.py: for one user, the estimated times to move his service from a
-- source server to a destination. The two dictionaries are lists of entries, one for each pair.
pub mod Laws
use mec_measurements.Prelude.{
  ℕ, ◌+◌, String, Bool, Option, none, some, List, [], ◌∷◌, ◌==◌, ◌&&◌, map, find, length, upsert,
  if◌then◌else◌,
}
use mathlib.Core.Option
use mec_measurements.Platform.{Platform, Real}

module _ ⦃p : Platform⦄ where
  open p use {of_ℕ, plus, over, lt}

  -- An entry of `t_pre_mig` or `t_mig`.
  pub record Entry : Type 0 where
    pub source : String
    pub dest : String
    pub time : Real

  pub record EstimateTime : Type 0 where
    pub end_user : String
    pub t_pre_mig : List Entry
    pub t_mig : List Entry
    pub no_connect : ℕ

  -- EstimateTime(end_user)
  pub init : String → EstimateTime
  init end_user = record { end_user = end_user; t_pre_mig = []; t_mig = []; no_connect = 0 }

  abbrev pub between : String → String → Entry → Bool
  between source dest e = e.source == source && e.dest == dest

  -- d[(source, dest)] = time
  abbrev pub assign : String → String → Real → List Entry → List Entry
  assign source dest time =
      upsert (between source dest) (record { source = source; dest = dest; time = time })

  -- d.get((source, dest), None)
  abbrev pub time_of : String → String → List Entry → Option Real
  time_of source dest d = Option.map (λ (e : Entry). e.time) (find (between source dest) d)

  pub update_time : EstimateTime → String → String → Real → Real → EstimateTime
  update_time est source dest t_pre_mig t_mig = record est {
    t_pre_mig = assign source dest t_pre_mig est.t_pre_mig;
    t_mig = assign source dest t_mig est.t_mig;
    no_connect = est.no_connect + 1;
  }

  pub update_t_pre_mig : EstimateTime → String → String → Real → EstimateTime
  update_t_pre_mig est source dest t_pre_mig = record est {
    t_pre_mig = assign source dest t_pre_mig est.t_pre_mig;
  }

  pub get_est_pre_mig_time : EstimateTime → String → String → Option Real
  get_est_pre_mig_time est source dest =
      if source == dest then some (of_ℕ 0) else time_of source dest est.t_pre_mig

  unfoldable pub get_est_mig_time : EstimateTime → String → String → Option Real
  get_est_mig_time est source dest =
      if source == dest then some (of_ℕ 0) else time_of source dest est.t_mig

  -- sum(values), from 0 on
  unfoldable pub sum_from : Real → List Entry → Real
  sum_from acc [] = acc
  sum_from acc (e ∷ rest) = sum_from (plus acc e.time) rest

  -- max(values), the largest so far in front
  max_from : Real → List Entry → Real
  max_from best [] = best
  max_from best (e ∷ rest) = max_from (if lt best e.time then e.time else best) rest

  unfoldable pub average : List Entry → Option Real
  unfolding sum_from
  average [] = none
  average (e ∷ rest) = some (over (sum_from (of_ℕ 0) (e ∷ rest)) (of_ℕ (length (e ∷ rest))))

  largest : List Entry → Option Real
  unfolding max_from
  largest [] = none
  largest (e ∷ rest) = some (max_from e.time rest)

  unfoldable pub get_avg_est_pre_mig_time : EstimateTime → Option Real
  unfolding average
  get_avg_est_pre_mig_time est = average est.t_pre_mig

  pub get_max_est_pre_mig_time : EstimateTime → Option Real
  unfolding largest
  get_max_est_pre_mig_time est = largest est.t_pre_mig

  pub get_max_est_mig_time : EstimateTime → Option Real
  unfolding largest
  get_max_est_mig_time est = largest est.t_mig
