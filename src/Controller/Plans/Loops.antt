-- ===== src/Controller/Plans/Loops.antt =====
-- What the loops of run_optimization_planner and trigger_other_planners keep: a property of the
-- controller that one plan's work keeps is kept by a whole run, also where it raises.
use mec_measurements.Prelude.{
  Bool, true, false, Option, List, [], ◌∷◌, ◌≡◌, refl, ◌==◌, is_some, if◌then◌else◌, Bool-cases,
  Option-cases, inl, inr, arith, String,
}
use mec_measurements.Platform.{Platform, Real}
use mec_measurements.Effects.{
  Result, Result-cases, return, raise, Action, and_then, pure, skip, modify, ◌>>◌,
}
use mec_measurements.Database.Rows.{ServiceInfo}
use mec_measurements.Database.Queries.{get_service, user_of}
use mec_measurements.Planner.Lifetime.{Forecast, lifetime_to_mig, lifetime_to_pre_mig}
use mec_measurements.Controller.Word.{is_migrating}
use mec_measurements.Controller.State.{PlanResult, Controller}
use mec_measurements.Controller.Triggers.{trigger_handover}
use mec_measurements.Controller.Plans.{
  ComputePlan, start_plan, optimize_round, optimize_rounds, run_optimization_planner, hand_over_now,
  migrate_now, other_round, other_rounds, trigger_other_planners, the_user, the_bts, add_bits,
  store_handover,
}

module _ ⦃p : Platform⦄ where
  -- self.migration_state.get(user, None) is not None
  abbrev pub Known : String → Controller → Type 0
  Known user c = is_some (c.migration_state user) ≡ true

  module _ (P : Controller → Type 0) where
    pub and_then-keeps :
        {A B : Type 0} (r : Result A) (f : A → Action Controller B) (c : Controller)
        → P c
        → ((a : A) → P (f a c).1)
        → P (and_then r f c).1
    and_then-keeps (return a) f c h later = later a
    and_then-keeps (raise e) f c h later = h

    -- A value after a block.
    value-keeps :
        {A B : Type 0} (r : Result A × Controller) (b : B)
        → P r.1
        → P (and_then r.0 (λ _. pure b) r.1).1
    value-keeps (return a, d) b h = h
    value-keeps (raise e, d) b h = h

    -- The rest of a loop after a round.
    loop-keeps :
        (r : Result Bool × Controller) (rest : Action Controller (Unit {0}))
        → P r.1
        → ((d : Controller) → P d → P (rest d).1)
        → P (and_then r.0 (λ go. if go then rest else skip) r.1).1
    loop-keeps (return true, d) rest h later = later d h
    loop-keeps (return false, d) rest h later = h
    loop-keeps (raise e, d) rest h later = h

    module _ (forecast : Forecast)
        (start_plan-keeps : (plan : PlanResult) (service : ServiceInfo)
            (time_to_pre_mig time_to_mig : Option Real) (c : Controller)
          → Known plan.user c
          → P c
          → P (start_plan plan service time_to_pre_mig time_to_mig c).1) where
      optimize_round-keeps :
          (plan : PlanResult) (c : Controller) → P c → P (optimize_round forecast plan c).1
      unfolding optimize_round
      optimize_round-keeps plan c h = elim (Option-cases (get_service c.db plan.user)) [
        | inl e ↦ rw e h
        | inr (service, found) ↦
            elim (Result-cases
              (lifetime_to_pre_mig forecast c.db plan.user plan.next_server plan.next_bts)) [
                | inr (x, e) ↦ rw (found, e) h
                | inl (pre_mig, before) ↦
                    elim (Result-cases
                      (lifetime_to_mig forecast c.db plan.user plan.next_server plan.next_bts)) [
                        | inr (x, e) ↦ rw (found, before, e) h
                        | inl (mig, time) ↦ elim (Option-cases (c.migration_state plan.user)) [
                          | inl e ↦ rw (found, before, time, e) h
                          | inr (m_state, word) ↦ elim (Bool-cases (is_migrating m_state)) [
                            | inl moving ↦ rw (found, before, time, word, moving) h
                            | inr still ↦
                                rw (found, before, time, word, still)
                                  (value-keeps (start_plan plan service pre_mig mig c) true
                                    (start_plan-keeps plan service pre_mig mig c (rw word refl) h))
                          ]
                        ]
                      ]
              ]
      ]

      optimize_rounds-keeps :
          (plans : List PlanResult) (c : Controller) → P c → P (optimize_rounds forecast plans c).1
      unfolding optimize_rounds
      optimize_rounds-keeps [] c h = h
      optimize_rounds-keeps (plan ∷ rest) c h =
          loop-keeps (optimize_round forecast plan c) (optimize_rounds forecast rest)
            (optimize_round-keeps plan c h) (λ d later. optimize_rounds-keeps rest d later)

      pub run_optimization_planner-keeps :
          (compute_plan : ComputePlan) (c : Controller)
          → P c
          → P (run_optimization_planner forecast compute_plan c).1
      unfolding run_optimization_planner
      run_optimization_planner-keeps compute_plan c h =
          and_then-keeps (compute_plan c.db) (optimize_rounds forecast) c h
            (λ plans. optimize_rounds-keeps plans c h)

    module _
        (hand_over_now-keeps : (plan : PlanResult) (c : Controller)
          → Known plan.user c
          → P c
          → P (hand_over_now plan c).1)
        (migrate_now-keeps : (plan : PlanResult) (service : ServiceInfo) (c : Controller)
          → Known plan.user c
          → P c
          → P (migrate_now plan service c)) where
      hand_over_now-Known :
          (plan : PlanResult) (c : Controller)
          → Known plan.user c
          → Known plan.user (hand_over_now plan c).1
      unfolding hand_over_now add_bits store_handover the_bts trigger_handover
      hand_over_now-Known plan c known = ground arith

      -- The change of the server at the end of a round.
      finish-keeps :
          (plan : PlanResult) (service : ServiceInfo) (r : Result (Unit {0}) × Controller)
          → Known plan.user r.1
          → P r.1
          → P
              (and_then r.0
                (λ _.
                  (if plan.next_server == service.server_name
                    then skip
                    else modify (migrate_now plan service))
                  >> pure true)
                r.1).1
      finish-keeps plan service (return tt, d) known h =
          elim (Bool-cases (plan.next_server == service.server_name)) [
            | inl same ↦ rw same h
            | inr other ↦ rw other (migrate_now-keeps plan service d known h)
          ]
      finish-keeps plan service (raise e, d) known h = h

      other_round-keeps : (plan : PlanResult) (c : Controller) → P c → P (other_round plan c).1
      unfolding other_round the_user
      other_round-keeps plan c h = elim (Option-cases (get_service c.db plan.user)) [
        | inl e ↦ rw e h
        | inr (service, found) ↦ elim (Option-cases (c.migration_state plan.user)) [
          | inl e ↦ rw (found, e) h
          | inr (m_state, word) ↦ elim (Option-cases (user_of c.db service)) [
            | inl e ↦ rw (found, word, e) h
            | inr (user, owner) ↦
                let known : Known plan.user c = rw word refl in
                elim (Bool-cases (plan.next_bts == user.bts)) [
                  | inl same ↦
                      rw (found, word, owner, same)
                        (finish-keeps plan service (return tt, c) known h)
                  | inr other ↦
                      rw (found, word, owner, other)
                        (finish-keeps plan service (hand_over_now plan c)
                          (hand_over_now-Known plan c known) (hand_over_now-keeps plan c known h))
                ]
          ]
        ]
      ]

      other_rounds-keeps :
          (plans : List PlanResult) (c : Controller) → P c → P (other_rounds plans c).1
      unfolding other_rounds
      other_rounds-keeps [] c h = h
      other_rounds-keeps (plan ∷ rest) c h =
          loop-keeps (other_round plan c) (other_rounds rest) (other_round-keeps plan c h)
            (λ d later. other_rounds-keeps rest d later)

      pub trigger_other_planners-keeps :
          (compute_plan : ComputePlan) (c : Controller)
          → P c
          → P (trigger_other_planners compute_plan c).1
      unfolding trigger_other_planners
      trigger_other_planners-keeps compute_plan c h =
          and_then-keeps (compute_plan c.db) other_rounds c h
            (λ plans. other_rounds-keeps plans c h)
