-- ===== src/Edge/ControllerServer/Moves/Requests.antt =====
-- How often a service is measured (edge_controller.py, process_monitor_service).
use mec_measurements.Prelude.{
  ℕ, zero, suc, ◌+◌, String, Bool, false, none, some, List, [], ◌∷◌, ◌≡◌, refl, ◌==◌, ◌&&◌, ltb,
  leb, if◌then◌else◌, count_if, count_if-append, arith,
}
use mec_measurements.Edge.MigrateNode.{MigrateNode, Kwargs, get_migrate_service}
use mec_measurements.Edge.ControllerServer.State.{
  Docker, Task, pre_measure, measure, ControllerServer,
}
use mec_measurements.Edge.ControllerServer.Moves.{
  counted, measurement, count_requests, measurements, process_monitor_service,
}

-- A description names the service `name` of the user `owner`.
abbrev names : String → String → Kwargs → Bool
names owner name kwargs = elim kwargs.end_user [
  | none ↦ false
  | some end_user ↦ elim kwargs.service_name [
    | none ↦ false
    | some service_name ↦ end_user == owner && service_name == name
  ]
]

abbrev pub is_pre_measure : (owner name : String) → Task → Bool
is_pre_measure owner name (pre_measure k) = names owner name k
is_pre_measure owner name _ = false

abbrev pub is_measure : (owner name : String) → Task → Bool
is_measure owner name (measure k) = names owner name k
is_measure owner name _ = false

-- The service `name` of `owner`, where that is the user whose n requests come, reaches `goal` with
-- them.
abbrev pub reaches : ℕ → ℕ → (user owner name : String) → MigrateNode → Bool
reaches goal n user owner name s =
    s.end_user == user
    && (s.end_user == owner && s.service_name == name)
    && (ltb s.request goal && leb goal (s.request + n))

-- What one report starts for a service, and n further ones.
module _ (user owner name : String) (n : ℕ) where
  pre_measure-step :
      (services : List MigrateNode)
      → count_if (is_pre_measure owner name) (measurements user services)
          + count_if (reaches 3 n user owner name) (count_requests user services)
        ≡ count_if (reaches 3 (suc n) user owner name) services
  unfolding measurements count_requests get_migrate_service
  pre_measure-step [] = refl
  pre_measure-step (s ∷ rest) = ground (
    arith,
    count_if-append (is_pre_measure owner name)
        (if s.end_user == user then measurement (counted s) else []) (measurements user rest),
    pre_measure-step rest,
  )

  measure-step :
      (services : List MigrateNode)
      → count_if (is_measure owner name) (measurements user services)
          + count_if (reaches 4 n user owner name) (count_requests user services)
        ≡ count_if (reaches 4 (suc n) user owner name) services
  unfolding measurements count_requests get_migrate_service
  measure-step [] = refl
  measure-step (s ∷ rest) = ground (
    arith,
    count_if-append (is_measure owner name)
        (if s.end_user == user then measurement (counted s) else []) (measurements user rest),
    measure-step rest,
  )

none_reach :
    (goal : ℕ) (user owner name : String) (services : List MigrateNode)
    → count_if (reaches goal 0 user owner name) services ≡ 0
none_reach goal user owner name [] = refl
none_reach goal user owner name (s ∷ rest) = ground (arith, none_reach goal user owner name rest)

module _ {d : Docker} where
  -- n reports of a user, one after the other.
  pub monitored : ℕ → String → ControllerServer d → ControllerServer d
  monitored zero user s = s
  monitored (suc n) user s = monitored n user (process_monitor_service user s)

  -- n reports of a user queue, for each owner and name, as many preliminary measurements of that
  -- service as there are entries of it that are the user's and reach three requests with the n, and
  -- as many measurements as there are that reach four: for an entry of the user one at most of each,
  -- however many reports follow, and for the services of the other users none.
  pub monitored-measures :
      (n : ℕ) (user owner name : String) (s : ControllerServer d)
      → (count_if (is_pre_measure owner name) (monitored n user s).source_queue
          ≡ count_if (is_pre_measure owner name) s.source_queue
            + count_if (reaches 3 n user owner name) s.edge_services.services)
        × (count_if (is_measure owner name) (monitored n user s).source_queue
            ≡ count_if (is_measure owner name) s.source_queue
              + count_if (reaches 4 n user owner name) s.edge_services.services)
  unfolding monitored process_monitor_service
  monitored-measures zero user owner name s = (
    ground (arith, none_reach 3 user owner name s.edge_services.services),
    ground (arith, none_reach 4 user owner name s.edge_services.services),
  )
  monitored-measures (suc n) user owner name s =
      let next = process_monitor_service user s in
      let (pre, full) = monitored-measures n user owner name next in
      let services = s.edge_services.services in
      (
        ground (
          arith,
          pre,
          pre_measure-step user owner name n services,
          count_if-append (is_pre_measure owner name) s.source_queue (measurements user services),
        ),
        ground (
          arith,
          full,
          measure-step user owner name n services,
          count_if-append (is_measure owner name) s.source_queue (measurements user services),
        ),
      )
