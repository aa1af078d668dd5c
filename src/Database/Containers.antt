-- ===== src/Database/Containers.antt =====
-- DbCentral.update_container_monitor (central_database.py): what the monitor of a container reports,
-- and the estimates of the times of a migration to each other server.
pub mod Laws
use mec_measurements.Prelude.{
  ℕ, ◌+◌, ◌*◌, ◌^◌, String, Bool, true, false, not, ◌&&◌, Option, none, some, List, [], ◌∷◌, ◌==◌,
  filter, ltb, if◌then◌else◌,
}
use mec_measurements.Prelude.Dict.{put}
use mec_measurements.Platform.{Platform, Real}
use mec_measurements.Effects.{
  Result, return, raise, attribute_error, type_error, key_error, zero_division_error, Action,
  needed, modify, skip, ◌>>=◌, ◌>>◌,
}
use mec_measurements.Database.Estimate as Estimate
use mec_measurements.Database.Rows.{ServiceInfo, EndUserInfo, EdgeServerInfo, DbCentral}
use mec_measurements.Database.Queries.{user_of, edge_server_of}
use mec_measurements.Database.Updates.{save_service}
use mec_measurements.Database.History.{query_bw, product}
use mec_measurements.Database.Migrations.{then_with, there}

-- The report of a container; a number that is missing is None.
pub record ContainerReport : Type 0 where
  pub container : String
  pub size : Option ℕ
  pub delta_memory : Option ℕ
  pub pre_checkpoint : Option ℕ
  pub time_checkpoint : Option ℕ
  pub time_xdelta : Option ℕ
  pub status : Option String
  pub cpu : Option ℕ
  pub mem : Option ℕ

module _ ⦃p : Platform⦄ where
  open p use {of_ℕ, plus, times, over, lt, first, rows}

  -- get_exp_moving_average
  abbrev pub moving_average : Real → Option Real → Real
  moving_average new none = new
  moving_average new (some old) =
      plus (times (over (of_ℕ 1) (of_ℕ 2)) new) (times (over (of_ℕ 1) (of_ℕ 2)) old)

  abbrev pub divide : Real → Real → Result Real
  divide x y =
      if not (lt y (of_ℕ 0)) && not (lt (of_ℕ 0) y)
      then raise zero_division_error
      else return (over x y)

  -- phi or rho of a server times a size over the cycles of its cores
  abbrev pub seconds_at : Option Real → Real → Option ℕ → Option ℕ → Result Real
  seconds_at factor size max_cpu core_cpu =
      then_with (there type_error factor)
        λ f. then_with (product max_cpu core_cpu) λ n. divide (times f size) (of_ℕ n)

  -- The sizes of a checkpoint and its difference in bytes, and of the container in MB.
  pub record Sizes : Type 0 where
    pub container : ℕ
    pub delta : ℕ
    pub checkpoint : ℕ
    pub xdelta_time : ℕ

  -- The two estimates of a migration to one server.
  unfoldable pub estimate_to :
      DbCentral
      → (from : String) → (t_checkpoint : Real) → Sizes
      → EdgeServerInfo
      → Result (Real × Real)
  estimate_to db from t_checkpoint s dest =
      let bw = query_bw db (some from) (some dest.name) 10 in
      then_with (divide (times (over (of_ℕ s.delta) (of_ℕ 1000000)) (of_ℕ 8)) bw) λ t_transfer.
        then_with
          (seconds_at dest.rho
            (plus (of_ℕ s.container) (over (of_ℕ (s.checkpoint + s.delta)) (of_ℕ (10 ^ 6))))
            dest.core_cpu dest.max_cpu)
          λ t_restore.
            then_with
              (divide (of_ℕ ((if ltb s.delta s.checkpoint then s.checkpoint else s.delta) * 8))
                (times (of_ℕ (10 ^ 6)) bw))
              λ t_transfer_pre. return (
                plus (plus t_checkpoint t_transfer_pre) (of_ℕ s.xdelta_time),
                plus (plus (plus t_checkpoint t_transfer) t_restore) (of_ℕ s.xdelta_time),
              )

  abbrev pub store_estimate :
      (end_user from dest : String) → Real × Real → Action DbCentral (Unit {0})
  store_estimate end_user from dest (t_pre_mig, t_mig) = do
    estimate ← λ db. needed key_error (db.est_time_users end_user) db
    modify λ db. record db {
      est_time_users =
          put db.est_time_users end_user (Estimate.update_time estimate from dest t_pre_mig t_mig);
    }

  unfoldable pub estimate_all :
      (end_user from : String)
      → (t_checkpoint : Real) → Sizes
      → List EdgeServerInfo
      → Action DbCentral (Unit {0})
  estimate_all end_user from t_checkpoint s [] = skip
  estimate_all end_user from t_checkpoint s (dest ∷ rest) =
      (λ db. (estimate_to db from t_checkpoint s dest, db))
      >>= store_estimate end_user from dest.name
      >> estimate_all end_user from t_checkpoint s rest

  -- The part under the optimizing planner.
  unfoldable pub update_estimates :
      ServiceInfo → EdgeServerInfo → Sizes → Action DbCentral (Unit {0})
  update_estimates obj server s = do
    user ← λ db. needed attribute_error (user_of db obj) db
    t_checkpoint ←
        λ db. (seconds_at server.phi (of_ℕ s.container) server.max_cpu server.core_cpu, db)
    neighbors ← λ db. (
      return (filter (λ (e : EdgeServerInfo). not (e.name == server.name)) (rows db.servers)),
      db,
    )
    estimate_all user.name obj.server_name t_checkpoint s neighbors

  -- What is stored once the server's power is known.
  unfoldable pub store_report :
      (optimized : Bool)
      → ContainerReport
      → Sizes
      → (time_checkpoint max_cpu : ℕ) → EdgeServerInfo
      → ServiceInfo
      → Action DbCentral (Unit {0})
  store_report optimized r s time_checkpoint max_cpu server obj = do
    cpu ← needed type_error r.cpu
    let average = moving_average (times (over (of_ℕ cpu) (of_ℕ 100)) (of_ℕ max_cpu)) obj.cpu
    modify (save_service (record obj { cpu = some average }))
    mem ← needed type_error r.mem
    let stored : ServiceInfo = record obj {
      cpu = some average;
      mem = some mem;
      size = some s.container;
      delta_memory = some s.delta;
      pre_checkpoint = some s.checkpoint;
      time_checkpoint = some time_checkpoint;
      time_xdelta = some s.xdelta_time;
    }
    modify (save_service stored)
    λ db. if optimized then update_estimates stored server s db else skip db

  unfoldable pub update_known :
      (optimized : Bool) → ContainerReport → Option ℕ → ServiceInfo → Action DbCentral (Unit {0})
  update_known optimized r none obj = skip
  update_known optimized r (some size) obj = do
    delta ← needed type_error r.delta_memory
    checkpoint ← needed type_error r.pre_checkpoint
    time_checkpoint ← needed type_error r.time_checkpoint
    time_xdelta ← needed type_error r.time_xdelta
    let s : Sizes = record {
      container = size;
      delta = delta;
      checkpoint = checkpoint;
      xdelta_time = time_xdelta;
    }
    let named : ServiceInfo = record obj { status = r.status }
    modify (save_service named)
    server ← λ db. needed attribute_error (edge_server_of db named) db
    elim server.max_cpu [
      | none ↦ skip
      | some max_cpu ↦ store_report optimized r s time_checkpoint max_cpu server named
    ]

  unfoldable pub update_container_monitor :
      (optimized : Bool) → ContainerReport → Action DbCentral (Unit {0})
  update_container_monitor optimized r db = elim (first db.services r.container) [
    | none ↦ (return tt, db)
    | some obj ↦ update_known optimized r r.size obj db
  ]
