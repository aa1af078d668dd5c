-- ===== src/Examples/Planning.antt =====
-- The theorems on the planner and the database, applied.
use mathlib.Core.Option
use mec_measurements.Prelude.{false, some, ◌≡◌, refl, All}
use mec_measurements.Platform.{Real}
use mec_measurements.Effects.{return}
use mec_measurements.Database.Estimate.{
  EstimateTime, get_est_mig_time, get_avg_est_pre_mig_time, average, sum_from,
}
use mec_measurements.Database.Rows.{ServiceInfo, DbCentral}
use mec_measurements.Database.Queries.{get_service, query_cur_assign, service_of}
use mec_measurements.Database.Updates.{initialize_service}
use mec_measurements.Database.Updates.Laws.{get_service-initialize_service}
use mec_measurements.Planner.Lifetime.{
  lifetime_to_average_pre_mig, lifetime_to_mig, long_enough, lifetime_to, till_handover,
  db_get_est_mig_time, wait_for, get_est_handover_time,
}
use mec_measurements.Planner.Lifetime.Bounds.{
  Before, MigratesBefore, lifetime_to_average_pre_mig_bounds, lifetime_to_mig-MigratesBefore,
}
use mec_measurements.Examples.{sample, sample-IsOrdered, a_db, a_user, a_forecast}

a_db-assigned : query_cur_assign a_db "u" ≡ some ("bts01", some "edge01")
unfolding query_cur_assign service_of Option.bind
a_db-assigned = refl

a_db-average : lifetime_to_average_pre_mig a_forecast a_db "u" ≡ return (some (200, 4780))
unfolding lifetime_to_average_pre_mig lifetime_to till_handover get_avg_est_pre_mig_time average
    sum_from query_cur_assign service_of Option.bind
a_db-average = refl

a_db-mig : lifetime_to_mig a_forecast a_db "u" "edge02" "bts02" ≡ return (some 4890)
unfolding lifetime_to_mig db_get_est_mig_time wait_for get_est_handover_time get_est_mig_time
    query_cur_assign service_of Option.bind
a_db-mig = refl

lifetime_to_average_pre_mig_bounds_example :
    ((e : EstimateTime) × (a_db.est_time_users "u" ≡ some e)
      × (get_avg_est_pre_mig_time e ≡ some 200))
    × (sample.lt long_enough 4780 ≡ false)
    × All
        (Before sample-IsOrdered a_forecast a_db "u" "bts01" 200 4780)
        (a_forecast.query_neighbor a_db "u")
lifetime_to_average_pre_mig_bounds_example =
    lifetime_to_average_pre_mig_bounds sample-IsOrdered a_forecast a_db "u" "bts01" (some "edge01")
      200 4780 a_db-assigned a_db-average

lifetime_to_mig-MigratesBefore_example :
    (e : EstimateTime) × (t_mig : Real) × (a_db.est_time_users "u" ≡ some e)
    × (get_est_mig_time e "edge01" "edge02" ≡ some t_mig)
    × MigratesBefore sample-IsOrdered a_forecast a_db "u" "bts01" "bts02" t_mig 4890
lifetime_to_mig-MigratesBefore_example =
    lifetime_to_mig-MigratesBefore sample-IsOrdered a_forecast a_db "u" "bts01" "edge01" "edge02"
      "bts02" 4890 a_db-assigned refl a_db-mig

get_service-initialize_service_example :
    (d : DbCentral) × (s : ServiceInfo) × (initialize_service "yolou" "edge02" "u" a_db
      ≡ (return tt, d))
    × (get_service d "u" ≡ some s)
    × (s.name ≡ "yolou")
    × (s.server_name ≡ "edge02")
    × (s.state ≡ "init")
get_service-initialize_service_example =
    get_service-initialize_service "yolou" "edge02" "u" a_user a_db refl refl refl
