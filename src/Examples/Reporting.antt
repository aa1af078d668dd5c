-- ===== src/Examples/Reporting.antt =====
-- The theorems on the reports of servers and users to the controller, applied.
use mec_measurements.Prelude.{
  ℕ, true, none, some, List, [], ◌∷◌, ◌++◌, ◌≡◌, refl, map, arith, eq_iff, get_or, inr,
}
use mec_measurements.Prelude.Dict.{put, empty}
use mec_measurements.Effects.{return, Action, pure}
use mec_measurements.Database.Rows.{ServiceInfo, DbCentral}
use mec_measurements.Database.Queries.{get_json, user_of, bts_info_of}
use mec_measurements.Database.Servers.{
  update_eu_service_monitor, ServerEntry, Registration, EuService, get_service_with_server,
}
use mec_measurements.Database.Servers.Laws.{IsNamed}
use mec_measurements.Edge.EdgeServers.{ServerInfo}
use mec_measurements.Edge.ControllerServer.Reports.{process_updated_servers}
use mec_measurements.Controller.Word.{migrate_state}
use mec_measurements.Controller.State.{Message, redeploy, updated_servers, Controller}
use mec_measurements.Controller.Discovery.{Place}
use mec_measurements.Controller.Plans.{ComputePlan}
use mec_measurements.Controller.Servers.{process_edge_register, process_edge_notification}
use mec_measurements.Controller.Servers.Laws.{
  process_edge_register-ends, process_edge_notification-redeploys,
}
use mec_measurements.Controller.Monitors.{process_monitor_eu, process_monitor_service}
use mec_measurements.Controller.Monitors.Laws.{reports-OnlyDb}
use mec_measurements.Examples.{
  sample, look_up, a_db, a_user, a_bts, a_controller, a_forecast, a_plan,
}
use mec_measurements.Examples.EdgeServing.{a_host}

a_db-IsNamed : IsNamed ⦃p = sample⦄ a_db
a_db-IsNamed name = ground (arith, eq_iff "edge01" name)

abbrev read_entry : ServerEntry → ServerInfo
read_entry e = record {
  server_name = e.server_name;
  ip = get_or e.ip "";
  distance = get_or e.distance 0;
  bs = e.bs;
}

abbrev a_registration : Registration ⦃p = sample⦄
a_registration = record {
  name = "me";
  ip = "10.0.0.3";
  bs = some "bts02";
  bs_x = none;
  bs_y = none;
  distance = 1;
  rho = none;
  phi = none;
}

process_edge_register-ends_example :
    (entries : List ServerEntry) × ((process_edge_register a_registration a_controller).published
      ≡ [] ++ updated_servers entries ∷ [])
    × ((process_updated_servers (map read_entry entries) a_host).sent ≡ [])
    × ((process_updated_servers (map read_entry entries) a_host).ready ≡ true)
process_edge_register-ends_example =
    process_edge_register-ends read_entry (λ e. refl) a_registration a_controller a_host
      a_db-IsNamed refl

abbrev to_edge02 : Place ⦃p = sample⦄
to_edge02 db user service ssid bssid = return "edge02"

abbrev to_edge02_message : ServiceInfo ⦃p = sample⦄ → Message ⦃p = sample⦄
to_edge02_message s = redeploy "edge02" (get_json a_db s)

process_edge_notification-redeploys_example :
    ((process_edge_notification to_edge02 "edge01" a_controller).1.published
      ≡ [] ++ map to_edge02_message (get_service_with_server a_db "edge01"))
    × (look_up (process_edge_notification to_edge02 "edge01" a_controller).1.db.servers "edge01"
        ≡ none)
unfolding get_service_with_server user_of bts_info_of
process_edge_notification-redeploys_example =
    process_edge_notification-redeploys to_edge02 "edge01" to_edge02_message a_controller
      a_db-IsNamed
      (
        record {
          user = a_user;
          bts = a_bts;
          target = "edge02";
          has_user = refl;
          has_bts = refl;
          is_placed = refl;
          is_message = refl;
        },
        tt,
      )

-- The user's service is being moved.
abbrev a_moving : Controller ⦃p = sample⦄
a_moving = record a_controller { migration_state = put empty "u" migrate_state }

abbrev a_request : EuService ⦃p = sample⦄
a_request = record {
  start_time = 0;
  end_time = 900;
  process_time = 100;
  sent_size = 5765;
  end_user = "u";
  service_name = "openface";
  ssid = "bts01";
  bssid = none;
}

abbrev some_plan : ComputePlan ⦃p = sample⦄
some_plan db = return (a_plan ∷ [])

abbrev weak : Action (DbCentral ⦃p = sample⦄) ℕ
weak = pure 0

reports-OnlyDb_example :
    ((process_monitor_eu a_forecast some_plan "u" weak a_moving).1
      ≡ record a_moving { db = (weak a_moving.db).1 })
    × ((process_monitor_service a_forecast some_plan 7 a_request a_moving).1
        ≡ record a_moving { db = (update_eu_service_monitor 7 a_request a_moving.db).1 })
reports-OnlyDb_example =
    reports-OnlyDb a_forecast some_plan "u" weak 7 a_request a_moving
      (inr (migrate_state, refl, inr (inr refl))) (inr (migrate_state, refl, inr (inr refl)))
