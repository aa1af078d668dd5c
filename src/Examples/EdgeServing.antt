-- ===== src/Examples/EdgeServing.antt =====
-- The theorems on the handlers of an edge server, applied to a host with one container.
use mec_measurements.Prelude.{
  ℕ, ◌+◌, String, Bool, true, false, Option, none, some, List, [], ◌∷◌, ◌++◌, ◌≡◌, ◌≢◌, refl, ◌==◌,
  ltb, if◌then◌else◌, count_if, arith,
}
use mec_measurements.Effects.{return}
use mec_measurements.Edge.MigrateNode.{MigrateNode, Kwargs, get_container_name}
use mec_measurements.Edge.MigrateNode
use mec_measurements.Edge.EdgeServices.{get_service}
use mec_measurements.Edge.Services.{Finds, find_open_port, find_open_port-Finds}
use mec_measurements.Edge.ControllerServer.State.{
  Docker, DeployJson, migrate, allocated, ControllerServer, queue_task, report_services,
}
use mec_measurements.Edge.ControllerServer.Deploy.{new_service, process_deploy, process_destroy}
use mec_measurements.Edge.ControllerServer.Deploy.Laws.{Subscribes, Answers, process_deploy-Answers}
use mec_measurements.Edge.ControllerServer.Deploy.Removal.{process_destroy_removes}
use mec_measurements.Edge.ControllerServer.Moves.{
  process_migrate, source_migrate_cb, dest_migrate_cb,
}
use mec_measurements.Edge.ControllerServer.Moves.Laws.{IsMoved, migration_moves}
use mec_measurements.Edge.ControllerServer.Moves.Requests.{
  is_pre_measure, is_measure, reaches, monitored, monitored-measures,
}
use mec_measurements.Examples.{look_up, drop, look_up-drop, look_up-save, a_node}
use mec_measurements.Examples.Registries.{entry, two_servers, a_registry, a_registry-IsUnique}

pub look_up-run :
    (cs ds : List (String × Bool)) (image : Option String) (name : String)
    (container_port port : Option ℕ) (j : String)
    → some ((name, true) ∷ drop cs name) ≡ some ds
    → look_up ds j ≡ (if name == j then some true else look_up cs j)
look_up-run cs ds image name container_port port j h = ground (arith, look_up-save cs name true j)

-- A docker that starts every container.
abbrev pub a_docker : Docker
a_docker = record {
  Containers = List (String × Bool);
  status = look_up;
  remove = drop;
  run = λ cs image name container_port port. some ((name, true) ∷ drop cs name);
  lists = λ cs. true;
  status-remove = look_up-drop;
  status-run = look_up-run;
}

-- The server "me" with the service of a_registry, whose container runs.
abbrev pub a_host : ControllerServer a_docker
a_host = record {
  server_info = entry "me" "10.0.0.3";
  edge_services = a_registry;
  my_neighbors = two_servers;
  source_queue = [];
  reports = 0;
  mon_queue_network = [];
  ready = false;
  containers = ("openfaceu", true) ∷ [];
  sent = [];
}

-- The server "edge02", without services.
abbrev another_host : ControllerServer a_docker
another_host = record a_host {
  server_info = entry "edge02" "10.0.0.2";
  edge_services = record { services = []; users = [] };
  containers = [];
}

abbrev a_deployment : Option String → DeployJson
a_deployment migrate_method = record {
  service_name = "openface";
  end_user = "u";
  ssid = "bts01";
  bssid = some "aa:bb";
  migrate_method = migrate_method;
}

abbrev from_9902 : ℕ → Bool
from_9902 port = ltb 9901 port

-- MIGRATE of the service of a_registry to "edge02".
abbrev a_move : Kwargs
a_move = MigrateNode.get_migrate_service a_node

find_open_port-Finds_example : Finds from_9902 99 9900 (find_open_port from_9902)
find_open_port-Finds_example = find_open_port-Finds from_9902

process_deploy-Answers_example :
    (answer : Option MigrateNode) × (between after : ControllerServer a_docker) × (process_deploy
        from_9902
        (a_deployment (some "delta"))
        a_host
      ≡ (return tt, after))
    × Subscribes "u" a_host between
    × (after.sent ≡ between.sent ++ allocated "u" answer ∷ [])
    × Answers
        (new_service
          (entry "me" "10.0.0.3")
          from_9902
          (a_deployment (some "delta"))
          "aa:bb"
          "delta")
        answer
        a_host
        after
process_deploy-Answers_example =
    process_deploy-Answers from_9902 (a_deployment (some "delta")) a_host "aa:bb" "delta" refl refl

process_destroy_removes_example :
    (get_service (process_destroy a_move a_host).edge_services "u" "openface" ≡ none)
    × (look_up
          (process_destroy a_move a_host).containers
          (get_container_name (MigrateNode.init a_move))
        ≢ some true)
unfolding get_service MigrateNode.init MigrateNode.get_migrate_service get_container_name
process_destroy_removes_example =
    process_destroy_removes a_move true a_host a_registry-IsUnique refl refl

migration_moves_example :
    (kwargs : Kwargs) × (process_migrate a_move a_host
      ≡ (return tt, report_services (queue_task (migrate kwargs) a_host)))
    × IsMoved (MigrateNode.init a_move) a_node (MigrateNode.init kwargs)
    × (get_service
          (source_migrate_cb kwargs (process_migrate a_move a_host).1).edge_services
          "u"
          "openface"
        ≡ none)
    × (get_service (dest_migrate_cb kwargs another_host).edge_services "u" "openface"
        ≡ some (MigrateNode.init kwargs))
unfolding get_service MigrateNode.init MigrateNode.get_migrate_service
migration_moves_example =
    migration_moves a_move "edge02" a_node a_host another_host refl refl refl a_registry-IsUnique
      refl

monitored-measures_example :
    (count_if (is_pre_measure "u" "openface") (monitored 5 "u" a_host).source_queue
      ≡ 0 + count_if (reaches 3 5 "u" "u" "openface") (a_node ∷ []))
    × (count_if (is_measure "u" "openface") (monitored 5 "u" a_host).source_queue
        ≡ 0 + count_if (reaches 4 5 "u" "u" "openface") (a_node ∷ []))
monitored-measures_example = monitored-measures 5 "u" "u" "openface" a_host
