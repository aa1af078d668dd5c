-- ===== src/Examples.antt =====
-- A small system on which the theorems are applied: floats are numbers of tenths and a table is a
-- list of rows with their keys.
mod Deciding
mod Planning
mod Controlling
mod Running
mod Registries
mod EdgeServing
mod Planners
mod Reporting
mod Migrating
mod Messaging
mod Recording
use mec_measurements.Prelude.{
  ℕ, ◌+◌, ◌-◌, ◌*◌, ◌/◌, String, Bool, true, false, Option, none, some, List, [], ◌∷◌, ◌≡◌, refl,
  ◌==◌, if◌then◌else◌, map, any, ltb, arith, eq_iff, Bool-cases, inl, inr,
}
use mec_measurements.Prelude.Dict.{put, empty}
use mec_measurements.Platform.{Platform}
use mec_measurements.Effects.{return}
use mec_measurements.Edge.MigrateNode.{MigrateNode}
use mec_measurements.Database.Estimate.{EstimateTime}
use mec_measurements.Database.Estimate.Laws.{IsOrdered}
use mec_measurements.Database.Rows.{ServiceInfo, EndUserInfo, EdgeServerInfo, BtsInfo, DbCentral}
use mec_measurements.Database.Queries.{ServiceJson}
use mec_measurements.Planner.Lifetime.{Forecast}
use mec_measurements.Controller.Word.{running_state}
use mec_measurements.Controller.State.{PlanResult, Stored, HandoverJson, Controller, optimized}
use mec_measurements.Controller.System.{init}

module _ {A : Type 0} where
  abbrev pub look_up : List (String × A) → String → Option A
  look_up [] k = none
  look_up ((j, a) ∷ rest) k = if j == k then some a else look_up rest k

  abbrev pub drop : List (String × A) → String → List (String × A)
  drop [] k = []
  drop ((j, a) ∷ rest) k = if j == k then drop rest k else (j, a) ∷ drop rest k

  pub look_up-drop :
      (t : List (String × A)) (k j : String)
      → look_up (drop t k) j ≡ (if k == j then none else look_up t j)
  look_up-drop [] k j = ground arith
  look_up-drop ((i, a) ∷ rest) k j =
      ground (arith, look_up-drop rest k j, eq_iff i k, eq_iff i j, eq_iff k j)

  pub look_up-save :
      (t : List (String × A)) (k : String) (a : A) (j : String)
      → look_up ((k, a) ∷ drop t k) j ≡ (if k == j then some a else look_up t j)
  look_up-save t k a j = ground (arith, look_up-drop t k j)

  pub look_up-rows :
      (t : List (String × A)) (k : String) (a : A) (test : A → Bool)
      → look_up t k ≡ some a
      → test a ≡ true
      → any test (map (λ row. row.1) t) ≡ true
  look_up-rows [] k a test e h = absurd (ground arith)
  look_up-rows ((i, b) ∷ rest) k a test e h = ground (arith, look_up-rows rest k a test)

instance abbrev pub sample : Platform
sample = record {
  Real = ℕ;
  of_ℕ = λ n. 10 * n;
  tenth = 1;
  plus = λ a b. a + b;
  minus = λ a b. a - b;
  times = λ a b. a * b / 10;
  over = λ a b. 10 * a / b;
  lt = ltb;
  Table = λ A. List (String × A);
  first = look_up;
  rows = λ t. map (λ row. row.1) t;
  save = λ t k a. (k, a) ∷ drop t k;
  delete = drop;
  first-save = look_up-save;
  first-delete = look_up-drop;
  rows-first = look_up-rows;
}

pub sample-IsOrdered : IsOrdered ⦃p = sample⦄
sample-IsOrdered = record {
  lt_irrefl = λ a. ground arith;
  lt_asymm = λ a b h. ground arith;
  le_trans = λ a b c h k. ground arith;
}

abbrev pub a_service : ServiceInfo ⦃p = sample⦄
a_service = record {
  name = "openfaceu";
  container_img = none;
  server_name = "edge01";
  port = none;
  container_port = none;
  dump_dir = "/tmp";
  method = "delta";
  status = none;
  cpu = none;
  mem = none;
  size = none;
  delta_memory = none;
  pre_checkpoint = none;
  time_xdelta = none;
  time_checkpoint = none;
  state = "running";
  no_request = 0;
}

abbrev pub a_user : EndUserInfo ⦃p = sample⦄
a_user = record {
  name = "u";
  bts = "bts01";
  service_id = some "openfaceu";
  status = true;
  x = none;
  y = none;
  a = none;
  b = none;
  velocity_x = none;
  velocity_y = none;
}

abbrev pub a_server : EdgeServerInfo ⦃p = sample⦄
a_server = record {
  name = "edge01";
  ip = some "10.0.0.1";
  distance = some 1;
  core_cpu = none;
  max_cpu = none;
  ram = none;
  ram_free = none;
  disk = none;
  disk_free = none;
  phi = none;
  rho = none;
}

abbrev pub a_bts : BtsInfo ⦃p = sample⦄
a_bts = record {
  name = "bts01";
  ip = none;
  server_id = some "edge01";
  bssid = none;
  pwd = "";
  x = none;
  y = none;
}

abbrev pub an_estimate : EstimateTime ⦃p = sample⦄
an_estimate = record {
  end_user = "u";
  t_pre_mig = record { source = "edge01"; dest = "edge02"; time = 200 } ∷ [];
  t_mig = record { source = "edge01"; dest = "edge02"; time = 100 } ∷ [];
  no_connect = 1;
}

abbrev pub a_db : DbCentral ⦃p = sample⦄
a_db = record {
  services = ("openfaceu", a_service) ∷ [];
  users = ("u", a_user) ∷ [];
  servers = ("edge01", a_server) ∷ [];
  btss = ("bts01", a_bts) ∷ [];
  est_time_users = put empty "u" an_estimate;
  user_service = [];
  network_monitor = [];
  migrate_history = [];
}

-- A handover in 5000 tenths of a second, to each of two base stations.
abbrev pub a_forecast : Forecast ⦃p = sample⦄
a_forecast = record {
  query_neighbor = λ db user. "bts01" ∷ "bts02" ∷ [];
  get_handover_time = λ db user from to hysteresis. return (some 5000);
}

abbrev pub a_plan : PlanResult
a_plan = record { user = "u"; next_bts = "bts02"; next_server = "edge02" }

abbrev pub a_json : ServiceJson
a_json = record {
  method = "delta";
  container_img = none;
  end_user = "u";
  server_name = "edge02";
  service_name = "openface";
  ip = none;
  port = none;
  container_port = none;
  ssid = "bts02";
  bssid = none;
}

abbrev pub a_handover : HandoverJson ⦃p = sample⦄
a_handover = record { next_ssid = "bts02"; next_bssid = none; next_password = ""; elapsed_time = 0 }

abbrev pub a_node : MigrateNode
a_node = record {
  snapshot = "snapshot";
  end_user = "u";
  service_name = "openface";
  registry = "ngovanmao";
  user = "root";
  ip = "";
  server_name = "edge02";
  port = some 5678;
  ssid = "bts02";
  bssid = "";
  container_port = none;
  container_img = some "";
  dump_dir = "/tmp";
  debug = false;
  method = "delta";
  request = 0;
  time_checkpoint = 0;
  time_xdelta = 0;
  delta_memory = none;
  pre_checkpoint = none;
}

-- A user who runs, with a handover and a migration planned.
abbrev pub a_controller : Controller ⦃p = sample⦄
a_controller = record {
  db = a_db;
  planner_type = optimized;
  migrate_method = "pre-copy";
  migration_state = put empty "u" running_state;
  migrating_plan = put empty "u" (record { plan = a_plan; service = a_json });
  handover_plan = put empty "u" a_handover;
  published = [];
  timers = [];
}
