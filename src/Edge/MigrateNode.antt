-- ===== src/Edge/MigrateNode.antt =====
-- migrate_node.py: the description of a service that controllers exchange. The keyword arguments
-- of its constructor are a record of options, a JSON object whose values have the field's type.
use Prim.Native.String.{◌++◌}
use mec_measurements.Prelude.{ℕ, Bool, false, String, Option, none, some, get_or, ◌≡◌, refl}

pub record MigrateNode : Type 0 where
  pub snapshot : String
  pub end_user : String
  pub service_name : String
  pub registry : String
  pub user : String
  pub ip : String
  pub server_name : String
  -- `None` where no port is free
  pub port : Option ℕ
  pub ssid : String
  pub bssid : String
  -- the source's default is the empty text, here `none`
  pub container_port : Option ℕ
  -- `None` for a service that has no image
  pub container_img : Option String
  pub dump_dir : String
  pub debug : Bool
  pub method : String
  pub request : ℕ
  pub time_checkpoint : ℕ
  pub time_xdelta : ℕ
  pub delta_memory : Option ℕ
  pub pre_checkpoint : Option ℕ

-- A JSON object with some of the keys; a key that may hold `None` is an option of an option.
pub record Kwargs : Type 0 where
  pub snapshot : Option String
  pub end_user : Option String
  pub service_name : Option String
  pub registry : Option String
  pub user : Option String
  pub ip : Option String
  pub server_name : Option String
  pub port : Option (Option ℕ)
  pub ssid : Option String
  pub bssid : Option String
  pub container_port : Option (Option ℕ)
  pub container_img : Option (Option String)
  pub dump_dir : Option String
  pub debug : Option Bool
  pub method : Option String
  pub request : Option ℕ
  pub time_checkpoint : Option ℕ
  pub time_xdelta : Option ℕ
  pub delta_memory : Option (Option ℕ)
  pub pre_checkpoint : Option (Option ℕ)

-- MigrateNode(**kwargs)
unfoldable pub init : Kwargs → MigrateNode
init kwargs = record {
  snapshot = get_or kwargs.snapshot "snapshot";
  end_user = get_or kwargs.end_user "end_user";
  service_name = get_or kwargs.service_name "openface";
  registry = get_or kwargs.registry "ngovanmao";
  user = get_or kwargs.user "root";
  ip = get_or kwargs.ip "";
  server_name = get_or kwargs.server_name "";
  port = get_or kwargs.port (some 5678);
  ssid = get_or kwargs.ssid "";
  bssid = get_or kwargs.bssid "";
  container_port = get_or kwargs.container_port none;
  container_img = get_or kwargs.container_img (some "");
  dump_dir = get_or kwargs.dump_dir "/tmp";
  debug = get_or kwargs.debug false;
  method = get_or kwargs.method "delta";
  request = get_or kwargs.request 0;
  time_checkpoint = get_or kwargs.time_checkpoint 0;
  time_xdelta = get_or kwargs.time_xdelta 0;
  delta_memory = get_or kwargs.delta_memory none;
  pre_checkpoint = get_or kwargs.pre_checkpoint none;
}

unfoldable pub get_migrate_service : MigrateNode → Kwargs
get_migrate_service n = record {
  snapshot = some n.snapshot;
  end_user = some n.end_user;
  service_name = some n.service_name;
  registry = some n.registry;
  user = some n.user;
  ip = some n.ip;
  server_name = some n.server_name;
  port = some n.port;
  ssid = some n.ssid;
  bssid = some n.bssid;
  container_port = some n.container_port;
  container_img = some n.container_img;
  dump_dir = some n.dump_dir;
  debug = some n.debug;
  method = some n.method;
  request = some n.request;
  time_checkpoint = some n.time_checkpoint;
  time_xdelta = some n.time_xdelta;
  delta_memory = some n.delta_memory;
  pre_checkpoint = some n.pre_checkpoint;
}

unfoldable pub get_container_name : MigrateNode → String
get_container_name n = n.service_name ++ n.end_user

unfoldable pub get_container_img : MigrateNode → Option String
get_container_img n = n.container_img

unfoldable pub get_checkpoint_folder : MigrateNode → String
get_checkpoint_folder n = n.dump_dir ++ "/" ++ get_container_name n

unfoldable pub get_snapshot_folder : MigrateNode → String
get_snapshot_folder n = get_checkpoint_folder n ++ "/" ++ n.snapshot ++ "/"

-- A service that travels as JSON between the servers arrives with every field unchanged: the
-- constructor undoes get_migrate_service.
pub init-get_migrate_service : (n : MigrateNode) → init (get_migrate_service n) ≡ n
unfolding init get_migrate_service
init-get_migrate_service n = refl
