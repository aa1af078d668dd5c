-- ===== src/Database/Rows.antt =====
-- The mapped classes of central_database.py that the controller reads and writes, and the database
-- as the tables of their rows. A column that may be NULL is an option.
use mec_measurements.Prelude.{ℕ, String, Bool, Option, List}
use mec_measurements.Prelude.Dict.{Dict}
use mec_measurements.Platform.{Platform, Real, Table}
use mec_measurements.Database.Estimate.{EstimateTime}

module _ ⦃p : Platform⦄ where
  pub record ServiceInfo : Type 0 where
    pub name : String
    pub container_img : Option String
    pub server_name : String
    pub port : Option ℕ
    pub container_port : Option ℕ
    pub dump_dir : String
    pub method : String
    pub status : Option String
    pub cpu : Option Real
    pub mem : Option ℕ
    pub size : Option ℕ
    pub delta_memory : Option ℕ
    pub pre_checkpoint : Option ℕ
    pub time_xdelta : Option ℕ
    pub time_checkpoint : Option ℕ
    pub state : String
    pub no_request : ℕ

  pub record EndUserInfo : Type 0 where
    pub name : String
    pub bts : String
    pub service_id : Option String
    pub status : Bool
    pub x : Option Real
    pub y : Option Real
    pub a : Option Real
    pub b : Option Real
    pub velocity_x : Option Real
    pub velocity_y : Option Real

  pub record EdgeServerInfo : Type 0 where
    pub name : String
    pub ip : Option String
    pub distance : Option ℕ
    pub core_cpu : Option ℕ
    pub max_cpu : Option ℕ
    pub ram : Option Real
    pub ram_free : Option Real
    pub disk : Option Real
    pub disk_free : Option Real
    pub phi : Option Real
    pub rho : Option Real

  pub record BtsInfo : Type 0 where
    pub name : String
    pub ip : Option String
    pub server_id : Option String
    pub bssid : Option String
    pub pwd : String
    pub x : Option Real
    pub y : Option Real

  pub record EndUserService : Type 0 where
    pub timestamp : ℕ
    pub user_id : String
    pub service_id : String
    pub ssid : String
    pub bssid : Option String
    pub server_name : String
    pub proc_delay : Real
    pub e2e_delay : Real
    pub request_size : ℕ

  pub record NetworkRecord : Type 0 where
    pub timestamp : ℕ
    pub src_node : Option String
    pub dest_node : Option String
    pub latency : Real
    pub bw : Real

  -- A migration, with the columns that are read.
  pub record MigrateRecord : Type 0 where
    pub timestamp : ℕ
    pub source : String
    pub dest : String
    pub service : String
    pub checkpoint : Option Real
    pub restore : Option Real
    pub xdelta_dest : Option Real
    pub size_pre_rsync : Option ℕ
    pub size_rsync : Option ℕ
    pub size_final_rsync : Option ℕ

  -- The tables of the reports are lists, in the order of insertion.
  pub record DbCentral : Type 0 where
    pub services : Table ServiceInfo
    pub users : Table EndUserInfo
    pub servers : Table EdgeServerInfo
    pub btss : Table BtsInfo
    pub est_time_users : Dict EstimateTime
    pub user_service : List EndUserService
    pub network_monitor : List NetworkRecord
    pub migrate_history : List MigrateRecord
