-- ===== src/Database/Updates.antt =====
-- The methods of DbCentral that store users and services. An attribute that is no column
-- (`end_user.server_name`) is not stored, as in the source.
pub mod Laws
use mec_measurements.Prelude.{◌/◌, String, true, none, some, is_some, if◌then◌else◌}
use mec_measurements.Prelude.Dict.{put}
use mec_measurements.Database.Estimate
use mec_measurements.Platform.{Platform}
use mec_measurements.Effects.{
  attribute_error, integrity_error, return, raise, Action, needed, modify, ◌>>=◌, ◌>>◌,
}
use mec_measurements.Edge.MigrateNode.{MigrateNode, get_container_name, get_container_img}
use mec_measurements.Database.Rows.{ServiceInfo, EndUserInfo, DbCentral}
use mec_measurements.Database.Queries.{get_user, get_service, bts_info_of}

module _ ⦃p : Platform⦄ where
  open p use {first, save, delete}

  -- row.save(): the assignments to the attributes of a row that is there
  abbrev pub save_service : ServiceInfo → DbCentral → DbCentral
  save_service s db = record db { services = save db.services s.name s }

  abbrev pub save_user : EndUserInfo → DbCentral → DbCentral
  save_user u db = record db { users = save db.users u.name u }

  -- service.state = state
  unfoldable pub set_state : ServiceInfo → String → DbCentral → DbCentral
  set_state service state db = save_service (record service { state = state }) db

  -- session.add of a new service and the flush before the next query
  insert_service : ServiceInfo → Action DbCentral (Unit {0})
  insert_service s db =
      if is_some (first db.services s.name)
      then (raise integrity_error, db)
      else (return tt, save_service s db)

  unfoldable pub update_end_user_info : String → String → String → Action DbCentral (Unit {0})
  unfolding get_user bts_info_of
  update_end_user_info end_user ssid bssid = do
    user ← λ db. needed attribute_error (get_user db end_user) db
    modify (save_user (record user { bts = ssid }))
    bts ← λ db. needed attribute_error (bts_info_of db (record user { bts = ssid })) db
    modify (λ db. record db { btss = save db.btss bts.name (record bts { bssid = some bssid }) })

  pub update_service : MigrateNode → String → DbCentral → DbCentral
  unfolding get_service get_container_name get_container_img
  update_service node state db = elim (get_service db node.end_user) [
    | none ↦ db
    | some old ↦
        save_service
          (record old {
            name = get_container_name node;
            container_img = get_container_img node;
            server_name = node.server_name;
            port = node.port;
            method = node.method;
            container_port = node.container_port;
            dump_dir = node.dump_dir;
            state = state;
            no_request = old.no_request / 2;
          })
          (record db { services = delete db.services old.name })
  ]

  abbrev blank_service : String → String → String → ServiceInfo
  blank_service name server_name state = record {
    name = name;
    container_img = none;
    server_name = server_name;
    port = none;
    container_port = none;
    dump_dir = "/tmp";
    method = "delta";
    status = none;
    cpu = none;
    mem = none;
    size = none;
    delta_memory = none;
    pre_checkpoint = none;
    time_xdelta = none;
    time_checkpoint = none;
    state = state;
    no_request = 0;
  }

  -- end_user.service_id = service_info.name, for the user of that name
  link_service : String → String → Action DbCentral (Unit {0})
  link_service end_user service_name = do
    user ← λ db. needed attribute_error (first db.users end_user) db
    modify (save_user (record user { service_id = some service_name }))

  pub initialize_service : String → String → String → Action DbCentral (Unit {0})
  unfolding insert_service link_service
  initialize_service service_user_name server_name end_user = do
    insert_service (blank_service service_user_name server_name "init")
    link_service end_user service_user_name

  -- The AttributeError of an unknown user is caught: the service is stored and not linked.
  pub register_service : MigrateNode → String → Action DbCentral (Unit {0})
  unfolding insert_service link_service get_container_name get_container_img
  register_service node state db =
      let (r, after) =
        (insert_service (record (blank_service (get_container_name node) node.server_name state) {
          container_img = get_container_img node;
          container_port = node.container_port;
          dump_dir = node.dump_dir;
          port = node.port;
          method = node.method;
        })
            >> link_service node.end_user (get_container_name node))
          db in
      elim r [ raise attribute_error ↦ (return tt, after) | other ↦ (other, after) ]

  pub register_user : String → String → DbCentral → DbCentral
  register_user name bts db =
      let row : EndUserInfo = elim (first db.users name) [
        | none ↦ record {
          name = name;
          bts = bts;
          service_id = none;
          status = true;
          x = none;
          y = none;
          a = none;
          b = none;
          velocity_x = none;
          velocity_y = none;
        }
        | some old ↦ record old { bts = bts }
      ] in
      let stored : DbCentral = save_user row db in
      if is_some (db.est_time_users name)
      then stored
      else record stored { est_time_users = put db.est_time_users name (Estimate.init name) }
