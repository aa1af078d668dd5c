-- ===== src/Migration/Source.antt =====
-- The commands of MigrateSource (migrate_source.py), which its thread takes from its queue.
use mec_measurements.Prelude.{
  ℕ, String, Bool, true, false, Option, none, some, List, [], ◌∷◌, ◌==◌, if◌then◌else◌,
}
use mec_measurements.Prelude.Dict.{put}
use mec_measurements.Effects.{Action, ◌>>=◌, ◌>>◌, skip, modify, needed, key_error}
use mec_measurements.Edge.MigrateNode.{
  MigrateNode, Kwargs, init, get_container_name, get_checkpoint_folder, get_migrate_service,
}
use mec_measurements.Edge.ControllerServer.State.{Task}
use mec_measurements.Migration.Names.{
  get_snapshot_name_pre, get_snapshot_delta_between, get_snapshot_delta,
}
use mec_measurements.Migration.Files.{remove_place}
use mec_measurements.Migration.DiffPatch.{Tools}
use mec_measurements.Migration.Commands.{Daemon, docker_verify, close_ssh_session}
use mec_measurements.Migration.State.{
  Ends, prepare, migrate, dirty_rate, prepared, migrated_away, reported, tell, enter, send_folder,
  take_checkpoint, take_diff, measure,
}

-- The files that a difference leaves out, and all that are small.
abbrev pub small_files : Option (String × String)
small_files = some ("*.tar.gz.img", "*.img")

-- The arguments of the callback: the sizes, and the times that it took.
abbrev pub with_sizes : (checkpoint_time delta_time dirty checkpoint : ℕ) → Kwargs → Kwargs
with_sizes checkpoint_time delta_time dirty checkpoint kwargs = record kwargs {
  time_checkpoint = some checkpoint_time;
  time_xdelta = some delta_time;
  delta_memory = some (some dirty);
  pre_checkpoint = some (some checkpoint);
}

-- The times come from the clock.
module _ {t : Tools} {d : Daemon t.Content} where
  unfoldable pub handle_cmd_pre_measure : Kwargs → Action (Ends t d) (Unit {0})
  handle_cmd_pre_measure kwargs =
      let service = init kwargs in
      let container = get_container_name service in
      modify (enter "pre_measure")
      >> (λ w. (docker_verify t d container w.source.host.containers, w))
      >> modify (
          take_checkpoint container (get_snapshot_name_pre "1" service)
            (get_checkpoint_folder service) true)

  unfoldable pub handle_cmd_measure_dirty :
      (checkpoint_time delta_time : ℕ) → Kwargs → Action (Ends t d) (Unit {0})
  handle_cmd_measure_dirty checkpoint_time delta_time kwargs =
      let service = init kwargs in
      let place = get_checkpoint_folder service in
      let first = get_snapshot_name_pre "1" service in
      let second = get_snapshot_name_pre "2" service in
      let delta = get_snapshot_delta_between "1" "2" service in
      modify (enter "measure")
      >> modify (take_checkpoint (get_container_name service) second place true)
      >> take_diff place first second delta
      >> measure place delta
      >>= λ dirty. measure place second >>= λ checkpoint.
          modify (tell (dirty_rate (with_sizes checkpoint_time delta_time dirty checkpoint kwargs)))

  -- What a preparation writes down before its first transfer.
  abbrev pub opened : MigrateNode → Ends t d → Ends t d
  opened service w = record w {
    source = record w.source {
      state = "prepare";
      ssh_handle = true;
      records =
          put w.source.records (get_container_name service) (record {
            source = none;
            dest = some service.ip;
            service = get_container_name service;
          });
    };
  }

  abbrev pub transfers_prepared : MigrateNode → Action (Ends t d) (Unit {0})
  transfers_prepared service =
      let place = get_checkpoint_folder service in
      let second = get_snapshot_name_pre "2" service in
      let third = get_snapshot_name_pre "3" service in
      let delta = get_snapshot_delta_between "2" "3" service in
      modify (send_folder none place second)
      >> measure place second
      >> modify (take_checkpoint (get_container_name service) third place true)
      >> modify (send_folder small_files place third)
      >> take_diff place second third delta
      >> measure place delta
      >> modify (send_folder none place delta)

  unfoldable pub handle_cmd_prepare : Kwargs → Action (Ends t d) (Unit {0})
  handle_cmd_prepare data' =
      let service = init data' in
      let transfers =
        transfers_prepared service
        >> modify (tell (prepared data'))
        >> modify (tell (prepare (get_migrate_service service))) in
      modify (opened service) >> λ w. if w.source.method == "delta" then transfers w else skip w

  -- The old checkpoints are removed and the connection is closed; `runs` tells whether its process
  -- still runs.
  abbrev pub closed : Bool → MigrateNode → Ends t d → Ends t d
  closed runs service w = record w {
    source = record w.source {
      ssh_handle = close_ssh_session w.source.ssh_handle runs;
      host = record w.source.host {
        disk = remove_place (get_checkpoint_folder service) w.source.host.disk;
      };
    };
  }

  unfoldable pub handle_cmd_migrate : Bool → Kwargs → Action (Ends t d) (Unit {0})
  handle_cmd_migrate runs data' =
      let service = init data' in
      let place = get_checkpoint_folder service in
      let delta = get_snapshot_delta service in
      modify (enter "migrate")
      >> (λ w. needed key_error (w.source.records (get_container_name service)) w)
      >>= λ record_.
          modify (take_checkpoint (get_container_name service) service.snapshot place false)
          >> modify (send_folder small_files place service.snapshot)
          >> take_diff place (get_snapshot_name_pre "3" service) service.snapshot delta
          >> modify (send_folder none place delta)
          >> modify (tell (migrate (get_migrate_service service)))
          >> measure place delta
          >> modify (tell (migrated_away data'))
          >> modify (tell (reported record_))
          >> modify (closed runs service)

  -- The handler of an entry of the queue; the times and the connection are as they turn out.
  abbrev pub perform : (checkpoint_time delta_time : ℕ) → Bool → Task → Action (Ends t d) (Unit {0})
  perform checkpoint_time delta_time runs (Task.prepare kwargs) = handle_cmd_prepare kwargs
  perform checkpoint_time delta_time runs (Task.migrate kwargs) = handle_cmd_migrate runs kwargs
  perform checkpoint_time delta_time runs (Task.pre_measure kwargs) = handle_cmd_pre_measure kwargs
  perform checkpoint_time delta_time runs (Task.measure kwargs) =
      handle_cmd_measure_dirty checkpoint_time delta_time kwargs

  -- The loop of the thread, until the queue is empty; an exception ends the thread.
  unfoldable pub node_main :
      (checkpoint_time delta_time : ℕ) → Bool → List Task → Action (Ends t d) (Unit {0})
  node_main checkpoint_time delta_time runs [] = skip
  node_main checkpoint_time delta_time runs (task ∷ tasks) =
      perform checkpoint_time delta_time runs task
      >> node_main checkpoint_time delta_time runs tasks
