-- ===== src/Migration/Dest.antt =====
-- The commands of MigrateDest (migrate_dest.py), which arrive as datagrams from a source.
use mec_measurements.Prelude.{
  ℕ, String, Bool, true, Option, none, some, is_some, [], ◌∷◌, ◌++◌, ◌≡◌, refl, ◌==◌, if◌then◌else◌,
}
use mec_measurements.Prelude.Dict.{put}
use mec_measurements.Effects.{
  return, raise, Action, ◌>>=◌, ◌>>◌, skip, modify, needed, key_error, type_error, os_error,
}
use mec_measurements.Edge.MigrateNode.{
  MigrateNode, Kwargs, init, get_container_name, get_checkpoint_folder, get_migrate_service,
}
use mec_measurements.Edge.Services.{find_open_port}
use mec_measurements.Edge.ControllerServer.State.{MigrationReport}
use mec_measurements.Migration.Names.{
  get_snapshot_name_pre, get_snapshot_delta_between, get_snapshot_delta,
}
use mec_measurements.Migration.Files.{Folder}
use mec_measurements.Migration.DiffPatch.{Tools}
use mec_measurements.Migration.Commands.{
  Daemon, Host, docker_checkpoint, docker_create_container, docker_restore, restore_diff, patched,
  measure_img_size,
}
use mec_measurements.Migration.State.{MigrateDest, Sent, migrated_here, reported, checked}

-- The port of a socket, which a closed one does not give.
abbrev pub getsockname : Option ℕ → {S : Type 0} → Action S ℕ
getsockname none s = (raise os_error, s)
getsockname (some port) s = (return port, s)

abbrev pub arrived : MigrateNode → (port dirty checkpoint : ℕ) → MigrateNode
arrived service port dirty checkpoint = record service {
  port = some port;
  delta_memory = some dirty;
  pre_checkpoint = some checkpoint;
}

module _ {t : Tools} {d : Daemon t.Content} where
  abbrev pub on_host : (Host t d → Host t d) → MigrateDest t d → MigrateDest t d
  on_host f s = record s { host = f s.host }

  abbrev pub call : Sent → MigrateDest t d → MigrateDest t d
  call m s = record s { sent = s.sent ++ m ∷ [] }

  -- A difference is put on `old` to restore `new`.
  abbrev pub add_restored : (place old new patch : String) → MigrateDest t d → MigrateDest t d
  add_restored place old new patch =
      on_host (λ host. record host { disk = (patched t place old new patch host.disk).1 })

  -- restore_diff on the disk; its code is not looked at.
  unfoldable pub restore_folder :
      (place old new patch : String) → Action (MigrateDest t d) (Unit {0})
  restore_folder place old new patch s =
      let (code, disk) = restore_diff t place old new patch s.host.disk in
      (
        elim code [ raise e ↦ raise e | return n ↦ return tt ],
        on_host (λ host. record host { disk = disk }) s,
      )

  -- With the old folder there, the checkpoint folder is, and the new folder is restored.
  pub restore_folder-add_restored :
      (place old new patch : String) (files : Folder t.Content) (s : MigrateDest t d)
      → s.host.disk place old ≡ some files
      → restore_folder place old new patch s ≡ (return tt, add_restored place old new patch s)
  unfolding restore_folder restore_diff
  restore_folder-add_restored place old new patch files s h =
      rw (restore_folder, restore_diff, h) refl

  abbrev pub create_container : MigrateNode → ℕ → MigrateDest t d → MigrateDest t d
  create_container service port = on_host (λ host. record host {
    containers =
        docker_create_container t d service.container_img (get_container_name service)
          service.container_port port host.containers;
  })

  -- `binds` tells the ports that can be bound at the time, and `addr` is the source's address. The
  -- pull of the image changes nothing here.
  unfoldable pub handle_cmd_prepare :
      (binds : ℕ → Bool) (addr : String) → Kwargs → Action (MigrateDest t d) (Unit {0})
  handle_cmd_prepare binds addr kwargs =
      let service = init kwargs in
      let container = get_container_name service in
      modify (λ s. record s {
        records =
            put s.records container
              (record { source = some addr; dest = none; service = container });
      })
      >> restore_folder (get_checkpoint_folder service) (get_snapshot_name_pre "2" service)
          (get_snapshot_name_pre "3" service) (get_snapshot_delta_between "2" "3" service)
      >> needed type_error (find_open_port binds)
      >>= λ port.
          modify (λ s. record s { sockets = put s.sockets container (some port) })
          >> modify (create_container service port)

  abbrev pub measured : (place name : String) → Action (MigrateDest t d) ℕ
  measured place name s = checked (measure_img_size t (s.host.disk place name)) s

  -- The container restored from the checkpoint; none where the command fails.
  abbrev pub with_containers : Option d.Containers → MigrateDest t d → MigrateDest t d
  with_containers none s = s
  with_containers (some cs) s = on_host (λ host. record host { containers = cs }) s

  abbrev pub try_restore : (container name place : String) → Action (MigrateDest t d) Bool
  try_restore container name place s =
      let answer = docker_restore t d container name place s.host in
      (return (is_some answer), with_containers answer s)

  abbrev pub start_fresh : String → MigrateDest t d → MigrateDest t d
  start_fresh container =
      on_host (λ host. record host { containers = d.start host.containers container })

  -- The container is restored, or started where that fails, and what it takes is measured.
  unfoldable pub resume : MigrateNode → MigrationReport → ℕ → Action (MigrateDest t d) (Unit {0})
  resume service report port =
      let container = get_container_name service in
      let place = get_checkpoint_folder service in
      try_restore container service.snapshot place >>= λ restored.
      measured place (get_snapshot_delta service) >>= λ dirty.
      measured place service.snapshot >>= λ checkpoint.
      (λ s. if restored then skip s else modify (start_fresh container) s)
      >> modify (call (migrated_here (get_migrate_service (arrived service port dirty checkpoint))))
      >> modify (call (reported report))
      >> modify (
          on_host (λ host.
            (docker_checkpoint t d container (get_snapshot_name_pre "2" service) place true
              host).1))

  unfoldable pub handle_cmd_migrate : Kwargs → Action (MigrateDest t d) (Unit {0})
  handle_cmd_migrate kwargs =
      let service = init kwargs in
      let container = get_container_name service in
      (λ s. needed key_error (s.records container) s) >>= λ report.
      (λ s. needed key_error (s.sockets container) s) >>= λ sock. getsockname sock >>= λ port.
      modify (λ s. record s { sockets = put s.sockets container none })
      >> (λ s.
          if service.method == "delta"
          then restore_folder (get_checkpoint_folder service) (get_snapshot_name_pre "3" service)
              service.snapshot (get_snapshot_delta service) s
          else skip s)
      >> resume service report port
