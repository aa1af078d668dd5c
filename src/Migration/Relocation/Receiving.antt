-- ===== src/Migration/Relocation/Receiving.antt =====
-- The destination's part of a migration (migrate_dest.py): what its handling of the two datagrams
-- leaves on its disk and in its containers.
use mec_measurements.Prelude.{
  ℕ, String, Bool, true, none, some, get_or, [], ◌≡◌, refl, ◌==◌, eq_refl, Option-cases, inl, inr,
  ◌∙◌, ap,
}
use mec_measurements.Prelude.Dict.{put}
use mec_measurements.Effects.{return}
use mec_measurements.Edge.MigrateNode.{
  MigrateNode, Kwargs, init, get_container_name, get_checkpoint_folder,
}
use mec_measurements.Edge.Services.{find_open_port}
use mec_measurements.Edge.ControllerServer.State.{MigrationReport}
use mec_measurements.Migration.Names.{
  names-Distinct, get_snapshot_name_pre, get_snapshot_delta_between, get_snapshot_delta,
}
use mec_measurements.Migration.Files.{Folder}
use mec_measurements.Migration.DiffPatch.{Tools, create_xdelta_patch}
use mec_measurements.Migration.Commands.{Daemon, docker_restore, view}
use mec_measurements.Migration.Commands.Laws.{
  folder-patched, containers-docker_checkpoint_running, measure_img_size-some,
}
use mec_measurements.Migration.State.{MigrateDest}
use mec_measurements.Migration.Dest
use mec_measurements.Migration.Dest.{add_restored, restore_folder-add_restored, create_container}

module _ (t : Tools) (d : Daemon t.Content) (kwargs : Kwargs) (service : MigrateNode)
    (described : init kwargs ≡ service) where
  abbrev place : String
  place = get_checkpoint_folder service

  abbrev noted : String → MigrateDest t d → MigrateDest t d
  noted addr s = record s {
    records =
        put s.records (get_container_name service)
          (record { source = some addr; dest = none; service = get_container_name service });
  }

  -- The state after the preparation with a port.
  abbrev pub readied : (addr : String) → ℕ → MigrateDest t d → MigrateDest t d
  readied addr port s =
      let patched =
        add_restored place (get_snapshot_name_pre "2" service) (get_snapshot_name_pre "3" service)
          (get_snapshot_delta_between "2" "3" service) (noted addr s) in
      create_container service port
        (record patched { sockets = put s.sockets (get_container_name service) (some port) })

  pub handle_cmd_prepare-readied :
      (binds : ℕ → Bool) (addr : String) (port : ℕ) (before : Folder t.Content)
      (s : MigrateDest t d)
      → find_open_port binds ≡ some port
      → s.host.disk place (get_snapshot_name_pre "2" service) ≡ some before
      → Dest.handle_cmd_prepare binds addr kwargs s ≡ (return tt, readied addr port s)
  unfolding Dest.handle_cmd_prepare
  handle_cmd_prepare-readied binds addr port before s e there =
      let made =
        restore_folder-add_restored place (get_snapshot_name_pre "2" service)
          (get_snapshot_name_pre "3" service) (get_snapshot_delta_between "2" "3" service) before
          (noted addr s) there in
      rw (described, made, e) refl

  module _ (addr : String) (port : ℕ) (s : MigrateDest t d) where
    open names-Distinct service use {pre3-pre2, pre3-between, pre3-snapshot, pre3-delta}

    pub restored_third :
        (before small patch : Folder t.Content)
        → s.host.disk place (get_snapshot_name_pre "2" service) ≡ some before
        → s.host.disk place (get_snapshot_name_pre "3" service) ≡ some small
        → s.host.disk place (get_snapshot_delta_between "2" "3" service) ≡ some patch
        → (readied addr port s).host.disk place (get_snapshot_name_pre "3" service)
          ≡ some (create_xdelta_patch t before small patch)
    restored_third before small patch a b c =
        simp (folder-patched, pre3-pre2, pre3-between, eq_refl, a, b, c)

    pub same_snapshot :
        (readied addr port s).host.disk place service.snapshot ≡ s.host.disk place service.snapshot
    same_snapshot = simp (folder-patched, pre3-pre2, pre3-between, pre3-snapshot)

    pub same_delta :
        (readied addr port s).host.disk place (get_snapshot_delta service)
        ≡ s.host.disk place (get_snapshot_delta service)
    same_delta = simp (folder-patched, pre3-pre2, pre3-between, pre3-delta)

  docker_restore_there :
      (folder : Folder t.Content) (s : MigrateDest t d)
      → s.host.disk place service.snapshot ≡ some folder
      → docker_restore t d (get_container_name service) service.snapshot place s.host
        ≡ d.restore s.host.containers (get_container_name service) (view (some folder))
  unfolding docker_restore
  docker_restore_there folder s there =
      ap (λ o. d.restore s.host.containers (get_container_name service) (view o)) there

  -- The container goes on from the folder that is there, or starts where that fails.
  resume_lem :
      (report : MigrationReport) (port : ℕ) (folder patch : Folder t.Content) (s : MigrateDest t d)
      → s.host.disk place service.snapshot ≡ some folder
      → s.host.disk place (get_snapshot_delta service) ≡ some patch
      → ((Dest.resume service report port s).0 ≡ return tt)
        × ((Dest.resume service report port s).1.host.containers
            ≡ get_or
                (d.restore s.host.containers (get_container_name service) (view (some folder)))
                (d.start s.host.containers (get_container_name service)))
  unfolding Dest.resume
  resume_lem report port folder patch s there delta =
      let dirty = measure_img_size-some t patch _ delta in
      let size = measure_img_size-some t folder _ there in
      let answer = docker_restore_there folder s there in
      elim (Option-cases
        (d.restore s.host.containers (get_container_name service) (view (some folder)))) [
          | inl e ↦
              rw (answer ∙ e, dirty, size, e)
                (
                  refl,
                  containers-docker_checkpoint_running t d (get_container_name service)
                      (get_snapshot_name_pre "2" service) place _,
                )
          | inr (cs, e) ↦
              rw (answer ∙ e, dirty, size, e)
                (
                  refl,
                  containers-docker_checkpoint_running t d (get_container_name service)
                      (get_snapshot_name_pre "2" service) place _,
                )
        ]

  module _ (report : MigrationReport) (port : ℕ) (before small patch : Folder t.Content)
      (s : MigrateDest t d) (recorded : s.records (get_container_name service) ≡ some report)
      (listening : s.sockets (get_container_name service) ≡ some (some port))
      (by_delta : service.method ≡ "delta")
      (old : s.host.disk place (get_snapshot_name_pre "3" service) ≡ some before)
      (there : s.host.disk place (get_snapshot_delta service) ≡ some patch)
      (smalls : get_or (s.host.disk place service.snapshot) [] ≡ small) where
    open names-Distinct service use {snapshot-pre3, snapshot-delta}

    abbrev patched : MigrateDest t d
    patched =
        add_restored place (get_snapshot_name_pre "3" service) service.snapshot
          (get_snapshot_delta service)
          (record s { sockets = put s.sockets (get_container_name service) none })

    restored_snapshot :
        patched.host.disk place service.snapshot ≡ some (create_xdelta_patch t before small patch)
    restored_snapshot =
        simp (folder-patched, snapshot-pre3, snapshot-delta, eq_refl, old, there, smalls)

    same_patch : patched.host.disk place (get_snapshot_delta service) ≡ some patch
    same_patch = simp (folder-patched, snapshot-pre3, snapshot-delta, there)

    -- The move ends without an exception, with the container restored from the folder made of the
    -- transferred files and the difference, or started.
    pub handle_cmd_migrate-resumed :
        ((Dest.handle_cmd_migrate kwargs s).0 ≡ return tt)
        × ((Dest.handle_cmd_migrate kwargs s).1.host.containers
            ≡ get_or
                (d.restore s.host.containers
                  (get_container_name service)
                  (view (some (create_xdelta_patch t before small patch))))
                (d.start s.host.containers (get_container_name service)))
    unfolding Dest.handle_cmd_migrate
    handle_cmd_migrate-resumed =
        let test : (service.method == "delta") ≡ true = rw by_delta refl in
        let made =
          restore_folder-add_restored place (get_snapshot_name_pre "3" service) service.snapshot
            (get_snapshot_delta service) before
            (record s { sockets = put s.sockets (get_container_name service) none }) old in
        rw (described, recorded, listening, test, made)
          (resume_lem report port (create_xdelta_patch t before small patch) patch patched
            restored_snapshot same_patch)
