-- ===== src/Migration/Relocation/Moving.antt =====
-- The move at the source (handle_cmd_migrate of migrate_source.py): what it leaves on the two disks
-- and in the source's containers.
use mec_measurements.Prelude.{String, Bool, false, none, some, get_or, [], ◌≡◌, refl, eq_refl, ◌∙◌}
use mec_measurements.Effects.{return}
use mec_measurements.Edge.MigrateNode.{
  MigrateNode, Kwargs, init, get_container_name, get_checkpoint_folder, get_migrate_service,
}
use mec_measurements.Edge.ControllerServer.State.{MigrationReport}
use mec_measurements.Migration.Names.{names-Distinct, get_snapshot_name_pre, get_snapshot_delta}
use mec_measurements.Migration.Files.{Folder, transfer}
use mec_measurements.Migration.DiffPatch.{Tools}
use mec_measurements.Migration.Commands.{Daemon, difference}
use mec_measurements.Migration.Commands.Laws.{
  folder-rsync, folder-diffed, folder-docker_checkpoint, measure_img_size-some, transferred,
}
use mec_measurements.Migration.State.{
  Ends, send_folder, take_checkpoint, add_diff, take_diff-add_diff, tell, enter, migrate,
  migrated_away, reported,
}
use mec_measurements.Migration.Source
use mec_measurements.Migration.Source.{small_files}

module _ (t : Tools) (d : Daemon t.Content) (kwargs : Kwargs) (runs : Bool) where
  abbrev service : MigrateNode
  service = init kwargs

  abbrev place : String
  place = get_checkpoint_folder service

  abbrev pub with_snapshot : Ends t d → Ends t d
  with_snapshot w = send_folder small_files place service.snapshot (
      take_checkpoint (get_container_name service) service.snapshot place false (enter "migrate" w))

  abbrev pub with_last_diff : Ends t d → Ends t d
  with_last_diff w =
      add_diff place (get_snapshot_name_pre "3" service) service.snapshot
        (get_snapshot_delta service) (with_snapshot w)

  abbrev pub moved : MigrationReport → Ends t d → Ends t d
  moved report w = Source.closed runs service (
      tell (reported report) (
        tell (migrated_away kwargs) (
          tell (migrate (get_migrate_service service))
            (send_folder none place (get_snapshot_delta service) (with_last_diff w)))))

  open names-Distinct service use {snapshot-pre3, delta-pre3, delta-snapshot, snapshot-delta}

  pub last_diff :
      (w : Ends t d)
      → (with_last_diff w).source.host.disk place (get_snapshot_delta service)
        ≡ some (
            get_or
              (difference t
                (w.source.host.disk place (get_snapshot_name_pre "3" service))
                (d.checkpoint w.source.host.containers (get_container_name service)))
              [])
  last_diff w =
      simp (
        folder-diffed, folder-docker_checkpoint, delta-pre3, delta-snapshot, snapshot-pre3, eq_refl,
      )

  third_kept :
      (third : Folder t.Content) (w : Ends t d)
      → w.source.host.disk place (get_snapshot_name_pre "3" service) ≡ some third
      → (with_snapshot w).source.host.disk place (get_snapshot_name_pre "3" service) ≡ some third
  third_kept third w kept =
      folder-docker_checkpoint t d (get_container_name service) service.snapshot place
        (enter "migrate" w).source.host (get_snapshot_name_pre "3" service) false
      ∙ rw snapshot-pre3 kept

  -- A move whose service was prepared, with its third checkpoint, ends without an exception.
  pub handle_cmd_migrate-moved :
      (report : MigrationReport) (third : Folder t.Content) (w : Ends t d)
      → w.source.records (get_container_name service) ≡ some report
      → w.source.host.disk place (get_snapshot_name_pre "3" service) ≡ some third
      → Source.handle_cmd_migrate runs kwargs w ≡ (return tt, moved report w)
  unfolding Source.handle_cmd_migrate
  handle_cmd_migrate-moved report third w recorded kept =
      let made =
        take_diff-add_diff place (get_snapshot_name_pre "3" service) service.snapshot
          (get_snapshot_delta service) third (with_snapshot w) (third_kept third w kept) in
      let size = measure_img_size-some t _ _ (last_diff w) in rw (recorded, made, size) refl

  module _ (report : MigrationReport) (third : Folder t.Content) (w : Ends t d)
      (kept : w.source.host.disk place (get_snapshot_name_pre "3" service) ≡ some third)
      (no_snapshot : w.dest.host.disk place service.snapshot ≡ none)
      (no_delta : w.dest.host.disk place (get_snapshot_delta service) ≡ none) where
    pub sent_snapshot :
        (moved report w).dest.host.disk place service.snapshot
        ≡ transferred t small_files
            (d.checkpoint w.source.host.containers (get_container_name service))
            none
    sent_snapshot =
        simp (folder-rsync, folder-docker_checkpoint, eq_refl, delta-snapshot, no_snapshot)

    pub sent_last_diff :
        (moved report w).dest.host.disk place (get_snapshot_delta service)
        ≡ some (
            transfer
              (t.sends none)
              (λ i c. c)
              (get_or
                (difference t
                  (some third)
                  (d.checkpoint w.source.host.containers (get_container_name service)))
                [])
              [])
    sent_last_diff = simp (folder-rsync, last_diff w, kept, snapshot-delta, eq_refl, no_delta)

    pub same_third :
        (moved report w).dest.host.disk place (get_snapshot_name_pre "3" service)
        ≡ w.dest.host.disk place (get_snapshot_name_pre "3" service)
    same_third = simp (folder-rsync, delta-pre3, snapshot-pre3)
