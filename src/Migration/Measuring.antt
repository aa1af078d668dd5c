-- ===== src/Migration/Measuring.antt =====
-- What the two checkpoints before a migration measure (handle_cmd_pre_measure and
-- handle_cmd_measure_dirty of migrate_source.py).
use mec_measurements.Prelude.{ℕ, String, true, some, [], ◌∷◌, ◌++◌, ◌≡◌, refl, eq_refl}
use mec_measurements.Effects.{return}
use mec_measurements.Edge.MigrateNode.{
  MigrateNode, Kwargs, init, get_container_name, get_checkpoint_folder,
}
use mec_measurements.Migration.Names.{
  names-Measured, get_snapshot_name_pre, get_snapshot_delta_between,
}
use mec_measurements.Migration.Files.{Folder}
use mec_measurements.Migration.DiffPatch.{Tools, create_xdelta_diff}
use mec_measurements.Migration.Commands.{Daemon, docker_verify}
use mec_measurements.Migration.Commands.Laws.{
  folder-diffed, folder-docker_checkpoint, measure_img_size-some,
}
use mec_measurements.Migration.State.{
  Ends, on_source, dirty_rate, enter, take_checkpoint, add_diff, take_diff-add_diff,
}
use mec_measurements.Migration.Source
use mec_measurements.Migration.Source.{with_sizes}

module _ (t : Tools) (d : Daemon t.Content) (kwargs : Kwargs) (checkpoint_time delta_time : ℕ)
    (works : d.Containers → d.Containers) (first second : Folder t.Content) (w : Ends t d) where
  abbrev pub service : MigrateNode
  service = init kwargs

  abbrev pub place : String
  place = get_checkpoint_folder service

  abbrev pub container : String
  container = get_container_name service

  -- The states after the first checkpoint, some work of the container, and the second.
  abbrev pub started : Ends t d
  started =
      take_checkpoint container (get_snapshot_name_pre "1" service) place true
        (enter "pre_measure" w)

  abbrev pub worked : Ends t d
  worked = on_source (λ host. record host { containers = works host.containers }) started

  abbrev pub compared : Ends t d
  compared =
      add_diff place (get_snapshot_name_pre "1" service) (get_snapshot_name_pre "2" service)
        (get_snapshot_delta_between "1" "2" service)
        (take_checkpoint container (get_snapshot_name_pre "2" service) place true
          (enter "measure" worked))

  open names-Measured service use {pre2-pre1, between-pre1, between-pre2}

  module _ (runs : docker_verify t d container w.source.host.containers ≡ return tt)
      (taken : d.checkpoint w.source.host.containers container ≡ some first)
      (taken_again : d.checkpoint worked.source.host.containers container ≡ some second) where
    dirty_pages :
        compared.source.host.disk place (get_snapshot_delta_between "1" "2" service)
        ≡ some (create_xdelta_diff t first second [])
    dirty_pages = simp (
      folder-diffed, folder-docker_checkpoint, pre2-pre1, between-pre1, between-pre2, eq_refl,
      taken, taken_again,
    )

    first_kept :
        (take_checkpoint container
            (get_snapshot_name_pre "2" service)
            place
            true
            (enter "measure" worked)).source.host.disk
          place
          (get_snapshot_name_pre "1" service)
        ≡ some first
    first_kept = simp (folder-docker_checkpoint, pre2-pre1, eq_refl, taken)

    second_kept : compared.source.host.disk place (get_snapshot_name_pre "2" service) ≡ some second
    second_kept =
        simp (
          folder-diffed, folder-docker_checkpoint, between-pre1, between-pre2, eq_refl, taken_again,
        )

    -- For a container that runs and of which both checkpoints can be taken, the two measurements end
    -- without an exception, and the report tells what `du -sb` counts of the difference of the second
    -- checkpoint from the first and of the second, with the other arguments as they were.
    pub measurement-reports :
        (Source.handle_cmd_pre_measure kwargs w ≡ (return tt, started))
        × ((Source.handle_cmd_measure_dirty checkpoint_time delta_time kwargs worked).0 ≡ return tt)
        × ((Source.handle_cmd_measure_dirty checkpoint_time delta_time kwargs worked).1.source.sent
            ≡ w.source.sent
              ++ dirty_rate (
                  with_sizes checkpoint_time delta_time
                    (t.du (create_xdelta_diff t first second []))
                    (t.du second)
                    kwargs)
                ∷ [])
    unfolding Source.handle_cmd_pre_measure Source.handle_cmd_measure_dirty
    measurement-reports =
        let dirty = measure_img_size-some t (create_xdelta_diff t first second []) _ dirty_pages in
        let size = measure_img_size-some t second _ second_kept in
        let made =
          take_diff-add_diff place (get_snapshot_name_pre "1" service)
            (get_snapshot_name_pre "2" service) (get_snapshot_delta_between "1" "2" service) first
            (take_checkpoint container (get_snapshot_name_pre "2" service) place true
              (enter "measure" worked))
            first_kept in
        (rw runs refl, rw (made, dirty, size) refl, rw (made, dirty, size) refl)
