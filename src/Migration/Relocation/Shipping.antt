-- ===== src/Migration/Relocation/Shipping.antt =====
-- The preparation at the source (handle_cmd_prepare of migrate_source.py): what it leaves on the
-- two disks.
use mec_measurements.Prelude.{
  String, true, none, some, get_or, [], ◌≡◌, refl, eq_refl, ◌∙◌, ap, ◌==◌, if◌then◌else◌,
}
use mec_measurements.Effects.{return, Action, modify, skip, ◌>>◌}
use mec_measurements.Edge.MigrateNode.{
  MigrateNode, Kwargs, init, get_container_name, get_checkpoint_folder, get_migrate_service,
}
use mec_measurements.Migration.Names.{
  names-Distinct, get_snapshot_name_pre, get_snapshot_delta_between, get_snapshot_delta,
}
use mec_measurements.Migration.Files.{Folder, transfer}
use mec_measurements.Migration.DiffPatch.{Tools, create_xdelta_diff}
use mec_measurements.Migration.Commands.{Daemon, difference}
use mec_measurements.Migration.Commands.Laws.{
  folder-rsync, folder-diffed, folder-docker_checkpoint, measure_img_size-some,
}
use mec_measurements.Migration.State.{
  Ends, send_folder, take_checkpoint, add_diff, take_diff-add_diff, tell, prepare, prepared,
}
use mec_measurements.Migration.Source
use mec_measurements.Migration.Source.{small_files}

module _ (t : Tools) (d : Daemon t.Content) (kwargs : Kwargs) where
  abbrev pub service : MigrateNode
  service = init kwargs

  abbrev pub place : String
  place = get_checkpoint_folder service

  -- The state after the source's preparation.
  abbrev pub opened : Ends t d → Ends t d
  opened = Source.opened service

  abbrev pub with_second : Ends t d → Ends t d
  with_second w = send_folder none place (get_snapshot_name_pre "2" service) (opened w)

  abbrev pub with_third : Ends t d → Ends t d
  with_third w =
      take_checkpoint (get_container_name service) (get_snapshot_name_pre "3" service) place true
        (with_second w)

  abbrev pub with_diff : Ends t d → Ends t d
  with_diff w =
      add_diff place (get_snapshot_name_pre "2" service) (get_snapshot_name_pre "3" service)
        (get_snapshot_delta_between "2" "3" service)
        (send_folder small_files place (get_snapshot_name_pre "3" service) (with_third w))

  abbrev pub shipped : Ends t d → Ends t d
  shipped w = tell (prepare (get_migrate_service service)) (
      tell (prepared kwargs)
        (send_folder none place (get_snapshot_delta_between "2" "3" service) (with_diff w)))

  diff_there :
      (w : Ends t d)
      → (with_diff w).source.host.disk place (get_snapshot_delta_between "2" "3" service)
        ≡ some (
            get_or
              (difference t
                ((with_third w).source.host.disk place (get_snapshot_name_pre "2" service))
                ((with_third w).source.host.disk place (get_snapshot_name_pre "3" service)))
              [])
  diff_there w =
      folder-diffed t place (get_snapshot_name_pre "2" service) (get_snapshot_name_pre "3" service)
        (get_snapshot_delta_between "2" "3" service) (get_snapshot_delta_between "2" "3" service)
        (with_third w).source.host.disk (names-Distinct service).between-pre2
        (names-Distinct service).between-pre3
      ∙ rw (eq_refl (get_snapshot_delta_between "2" "3" service)) refl

  second_kept :
      (base : Folder t.Content) (w : Ends t d)
      → w.source.host.disk place (get_snapshot_name_pre "2" service) ≡ some base
      → (with_third w).source.host.disk place (get_snapshot_name_pre "2" service) ≡ some base
  second_kept base w b =
      folder-docker_checkpoint t d (get_container_name service) (get_snapshot_name_pre "3" service)
        place (with_second w).source.host (get_snapshot_name_pre "2" service) true
      ∙ rw (names-Distinct service).pre3-pre2 b

  -- What a preparation by differences does after it was opened.
  abbrev transfers : Action (Ends t d) (Unit {0})
  transfers =
      Source.transfers_prepared service
      >> modify (tell (prepared kwargs))
      >> modify (tell (prepare (get_migrate_service service)))

  transfers-shipped :
      (base : Folder t.Content) (w : Ends t d)
      → w.source.host.disk place (get_snapshot_name_pre "2" service) ≡ some base
      → transfers (opened w) ≡ (return tt, shipped w)
  transfers-shipped base w b =
      let second =
        measure_img_size-some t base (w.source.host.disk place (get_snapshot_name_pre "2" service))
          b in
      let made =
        take_diff-add_diff place (get_snapshot_name_pre "2" service)
          (get_snapshot_name_pre "3" service) (get_snapshot_delta_between "2" "3" service) base
          (send_folder small_files place (get_snapshot_name_pre "3" service) (with_third w))
          (second_kept base w b) in
      let third = measure_img_size-some t _ _ (diff_there w) in rw (second, made, third) refl

  pub handle_cmd_prepare-shipped :
      (base : Folder t.Content) (w : Ends t d)
      → w.source.method ≡ "delta"
      → w.source.host.disk place (get_snapshot_name_pre "2" service) ≡ some base
      → Source.handle_cmd_prepare kwargs w ≡ (return tt, shipped w)
  unfolding Source.handle_cmd_prepare
  handle_cmd_prepare-shipped base w m b =
      ap (λ method. if method == "delta" then transfers (opened w) else skip (opened w)) m
      ∙ transfers-shipped base w b

  module _ (base third : Folder t.Content) (w : Ends t d)
      (fresh : (name : String) → w.dest.host.disk place name ≡ none)
      (second_there : w.source.host.disk place (get_snapshot_name_pre "2" service) ≡ some base)
      (taken : d.checkpoint w.source.host.containers (get_container_name service)
        ≡ some third) where
    open names-Distinct service use {
      pre2-pre3, pre3-pre2, pre2-between, between-pre2, pre3-between, between-pre3, pre2-snapshot,
      pre3-snapshot, between-snapshot, pre2-delta, pre3-delta, between-delta,
    }

    pub kept_third :
        (shipped w).source.host.disk place (get_snapshot_name_pre "3" service) ≡ some third
    kept_third =
        simp (folder-diffed, folder-docker_checkpoint, eq_refl, between-pre2, between-pre3, taken)

    pub sent_second :
        (shipped w).dest.host.disk place (get_snapshot_name_pre "2" service)
        ≡ some (transfer (t.sends none) (λ i c. c) base [])
    sent_second = simp (folder-rsync, eq_refl, between-pre2, pre3-pre2, fresh, second_there)

    pub sent_third :
        (shipped w).dest.host.disk place (get_snapshot_name_pre "3" service)
        ≡ some (transfer (t.sends small_files) (λ i c. c) third [])
    sent_third =
        simp
          (folder-rsync, folder-docker_checkpoint, eq_refl, between-pre3, pre2-pre3, fresh, taken)

    pub sent_diff :
        (shipped w).dest.host.disk place (get_snapshot_delta_between "2" "3" service)
        ≡ some (transfer (t.sends none) (λ i c. c) (create_xdelta_diff t base third []) [])
    sent_diff = simp (
      folder-rsync,
      diff_there w,
      folder-docker_checkpoint,
      pre3-pre2,
      eq_refl,
      pre2-between,
      pre3-between,
      fresh,
      taken,
      second_there,
    )

    pub sent_no_snapshot : (shipped w).dest.host.disk place service.snapshot ≡ none
    sent_no_snapshot = simp (folder-rsync, between-snapshot, pre3-snapshot, pre2-snapshot, fresh)

    pub sent_no_delta : (shipped w).dest.host.disk place (get_snapshot_delta service) ≡ none
    sent_no_delta = simp (folder-rsync, between-delta, pre3-delta, pre2-delta, fresh)
