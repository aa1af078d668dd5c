-- ===== src/Migration/Commands.antt =====
-- MigrateController (migrate_controller.py): the commands that the migration runs on a host's
-- containers and on its disk. A command that exits with another code than 0 gives none; the code
-- is then 1.
pub mod Laws
use mec_measurements.Prelude.{
  ℕ, ◌+◌, String, Bool, true, false, not, ◌&&◌, ◌||◌, is_some, Option, none, some, get_or, List, [],
  ◌∷◌, ◌≡◌, if◌then◌else◌,
}
use mec_measurements.Prelude.Dict.{Dict}
use mec_measurements.Effects.{Result, return, raise, runtime_error, os_error}
use mec_measurements.Migration.Files.{Folder, Disk, file_of, transfer, put_folder, remove_folder}
use mec_measurements.Migration.DiffPatch.{Tools, create_xdelta_diff, create_xdelta_patch}

-- The docker daemon of a host, outside the repository. `listed` is containers.list(all=True,
-- filters={'name': name}), the names of what it lists; `checkpoint` gives the files that
-- `docker checkpoint create` writes, and `stop` is what it does without `--leave-running`;
-- `restore` is `docker start` with a checkpoint, of which it sees the file at each name.
pub record Daemon (C : Type 0) : Type 1 where
  pub Containers : Type 0
  pub listed : Containers → String → List String
  pub running : Containers → String → Bool
  pub remove : Containers → String → Containers
  pub create :
      Containers
      → (image : Option String) (name : String) (container_port : Option ℕ) (host_port : ℕ)
      → Containers
  pub start : Containers → String → Containers
  pub restore : Containers → String → Option (Dict C) → Option Containers
  pub checkpoint : Containers → String → Option (Folder C)
  pub stop : Containers → String → Containers

-- What docker sees of a checkpoint's folder.
abbrev pub view : {C : Type 0} → Option (Folder C) → Option (Dict C)
view none = none
view (some files) = some (λ name. file_of name files)

module _ (t : Tools) where
  -- `du -sb`, which fails where the folder is missing
  unfoldable pub measure_img_size : Option (Folder t.Content) → Option ℕ
  measure_img_size none = none
  measure_img_size (some files) = some (t.du files)

  -- The difference of two folders, where both are there.
  abbrev pub difference : (old new : Option (Folder t.Content)) → Option (Folder t.Content)
  difference none new = none
  difference (some old) none = none
  difference (some old) (some new) = some (create_xdelta_diff t old new [])

  abbrev pub with_patch :
      String → String → Option (Folder t.Content) → Disk t.Content → ℕ × Disk t.Content
  with_patch place name none disk = (1, disk)
  with_patch place name (some files) disk = (0, put_folder place name files disk)

  -- What follows once the folder for the patch is made.
  unfoldable pub diffed : (place old new patch : String) → Disk t.Content → ℕ × Disk t.Content
  diffed place old new patch disk =
      let cleared = put_folder place patch [] (remove_folder place patch disk) in
      with_patch place patch (difference (cleared place old) (cleared place new)) cleared

  -- The checkpoint folder exists, as os.mkdir needs: one of the folders is in it, or it is there.
  abbrev is_place : (place old new patch : String) → Disk t.Content → Bool
  is_place place old new patch disk =
      is_some (disk place old)
      || is_some (disk place new)
      || is_some (disk place patch)
      || t.has_place disk place

  unfoldable pub compute_diff :
      (place old new patch : String) → Disk t.Content → Result ℕ × Disk t.Content
  unfolding diffed
  compute_diff place old new patch disk =
      let made = diffed place old new patch disk in
      if is_place place old new patch disk
      then (return made.0, made.1)
      else (raise os_error, remove_folder place patch disk)

  abbrev pub restored : (old new patch : Option (Folder t.Content)) → Option (Folder t.Content)
  restored none new p = none
  restored (some old) new none = none
  restored (some old) new (some p) = some (create_xdelta_patch t old (get_or new []) p)

  abbrev pub with_restored :
      String → String → Option (Folder t.Content) → Disk t.Content → Option ℕ × Disk t.Content
  with_restored place name none disk = (some 1, disk)
  with_restored place name (some files) disk = (none, put_folder place name files disk)

  -- What follows once the folder for the new files is there; the Python function returns None where
  -- it succeeds.
  unfoldable pub patched :
      (place old new patch : String) → Disk t.Content → Option ℕ × Disk t.Content
  patched place old new patch disk =
      let made = put_folder place new (get_or (disk place new) []) disk in
      with_restored place new (restored (made place old) (made place new) (made place patch)) made

  unfoldable pub restore_diff :
      (place old new patch : String) → Disk t.Content → Result (Option ℕ) × Disk t.Content
  unfolding patched
  restore_diff place old new patch disk =
      let made = patched place old new patch disk in
      if is_place place old new patch disk then (return made.0, made.1) else (raise os_error, disk)

  abbrev pub received :
      Option (String × String)
      → Option (Folder t.Content)
      → String
      → String
      → Disk t.Content
      → Disk t.Content
  received filter none place name disk = disk
  received filter (some files) place name disk =
      put_folder place name
        (transfer (t.sends filter) (λ i c. c) files (get_or (disk place name) [])) disk

  -- rsync -az of a folder into a place of another disk; without an exclude pattern the filter is none
  unfoldable pub rsync :
      Option (String × String)
      → (place name : String) → (source dest : Disk t.Content) → Disk t.Content
  rsync filter place name source dest = received filter (source place name) place name dest

  module _ (d : Daemon t.Content) where
    -- A host: its containers and its disk.
    pub record Host : Type 0 where
      pub containers : d.Containers
      pub disk : Disk t.Content

    abbrev pub dumped :
        (container name place : String)
        → (leave_running : Bool) → Option (Folder t.Content)
        → Host
        → ℕ × Host
    dumped container name place leave_running none host = (1, host)
    dumped container name place leave_running (some files) host = (
      0,
      record host {
        containers = if leave_running then host.containers else d.stop host.containers container;
        disk = put_folder place name files host.disk;
      },
    )

    unfoldable pub docker_checkpoint :
        (container name place : String) → (leave_running : Bool) → Host → ℕ × Host
    docker_checkpoint container name place leave_running host =
        dumped container name place leave_running (d.checkpoint host.containers container)
          (record host { disk = remove_folder place name host.disk })

    abbrev pub cleared_first : List String → d.Containers → d.Containers
    cleared_first [] cs = cs
    cleared_first (first ∷ others) cs = d.remove cs first

    unfoldable pub docker_create_container :
        Option String → String → Option ℕ → ℕ → d.Containers → d.Containers
    docker_create_container image name container_port host_port cs =
        d.create (cleared_first (d.listed cs name) cs) image name container_port host_port

    abbrev pub removed_all : List String → d.Containers → d.Containers
    removed_all [] cs = cs
    removed_all (name ∷ names) cs = removed_all names (d.remove cs name)

    unfoldable pub docker_remove_container : String → d.Containers → d.Containers
    docker_remove_container name cs = removed_all (d.listed cs name) cs

    abbrev pub verified : List String → d.Containers → Result (Unit {0})
    verified [] cs = raise runtime_error
    verified (first ∷ others) cs = if d.running cs first then return tt else raise runtime_error

    unfoldable pub docker_verify : String → d.Containers → Result (Unit {0})
    docker_verify name cs = verified (d.listed cs name) cs

    unfoldable pub docker_restore : (container name place : String) → Host → Option d.Containers
    docker_restore container name place host =
        d.restore host.containers container (view (host.disk place name))

-- close_ssh_session: whether a handle is kept, by whether there is one and its process still runs
unfoldable pub close_ssh_session : Bool → Bool → Bool
close_ssh_session handle runs = handle && not runs
