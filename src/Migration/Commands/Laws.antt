-- ===== src/Migration/Commands/Laws.antt =====
-- What each command of MigrateController (migrate_controller.py) leaves in the folders of the place
-- that it works on.
use mec_measurements.Prelude.{
  String, Bool, true, false, Option, none, some, get_or, is_some, [], ◌≡◌, refl, ◌==◌,
  if◌then◌else◌, arith, eq_refl, eq_iff, Bool-cases, Option-cases, inl, inr, ap, sym, ◌∙◌,
}
use mec_measurements.Migration.Files.{
  Folder, Disk, transfer, put_folder, remove_folder, folder-put_folder, folder-remove_folder,
}
use mec_measurements.Migration.DiffPatch.{Tools}
use mec_measurements.Migration.Commands.{
  Daemon, Host, rsync, received, docker_checkpoint, diffed, difference, with_patch, patched,
  restored, with_restored, measure_img_size,
}

if_if :
    {A : Type 0} (b : Bool) (x y z : A)
    → (if b then x else if b then y else z) ≡ (if b then x else z)
if_if true x y z = refl
if_if false x y z = refl

at_name :
    {A : Type 0} (f : String → A) (name other : String) (a : A)
    → f name ≡ a
    → f other ≡ (if name == other then a else f other)
at_name f name other a h = elim (Bool-cases (name == other)) [
  | inl e ↦ rw e (ap f (sym ((eq_iff name other).0 e)) ∙ h)
  | inr e ↦ rw e refl
]

module _ (t : Tools) where
  -- What a transfer makes of the folder that was there.
  abbrev pub transferred :
      Option (String × String)
      → Option (Folder t.Content)
      → Option (Folder t.Content)
      → Option (Folder t.Content)
  transferred filter none old = old
  transferred filter (some files) old =
      some (transfer (t.sends filter) (λ i c. c) files (get_or old []))

  folder-received :
      (filter : Option (String × String)) (files : Option (Folder t.Content))
      (place name other : String) (dest : Disk t.Content)
      → received t filter files place name dest place other
        ≡ (if name == other then transferred filter files (dest place name) else dest place other)
  folder-received filter none place name other dest =
      at_name (dest place) name other (dest place name) refl
  folder-received filter (some files) place name other dest =
      folder-put_folder place name other
        (transfer (t.sends filter) (λ i c. c) files (get_or (dest place name) [])) dest

  pub folder-rsync :
      (filter : Option (String × String)) (place name other : String) (source dest : Disk t.Content)
      → rsync t filter place name source dest place other ≡ (
          if name == other
          then transferred filter (source place name) (dest place name)
          else dest place other)
  unfolding rsync
  folder-rsync filter place name other source dest =
      folder-received filter (source place name) place name other dest

  folder-with_patch :
      (place patch other : String) (files : Option (Folder t.Content)) (disk : Disk t.Content)
      → disk place patch ≡ some []
      → (with_patch t place patch files disk).1 place other
        ≡ (if patch == other then some (get_or files []) else disk place other)
  folder-with_patch place patch other none disk e = at_name (disk place) patch other (some []) e
  folder-with_patch place patch other (some files) disk e =
      folder-put_folder place patch other files disk

  folder-with_restored :
      (place name other : String) (kept : Folder t.Content) (files : Option (Folder t.Content))
      (disk : Disk t.Content)
      → disk place name ≡ some kept
      → (with_restored t place name files disk).1 place other
        ≡ (if name == other then some (get_or files kept) else disk place other)
  folder-with_restored place name other kept none disk e =
      at_name (disk place) name other (some kept) e
  folder-with_restored place name other kept (some files) disk e =
      folder-put_folder place name other files disk

  pub folder-diffed :
      (place old new patch other : String) (disk : Disk t.Content)
      → (patch == old) ≡ false
      → (patch == new) ≡ false
      → (diffed t place old new patch disk).1 place other ≡ (
          if patch == other
          then some (get_or (difference t (disk place old) (disk place new)) [])
          else disk place other)
  unfolding diffed
  folder-diffed place old new patch other disk p q =
      let gone : Disk t.Content = remove_folder place patch disk in
      let cleared : Disk t.Content = put_folder place patch [] gone in
      let cleared_at = λ (j : String). folder-put_folder place patch j [] gone in
      let same_at : (j : String) → (patch == j) ≡ false → cleared place j ≡ disk place j =
        λ j ne. rw (cleared_at j, folder-remove_folder place patch j disk, ne) refl in
      let made =
        folder-with_patch place patch other (difference t (cleared place old) (cleared place new))
          cleared (rw (cleared_at patch, eq_refl patch) refl) in
      made
      ∙ rw
          (
            same_at old p,
            same_at new q,
            cleared_at other,
            folder-remove_folder place patch other disk,
          )
          (if_if (patch == other) _ _ _ ∙ if_if (patch == other) _ _ _)

  pub folder-patched :
      (place old new patch other : String) (disk : Disk t.Content)
      → (new == old) ≡ false
      → (new == patch) ≡ false
      → (patched t place old new patch disk).1 place other ≡ (
          if new == other
          then some (
              get_or
                (restored t (disk place old) (some (get_or (disk place new) [])) (disk place patch))
                (get_or (disk place new) []))
          else disk place other)
  unfolding patched
  folder-patched place old new patch other disk p q =
      let kept : Folder t.Content = get_or (disk place new) [] in
      let made : Disk t.Content = put_folder place new kept disk in
      let made_at = λ (j : String). folder-put_folder place new j kept disk in
      let same_at : (j : String) → (new == j) ≡ false → made place j ≡ disk place j =
        λ j ne. rw (made_at j, ne) refl in
      let here : made place new ≡ some kept = rw (made_at new, eq_refl new) refl in
      folder-with_restored place new other kept
        (restored t (made place old) (made place new) (made place patch)) made here
      ∙ rw (same_at old p, same_at patch q, here, made_at other) (if_if (new == other) _ _ _)

  module _ (d : Daemon t.Content) (container name place : String) (host : Host t d) where
    pub folder-docker_checkpoint :
        (other : String) (leave_running : Bool)
        → (docker_checkpoint t d container name place leave_running host).1.disk place other ≡ (
            if name == other then d.checkpoint host.containers container else host.disk place other)
    unfolding docker_checkpoint put_folder remove_folder
    folder-docker_checkpoint other leave_running =
        ground (arith, eq_refl place, Option-cases (d.checkpoint host.containers container))

    pub containers-docker_checkpoint_running :
        (docker_checkpoint t d container name place true host).1.containers ≡ host.containers
    unfolding docker_checkpoint
    containers-docker_checkpoint_running =
        elim (Option-cases (d.checkpoint host.containers container)) [
          | inl e ↦ rw (docker_checkpoint, e) refl
          | inr (files, e) ↦ rw (docker_checkpoint, e) refl
        ]

pub measure_img_size-some :
    (t : Tools) (files : Folder t.Content) (o : Option (Folder t.Content))
    → o ≡ some files
    → measure_img_size t o ≡ some (t.du files)
unfolding measure_img_size
measure_img_size-some t files o e = rw e refl

pub containers-docker_checkpoint_stopping :
    (t : Tools) (d : Daemon t.Content) (container name place : String) (host : Host t d)
    → (docker_checkpoint t d container name place false host).1.containers ≡ (
        if is_some (d.checkpoint host.containers container)
        then d.stop host.containers container
        else host.containers)
unfolding docker_checkpoint
containers-docker_checkpoint_stopping t d container name place host =
    elim (Option-cases (d.checkpoint host.containers container)) [
      | inl e ↦ rw (docker_checkpoint, e) refl
      | inr (files, e) ↦ rw (docker_checkpoint, e) refl
    ]
