-- ===== src/Migration/Files.antt =====
-- What the migration keeps on disk: folders of plain files. A listing gives the files of a folder in
-- some order, and a disk gives the folders in a service's checkpoint folder.
use mec_measurements.Prelude.{
  String, Bool, Option, none, some, List, [], ◌∷◌, ◌≡◌, refl, ◌==◌, if◌then◌else◌, arith, eq_iff,
  eq_refl,
}
use mec_measurements.Prelude.Dict.{Dict, put, remove}

abbrev pub Folder : Type 0 → Type 0
Folder C = List (String × C)

-- A folder's name in a checkpoint folder, by the checkpoint folder.
abbrev pub Disk : Type 0 → Type 0
Disk C = String → Dict (Folder C)

module _ {C : Type 0} where
  unfoldable pub file_of : String → Folder C → Option C
  file_of name [] = none
  file_of name ((other, c) ∷ files) = if other == name then some c else file_of name files

  -- A file is written: it is replaced where there is one.
  unfoldable pub write : String → C → Folder C → Folder C
  write name c [] = (name, c) ∷ []
  write name c ((other, old) ∷ files) =
      if other == name then (other, c) ∷ files else (other, old) ∷ write name c files

  pub file_of-write :
      (name j : String) (c : C) (files : Folder C)
      → file_of j (write name c files) ≡ (if name == j then some c else file_of j files)
  unfolding file_of write
  file_of-write name j c [] = refl
  file_of-write name j c ((other, old) ∷ files) =
      ground (arith, eq_iff other name, eq_iff other j, eq_iff name j, file_of-write name j c files)

  -- The files of a folder that pass the test go into another folder, each as it was or worked on.
  unfoldable pub transfer : (String → Bool) → (String → C → C) → Folder C → Folder C → Folder C
  transfer keeps work [] target = target
  transfer keeps work ((name, c) ∷ files) target =
      let rest = transfer keeps work files target in
      if keeps name then write name (work name c) rest else rest

  -- os.mkdir, or a folder that is written whole
  unfoldable pub put_folder : String → String → Folder C → Disk C → Disk C
  put_folder place name files disk p = if place == p then put (disk p) name files else disk p

  -- shutil.rmtree(place/name, ignore_errors=True)
  unfoldable pub remove_folder : String → String → Disk C → Disk C
  remove_folder place name disk p = if place == p then remove (disk p) name else disk p

  -- shutil.rmtree(place, ignore_errors=True)
  unfoldable pub remove_place : String → Disk C → Disk C
  remove_place place disk p name = if place == p then none else disk p name

  pub folder-put_folder :
      (place name other : String) (files : Folder C) (disk : Disk C)
      → put_folder place name files disk place other
        ≡ (if name == other then some files else disk place other)
  unfolding put_folder
  folder-put_folder place name other files disk = ground (arith, eq_refl place)

  pub folder-remove_folder :
      (place name other : String) (disk : Disk C)
      → remove_folder place name disk place other
        ≡ (if name == other then none else disk place other)
  unfolding remove_folder
  folder-remove_folder place name other disk = ground (arith, eq_refl place)

  -- A file that is worked on.
  abbrev pub worked : (String → C → C) → String → Option C → Option C → Option C
  worked work name none old = old
  worked work name (some c) old = some (work name c)

  -- What a transfer leaves at each name.
  pub file_of-transfer :
      (keeps : String → Bool) (work : String → C → C) (j : String) (source target : Folder C)
      → file_of j (transfer keeps work source target) ≡ (
          if keeps j then worked work j (file_of j source) (file_of j target) else file_of j target)
  unfolding transfer file_of
  file_of-transfer keeps work j [] target = ground arith
  file_of-transfer keeps work j ((name, c) ∷ files) target = ground (
    arith,
    file_of-transfer keeps work j files target,
    file_of-write name j (work name c) (transfer keeps work files target),
    eq_iff name j,
  )
