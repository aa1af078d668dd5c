-- ===== src/Migration/Relocation/Contents.antt =====
-- The files that reach the destination: what two rounds of differences (diff_patch.py) and the
-- transfers of the small files make of a checkpoint.
use mec_measurements.Prelude.{
  String, true, false, not, ◌||◌, Option, none, some, is_some, get_or, [], ◌≡◌, refl, if◌then◌else◌,
  arith, Option-cases, Bool-cases, fun_ext, sym, ap,
}
use mec_measurements.Migration.Names.{contains, ends_with}
use mec_measurements.Migration.Files.{Folder, file_of, transfer, file_of-transfer}
use mec_measurements.Migration.DiffPatch.{
  Tools, IsDocumented, create_xdelta_diff, create_xdelta_patch,
}
use mec_measurements.Migration.DiffPatch.Laws.{restore-diff}
use mec_measurements.Migration.Commands.{difference, view}
use mec_measurements.Migration.Commands.Laws.{transferred}
use mec_measurements.Migration.Source.{small_files}

-- Every packed archive of the folder is a file that the transfer of the small files takes. (A file
-- whose name has "tar.gz.img" in it and ends in ".img" in another way travels neither way.)
abbrev pub IsCarried : {C : Type 0} → Folder C → Type 0
IsCarried files =
    (name : String)
    → is_some (file_of name files) ≡ true
    → contains "tar.gz.img" name ≡ true
    → (ends_with ".tar.gz.img" name || not (ends_with ".img" name)) ≡ true

module _ (t : Tools) (doc : IsDocumented t) where
  -- The copy of a folder that is sent whole.
  abbrev pub copied : Folder t.Content → Folder t.Content
  copied files = transfer (t.sends none) (λ i c. c) files []

  abbrev pub small : Folder t.Content → Folder t.Content
  small files = transfer (t.sends small_files) (λ i c. c) files []

  file_of-copied :
      (files : Folder t.Content) (name : String) → file_of name (copied files) ≡ file_of name files
  unfolding file_of
  file_of-copied files name = ground (
    arith,
    file_of-transfer (t.sends none) (λ (i : String) (c : t.Content). c) name files [],
    doc.sends_all name,
    Option-cases (file_of name files),
  )

  file_of-small :
      (files : Folder t.Content) (name : String)
      → file_of name (small files) ≡ (
          if ends_with ".tar.gz.img" name || not (ends_with ".img" name)
          then file_of name files
          else none)
  unfolding file_of
  file_of-small files name = ground (
    arith,
    file_of-transfer (t.sends small_files) (λ (i : String) (c : t.Content). c) name files [],
    doc.sends_small name,
    Option-cases (file_of name files),
  )

  module _ (base third : Folder t.Content) where
    abbrev pub third_there : Folder t.Content
    third_there =
        create_xdelta_patch t (copied base) (small third)
          (copied (create_xdelta_diff t base third []))

    -- The files that are compared, once the destination is prepared.
    third_arrives :
        (name : String)
        → contains "tar.gz.img" name ≡ false
        → file_of name third_there ≡ file_of name third
    third_arrives name plain =
        let whole =
          restore-diff t doc base (copied base) third (small third)
            (copied (create_xdelta_diff t base third [])) name (λ h. sym (file_of-copied base name))
            (file_of-copied (create_xdelta_diff t base third []) name) in
        ground (arith, whole, plain, file_of-small third name, Option-cases (file_of name third))

    -- The folder that the destination restores the container from.
    abbrev pub snapshot_there : Option (Folder t.Content) → Folder t.Content
    snapshot_there final =
        create_xdelta_patch t third_there (get_or (transferred t small_files final none) [])
          (copied (get_or (difference t (some third) final) []))

    file_arrives :
        (files : Folder t.Content) (name : String)
        → IsCarried files
        → file_of name (snapshot_there (some files)) ≡ file_of name files
    file_arrives files name carried =
        let whole =
          restore-diff t doc third third_there files (small files)
            (copied (create_xdelta_diff t third files [])) name
            (λ plain. sym (third_arrives name plain))
            (file_of-copied (create_xdelta_diff t third files []) name) in
        ground (
          arith,
          whole,
          file_of-small files name,
          carried name,
          Option-cases (file_of name files),
          Bool-cases (contains "tar.gz.img" name),
        )

    -- A checkpoint arrives with its files, and one that could not be taken is an empty folder.
    pub snapshot_arrives :
        (final : Option (Folder t.Content))
        → IsCarried (get_or final [])
        → view (some (snapshot_there final)) ≡ view (some (get_or final []))
    unfolding create_xdelta_patch transfer
    snapshot_arrives none carried = refl
    snapshot_arrives (some files) carried =
        ap some (fun_ext λ name. file_arrives files name carried)
