-- ===== src/Migration/DiffPatch/Laws.antt =====
-- A folder restored from its difference (diff_patch.py).
use mec_measurements.Prelude.{
  String, true, false, or_else, [], ◌≡◌, refl, if◌then◌else◌, arith, Option-cases, Bool-cases, inl,
  inr,
}
use mec_measurements.Migration.Names.{contains}
use mec_measurements.Migration.Files.{Folder, file_of, file_of-transfer}
use mec_measurements.Migration.DiffPatch.{
  Tools, IsDocumented, xdelta_delta, xdelta_patch, create_xdelta_diff, create_xdelta_patch,
  is_compared,
}

module _ (t : Tools) (doc : IsDocumented t) where
  open t use {Content, delta, patch}

  xdelta_patch-xdelta_delta :
      (old old' : Folder Content) (name : String) (new : Content)
      → file_of name old ≡ file_of name old'
      → xdelta_patch t old' name (xdelta_delta t old name new) ≡ new
  unfolding xdelta_patch xdelta_delta
  xdelta_patch-xdelta_delta old old' name new e =
      elim (Option-cases (delta (file_of name old) new)) [
        | inl f ↦ rw (f, ← e) (rw (doc.patch-raw (file_of name old) new f) refl)
        | inr (p, f) ↦ rw (f, ← e) (rw (doc.patch-delta (file_of name old) new p f) refl)
      ]

  -- A folder that is restored from a copy of the difference of `new` from `old`, against a folder
  -- that agrees with `old` at a name that is compared, has there the file of `new`, whether it was
  -- compared or had to be copied; the files of packed archives, which are not compared, and those
  -- that `new` does not have stay as they were.
  pub restore-diff :
      (old old' new target p : Folder Content) (name : String)
      → (contains "tar.gz.img" name ≡ false → file_of name old ≡ file_of name old')
      → file_of name p ≡ file_of name (create_xdelta_diff t old new [])
      → file_of name (create_xdelta_patch t old' target p) ≡ (
          if contains "tar.gz.img" name
          then file_of name target
          else or_else (file_of name new) (file_of name target))
  unfolding create_xdelta_patch create_xdelta_diff is_compared file_of
  restore-diff old old' new target p name e g =
      let made = file_of-transfer is_compared (xdelta_delta t old) name new [] in
      let applied = file_of-transfer (λ (i : String). true) (xdelta_patch t old') name p target in
      elim (Option-cases (file_of name new)) [
        | inl f ↦ ground (arith, applied, made, f, g)
        | inr (c, f) ↦ elim (Bool-cases (contains "tar.gz.img" name)) [
          | inl packed ↦ ground (arith, applied, made, f, packed, g)
          | inr plain ↦ ground (
            arith,
            applied,
            made,
            f,
            plain,
            g,
            xdelta_patch-xdelta_delta old old' name c (e plain),
          )
        ]
      ]
