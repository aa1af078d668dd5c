-- ===== src/Database/Migrations/Laws.antt =====
-- The two reports of a migration meet in one row (central_database.py).
use mec_measurements.Prelude.{
  ℕ, ◌+◌, ◌≤◌, ◌<◌, Bool, true, false, none, some, List, [], ◌∷◌, ◌++◌, ◌≡◌, refl, filter, ltb, leb,
  eqb, arith, eq_refl, All, Bool-cases, inl, inr,
}
use mec_measurements.Prelude.Lists.Newest.{insert_newer, newest_first}
use mec_measurements.Platform.{Platform}
use mec_measurements.Database.Rows.{MigrateRecord, DbCentral}
use mec_measurements.Database.Migrations.{
  MigrateReport, update_migrate_record_source, update_migrate_record_dest, is_open, restored,
  with_row,
}

module _ {ℓ} {A : Type ℓ} where
  filter-append_kept :
      (keeps : A → Bool) (xs : List A) (x : A)
      → keeps x ≡ true
      → filter keeps (xs ++ x ∷ []) ≡ filter keeps xs ++ x ∷ []
  filter-append_kept keeps [] x h = rw h refl
  filter-append_kept keeps (y ∷ ys) x h = elim (Bool-cases (keeps y)) [
    | inl e ↦ rw (e, filter-append_kept keeps ys x h) refl
    | inr e ↦ rw (e, filter-append_kept keeps ys x h) refl
  ]

  All-filter :
      (P : A → Type 0) (keeps : A → Bool) (xs : List A) → All P xs → All P (filter keeps xs)
  All-filter P keeps [] h = h
  All-filter P keeps (x ∷ xs) h = elim (Bool-cases (keeps x)) [
    | inl e ↦ rw e (h.0, All-filter P keeps xs h.1)
    | inr e ↦ rw e (All-filter P keeps xs h.1)
  ]

  newest_first-append :
      (time : A → ℕ) (xs : List A) (x : A)
      → All (λ y. time y < time x) xs
      → (rest : List A) × (newest_first time (xs ++ x ∷ []) ≡ x ∷ rest)
  unfolding newest_first insert_newer
  newest_first-append time [] x h = ([], refl)
  newest_first-append time (y ∷ ys) x h =
      let ih = newest_first-append time ys x h.1 in
      let later : leb (time x) (time y) ≡ false = ground (arith, h.0) in
      (insert_newer time y ih.0, rw (ih.1, later) refl)

module _ ⦃p : Platform⦄ (now later timeout : ℕ) (r r' : MigrateReport) (db : DbCentral) where
  -- The row of the source's report.
  abbrev begun : MigrateRecord
  begun = record {
    timestamp = now;
    source = r.source;
    dest = r.dest;
    service = r.service;
    checkpoint = r.checkpoint;
    restore = none;
    xdelta_dest = r.xdelta_dest;
    size_pre_rsync = r.size_pre_rsync;
    size_rsync = r.size_rsync;
    size_final_rsync = r.size_final_rsync;
  }

  with_row-append :
      (m : MigrateRecord) (rows : List MigrateRecord)
      → All (λ row. row.timestamp < now) rows
      → m.timestamp ≡ now
      → with_row m (rows ++ begun ∷ []) ≡ rows ++ m ∷ []
  unfolding with_row
  with_row-append m [] h e = ground arith
  with_row-append m (row ∷ rows) h e =
      let other : eqb row.timestamp m.timestamp ≡ false = ground (arith, h.0, e) in
      rw (other, with_row-append m rows h.1 e) refl

  -- Of a migration whose source reports, at a later time than all the rows there, the report of the
  -- destination completes just that row if it comes in time, and leaves the other rows as they were.
  pub two_reports :
      All (λ row. row.timestamp < now) db.migrate_history
      → r'.source ≡ r.source
      → r'.dest ≡ r.dest
      → r'.service ≡ r.service
      → later ≤ now + timeout
      → update_migrate_record_dest later timeout r' (update_migrate_record_source now r db) ≡ (
        some (restored r' begun),
        record db { migrate_history = db.migrate_history ++ restored r' begun ∷ [] },
      )
  unfolding update_migrate_record_dest update_migrate_record_source is_open
  two_reports older s t v in_time =
      let fits : is_open r' begun ≡ true =
        rw (s, t, v, eq_refl r.source, eq_refl r.dest, eq_refl r.service) refl in
      let newest =
        newest_first-append (λ (m : MigrateRecord). m.timestamp)
          (filter (is_open r') db.migrate_history) begun
          (All-filter (λ m. m.timestamp < now) (is_open r') db.migrate_history older) in
      let early : ltb (now + timeout) later ≡ false = ground (arith, in_time) in
      rw
        (
          filter-append_kept (is_open r') db.migrate_history begun fits,
          newest.1,
          early,
          with_row-append (restored r' begun) db.migrate_history older refl,
        )
        refl
