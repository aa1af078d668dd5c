-- ===== src/Examples/Recording.antt =====
-- The theorems on the history in the database, applied.
use mec_measurements.Prelude.{ℕ, none, some, List, [], ◌∷◌, ◌≡◌, refl, All, arith}
use mec_measurements.Prelude.Lists.Newest.{newest_first, insert_newer, limit}
use mec_measurements.Prelude.Lists.Newest.Laws.{IsNewest}
use mec_measurements.Database.Rows.{NetworkRecord, MigrateRecord, EdgeServerInfo, DbCentral}
use mec_measurements.Database.History.{between, query_bw, query_rtt, recent, average}
use mec_measurements.Database.History.Laws.{IsPath, IsAveraged, query-IsNewest}
use mec_measurements.Database.Migrations.{
  MigrateReport, update_migrate_record_source, update_migrate_record_dest,
}
use mec_measurements.Database.Migrations.Laws.{two_reports}
use mec_measurements.Database.Containers.{Sizes, estimate_to, estimate_all}
use mec_measurements.Database.Containers.Laws.{IsEstimated, estimate_all-IsEstimated}
use mec_measurements.Examples.{sample, a_db, a_server}

abbrev record_at : ℕ → ℕ → NetworkRecord ⦃p = sample⦄
record_at time bw = record {
  timestamp = time;
  src_node = some "edge01";
  dest_node = some "edge02";
  latency = 30;
  bw = bw;
}

abbrev busy_db : DbCentral ⦃p = sample⦄
busy_db = record a_db { network_monitor = record_at 5 200 ∷ record_at 9 400 ∷ record_at 7 300 ∷ [] }

query-IsNewest_example :
    (rows : List (NetworkRecord ⦃p = sample⦄)) × (taken : List (NetworkRecord ⦃p = sample⦄))
    × IsPath ⦃p = sample⦄ (some "edge01") (some "edge02") (busy_db.network_monitor) rows
    × IsNewest (λ r. r.timestamp) 2 rows taken
    × IsAveraged ⦃p = sample⦄ taken
        (query_bw ⦃p = sample⦄ busy_db (some "edge01") (some "edge02") 2)
        (query_rtt ⦃p = sample⦄ busy_db (some "edge01") (some "edge02") 2)
query-IsNewest_example = query-IsNewest ⦃p = sample⦄ busy_db (some "edge01") (some "edge02") 2

abbrev a_report : MigrateReport ⦃p = sample⦄
a_report = record {
  source = "edge01";
  dest = "edge02";
  service = "openfaceu";
  prepare = some 40;
  checkpoint = some 20;
  restore = none;
  xdelta_dest = none;
  size_pre_rsync = some 3000;
  size_rsync = some 400;
  size_final_rsync = some 500;
}

abbrev dest_report : MigrateReport ⦃p = sample⦄
dest_report = record a_report { restore = some 15; xdelta_dest = some 6 }

abbrev finished : MigrateRecord ⦃p = sample⦄
finished = record {
  timestamp = 10;
  source = "edge01";
  dest = "edge02";
  service = "openfaceu";
  checkpoint = some 20;
  restore = some 15;
  xdelta_dest = some 6;
  size_pre_rsync = some 3000;
  size_rsync = some 400;
  size_final_rsync = some 500;
}

two_reports_example :
    update_migrate_record_dest ⦃p = sample⦄ 30 60 dest_report
      (update_migrate_record_source ⦃p = sample⦄ 10 a_report a_db)
    ≡ (some finished, record a_db { migrate_history = finished ∷ [] })
two_reports_example =
    two_reports ⦃p = sample⦄ 10 30 60 a_report dest_report a_db tt refl refl refl (omega arith)

abbrev other_server : EdgeServerInfo ⦃p = sample⦄
other_server = record a_server {
  name = "edge02";
  core_cpu = some 4;
  max_cpu = some 1000;
  rho = some 10;
}

abbrev sizes : Sizes
sizes = record { container = 30; delta = 2000000; checkpoint = 5000000; xdelta_time = 2 }

abbrev estimated : DbCentral ⦃p = sample⦄
estimated = (estimate_all ⦃p = sample⦄ "u" "edge01" 5 sizes (other_server ∷ []) busy_db).1

estimate_all-IsEstimated_example :
    All (IsEstimated ⦃p = sample⦄ "u" "edge01" 5 sizes busy_db estimated) (other_server ∷ [])
unfolding estimate_all estimate_to query_bw recent between newest_first insert_newer limit average
estimate_all-IsEstimated_example =
    estimate_all-IsEstimated ⦃p = sample⦄ "u" "edge01" 5 sizes (other_server ∷ []) busy_db estimated
      (refl, tt, tt) refl
