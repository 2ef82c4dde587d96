-- ===== src/Scans/Finalize.antt =====
-- apps/api/src/iceberg_api/scans/service.py: `finalize_and_reconcile`, which ends a scan, freezes its
-- manifest, and reconciles on complete coverage only; all in one transaction.
pub mod Guarded
use iceberg_sst.Prelude.{
  ℕ, Bool, true, false, ◌&&◌, Option, none, some, List, [], ◌∷◌, ◌++◌, String, ◌==◌, nat_eq,
  if◌then◌else◌, find?,
}
use iceberg_sst.Prelude.Rows.{update_where}
use iceberg_sst.Enums.{
  ScanStatus, ScanMode, full, CoverageState, scan_status_eq, scan_mode_eq, coverage_state_eq,
}
use iceberg_sst.Models.{Uuid, Datetime, Finding, FindingEvent}
use iceberg_sst.Models.Json.{Json}
use iceberg_sst.Models.Coverage.{CoverageManifest}
use iceberg_sst.Models.Runs.{Scan, ScanTask}
use iceberg_sst.Models.Sources.{SourceCursor}
use iceberg_sst.Models.Notifications.{NotificationChannel, NotificationDelivery}
use iceberg_sst.Scans.Tasks.{Tables}
use iceberg_sst.Scans.Coverage.{Checked, passed, validation_error, phases_disagree, ReportJson}
use iceberg_sst.Scans.Manifest.{build_manifest}
use iceberg_sst.Scans.Finish.{tasks_of, finalize_scan_if_done}
use iceberg_sst.Scans.Reconcile.{Reconciled, reconcile_scan}
use iceberg_sst.Scans.Cursors.{commit_proposals}
use iceberg_sst.Notifications.Outbox.{enqueue_for_scan}

-- The tables that the end of a scan reads and writes.
pub record Database : Type 0 where
  pub tables : Tables
  pub findings : List Finding
  pub events : List FindingEvent
  pub cursors : List SourceCursor
  pub channels : List NotificationChannel
  pub deliveries : List NotificationDelivery

-- Code outside the repository, and what other transactions commit while findings are reconciled.
pub record World : Type 0 where
  pub json : ReportJson
  pub print : Json → String
  pub uuid4 : ℕ → Uuid
  pub between : List Finding → List Finding

-- The scan's row, as the session holds it.
abbrev pub with_scan : Scan → Database → Database
with_scan scan db = record db {
  tables = record (db.tables) {
    scans = update_where (λ s. s.id == scan.id) (λ s. scan) db.tables.scans;
  };
}

abbrev pub frozen : CoverageManifest → Scan → Scan
frozen manifest scan = record scan { coverage_manifest = some manifest }

module _ (world : World) (at : Datetime) where
  after_reconciling : Option Reconciled → Database → Database
  after_reconciling none db = db
  after_reconciling (some r) db =
      with_scan r.scan (record db { findings = r.findings; events = r.events ++ db.events })

  -- `if scan.mode is ScanMode.FULL`
  pub reconciled : Scan → Database → Database
  unfolding after_reconciling reconcile_scan
  reconciled scan db =
      if scan.mode == full
      then after_reconciling (reconcile_scan world.between at scan db.tables.tasks db.findings) db
      else db

  pub advanced : Scan → Database → Database
  unfolding commit_proposals enqueue_for_scan
  advanced scan db = record db {
    cursors = commit_proposals world.print scan (tasks_of scan.id db.tables) at db.cursors;
    deliveries =
        enqueue_for_scan world.uuid4 scan.id at db.events db.findings db.channels db.deliveries;
  }

  -- The gate that complete coverage opens.
  pub gated : ScanStatus → Scan → CoverageManifest → Database → Database
  unfolding reconciled advanced
  gated final scan manifest db =
      if final == ScanStatus.completed && manifest.coverage_state == CoverageState.complete
      then advanced scan (reconciled scan db)
      else db

  pub freeze : ScanStatus → Option Scan → Database → Checked Database
  unfolding gated build_manifest
  freeze final none db = passed db
  freeze final (some scan) db = elim (build_manifest world.json scan (tasks_of scan.id db.tables)) [
    | passed m ↦ passed (gated final (frozen m scan) m (with_scan (frozen m scan) db))
    | validation_error ↦ validation_error
    | phases_disagree ↦ phases_disagree
  ]

  pub with_status : ScanStatus → Checked Database → Checked (Option (Database × ScanStatus))
  with_status final (passed db) = passed (some (db, final))
  with_status final validation_error = validation_error
  with_status final phases_disagree = phases_disagree

  pub after_finishing :
      Uuid → Database → Option (Tables × ScanStatus) → Checked (Option (Database × ScanStatus))
  unfolding with_status freeze
  after_finishing scan_id db none = passed none
  after_finishing scan_id db (some (tables, final)) =
      with_status final
        (freeze final (find? (λ s. s.id == scan_id) tables.scans) (record db { tables = tables }))

  unfoldable pub finalize_and_reconcile : Uuid → Database → Checked (Option (Database × ScanStatus))
  unfolding after_finishing finalize_scan_if_done
  finalize_and_reconcile scan_id db =
      after_finishing scan_id db (finalize_scan_if_done at scan_id db.tables)
