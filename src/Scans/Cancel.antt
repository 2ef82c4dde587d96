-- ===== src/Scans/Cancel.antt =====
-- apps/api/src/iceberg_api/scans/service.py: `cancel_scan`. `between` is what other transactions commit
-- after the SELECT of the tasks and before the UPDATEs.
pub mod Kept
pub mod Emptied
use iceberg_sst.Prelude.{
  Bool, not, ◌&&◌, Option, none, some, List, [], ◌∷◌, ◌==◌, nat_eq, find?, filter,
}
use iceberg_sst.Prelude.Rows.{update_where}
use iceberg_sst.Enums.{ScanStatus, ScanTaskStatus, is_active}
use iceberg_sst.Models.{Uuid, Datetime}
use iceberg_sst.Models.Coverage.{TaskCoverageReport}
use iceberg_sst.Models.Runs.{Scan, ScanTask}
use iceberg_sst.Scans.Tasks.{Tables, is_terminal}
use iceberg_sst.Scans.Coverage.{
  Checked, passed, validation_error, phases_disagree, ReportJson, cancelled_report,
}
use iceberg_sst.Scans.Manifest.{build_manifest}
use iceberg_sst.Scans.Finish.{tasks_of}

abbrev pub is_open_task : Uuid → ScanTask → Bool
is_open_task scan_id t = t.scan_id == scan_id && not (is_terminal t.status)

abbrev pub is_stoppable : ScanTask → ScanTask → Bool
is_stoppable task t = t.id == task.id && not (is_terminal t.status)

module _ (json : ReportJson) (at : Datetime) where
  abbrev pub stopped : TaskCoverageReport → ScanTask → ScanTask
  stopped report t = record t {
    status = ScanTaskStatus.cancelled;
    finished_at = some at;
    lease_expires_at = none;
    coverage = json.dump report;
  }

  -- The UPDATE of one task, with the report that was made from the row selected.
  abbrev pub stop : ScanTask → TaskCoverageReport → Tables → Tables
  stop task report db = record db {
    tasks = update_where (is_stoppable task) (stopped report) db.tasks;
  }

  pub stop_each : List ScanTask → Tables → Checked Tables
  unfolding cancelled_report
  stop_each [] db = passed db
  stop_each (task ∷ rest) db = elim (cancelled_report json task) [
    | passed report ↦ stop_each rest (stop task report db)
    | validation_error ↦ validation_error
    | phases_disagree ↦ phases_disagree
  ]

  abbrev pub stop_scan : Uuid → Tables → Tables
  stop_scan scan_id db = record db {
    scans =
        update_where (λ s. s.id == scan_id && is_active s.status)
          (λ s. record s { status = ScanStatus.cancelled; finished_at = some at }) db.scans;
  }

  pub keep_manifest : Option Scan → Tables → Checked Tables
  unfolding build_manifest
  keep_manifest none db = passed db
  keep_manifest (some scan) db = elim (build_manifest json scan (tasks_of scan.id db)) [
    | passed m ↦ passed (record db {
      scans =
          update_where (λ s. s.id == scan.id) (λ s. record scan { coverage_manifest = some m })
            db.scans;
    })
    | validation_error ↦ validation_error
    | phases_disagree ↦ phases_disagree
  ]

  pub after_stopping : Uuid → Checked Tables → Checked Tables
  unfolding keep_manifest
  after_stopping scan_id (passed db) =
      let stopped_db = stop_scan scan_id db in
      keep_manifest (find? (λ (s : Scan). s.id == scan_id) stopped_db.scans) stopped_db
  after_stopping scan_id validation_error = validation_error
  after_stopping scan_id phases_disagree = phases_disagree

  unfoldable pub cancel_scan :
      (between : Tables → Tables) → (scan_id : Uuid) → Tables → Checked Tables
  unfolding after_stopping stop_each
  cancel_scan between scan_id db =
      after_stopping scan_id (stop_each (filter (is_open_task scan_id) db.tasks) (between db))
