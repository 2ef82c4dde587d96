-- ===== src/Examples/Coverage.antt =====
-- Coverage reports, the manifest and the end of a scan at concrete inputs.
use iceberg_sst.Prelude.{
  ◌+◌, ◌<◌, true, some, [], ◌∷◌, ◌≡◌, ◌≢◌, ◌↔◌, ◌⊎◌, refl, All, Option, if◌then◌else◌, length,
}
use iceberg_sst.Enums.{
  ScanStatus, ScanTaskStatus, CoverageDisposition, CoverageReason, CoverageState,
  coverage_reason_allowed, CoverageDisposition-discrete, CoverageReason-discrete, disposition_eq,
  reason_eq,
}
use iceberg_sst.Models.Coverage.{TaskCoverageReport, CoverageManifest}
use iceberg_sst.Models.Runs.{ScanTask}
use iceberg_sst.Engines.Reports.{is_valid, is_key, sum_where, of_outcome}
use iceberg_sst.Scans.Coverage.{
  passed, phases_disagree, merge_task_report, validated_report, cancelled_report,
}
use iceberg_sst.Scans.Coverage.Merging.{merge_task_report_adds}
use iceberg_sst.Scans.Coverage.Stored.{cancelled_report_keeps}
use iceberg_sst.Scans.Manifest.{build_manifest, is_manifest_valid}
use iceberg_sst.Scans.Manifest.Balanced.{tallied, build_manifest-tallied, build_manifest_accounts}
use iceberg_sst.Scans.Manifest.Complete.{IsClean, IsUnbroken, build_manifest_complete}
use iceberg_sst.Scans.Finalize.{Database, World, finalize_and_reconcile}
use iceberg_sst.Scans.Finalize.Guarded.{Untouched, IsAuthorised, finalize_and_reconcile_guarded}
use iceberg_sst.Scans.Tasks.{Tables, is_terminal}
use iceberg_sst.Scans.Cancel.{cancel_scan}
use iceberg_sst.Scans.Cancel.Kept.{AllStopped, cancel_scan-AllStopped}
use iceberg_sst.Scans.Cancel.Emptied.{cancel_scan_empties}
use iceberg_sst.Examples.Samples.{
  report, second_report, task, scan, leaked_key, fixed_key, channel, watermark,
}
use iceberg_sst.Examples.Encoding.{report_json, put_report}

first_valid : is_valid report ≡ true
unfolding is_valid coverage_reason_allowed CoverageDisposition-discrete CoverageReason-discrete
first_valid = refl

second_valid : is_valid second_report ≡ true
unfolding is_valid coverage_reason_allowed CoverageDisposition-discrete CoverageReason-discrete
second_valid = refl

merge_task_report_adds_example :
    (report.phase ≡ second_report.phase
      → (r : TaskCoverageReport) × (merge_task_report (some report) second_report ≡ passed r)
        × (is_valid r ≡ true)
        × (r.phase ≡ report.phase)
        × (r.counts.scanned ≡ 7 + 3)
        × (r.counts.skipped ≡ 1 + 0)
        × (r.counts.failed ≡ 0 + 0)
        × (r.scope.discovered ≡ 1 + 1)
        × (r.scope.gaps ≡ 0 + 0)
        × ((o : CoverageDisposition) (s : CoverageReason)
            → sum_where (is_key o s) r.reasons
              ≡ sum_where (is_key o s) report.reasons
                + sum_where (is_key o s) second_report.reasons))
    × (report.phase ≢ second_report.phase
        → merge_task_report (some report) second_report ≡ phases_disagree)
merge_task_report_adds_example =
    merge_task_report_adds report second_report first_valid second_valid

abbrev reporting : ScanTask
reporting = record task { status = ScanTaskStatus.completed; coverage = put_report report }

cancelled_report_keeps_example :
    (r : TaskCoverageReport) × (cancelled_report report_json reporting ≡ passed r)
    × (validated_report report_json (record reporting { coverage = put_report r }) ≡ some r)
    × (0 < r.scope.gaps)
    × ((s : TaskCoverageReport)
        → validated_report report_json reporting ≡ some s
        → (r.scope.gaps ≡ s.scope.gaps + 1)
          × (r.counts.scanned ≡ s.counts.scanned)
          × (r.counts.skipped ≡ s.counts.skipped)
          × (r.counts.failed ≡ s.counts.failed)
          × ((o : CoverageDisposition) (why : CoverageReason)
              → sum_where (is_key o why) r.reasons
                ≡ sum_where (is_key o why) s.reasons
                  + (if is_key o why CoverageDisposition.scope_gap CoverageReason.cancelled
                      then 1
                      else 0)))
cancelled_report_keeps_example = cancelled_report_keeps report_json reporting

build_manifest_accounts_example :
    (m : CoverageManifest) × (build_manifest report_json scan (reporting ∷ task ∷ []) ≡ passed m)
    × (is_manifest_valid m ≡ true)
    × (length m.gaps + m.gaps_omitted ≡ m.counts.skipped + m.counts.failed + m.scope.gaps)
    × (sum_where (of_outcome CoverageDisposition.skipped) m.reasons ≡ m.counts.skipped)
    × (sum_where (of_outcome CoverageDisposition.failed) m.reasons ≡ m.counts.failed)
    × (sum_where (of_outcome CoverageDisposition.scope_gap) m.reasons ≡ m.scope.gaps)
    × (m.task_counts.reported + m.task_counts.unreported ≡ 2)
build_manifest_accounts_example = build_manifest_accounts report_json scan (reporting ∷ task ∷ [])

abbrev manifest : CoverageManifest
manifest = tallied report_json scan (reporting ∷ [])

made : build_manifest report_json scan (reporting ∷ []) ≡ passed manifest
made = build_manifest-tallied report_json scan (reporting ∷ [])

build_manifest_complete_example :
    (manifest.coverage_state ≡ CoverageState.complete)
    ↔ (IsUnbroken ScanStatus.completed × All (IsClean report_json) (reporting ∷ []))
build_manifest_complete_example =
    build_manifest_complete report_json scan (reporting ∷ []) manifest made

abbrev world : World
world = record { json = report_json; print = λ j. "?"; uuid4 = λ n. 1000 + n; between = λ fs. fs }

abbrev ready : Database
ready = record {
  tables = record {
    scans = record scan { status = ScanStatus.running } ∷ [];
    tasks = record reporting { coverage = put_report second_report } ∷ [];
  };
  findings = leaked_key ∷ fixed_key ∷ [];
  events = [];
  cursors = watermark ∷ [];
  channels = channel ∷ [];
  deliveries = [];
}

finalize_and_reconcile_guarded_example :
    (out : Option (Database × ScanStatus)) × (finalize_and_reconcile world 500 11 ready
      ≡ passed out)
    × ((db' : Database) (final : ScanStatus)
        → out ≡ some (db', final)
        → Untouched ready db' ⊎ IsAuthorised world 11 final ready db')
finalize_and_reconcile_guarded_example = finalize_and_reconcile_guarded world 500 11 ready

abbrev halfway : Tables
halfway = record {
  scans = record scan { status = ScanStatus.running } ∷ [];
  tasks = record reporting { status = ScanTaskStatus.running } ∷ record task { id = 22 } ∷ [];
}

-- The running task completes after the cancellation has read it.
abbrev completes : Tables → Tables
completes db = record db { tasks = reporting ∷ record task { id = 22 } ∷ [] }

cancel_scan-AllStopped_example :
    (db' : Tables) × (cancel_scan report_json 600 completes 11 halfway ≡ passed db')
    × AllStopped report_json 11 halfway.tasks (completes halfway).tasks db'.tasks
cancel_scan-AllStopped_example = cancel_scan-AllStopped report_json 600 completes 11 halfway

cancel_scan_empties_example :
    (db' : Tables) × (cancel_scan report_json 600 (λ d. d) 11 halfway ≡ passed db')
    × All (λ t. t.scan_id ≡ 11 → is_terminal t.status ≡ true) db'.tasks
cancel_scan_empties_example = cancel_scan_empties report_json 600 11 halfway
