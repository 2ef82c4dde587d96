-- ===== src/Scans/Finish.antt =====
-- apps/api/src/iceberg_api/scans/service.py: `finalize_scan_if_done`, which ends a scan.
pub mod Outcome
use iceberg_sst.Prelude.{
  ℕ, Bool, true, false, not, ◌&&◌, ◌||◌, Option, none, some, List, [], ◌∷◌, String, ◌==◌, nat_eq,
  string_eq, option_eq, if◌then◌else◌, count, filter, map, any, all, length,
}
use iceberg_sst.Prelude.Rows.{update_where}
use iceberg_sst.Enums.{ScanStatus, is_active, ScanTaskStatus, task_status_eq}
use iceberg_sst.Models.{Uuid, Datetime}
use iceberg_sst.Models.Runs.{Scan, ScanTask}
use iceberg_sst.Scans.Tasks.{Tables, is_terminal}

-- `_final_status`
unfoldable pub final_status : List ScanTaskStatus → ScanStatus
final_status statuses =
    let completed = count (λ s. s == ScanTaskStatus.completed) statuses in
    if any (λ s. s == ScanTaskStatus.cancelled) statuses
    then ScanStatus.cancelled
    else if completed == length statuses
    then ScanStatus.completed
    else if completed == 0
    then ScanStatus.failed
    else ScanStatus.partial

-- The error of a failed task, where it has one and it is not empty.
reported : Bool → Option String → Option String
reported true (some error) = if error == "" then none else some error
reported _ _ = none

first_of : Option String → Option String → Option String
first_of none later = later
first_of (some error) later = some error

-- `_first_error`
unfoldable pub first_error : List ScanTask → Option String
unfolding reported first_of
first_error [] = none
first_error (t ∷ ts) =
    first_of (reported (t.status == ScanTaskStatus.failed) t.error) (first_error ts)

abbrev pub tasks_of : Uuid → Tables → List ScanTask
tasks_of scan_id db = filter (λ t. t.scan_id == scan_id) db.tasks

-- The test that `finalize_scan_if_done` makes before it writes.
abbrev pub is_done : List ScanTask → Bool
is_done tasks = not (length tasks == 0) && all (λ t. is_terminal t.status) tasks

abbrev pub is_unfinished : Uuid → Scan → Bool
is_unfinished scan_id s = s.id == scan_id && is_active s.status

unfoldable pub finalize_scan_if_done :
    (at : Datetime) → (scan_id : Uuid) → Tables → Option (Tables × ScanStatus)
unfolding final_status first_error
finalize_scan_if_done at scan_id db =
    let tasks = tasks_of scan_id db in
    let final = final_status (map (λ t. t.status) tasks) in
    let scans =
      update_where (is_unfinished scan_id)
        (λ s. record s { status = final; finished_at = some at; error = first_error tasks })
        db.scans in
    if is_done tasks && count (is_unfinished scan_id) db.scans == 1
    then some (record db { scans = scans }, final)
    else none
