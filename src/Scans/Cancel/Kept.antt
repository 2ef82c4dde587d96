-- ===== src/Scans/Cancel/Kept.antt =====
-- apps/api/src/iceberg_api/scans/service.py: what `cancel_scan` does to the rows of its tasks.
use iceberg_sst.Prelude.{
  true, false, not, Option, none, some, List, [], ◌∷◌, ◌≡◌, refl, ◌⊎◌, inl, inr, arith, ◌<◌, ◌==◌,
  nat_eq, if◌then◌else◌, find?, filter, Has, filter-Has, Bool-cases, sym, ◌∙◌, ap, subst,
}
use iceberg_sst.Prelude.Rows.{update_where}
use iceberg_sst.Prelude.Counting.{both}
use iceberg_sst.Enums.{ScanTaskStatus}
use iceberg_sst.Models.{Uuid, Datetime}
use iceberg_sst.Models.Coverage.{TaskCoverageReport}
use iceberg_sst.Models.Runs.{Scan, ScanTask}
use iceberg_sst.Scans.Tasks.{Tables, is_terminal}
use iceberg_sst.Scans.Coverage.{
  passed, validation_error, phases_disagree, ReportJson, cancelled_report,
}
use iceberg_sst.Scans.Coverage.Stored.{cancelled_report_keeps}
use iceberg_sst.Scans.Manifest.Balanced.{tallied, build_manifest-tallied}
use iceberg_sst.Scans.Finish.{tasks_of}
use iceberg_sst.Scans.Cancel.{
  is_open_task, is_stoppable, stopped, stop, stop_each, stop_scan, keep_manifest, after_stopping,
  cancel_scan,
}

-- A row that was stopped: it was not terminal, and an unfinished task of the scan was selected by its
-- identifier, whose report with the gap of the cancellation it now stores.
pub record IsStopped (json : ReportJson) (scan_id : Uuid) (selected : List ScanTask)
    (t t' : ScanTask) : Type 0 where
  pub was_running : is_terminal t.status ≡ false
  pub task : ScanTask
  pub of_table : Has task selected
  pub of_scan : task.scan_id ≡ scan_id
  pub same : t.id ≡ task.id
  pub kept_id : t'.id ≡ t.id
  pub ended : t'.status ≡ ScanTaskStatus.cancelled
  pub report : TaskCoverageReport
  pub made : cancelled_report json task ≡ passed report
  pub has_gap : 0 < report.scope.gaps
  pub stored : t'.coverage ≡ json.dump report

-- Row by row: as it was, or stopped.
abbrev pub AllStopped : ReportJson → Uuid → List ScanTask → List ScanTask → List ScanTask → Type 0
AllStopped json scan_id selected [] [] = Unit
AllStopped json scan_id selected (t ∷ ts) (t' ∷ ts') =
    ((t' ≡ t) ⊎ IsStopped json scan_id selected t t') × AllStopped json scan_id selected ts ts'
AllStopped json scan_id selected _ _ = ⊥

AllStopped-self :
    (json : ReportJson) (scan_id : Uuid) (selected ts : List ScanTask)
    → AllStopped json scan_id selected ts ts
AllStopped-self json scan_id selected [] = tt
AllStopped-self json scan_id selected (t ∷ ts) =
    (inl refl, AllStopped-self json scan_id selected ts)

module _ (json : ReportJson) (at : Datetime) (scan_id : Uuid) (selected : List ScanTask) where
  -- A row that was stopped is not stopped again.
  stop_row :
      (task : ScanTask) (r : TaskCoverageReport) (t t' : ScanTask)
      → Has task selected
      → task.scan_id ≡ scan_id
      → cancelled_report json task ≡ passed r
      → 0 < r.scope.gaps
      → (t' ≡ t) ⊎ IsStopped json scan_id selected t t'
      → ((if is_stoppable task t' then stopped json at r t' else t') ≡ t)
        ⊎ IsStopped json scan_id selected t
            (if is_stoppable task t' then stopped json at r t' else t')
  stop_row task r t t' has of_scan made gap h = elim (Bool-cases (is_stoppable task t')) [
    | inr left ↦ rw left h
    | inl hit ↦
        let (same_id, running) = (both (t'.id == task.id) (not (is_terminal t'.status))).0 hit in
        rw hit (elim h [
          | inl same ↦ inr (record {
            was_running = not_terminal t t' same running;
            task = task;
            of_table = has;
            of_scan = of_scan;
            same =
                sym (ap (λ (x : ScanTask). x.id) same) ∙ (nat_eq.beq_iff t'.id task.id).0 same_id;
            kept_id = ap (λ (x : ScanTask). x.id) same;
            ended = refl;
            report = r;
            made = made;
            has_gap = gap;
            stored = refl;
          })
          | inr done ↦ absurd (ended_once t'.status done.ended running)
        ])
  ]
    where
      not_terminal :
          (x y : ScanTask)
          → y ≡ x
          → not (is_terminal y.status) ≡ true
          → is_terminal x.status ≡ false
      not_terminal x y e q = ground (arith, ap (λ (z : ScanTask). is_terminal z.status) e)

      ended_once :
          (s : ScanTaskStatus) → s ≡ ScanTaskStatus.cancelled → not (is_terminal s) ≡ true → ⊥
      ended_once s e q = let over : is_terminal s ≡ true = ap is_terminal e in ground arith

  stop-AllStopped :
      (task : ScanTask) (r : TaskCoverageReport) (ts ts' : List ScanTask)
      → Has task selected
      → task.scan_id ≡ scan_id
      → cancelled_report json task ≡ passed r
      → 0 < r.scope.gaps
      → AllStopped json scan_id selected ts ts'
      → AllStopped json scan_id selected ts
          (update_where (is_stoppable task) (stopped json at r) ts')
  unfolding update_where
  stop-AllStopped task r [] [] has of_scan made gap h = tt
  stop-AllStopped task r (t ∷ ts) (t' ∷ ts') has of_scan made gap h = (
    stop_row task r t t' has of_scan made gap h.0,
    stop-AllStopped task r ts ts' has of_scan made gap h.1,
  )
  stop-AllStopped task r [] (t' ∷ ts') has of_scan made gap h = absurd h
  stop-AllStopped task r (t ∷ ts) [] has of_scan made gap h = absurd h

  pub stop_each-AllStopped :
      (due : List ScanTask) (ts : List ScanTask) (db : Tables)
      → ((task : ScanTask) → Has task due → Has task selected × (task.scan_id ≡ scan_id))
      → AllStopped json scan_id selected ts db.tasks
      → (db' : Tables) × (stop_each json at due db ≡ passed db')
        × AllStopped json scan_id selected ts db'.tasks
  unfolding stop_each
  stop_each-AllStopped [] ts db from h = (db, refl, h)
  stop_each-AllStopped (task ∷ due) ts db from h =
      let (r, made, stored, gap, kept) = cancelled_report_keeps json task in
      let (has, of_scan) = from task (inl refl) in
      let (db', ran, all_rows) =
        stop_each-AllStopped due ts (stop json at task r db) (λ t m. from t (inr m))
          (stop-AllStopped task r ts db.tasks has of_scan made gap h) in
      (
        db',
        ap
              (λ c. elim c [
                | passed report ↦ stop_each json at due (stop json at task report db)
                | validation_error ↦ validation_error
                | phases_disagree ↦ phases_disagree
              ])
              made
            ∙ ran,
        all_rows,
      )

  -- The scan's own row and its manifest, which leave the tasks alone.
  pub keep_manifest-tasks :
      (o : Option Scan) (db : Tables)
      → (db' : Tables) × (keep_manifest json at o db ≡ passed db') × (db'.tasks ≡ db.tasks)
  unfolding keep_manifest
  keep_manifest-tasks none db = (db, refl, refl)
  keep_manifest-tasks (some scan) db = (
    record db {
      scans =
          update_where (λ (s : Scan). s.id == scan.id)
            (λ (s : Scan). record scan {
              coverage_manifest = some (tallied json scan (tasks_of scan.id db));
            })
            db.scans;
    },
    ap
        (λ c. elim c [
          | passed m ↦ passed (record db {
            scans =
                update_where (λ (s : Scan). s.id == scan.id)
                  (λ (s : Scan). record scan { coverage_manifest = some m }) db.scans;
          })
          | validation_error ↦ validation_error
          | phases_disagree ↦ phases_disagree
        ])
        (build_manifest-tallied json scan (tasks_of scan.id db)),
    refl,
  )

-- Cancelling a scan never raises, whatever its tasks have stored and whatever commits between its read
-- and its writes. Each row of a task is then as that left it, or it was not terminal, its identifier is
-- that of an unfinished task of the scan that was read, and it is cancelled, with the report of that
-- task merged with the gap of the cancellation. So a task that completed meanwhile stays completed.
pub cancel_scan-AllStopped :
    (json : ReportJson) (at : Datetime) (between : Tables → Tables) (scan_id : Uuid) (db : Tables)
    → (db' : Tables) × (cancel_scan json at between scan_id db ≡ passed db')
      × AllStopped json scan_id db.tasks (between db).tasks db'.tasks
unfolding cancel_scan after_stopping
cancel_scan-AllStopped json at between scan_id db =
    let (mid, ran, rows) =
      stop_each-AllStopped json at scan_id db.tasks (filter (is_open_task scan_id) db.tasks)
        (between db).tasks (between db)
        (λ task m.
          let (has, met) = filter-Has (is_open_task scan_id) task db.tasks m in
          (
            has,
            (nat_eq.beq_iff task.scan_id scan_id).0
                ((both (task.scan_id == scan_id) (not (is_terminal task.status))).0 met).0,
          ))
        (AllStopped-self json scan_id db.tasks (between db).tasks) in
    let halted = stop_scan json at scan_id mid in
    let (db', kept, same) =
      keep_manifest-tasks json at scan_id db.tasks
        (find? (λ (s : Scan). s.id == scan_id) halted.scans) halted in
    (
      db',
      ap (after_stopping json at scan_id) ran ∙ kept,
      subst (AllStopped json scan_id db.tasks (between db).tasks) (sym same) rows,
    )
