-- ===== src/Scans/Cancel/Emptied.antt =====
-- apps/api/src/iceberg_api/scans/service.py: `cancel_scan` with nothing committing in between.
use iceberg_sst.Prelude.{
  true, false, not, List, [], ◌∷◌, ◌≡◌, refl, inl, inr, arith, ◌==◌, nat_eq, find?, filter, All,
  All-from, All-map, Has, Has-filter, Bool-cases, sym, ◌∙◌, ap, subst,
}
use iceberg_sst.Prelude.Rows.{update_where}
use iceberg_sst.Prelude.Counting.{both}
use iceberg_sst.Models.{Uuid, Datetime}
use iceberg_sst.Models.Coverage.{TaskCoverageReport}
use iceberg_sst.Models.Runs.{Scan, ScanTask}
use iceberg_sst.Scans.Tasks.{Tables, is_terminal}
use iceberg_sst.Scans.Coverage.{passed, validation_error, phases_disagree, ReportJson}
use iceberg_sst.Scans.Coverage.Stored.{cancelled_report_keeps}
use iceberg_sst.Scans.Cancel.{
  is_open_task, is_stoppable, stopped, stop, stop_each, stop_scan, after_stopping, cancel_scan,
}
use iceberg_sst.Scans.Cancel.Kept.{keep_manifest-tasks}

-- Every unfinished task of the scan is still to be stopped.
abbrev AllAwait : Uuid → List ScanTask → List ScanTask → Type 0
AllAwait scan_id due rows =
    All (λ t. is_open_task scan_id t ≡ true → (u : ScanTask) × Has u due × (t.id ≡ u.id)) rows

module _ (json : ReportJson) (at : Datetime) (scan_id : Uuid) where
  stop-AllAwait :
      (task : ScanTask) (due : List ScanTask) (r : TaskCoverageReport) (rows : List ScanTask)
      → AllAwait scan_id (task ∷ due) rows
      → AllAwait scan_id due (update_where (is_stoppable task) (stopped json at r) rows)
  unfolding update_where
  stop-AllAwait task due r [] h = tt
  stop-AllAwait task due r (t ∷ rows) h = (
    elim (Bool-cases (is_stoppable task t)) [
      | inl hit ↦ rw hit (λ e. absurd (over e))
      | inr left ↦ rw left (λ e.
          let (u, place, of_id) = h.0 e in
          elim place [
            | inl same ↦ absurd (missed left e (of_id ∙ sym (ap (λ (x : ScanTask). x.id) same)))
            | inr later ↦ (u, later, of_id)
          ])
    ],
    stop-AllAwait task due r rows h.1,
  )
    where
      over : is_open_task scan_id (stopped json at r t) ≡ true → ⊥
      over e = ground arith

      missed : is_stoppable task t ≡ false → is_open_task scan_id t ≡ true → t.id ≡ task.id → ⊥
      missed left e same =
          let running = ((both (t.scan_id == scan_id) (not (is_terminal t.status))).0 e).1 in
          let hit =
            (both (t.id == task.id) (not (is_terminal t.status))).1
              ((nat_eq.beq_iff t.id task.id).1 same, running) in
          cc

  stop_each_empties :
      (due : List ScanTask) (db : Tables)
      → AllAwait scan_id due db.tasks
      → (db' : Tables) × (stop_each json at due db ≡ passed db') × AllAwait scan_id [] db'.tasks
  unfolding stop_each
  stop_each_empties [] db h = (db, refl, h)
  stop_each_empties (task ∷ due) db h =
      let (r, made, stored, gap, kept) = cancelled_report_keeps json task in
      let (db', ran, rest) =
        stop_each_empties due (stop json at task r db) (stop-AllAwait task due r db.tasks h) in
      (
        db',
        ap
              (λ c. elim c [
                | passed report ↦ stop_each json at due (stop json at task report db)
                | validation_error ↦ validation_error
                | phases_disagree ↦ phases_disagree
              ])
              made
            ∙ ran,
        rest,
      )

-- When a scan is cancelled and nothing commits in between, each of its tasks is terminal afterwards.
pub cancel_scan_empties :
    (json : ReportJson) (at : Datetime) (scan_id : Uuid) (db : Tables)
    → (db' : Tables) × (cancel_scan json at (λ d. d) scan_id db ≡ passed db')
      × All (λ t. t.scan_id ≡ scan_id → is_terminal t.status ≡ true) db'.tasks
unfolding cancel_scan after_stopping
cancel_scan_empties json at scan_id db =
    let (mid, ran, awaited) =
      stop_each_empties json at scan_id (filter (is_open_task scan_id) db.tasks) db (
        All-from
          (λ t.
            is_open_task scan_id t ≡ true
            → (u : ScanTask) × Has u (filter (is_open_task scan_id) db.tasks) × (t.id ≡ u.id))
          db.tasks (λ t m e. (t, Has-filter (is_open_task scan_id) t db.tasks e m, refl))) in
    let halted = stop_scan json at scan_id mid in
    let (db', kept, same) =
      keep_manifest-tasks json at scan_id db.tasks
        (find? (λ (s : Scan). s.id == scan_id) halted.scans) halted in
    (
      db',
      ap (after_stopping json at scan_id) ran ∙ kept,
      subst (All (λ t. t.scan_id ≡ scan_id → is_terminal t.status ≡ true)) (sym same) (
          All-map (λ t. is_open_task scan_id t ≡ true → (u : ScanTask) × Has u [] × (t.id ≡ u.id))
            (λ t. t.scan_id ≡ scan_id → is_terminal t.status ≡ true) mid.tasks (λ t h. ended t h)
            awaited),
    )
  where
    ended :
        (t : ScanTask)
        → (is_open_task scan_id t ≡ true → (u : ScanTask) × Has u [] × (t.id ≡ u.id))
        → t.scan_id ≡ scan_id
        → is_terminal t.status ≡ true
    ended t h of_scan = elim (Bool-cases (is_terminal t.status)) [
      | inl over ↦ over
      | inr running ↦
          let still =
            (both (t.scan_id == scan_id) (not (is_terminal t.status))).1
              ((nat_eq.beq_iff t.scan_id scan_id).1 of_scan, ap not running) in
          absurd (h still).1
    ]
