-- ===== src/Scans/Finish/Outcome.antt =====
-- What the end of a scan says of its tasks, and a second call after it.
use iceberg_sst.Prelude.{
  Bool, true, false, ◌&&◌, none, some, List, [], ◌∷◌, ◌≡◌, refl, ◌≢◌, ◌↔◌, arith, ◌==◌, nat_eq,
  if◌then◌else◌, count, count-le-length, map, any, all, length, All, sym, ◌∙◌, ap,
}
use iceberg_sst.Prelude.Rows.{update_where}
use iceberg_sst.Enums.{ScanStatus, is_active, ScanTaskStatus, task_status_eq}
use iceberg_sst.Models.{Uuid, Datetime}
use iceberg_sst.Models.Runs.{Scan, ScanTask}
use iceberg_sst.Scans.Tasks.{Tables, is_terminal}
use iceberg_sst.Scans.Finish.{
  final_status, first_error, finalize_scan_if_done, tasks_of, is_done, is_unfinished,
}

-- Every status is a completion exactly where there are as many completions as statuses.
count-All :
    (ss : List ScanTaskStatus)
    → (count (λ s. s == ScanTaskStatus.completed) ss ≡ length ss)
      ↔ All (λ s. s ≡ ScanTaskStatus.completed) ss
count-All [] = ((λ _. tt), (λ _. refl))
count-All (s ∷ ss) = (
  λ e. ground (
    arith,
    count-All ss,
    count-le-length (λ x. x == ScanTaskStatus.completed) ss,
    task_status_eq.beq_iff s ScanTaskStatus.completed,
  ),
  λ h. ground (arith, count-All ss, task_status_eq.beq_iff s ScanTaskStatus.completed),
)

-- No completion is cancelled.
All-any :
    (ss : List ScanTaskStatus)
    → All (λ s. s ≡ ScanTaskStatus.completed) ss
    → any (λ s. s == ScanTaskStatus.cancelled) ss ≡ false
All-any [] h = refl
All-any (s ∷ ss) h =
    ground (arith, All-any ss h.1, task_status_eq.beq_iff s ScanTaskStatus.cancelled)

-- A scan is called completed exactly where each of its tasks is.
pub final_status-completed :
    (ss : List ScanTaskStatus)
    → (final_status ss ≡ ScanStatus.completed) ↔ All (λ s. s ≡ ScanTaskStatus.completed) ss
unfolding final_status
final_status-completed ss =
    (λ e. (count-All ss).0 (ground arith), λ h. ground (arith, (count-All ss).1 h, All-any ss h))

final_status-inactive : (ss : List ScanTaskStatus) → is_active (final_status ss) ≡ false
unfolding final_status
final_status-inactive ss = ground arith

opt_given :
    {A : Type 0} (b : Bool) (x y : A) → (if b then some x else none) ≡ some y → (b ≡ true) × (x ≡ y)
opt_given b x y e = ground arith

all_terminal :
    (ts : List ScanTask)
    → all (λ t. is_terminal t.status) ts ≡ true
    → All (λ t. is_terminal t.status ≡ true) ts
all_terminal [] e = tt
all_terminal (t ∷ ts) e = (ground arith, all_terminal ts (ground arith))

-- Once every unfinished row of the scan is given a status that is not active, none is left.
none_unfinished :
    (scan_id : Uuid) (f : Scan → Scan) (ss : List Scan)
    → ((s : Scan) → is_active (f s).status ≡ false)
    → count (is_unfinished scan_id) (update_where (is_unfinished scan_id) f ss) ≡ 0
unfolding update_where
none_unfinished scan_id f [] h = refl
none_unfinished scan_id f (s ∷ ss) h = ground (arith, h s, none_unfinished scan_id f ss h)

finalize_lem :
    (at : Datetime) (scan_id : Uuid) (db db' : Tables) (st : ScanStatus)
    → finalize_scan_if_done at scan_id db ≡ some (db', st)
    → (is_done (tasks_of scan_id db) ≡ true)
      × (st ≡ final_status (map (λ t. t.status) (tasks_of scan_id db)))
      × (db'.tasks ≡ db.tasks)
      × (count (is_unfinished scan_id) db'.scans ≡ 0)
unfolding finalize_scan_if_done
finalize_lem at scan_id db db' st e =
    let final = final_status (map (λ t. t.status) (tasks_of scan_id db)) in
    let f : Scan → Scan = λ s. record s {
      status = final;
      finished_at = some at;
      error = first_error (tasks_of scan_id db);
    } in
    let (ok, same) =
      opt_given (is_done (tasks_of scan_id db) && count (is_unfinished scan_id) db.scans == 1)
        (record db { scans = update_where (is_unfinished scan_id) f db.scans }, final) (db', st)
        e in
    (
      ground arith,
      sym (ap (λ p. p.1) same),
      sym (ap (λ p. p.0.tasks) same),
      ap (λ p. count (is_unfinished scan_id) p.0.scans) (sym same)
          ∙ none_unfinished scan_id f db.scans
              (λ s. final_status-inactive (map (λ t. t.status) (tasks_of scan_id db))),
    )

map-All :
    (P : ScanTaskStatus → Type 0) (ts : List ScanTask)
    → All (λ t. P t.status) ts ↔ All P (map (λ t. t.status) ts)
map-All P [] = ((λ _. tt), (λ _. tt))
map-All P (t ∷ ts) = ((λ h. (h.0, (map-All P ts).0 h.1)), (λ h. (h.0, (map-All P ts).1 h.1)))

-- A scan is ended only when it has tasks and all of them are terminal, no row of a task changes, and
-- it is called completed exactly where every one of its tasks is completed.
pub finalize_scan_if_done-completed :
    (at : Datetime) (scan_id : Uuid) (db db' : Tables) (st : ScanStatus)
    → finalize_scan_if_done at scan_id db ≡ some (db', st)
    → (tasks_of scan_id db ≢ [])
      × All (λ t. is_terminal t.status ≡ true) (tasks_of scan_id db)
      × (db'.tasks ≡ db.tasks)
      × ((st ≡ ScanStatus.completed)
          ↔ All (λ t. t.status ≡ ScanTaskStatus.completed) (tasks_of scan_id db))
finalize_scan_if_done-completed at scan_id db db' st e =
    let tasks = tasks_of scan_id db in
    let statuses = map (λ t. t.status) tasks in
    let (over, final, kept, _) = finalize_lem at scan_id db db' st e in
    let called = final_status-completed statuses in
    let each = map-All (λ s. s ≡ ScanTaskStatus.completed) tasks in
    (
      λ empty. ground (arith, ap length empty),
      all_terminal tasks (ground arith),
      kept,
      ((λ c. each.1 (called.0 (sym final ∙ c))), (λ h. final ∙ called.1 (each.0 h))),
    )

-- Of two calls that end a scan with nothing in between, the second ends nothing, whenever it comes.
pub finalize_scan_if_done-once :
    (at at' : Datetime) (scan_id : Uuid) (db db' : Tables) (st : ScanStatus)
    → finalize_scan_if_done at scan_id db ≡ some (db', st)
    → finalize_scan_if_done at' scan_id db' ≡ none
unfolding finalize_scan_if_done
finalize_scan_if_done-once at at' scan_id db db' st e =
    let (_, _, _, gone) = finalize_lem at scan_id db db' st e in ground arith
