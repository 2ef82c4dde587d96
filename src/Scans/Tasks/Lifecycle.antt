-- ===== src/Scans/Tasks/Lifecycle.antt =====
-- The life of a task under every interleaving of engines and sweeps, one transaction at a time.
use iceberg_sst.Prelude.{
  ℕ, ◌+◌, Bool, true, false, Option, none, some, List, [], ◌∷◌, String, ◌≡◌, refl, ◌≢◌, inl, inr,
  arith, ◌==◌, nat_eq, option_eq, if◌then◌else◌, count, find?, Bool-cases, All, sym, ◌∙◌, ap, subst,
}
use iceberg_sst.Prelude.Rows.{update_where}
use iceberg_sst.Enums.{ScanTaskStatus, scan_status_eq, task_status_eq}
use iceberg_sst.Models.{Uuid, Datetime, seconds}
use iceberg_sst.Models.Json.{Fields}
use iceberg_sst.Models.Runs.{ScanTask}
use iceberg_sst.Scans.Tasks.{
  Tables, write_one, is_claimable, claimed, begin_scan, begin_after, claim_task, renew_lease,
  is_accepting, claim_result, advance_checkpoint, discard_checkpoint, finished, complete_task,
  requeue_one, touch_one,
}
use iceberg_sst.Models.Coverage.{TaskCoverageReport}
use iceberg_sst.Scans.Coverage.{ReportJson}
use iceberg_sst.Scans.Cancel.{is_stoppable, stopped, stop}
use iceberg_sst.Scans.Tasks.Evolution.{
  AllEvolve, AllEvolve-refl, AllEvolve-trans, AreDistinct, Evolves, Evolves-refl, advanced-Evolves,
  claimed-Evolves, count-only, discarded-Evolves, renewed-Evolves, requeued-Evolves,
  update_where-AllEvolve,
}

stopped-Evolves :
    (json : ReportJson) (at : Datetime) (task : ScanTask) (report : TaskCoverageReport)
    (t : ScanTask)
    → is_stoppable task t ≡ true
    → Evolves t (stopped json at report t)
stopped-Evolves json at task report t e = ground arith

touched-Evolves : (at : Datetime) (t : ScanTask) → Evolves t (record t { updated_at = at })
touched-Evolves at t = ground arith

-- The two writes of a submission on one row: the result key, then the end of the task.
submitted-Evolves :
    (key : String) (status : ScanTaskStatus) (error : Option String) (coverage : Option Fields)
    (at : Datetime) (task t : ScanTask)
    → is_accepting task t ≡ true
    → Evolves t (finished status error coverage at (record t { result_key = some key }))
submitted-Evolves key status error coverage at task t e = ground arith

submitted_row :
    (key : String) (status : ScanTaskStatus) (error : Option String) (coverage : Option Fields)
    (at : Datetime) (task t : ScanTask) (b : Bool)
    → is_accepting task t ≡ b
    → (t.id ≡ task.id → is_accepting task t ≡ true)
    → let t' = if b then record t { result_key = some key } else t in
      Evolves t (if t'.id == task.id then finished status error coverage at t' else t')
submitted_row key status error coverage at task t true e h =
    let same : (t.id == task.id) ≡ true = ground arith in
    rw same (submitted-Evolves key status error coverage at task t e)
submitted_row key status error coverage at task t false e h = elim (Bool-cases (t.id == task.id)) [
  | inl same ↦ ground (arith, h ((nat_eq.beq_iff t.id task.id).0 same))
  | inr apart ↦ rw apart (Evolves-refl t)
]

submitted-AllEvolve :
    (key : String) (status : ScanTaskStatus) (error : Option String) (coverage : Option Fields)
    (at : Datetime) (task : ScanTask) (ts : List ScanTask)
    → All (λ t. t.id ≡ task.id → is_accepting task t ≡ true) ts
    → AllEvolve ts (
        update_where
          (λ t. t.id == task.id)
          (finished status error coverage at)
          (update_where (is_accepting task) (λ t. record t { result_key = some key }) ts))
unfolding update_where
submitted-AllEvolve key status error coverage at task [] h = tt
submitted-AllEvolve key status error coverage at task (t ∷ ts) h = (
  submitted_row key status error coverage at task t (is_accepting task t) refl h.0,
  submitted-AllEvolve key status error coverage at task ts h.1,
)

opt_written :
    (b : Bool) (x y : Tables) → (if b then some x else none) ≡ some y → (b ≡ true) × (x ≡ y)
opt_written b x y e = ground arith

-- A conditional UPDATE that wrote its one row.
pub write_one_lem :
    (p : ScanTask → Bool) (f : ScanTask → ScanTask) (db db' : Tables)
    → write_one p f db ≡ some db'
    → (count p db.tasks ≡ 1) × (db'.tasks ≡ update_where p f db.tasks)
write_one_lem p f db db' e =
    let (one, same) =
      opt_written (count p db.tasks == 1) (record db { tasks = update_where p f db.tasks }) db' e in
    ((nat_eq.beq_iff (count p db.tasks) 1).0 one, sym (ap (λ d. d.tasks) same))

pub begin_after_lem :
    (task_id : Uuid) (o : Option Tables) (db' : Tables)
    → begin_after task_id o ≡ some db'
    → (db : Tables) × (o ≡ some db) × (db'.tasks ≡ db.tasks)
unfolding begin_after begin_scan
begin_after_lem task_id none db' e = ground arith
begin_after_lem task_id (some db) db' e = at (find? (λ t. t.id == task_id) db.tasks) (ground arith)
  where
    at :
        (o : Option ScanTask)
        → begin_scan o db ≡ db'
        → (db1 : Tables) × (some db ≡ some db1) × (db'.tasks ≡ db1.tasks)
    at none e = (db, refl, ground arith)
    at (some task) e = (db, refl, ground arith)

-- One transaction on the tasks, from any copies that its caller holds. A submission claims the result
-- key and ends the task in one; a cancellation and a redispatch are here one UPDATE of theirs. Two
-- are left out: `create_fetch_tasks` adds rows and writes none of those there, and the failure of
-- `lease_task` after its claim ends the task on no condition at all.
pub data Step : Tables → Tables → Type 0 where
  claim :
      {db db' : Tables} (at : Datetime) (lease_seconds : ℕ) (task_id engine_id : Uuid)
      → claim_task at lease_seconds task_id engine_id db ≡ some db'
      → Step db db'
  renew :
      {db db' : Tables} (at : Datetime) (lease_seconds : ℕ) (task : ScanTask)
      → renew_lease at lease_seconds task db ≡ some db'
      → Step db db'
  advance :
      {db db' : Tables} (task : ScanTask) (sequence : ℕ) (checkpoint context : Fields)
      → advance_checkpoint task sequence checkpoint context db ≡ some db'
      → Step db db'
  restart : {db : Tables} (task : ScanTask) → Step db (discard_checkpoint task db)
  submit :
      {db db' : Tables} (task : ScanTask) (key : String) (status : ScanTaskStatus)
      (error : Option String) (coverage : Option Fields) (at : Datetime)
      → claim_result task key db ≡ some db'
      → Step db (complete_task task status error coverage at db')
  reclaim : {db : Tables} (at : Datetime) (task_id : Uuid) → Step db (requeue_one at task_id db)
  cancel :
      {db : Tables} (json : ReportJson) (at : Datetime) (task : ScanTask)
      (report : TaskCoverageReport)
      → Step db (stop json at task report db)
  redispatch : {db : Tables} (at : Datetime) (task_id : Uuid) → Step db (touch_one at task_id db)

-- Any interleaving of these transactions.
pub data Steps : Tables → Tables → Type 0 where
  done : {db : Tables} → Steps db db
  andthen : {db db' db'' : Tables} → Step db db' → Steps db' db'' → Steps db db''

pub Step-AllEvolve :
    {db db' : Tables} → AreDistinct db.tasks → Step db db' → AllEvolve db.tasks db'.tasks
unfolding claim_task renew_lease advance_checkpoint discard_checkpoint claim_result complete_task
Step-AllEvolve {db} {db'} distinct (claim at n task_id engine_id e) =
    let (db1, wrote, same) =
      begin_after_lem task_id (write_one (is_claimable task_id) (claimed at n engine_id) db) db'
        e in
    subst (AllEvolve db.tasks)
      (sym (same ∙ (write_one_lem (is_claimable task_id) (claimed at n engine_id) db db1 wrote).1))
      (update_where-AllEvolve (is_claimable task_id) (claimed at n engine_id) db.tasks
        (claimed-Evolves at n task_id engine_id))
Step-AllEvolve {db} {db'} distinct (renew at n task e) =
    subst (AllEvolve db.tasks) (sym (write_one_lem _ _ db db' e).1)
      (update_where-AllEvolve _ _ db.tasks (renewed-Evolves at (at + seconds n) task))
Step-AllEvolve {db} {db'} distinct (advance task sequence checkpoint context e) =
    subst (AllEvolve db.tasks) (sym (write_one_lem _ _ db db' e).1)
      (update_where-AllEvolve _ _ db.tasks (advanced-Evolves task sequence checkpoint context))
Step-AllEvolve {db} distinct (restart task) =
    update_where-AllEvolve _ _ db.tasks (λ t e. discarded-Evolves t)
Step-AllEvolve {db} distinct (submit {db' = db1} task key status error coverage at e) =
    let (one, wrote) = write_one_lem _ _ db db1 e in
    rw wrote (
      submitted-AllEvolve key status error coverage at task db.tasks (
        count-only (is_accepting task) task.id db.tasks
          (λ t h. ground (arith, nat_eq.beq_iff t.id task.id)) distinct one))
Step-AllEvolve {db} distinct (reclaim at task_id) =
    update_where-AllEvolve _ _ db.tasks (λ t e. requeued-Evolves at t (ground arith))
Step-AllEvolve {db} distinct (cancel json at task report) =
    update_where-AllEvolve _ _ db.tasks (stopped-Evolves json at task report)
Step-AllEvolve {db} distinct (redispatch at task_id) =
    update_where-AllEvolve _ _ db.tasks (λ t e. touched-Evolves at t)

-- Identifiers stay distinct where rows evolve one for one.
AllEvolve-absent :
    (id : Uuid) (ts us : List ScanTask)
    → AllEvolve ts us
    → All (λ t. t.id ≢ id) ts
    → All (λ u. u.id ≢ id) us
AllEvolve-absent id [] [] e h = tt
AllEvolve-absent id [] (u ∷ us) e h = absurd e
AllEvolve-absent id (t ∷ ts) [] e h = absurd e
AllEvolve-absent id (t ∷ ts) (u ∷ us) e h =
    (λ same. h.0 (sym e.0.id ∙ same), AllEvolve-absent id ts us e.1 h.1)

pub AllEvolve-AreDistinct :
    (ts us : List ScanTask) → AllEvolve ts us → AreDistinct ts → AreDistinct us
AllEvolve-AreDistinct [] [] e h = tt
AllEvolve-AreDistinct [] (u ∷ us) e h = absurd e
AllEvolve-AreDistinct (t ∷ ts) [] e h = absurd e
AllEvolve-AreDistinct (t ∷ ts) (u ∷ us) e h = (
  subst (λ i. All (λ v. v.id ≢ i) us) (sym e.0.id) (AllEvolve-absent t.id ts us e.1 h.0),
  AllEvolve-AreDistinct ts us e.1 h.1,
)

-- Where identifiers are distinct, whatever claims, renewals, batches, restarts, submissions, reclaims,
-- cancellations and redispatches follow each other, each task keeps its identity and work; once it is
-- terminal its status, end and coverage stay as they are; an accepted result key is never replaced; a
-- task that was not completed and now is has a result key; and neither the batch counter nor the
-- number of attempts ever runs back.
pub Steps-AllEvolve :
    {db db' : Tables} → AreDistinct db.tasks → Steps db db' → AllEvolve db.tasks db'.tasks
Steps-AllEvolve {db} distinct done = AllEvolve-refl db.tasks
Steps-AllEvolve {db} {db' = last} distinct (andthen {db' = mid} s more) =
    let one = Step-AllEvolve distinct s in
    AllEvolve-trans db.tasks mid.tasks last.tasks one
      (Steps-AllEvolve (AllEvolve-AreDistinct db.tasks mid.tasks one distinct) more)
