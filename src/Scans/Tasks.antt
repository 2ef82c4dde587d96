-- ===== src/Scans/Tasks.antt =====
-- apps/api/src/iceberg_api/scans/service.py: what engines and sweeps do to the rows of `scan_task`.
-- Each write is a conditional UPDATE that answers by the number of rows it wrote; `none` is the
-- transaction rolled back. A `task` that an operation takes is the caller's copy, which may be stale.
-- The rows of a table stand in the order of (created_at, id).
pub mod Evolution
pub mod Lifecycle
pub mod Once
pub mod Reclaim
use iceberg_sst.Prelude.{
  ℕ, suc, ◌+◌, Bool, true, false, not, ◌&&◌, ◌||◌, Option, none, some, List, [], ◌∷◌, ◌++◌, String,
  ◌==◌, nat_eq, option_eq, if◌then◌else◌, is_none, count, find?, filter, map, ltb, any,
}
use iceberg_sst.Prelude.Rows.{update_where}
use iceberg_sst.Enums.{
  ScanStatus, is_active, ScanTaskKind, discovery, fetch, ScanTaskStatus, scan_status_eq,
  task_status_eq,
}
use iceberg_sst.Models.{Uuid, Datetime, seconds}
use iceberg_sst.Models.Json.{Fields, end}
use iceberg_sst.Models.Runs.{Scan, ScanTask}

pub record Tables : Type 0 where
  pub scans : List Scan
  pub tasks : List ScanTask

-- `status in LEASED_STATUSES`
abbrev pub is_leased : ScanTaskStatus → Bool
is_leased ScanTaskStatus.leased = true
is_leased ScanTaskStatus.running = true
is_leased _ = false

-- `status in TERMINAL_TASK_STATUSES`
abbrev pub is_terminal : ScanTaskStatus → Bool
is_terminal ScanTaskStatus.completed = true
is_terminal ScanTaskStatus.failed = true
is_terminal ScanTaskStatus.cancelled = true
is_terminal _ = false

-- One conditional UPDATE of `scan_task` that must write exactly one row.
abbrev pub write_one : (ScanTask → Bool) → (ScanTask → ScanTask) → Tables → Option Tables
write_one p f db =
    if count p db.tasks == 1 then some (record db { tasks = update_where p f db.tasks }) else none

abbrev pub is_claimable : Uuid → ScanTask → Bool
is_claimable task_id t = t.id == task_id && t.status == ScanTaskStatus.queued

abbrev pub claimed : Datetime → ℕ → Uuid → ScanTask → ScanTask
claimed at lease_seconds engine_id t = record t {
  status = ScanTaskStatus.leased;
  engine_id = some engine_id;
  lease_expires_at = some (at + seconds lease_seconds);
  heartbeat_at = some at;
  started_at = some at;
  attempts = t.attempts + 1;
}

-- The scan of a task that was leased leaves the queue.
begun : ScanTaskKind → ScanStatus
begun discovery = ScanStatus.discovering
begun fetch = ScanStatus.running

begin_scan : Option ScanTask → Tables → Tables
unfolding begun
begin_scan none db = db
begin_scan (some task) db = record db {
  scans =
      update_where (λ s. s.id == task.scan_id && s.status == ScanStatus.queued)
        (λ s. record s { status = begun task.kind }) db.scans;
}

pub begin_after : Uuid → Option Tables → Option Tables
unfolding begin_scan
begin_after task_id none = none
begin_after task_id (some db) = some (begin_scan (find? (λ t. t.id == task_id) db.tasks) db)

unfoldable pub claim_task :
    (at : Datetime) (lease_seconds : ℕ) (task_id engine_id : Uuid) → Tables → Option Tables
unfolding begin_after
claim_task at lease_seconds task_id engine_id db =
    begin_after task_id (write_one (is_claimable task_id) (claimed at lease_seconds engine_id) db)

abbrev pub is_renewable : ScanTask → ScanTask → Bool
is_renewable task t = t.id == task.id && is_leased t.status && t.engine_id == task.engine_id

unfoldable pub renew_lease : (at : Datetime) (lease_seconds : ℕ) → ScanTask → Tables → Option Tables
renew_lease at lease_seconds task = write_one (is_renewable task) (λ t. record t {
  heartbeat_at = some at;
  lease_expires_at = some (at + seconds lease_seconds);
  status = ScanTaskStatus.running;
})

abbrev pub is_accepting : ScanTask → ScanTask → Bool
is_accepting task t =
    t.id == task.id && t.engine_id == task.engine_id && is_leased t.status && is_none t.result_key

unfoldable pub claim_result : ScanTask → (idempotency_key : String) → Tables → Option Tables
claim_result task idempotency_key =
    write_one (is_accepting task) (λ t. record t { result_key = some idempotency_key })

abbrev pub is_next : ScanTask → (sequence : ℕ) → ScanTask → Bool
is_next task sequence t = is_accepting task t && t.checkpoint_sequence + 1 == sequence

unfoldable pub advance_checkpoint :
    ScanTask → (sequence : ℕ) → (checkpoint context : Fields) → Tables → Option Tables
advance_checkpoint task sequence checkpoint context = write_one (is_next task sequence) (λ t.
    record t {
      checkpoint = checkpoint;
      checkpoint_sequence = sequence;
      checkpoint_context = context;
    })

-- The writes through the session's own object reach the row of the same identifier.
unfoldable pub discard_checkpoint : ScanTask → Tables → Tables
discard_checkpoint task db = record db {
  tasks =
      update_where (λ t. t.id == task.id)
        (λ t. record t { checkpoint = end; checkpoint_context = end }) db.tasks;
}

abbrev pub finished :
    ScanTaskStatus → Option String → Option Fields → Datetime → ScanTask → ScanTask
finished status error coverage at t = record t {
  status = status;
  error = error;
  coverage = elim coverage [ none ↦ t.coverage | some report ↦ report ];
  finished_at = some at;
  lease_expires_at = none;
}

unfoldable pub complete_task :
    ScanTask → ScanTaskStatus → Option String → Option Fields → (at : Datetime) → Tables → Tables
complete_task task status error coverage at db = record db {
  tasks = update_where (λ t. t.id == task.id) (finished status error coverage at) db.tasks;
}

abbrev pub is_expired : Datetime → ScanTask → Bool
is_expired at t = is_leased t.status && elim t.lease_expires_at [ none ↦ false | some e ↦ ltb e at ]

abbrev pub requeued : Datetime → ScanTask → ScanTask
requeued at t = record t {
  status = ScanTaskStatus.queued;
  engine_id = none;
  lease_expires_at = none;
  updated_at = at;
}

abbrev pub is_reclaimable : Datetime → Uuid → ScanTask → Bool
is_reclaimable at task_id t = t.id == task_id && is_expired at t

abbrev pub requeue_one : Datetime → Uuid → Tables → Tables
requeue_one at task_id db = record db {
  tasks = update_where (is_reclaimable at task_id) (requeued at) db.tasks;
}

-- The UPDATE of one expired task; a task that moved on since the SELECT is left as it is.
unfoldable pub reclaim_each : Datetime → List Uuid → Tables → Tables × List Uuid
reclaim_each at [] db = (db, [])
reclaim_each at (task_id ∷ rest) db =
    let wrote = count (is_reclaimable at task_id) db.tasks == 1 in
    let (after, reclaimed) = reclaim_each at rest (requeue_one at task_id db) in
    (after, if wrote then task_id ∷ reclaimed else reclaimed)

-- `between` is what other transactions commit after the SELECT and before the UPDATEs.
unfoldable pub reclaim_expired_leases :
    (between : Tables → Tables) → Datetime → Tables → Tables × List Uuid
unfolding reclaim_each
reclaim_expired_leases between at db =
    reclaim_each at (map (λ t. t.id) (filter (is_expired at) db.tasks)) (between db)

-- The age is compared as `updated_at < at - stale_after`, with the difference moved across.
abbrev is_stale : Datetime → (stale_after_seconds : ℕ) → ScanTask → Bool
is_stale at stale_after_seconds t =
    t.status == ScanTaskStatus.queued && ltb (t.updated_at + seconds stale_after_seconds) at

abbrev pub touch_one : Datetime → Uuid → Tables → Tables
touch_one at task_id db = record db {
  tasks = update_where (λ t. t.id == task_id) (λ t. record t { updated_at = at }) db.tasks;
}

touch_each : Datetime → List Uuid → Tables → Tables
touch_each at [] db = db
touch_each at (task_id ∷ rest) db = touch_each at rest (touch_one at task_id db)

-- The tasks enqueued again, and the tables after it; `between` is as above.
unfoldable pub redispatch_stale_tasks :
    (between : Tables → Tables) → Datetime → (stale_after_seconds : ℕ) → Tables → Tables × List Uuid
unfolding touch_each
redispatch_stale_tasks between at stale_after_seconds db =
    let stale = map (λ t. t.id) (filter (is_stale at stale_after_seconds) db.tasks) in
    (touch_each at stale (between db), stale)
