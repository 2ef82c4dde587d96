-- ===== src/Scans/Tasks/Once.antt =====
-- Writes that are repeated after other transactions.
use iceberg_sst.Prelude.{
  ℕ, ◌+◌, ◌≤◌, Bool, true, false, Option, none, some, List, [], ◌∷◌, String, ◌≡◌, refl, inl, inr,
  arith, ◌==◌, nat_eq, option_eq, if◌then◌else◌, count, All, Bool-cases, sym, ◌∙◌, ap, subst,
}
use iceberg_sst.Prelude.Rows.{update_where}
use iceberg_sst.Enums.{ScanTaskStatus, task_status_eq}
use iceberg_sst.Models.{Uuid, Datetime}
use iceberg_sst.Models.Json.{Fields}
use iceberg_sst.Models.Runs.{ScanTask}
use iceberg_sst.Scans.Tasks.{
  Tables, write_one, is_claimable, claimed, begin_after, claim_task, is_accepting, claim_result,
  is_next, advance_checkpoint, finished, complete_task,
}
use iceberg_sst.Scans.Tasks.Evolution.{
  Evolves, AllEvolve, AreDistinct, count-only, update_where-AllEvolve, advanced-Evolves,
}
use iceberg_sst.Scans.Tasks.Lifecycle.{
  Steps, submit, Step-AllEvolve, write_one_lem, begin_after_lem, Steps-AllEvolve,
  AllEvolve-AreDistinct,
}

-- A predicate on the row of one identifier.
abbrev On : Uuid → (ScanTask → Type 0) → List ScanTask → Type 0
On id Q = All (λ t. t.id ≡ id → Q t)

On-evolved :
    (id : Uuid) (Q : ScanTask → Type 0) (ts us : List ScanTask)
    → ((t u : ScanTask) → Evolves t u → Q t → Q u)
    → AllEvolve ts us
    → On id Q ts
    → On id Q us
On-evolved id Q [] [] keep e h = tt
On-evolved id Q [] (u ∷ us) keep e h = absurd e
On-evolved id Q (t ∷ ts) [] keep e h = absurd e
On-evolved id Q (t ∷ ts) (u ∷ us) keep e h =
    (λ same. keep t u e.0 (h.0 (sym e.0.id ∙ same)), On-evolved id Q ts us keep e.1 h.1)

On-written :
    (id : Uuid) (Q : ScanTask → Type 0) (p : ScanTask → Bool) (f : ScanTask → ScanTask)
    (ts : List ScanTask)
    → ((t : ScanTask) → p t ≡ true → Q (f t))
    → On id (λ t. p t ≡ true) ts
    → On id Q (update_where p f ts)
unfolding update_where
On-written id Q p f [] sets h = tt
On-written id Q p f (t ∷ ts) sets h = (at (p t) refl, On-written id Q p f ts sets h.1)
  where
    at : (b : Bool) → p t ≡ b → ((if b then f t else t).id ≡ id) → Q (if b then f t else t)
    at true e same = sets t e
    at false e same = ground (arith, h.0 same)

-- A write that keeps the predicate and the identifier keeps it on the row, whichever rows it writes.
On-rewritten :
    (id : Uuid) (Q : ScanTask → Type 0) (p : ScanTask → Bool) (f : ScanTask → ScanTask)
    (ts : List ScanTask)
    → ((t : ScanTask) → Q t → Q (f t))
    → ((t : ScanTask) → (f t).id ≡ t.id)
    → On id Q ts
    → On id Q (update_where p f ts)
unfolding update_where
On-rewritten id Q p f [] keeps same h = tt
On-rewritten id Q p f (t ∷ ts) keeps same h = (at (p t), On-rewritten id Q p f ts keeps same h.1)
  where
    at : (b : Bool) → (if b then f t else t).id ≡ id → Q (if b then f t else t)
    at true e = keeps t (h.0 (sym (same t) ∙ e))
    at false e = h.0 e

-- No row is written where the row of that identifier refuses.
write_one-refused :
    (id : Uuid) (Q : ScanTask → Type 0) (p : ScanTask → Bool) (f : ScanTask → ScanTask)
    (db : Tables)
    → ((t : ScanTask) → p t ≡ true → (t.id ≡ id) × (Q t → ⊥))
    → On id Q db.tasks
    → write_one p f db ≡ none
write_one-refused id Q p f db refuses h = rw (zero_of db.tasks h) refl
  where
    zero_of : (ts : List ScanTask) → On id Q ts → count p ts ≡ 0
    zero_of [] q = refl
    zero_of (t ∷ ts) q = elim (Bool-cases (p t)) [
      | inl met ↦ absurd ((refuses t met).1 (q.0 (refuses t met).0))
      | inr unmet ↦ ground (arith, zero_of ts q.1)
    ]

-- What one conditional write leaves on the row that it wrote.
write_one-On :
    (id : Uuid) (Q : ScanTask → Type 0) (p : ScanTask → Bool) (f : ScanTask → ScanTask)
    (db db' : Tables)
    → AreDistinct db.tasks
    → ((t : ScanTask) → p t ≡ true → t.id ≡ id)
    → ((t : ScanTask) → p t ≡ true → Q (f t))
    → write_one p f db ≡ some db'
    → On id Q db'.tasks
write_one-On id Q p f db db' distinct named sets e =
    let (one, wrote) = write_one_lem p f db db' e in
    subst (On id Q) (sym wrote)
      (On-written id Q p f db.tasks sets (count-only p id db.tasks named distinct one))

-- What the write left is still there after any further transactions.
On-Steps :
    (id : Uuid) (Q : ScanTask → Type 0) {db db' : Tables}
    → ((t u : ScanTask) → Evolves t u → Q t → Q u)
    → AreDistinct db.tasks
    → Steps db db'
    → On id Q db.tasks
    → On id Q db'.tasks
On-Steps id Q {db} {db'} keep distinct steps =
    On-evolved id Q db.tasks db'.tasks keep (Steps-AllEvolve distinct steps)

write_one-AreDistinct :
    (p : ScanTask → Bool) (f : ScanTask → ScanTask) (db db' : Tables)
    → ((t : ScanTask) → p t ≡ true → Evolves t (f t))
    → AreDistinct db.tasks
    → write_one p f db ≡ some db'
    → AreDistinct db'.tasks
write_one-AreDistinct p f db db' evolves distinct e =
    AllEvolve-AreDistinct db.tasks db'.tasks
      (subst (AllEvolve db.tasks) (sym (write_one_lem p f db db' e).1)
        (update_where-AllEvolve p f db.tasks evolves))
      distinct

-- Where identifiers are distinct, a batch that was accepted for a task is refused ever after, from any
-- copy of the task and with any contents, whatever transactions come in between.
pub advance_checkpoint-once :
    (task copy : ScanTask) (sequence : ℕ) (checkpoint context checkpoint' context' : Fields)
    (db db1 db2 : Tables)
    → AreDistinct db.tasks
    → advance_checkpoint task sequence checkpoint context db ≡ some db1
    → Steps db1 db2
    → copy.id ≡ task.id
    → advance_checkpoint copy sequence checkpoint' context' db2 ≡ none
unfolding advance_checkpoint
advance_checkpoint-once task copy sequence checkpoint context checkpoint' context' db db1 db2
      distinct e steps same =
    write_one-refused task.id (λ t. sequence ≤ t.checkpoint_sequence) (is_next copy sequence) _ db2
      (λ t met.
        ground
          (arith, nat_eq.beq_iff t.id copy.id, nat_eq.beq_iff (t.checkpoint_sequence + 1) sequence))
      (On-Steps task.id _ (λ t u ev q. ground (arith, ev.batches))
        (write_one-AreDistinct (is_next task sequence) _ db db1
          (advanced-Evolves task sequence checkpoint context) distinct e)
        steps
        (write_one-On task.id _ (is_next task sequence) _ db db1 distinct
          (λ t met. ground (arith, nat_eq.beq_iff t.id task.id)) (λ t met. omega arith) e))

-- Where identifiers are distinct, once a submission that took a task's result key has completed the
-- task, every later one is refused, from any copy of the task and with any key, whatever claims,
-- renewals, batches, restarts, submissions, reclaims, cancellations and redispatches come in between.
pub claim_result-once :
    (task copy : ScanTask) (key key' : String) (status : ScanTaskStatus) (error : Option String)
    (coverage : Option Fields) (at : Datetime) (db db1 db2 : Tables)
    → AreDistinct db.tasks
    → claim_result task key db ≡ some db1
    → Steps (complete_task task status error coverage at db1) db2
    → copy.id ≡ task.id
    → claim_result copy key' db2 ≡ none
unfolding claim_result complete_task
claim_result-once task copy key key' status error coverage at db db1 db2 distinct e steps same =
    let committed = complete_task task status error coverage at db1 in
    write_one-refused task.id (λ t. t.result_key ≡ some key) (is_accepting copy) _ db2
      (λ t met. (ground (arith, nat_eq.beq_iff t.id copy.id), λ q. ground arith))
      (On-Steps task.id _ (λ t u ev q. ev.result_key key q)
        (AllEvolve-AreDistinct db.tasks committed.tasks
          (Step-AllEvolve distinct (submit task key status error coverage at e)) distinct)
        steps
        (On-rewritten task.id (λ t. t.result_key ≡ some key) (λ t. t.id == task.id)
          (finished status error coverage at) db1.tasks (λ t q. q) (λ t. refl)
          (write_one-On task.id _ (is_accepting task) _ db db1 distinct
            (λ t met. ground (arith, nat_eq.beq_iff t.id task.id)) (λ t met. refl) e)))

-- Where identifiers are distinct, of two claims of one task with nothing in between the second is
-- refused, whichever engines make them and whenever.
pub claim_task-once :
    (at at' : Datetime) (n n' : ℕ) (task_id engine_id engine_id' : Uuid) (db db1 : Tables)
    → AreDistinct db.tasks
    → claim_task at n task_id engine_id db ≡ some db1
    → claim_task at' n' task_id engine_id' db1 ≡ none
unfolding claim_task
claim_task-once at at' n n' task_id engine_id engine_id' db db1 distinct e =
    let (db0, wrote, tasks) =
      begin_after_lem task_id (write_one (is_claimable task_id) (claimed at n engine_id) db) db1
        e in
    ap (begin_after task_id) (
      write_one-refused task_id (λ t. t.status ≡ ScanTaskStatus.leased) (is_claimable task_id)
        (claimed at' n' engine_id') db1
        (λ t met. (
          ground (arith, nat_eq.beq_iff t.id task_id),
          λ q. ground (arith, task_status_eq.beq_iff t.status ScanTaskStatus.queued),
        ))
        (subst (On task_id (λ t. t.status ≡ ScanTaskStatus.leased)) (sym tasks) (
          write_one-On task_id (λ t. t.status ≡ ScanTaskStatus.leased) (is_claimable task_id)
            (claimed at n engine_id) db db0 distinct
            (λ t met. ground (arith, nat_eq.beq_iff t.id task_id)) (λ t met. refl) wrote)))
