-- ===== src/Examples/Scans.antt =====
-- Leases, batches, the end of a scan and reconciliation at concrete inputs.
use iceberg_sst.Prelude.{
  false, true, none, some, List, [], ◌∷◌, ◌≡◌, refl, ◌≢◌, ◌↔◌, arith, All, length,
}
use iceberg_sst.Prelude.Rows.{update_where}
use iceberg_sst.Enums.{
  ScanStatus, ScanTaskStatus, ScanTaskStatus-discrete, ScanStatus-discrete, ScanTaskKind-discrete,
}
use iceberg_sst.Models.{Finding}
use iceberg_sst.Models.Json.{end, field, str}
use iceberg_sst.Models.Runs.{Scan, ScanTask}
use iceberg_sst.Scans.Tasks.{
  Tables, is_terminal, is_expired, reclaim_expired_leases, claimed, claim_task, claim_result,
  advance_checkpoint, complete_task,
}
use iceberg_sst.Scans.Tasks.Evolution.{AreDistinct, AllEvolve}
use iceberg_sst.Scans.Tasks.Lifecycle.{claim, submit, Steps, done, andthen, Steps-AllEvolve}
use iceberg_sst.Scans.Tasks.Once.{claim_result-once, advance_checkpoint-once}
use iceberg_sst.Scans.Finish.{finalize_scan_if_done, tasks_of}
use iceberg_sst.Scans.Finish.Outcome.{finalize_scan_if_done-completed, finalize_scan_if_done-once}
use iceberg_sst.Scans.Reconcile.{saw_any_content, Reconciled, reconcile, reconcile_scan}
use iceberg_sst.Scans.Reconcile.Cautious.{AllResolve, MayResolve, reconcile_scan-AllResolve}
use iceberg_sst.Scans.Reconcile.Thorough.{IsSettled, reconcile_scan_complete}
use iceberg_sst.Scans.Tasks.Reclaim.{
  AllReclaim, reclaim_expired_leases-AllReclaim, reclaim_expired_leases-All,
}
use iceberg_sst.Examples.Samples.{leaked_key, fixed_key, hidden_key, scan, task}

abbrev other : ScanTask
other = record task { id = 22 }

abbrev running_scan : Scan
running_scan = record scan { status = ScanStatus.running }

abbrev queue : Tables
queue = record { scans = running_scan ∷ []; tasks = task ∷ other ∷ [] }

abbrev leased_task : ScanTask
leased_task = claimed 100 300 5 task

abbrev leased : Tables
leased = record queue { tasks = leased_task ∷ other ∷ [] }

queue-AreDistinct : AreDistinct queue.tasks
queue-AreDistinct = (((λ e. ground arith), tt), (tt, tt))

leased-AreDistinct : AreDistinct leased.tasks
leased-AreDistinct = (((λ e. ground arith), tt), (tt, tt))

claimed_first : claim_task 100 300 21 5 queue ≡ some leased
unfolding claim_task ScanTaskStatus-discrete ScanStatus-discrete update_where
claimed_first = refl

abbrev keyed : Tables
keyed = record queue { tasks = record leased_task { result_key = some "21:1" } ∷ other ∷ [] }

key_taken : claim_result leased_task "21:1" leased ≡ some keyed
unfolding claim_result update_where
key_taken = refl

abbrev ended : Tables
ended = complete_task leased_task ScanTaskStatus.completed none none 150 keyed

steps : Steps queue ended
steps =
    andthen (claim 100 300 21 5 claimed_first)
      (andthen (submit leased_task "21:1" ScanTaskStatus.completed none none 150 key_taken) done)

Steps-AllEvolve_example : AllEvolve queue.tasks ended.tasks
Steps-AllEvolve_example = Steps-AllEvolve queue-AreDistinct steps

claim_result-once_example : claim_result leased_task "21:2" ended ≡ none
claim_result-once_example =
    claim_result-once leased_task leased_task "21:1" "21:2" ScanTaskStatus.completed none none 150
      leased keyed ended leased-AreDistinct key_taken done refl

abbrev flushed : Tables
flushed = record queue {
  tasks =
      record leased_task { checkpoint = field "page" (str "2") end; checkpoint_sequence = 1 }
      ∷ other
      ∷ [];
}

batch_taken :
    advance_checkpoint leased_task 1 (field "page" (str "2") end) end leased ≡ some flushed
unfolding advance_checkpoint update_where
batch_taken = refl

abbrev flushed_keyed : Tables
flushed_keyed = record queue {
  tasks =
      record leased_task {
        checkpoint = field "page" (str "2") end;
        checkpoint_sequence = 1;
        result_key = some "21:1";
      }
      ∷ other
      ∷ [];
}

later_key : claim_result leased_task "21:1" flushed ≡ some flushed_keyed
unfolding claim_result update_where
later_key = refl

advance_checkpoint-once_example :
    advance_checkpoint leased_task 1 end end
      (complete_task leased_task ScanTaskStatus.failed (some "lost") none 160 flushed_keyed)
    ≡ none
advance_checkpoint-once_example =
    advance_checkpoint-once leased_task leased_task 1 (field "page" (str "2") end) end end end
      leased flushed _ leased-AreDistinct batch_taken
      (andthen (submit leased_task "21:1" ScanTaskStatus.failed (some "lost") none 160 later_key)
        done)
      refl

abbrev settled : Tables
settled = record queue { tasks = record task { status = ScanTaskStatus.completed } ∷ [] }

abbrev closed : Tables
closed = record settled {
  scans = record running_scan { status = ScanStatus.completed; finished_at = some 200 } ∷ [];
}

finished : finalize_scan_if_done 200 11 settled ≡ some (closed, ScanStatus.completed)
unfolding finalize_scan_if_done ScanTaskStatus-discrete update_where
finished = refl

finalize_scan_if_done-completed_example :
    (tasks_of 11 settled ≢ [])
    × All (λ t. is_terminal t.status ≡ true) (tasks_of 11 settled)
    × (closed.tasks ≡ settled.tasks)
    × ((ScanStatus.completed ≡ ScanStatus.completed)
        ↔ All (λ t. t.status ≡ ScanTaskStatus.completed) (tasks_of 11 settled))
finalize_scan_if_done-completed_example =
    finalize_scan_if_done-completed 200 11 settled closed ScanStatus.completed finished

finalize_scan_if_done-once_example : finalize_scan_if_done 201 11 closed ≡ none
finalize_scan_if_done-once_example =
    finalize_scan_if_done-once 200 201 11 settled closed ScanStatus.completed finished

abbrev stored : List Finding
stored = leaked_key ∷ fixed_key ∷ hidden_key ∷ []

looked : saw_any_content (task ∷ []) scan ≡ true
unfolding ScanTaskKind-discrete
looked = refl

reconcile_scan_complete_example :
    (r : Reconciled) × (reconcile_scan (λ fs. fs) 300 scan (task ∷ []) stored ≡ some r)
    × All (IsSettled scan) r.findings
reconcile_scan_complete_example = reconcile_scan_complete 300 scan (task ∷ []) stored refl looked

-- An analyst closes the open finding while the scan is reconciled.
abbrev triaged : List Finding → List Finding
triaged fs = fixed_key ∷ hidden_key ∷ []

abbrev outcome : Reconciled
outcome = reconcile triaged 300 scan (task ∷ []) stored

ran : reconcile_scan triaged 300 scan (task ∷ []) stored ≡ some outcome
unfolding reconcile_scan ScanStatus-discrete
ran = refl

reconcile_scan-AllResolve_example :
    (scan.status ≡ ScanStatus.completed)
    × AllResolve (MayResolve scan (task ∷ []) stored) (triaged stored) outcome.findings
    × (length outcome.events ≡ outcome.result.resolved)
reconcile_scan-AllResolve_example =
    reconcile_scan-AllResolve triaged 300 scan (task ∷ []) stored outcome ran

-- The engine finishes its task after the sweep saw that its lease had lapsed.
abbrev finishes : Tables → Tables
finishes db = ended

reclaim_expired_leases-AllReclaim_example :
    AllReclaim 900000000 ended.tasks (reclaim_expired_leases finishes 900000000 leased).0.tasks
reclaim_expired_leases-AllReclaim_example =
    reclaim_expired_leases-AllReclaim finishes 900000000 leased

reclaim_expired_leases-All_example :
    All
      (λ t. is_expired 900000000 t ≡ false)
      (reclaim_expired_leases (λ d. d) 900000000 leased).0.tasks
reclaim_expired_leases-All_example = reclaim_expired_leases-All 900000000 leased
