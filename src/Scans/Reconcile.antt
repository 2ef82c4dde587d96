-- ===== src/Scans/Reconcile.antt =====
-- apps/api/src/iceberg_api/scans/reconcile.py: a finished scan resolves the findings that it did not
-- see. `between` is what other transactions commit after the SELECT and before the UPDATEs.
pub mod Cautious
pub mod Thorough
use iceberg_sst.Prelude.{
  ℕ, suc, ◌+◌, Bool, true, false, not, ◌&&◌, Option, none, some, List, [], ◌∷◌, ◌++◌, String, ◌==◌,
  nat_eq, string_eq, if◌then◌else◌, is_none, count, filter, length, or_else,
}
use iceberg_sst.Prelude.Rows.{update_where}
use iceberg_sst.Prelude.Dicts.{Dict, lookup, insert}
use iceberg_sst.Enums.{
  FindingState, opened, resolved, FindingResolution, auto, FindingEventKind, state_change,
  ScanStatus, ScanTaskKind, fetch, state_eq, scan_status_eq, task_kind_eq,
}
use iceberg_sst.Models.{Uuid, Datetime, Finding, FindingEvent, of_state, not_seen_by_scan}
use iceberg_sst.Models.Runs.{Scan, ScanTask}

pub record ReconciliationResult : Type 0 where
  pub new : ℕ
  pub seen : ℕ
  pub resolved : ℕ
  pub reopened : ℕ

-- The WHERE of the SELECT.
abbrev pub is_missing : Scan → Finding → Bool
is_missing scan f =
    f.source_id == scan.source_id
    && f.state == opened
    && not (f.last_seen_scan_id == scan.id)
    && is_none f.suppressed_at

-- `_saw_any_content`
abbrev pub saw_any_content : List ScanTask → Scan → Bool
saw_any_content tasks scan = not (count (λ t. t.scan_id == scan.id && t.kind == fetch) tasks == 0)

abbrev pub is_still_open : Uuid → Finding → Bool
is_still_open id f = f.id == id && f.state == opened

abbrev pub auto_resolved : Finding → Finding
auto_resolved f = record f { state = resolved; resolution = some auto }

abbrev resolution_event : Uuid → Uuid → FindingEvent
resolution_event scan_id finding_id = record {
  finding_id = finding_id;
  actor_id = none;
  scan_id = some scan_id;
  kind = state_change;
  from_value = some (of_state opened);
  to_value = some (of_state resolved);
  comment = some (not_seen_by_scan scan_id);
}

pub record Written : Type 0 where
  pub findings : List Finding
  pub events : List FindingEvent
  pub resolved : ℕ

abbrev write_event : Bool → Uuid → Uuid → List FindingEvent → List FindingEvent
write_event true scan_id id events = resolution_event scan_id id ∷ events
write_event false scan_id id events = events

-- The loop over the findings selected.
unfoldable pub resolve_each : Uuid → List Finding → List Finding → Written
resolve_each scan_id [] findings = record { findings = findings; events = []; resolved = 0 }
resolve_each scan_id (f ∷ missing) findings =
    let wrote = count (is_still_open f.id) findings == 1 in
    let rest =
      resolve_each scan_id missing (update_where (is_still_open f.id) auto_resolved findings) in
    record {
      findings = rest.findings;
      events = write_event wrote scan_id f.id rest.events;
      resolved = (if wrote then 1 else 0) + rest.resolved;
    }

pub record Reconciled : Type 0 where
  pub findings : List Finding
  pub events : List FindingEvent
  pub scan : Scan
  pub result : ReconciliationResult

-- `if missing and not _saw_any_content(db, scan): missing = []`
abbrev unless_blind : Bool → List Finding → List Finding
unless_blind saw [] = []
unless_blind true (f ∷ missing) = f ∷ missing
unless_blind false (f ∷ missing) = []

abbrev missing_of : Scan → List ScanTask → List Finding → List Finding
missing_of scan tasks findings =
    unless_blind (saw_any_content tasks scan) (filter (is_missing scan) findings)

abbrev counted : Dict String ℕ → ReconciliationResult → Dict String ℕ
counted counts r =
    insert "reopened" r.reopened
      (insert "resolved" r.resolved (insert "seen" r.seen (insert "new" r.new counts)))

pub reconcile :
    (between : List Finding → List Finding)
    → Datetime
    → Scan
    → List ScanTask
    → List Finding
    → Reconciled
unfolding resolve_each
reconcile between at scan tasks findings =
    let written = resolve_each scan.id (missing_of scan tasks findings) (between findings) in
    let result : ReconciliationResult = record {
      new =
          count (λ f. f.source_id == scan.source_id && f.first_seen_scan_id == scan.id)
            written.findings;
      seen =
          count (λ f. f.source_id == scan.source_id && f.last_seen_scan_id == scan.id)
            written.findings;
      resolved = written.resolved;
      reopened = or_else (lookup "reopened" scan.counts) 0;
    } in
    record {
      findings = written.findings;
      events = written.events;
      scan = record scan {
        counts = counted scan.counts result;
        finished_at = some (or_else scan.finished_at at);
      };
      result = result;
    }

unfoldable pub reconcile_scan :
    (between : List Finding → List Finding)
    → Datetime
    → Scan
    → List ScanTask
    → List Finding
    → Option Reconciled
unfolding reconcile
reconcile_scan between at scan tasks findings =
    if scan.status == ScanStatus.completed
    then some (reconcile between at scan tasks findings)
    else none
