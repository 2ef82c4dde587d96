-- ===== src/Scans/Manifest.antt =====
-- apps/api/src/iceberg_api/scans/coverage.py: `build_manifest`, what a terminal scan's tasks add up to.
-- Tasks stand in the order of (created_at, id).
pub mod Balanced
pub mod Complete
use iceberg_sst.Prelude.{
  ℕ, ◌+◌, ◌-◌, Bool, true, false, not, ◌&&◌, ◌||◌, Option, none, some, List, [], ◌∷◌, ◌++◌, ◌==◌,
  nat_eq, leb, if◌then◌else◌, length, count, take, map, all, or_else,
}
use iceberg_sst.Enums.{
  ScanStatus, ScanTaskKind, discovery, fetch, ScanTaskStatus, CoverageReason, CoverageDisposition,
  CoverageState, task_status_eq,
}
use iceberg_sst.Models.{Uuid}
use iceberg_sst.Models.Coverage.{
  CoverageCounts, CoverageScope, CoverageReasonCount, CoverageGap, TaskCoverageReport,
  CoverageTaskCounts, CoverageManifestGap, CoverageManifest,
}
use iceberg_sst.Models.Runs.{Scan, ScanTask}
use iceberg_sst.Engines.Reports.{
  max_gap_references, is_hex, counts_reconcile, scope_reconciles, is_reason_valid,
}
use iceberg_sst.Scans.Coverage.{
  Checked, passed, validation_error, ReportJson, bump, tally_reasons, sort_reasons, add_counts,
  validated_report,
}

-- The local variables of the loop over the tasks.
pub record Tally : Type 0 where
  pub counts : CoverageCounts
  pub reasons : List CoverageReasonCount
  pub gaps : List CoverageManifestGap
  pub gaps_omitted : ℕ
  pub reported : ℕ
  pub unreported : ℕ
  pub discovery_requested : ℕ
  pub discovery_requested_known : Bool
  pub scope_discovered : ℕ
  pub scope_gaps : ℕ
  pub fetch_scope_gap : Bool

abbrev pub no_counts : CoverageCounts
no_counts = record { requested = 0; discovered = 0; scanned = 0; skipped = 0; failed = 0 }

abbrev pub no_tally : Tally
no_tally = record {
  counts = no_counts;
  reasons = [];
  gaps = [];
  gaps_omitted = 0;
  reported = 0;
  unreported = 0;
  discovery_requested = 0;
  discovery_requested_known = true;
  scope_discovered = 0;
  scope_gaps = 0;
  fetch_scope_gap = false;
}

abbrev is_discovery_task : ScanTaskKind → Bool
is_discovery_task discovery = true
is_discovery_task fetch = false

-- A task without a report that counts.
pub unaccounted : ScanTask → Tally → Tally
unfolding bump
unaccounted task t = record t {
  unreported = t.unreported + 1;
  scope_gaps = t.scope_gaps + 1;
  gaps_omitted = t.gaps_omitted + 1;
  reasons = bump CoverageDisposition.scope_gap CoverageReason.unreported 1 t.reasons;
  discovery_requested_known = t.discovery_requested_known && not (is_discovery_task task.kind);
  fetch_scope_gap = t.fetch_scope_gap || not (is_discovery_task task.kind);
}

abbrev pub manifest_gap : ScanTask → TaskCoverageReport → CoverageGap → CoverageManifestGap
manifest_gap task report gap = record {
  task_id = task.id;
  phase = report.phase;
  kind = gap.kind;
  outcome = gap.outcome;
  reason = gap.reason;
  reference = gap.reference;
}

-- At most `max_gap_references` are kept at any time, so the bound of the slice is not negative.
pub accounted : ScanTask → TaskCoverageReport → Tally → Tally
unfolding tally_reasons
accounted task report t =
    let retained = take (max_gap_references - length t.gaps) report.gaps in
    record {
      counts = add_counts t.counts report.counts;
      reasons = tally_reasons report.reasons t.reasons;
      gaps = t.gaps ++ map (manifest_gap task report) retained;
      gaps_omitted = t.gaps_omitted + report.gaps_omitted + (length report.gaps - length retained);
      reported = t.reported + 1;
      unreported = t.unreported;
      discovery_requested =
          if is_discovery_task task.kind
          then t.discovery_requested + or_else report.scope.requested 0
          else t.discovery_requested;
      discovery_requested_known =
          if is_discovery_task task.kind
          then elim report.scope.requested [ none ↦ false | some n ↦ t.discovery_requested_known ]
          else t.discovery_requested_known;
      scope_discovered = t.scope_discovered + report.scope.discovered;
      scope_gaps = t.scope_gaps + report.scope.gaps;
      fetch_scope_gap =
          t.fetch_scope_gap || not (is_discovery_task task.kind) && not (report.scope.gaps == 0);
    }

pub account : ScanTask → Option TaskCoverageReport → Tally → Tally
unfolding accounted unaccounted
account task none t = unaccounted task t
account task (some report) t = accounted task report t

-- `_coverage_state`
unfoldable pub coverage_state :
    ScanStatus → (skipped failed scope_gaps unreported : ℕ) → CoverageState
coverage_state ScanStatus.cancelled skipped failed scope_gaps unreported = CoverageState.cancelled
coverage_state ScanStatus.failed skipped failed scope_gaps unreported = CoverageState.failed
coverage_state ScanStatus.partial skipped failed scope_gaps unreported = CoverageState.partial
coverage_state _ skipped failed scope_gaps unreported =
    if not (skipped == 0) || not (failed == 0) || not (scope_gaps == 0) || not (unreported == 0)
    then CoverageState.partial
    else CoverageState.complete

-- The requested total, where it is known and exact.
unfoldable pub requested_scope : Tally → Option ℕ
requested_scope t =
    if t.discovery_requested_known
      && not t.fetch_scope_gap
      && t.discovery_requested == t.scope_discovered + t.scope_gaps
    then some t.discovery_requested
    else none

abbrev pub of_status : ScanTaskStatus → List ScanTask → ℕ
of_status status tasks = count (λ t. t.status == status) tasks

-- The arguments of the manifest that is constructed.
pub assembled : Scan → List ScanTask → Tally → CoverageManifest
unfolding coverage_state requested_scope sort_reasons
assembled scan tasks t = record {
  scan_id = scan.id;
  source_id = scan.source_id;
  scan_status = scan.status;
  coverage_state =
      coverage_state scan.status t.counts.skipped t.counts.failed t.scope_gaps t.unreported;
  source_configuration_version = scan.source_configuration_version;
  rulepack_version = scan.rulepack_version;
  finalized_at = or_else scan.finished_at scan.updated_at;
  counts = t.counts;
  scope = record {
    requested = requested_scope t;
    discovered = t.scope_discovered;
    gaps = t.scope_gaps;
  };
  reasons = sort_reasons t.reasons;
  task_counts = record {
    total = length tasks;
    completed = of_status ScanTaskStatus.completed tasks;
    failed = of_status ScanTaskStatus.failed tasks;
    cancelled = of_status ScanTaskStatus.cancelled tasks;
    reported = t.reported;
    unreported = t.unreported;
  };
  gaps = t.gaps;
  gaps_omitted = t.gaps_omitted;
  scan_mode = scan.mode;
  incremental_baseline = scan.incremental_baseline_at;
  promoted_from = scan.promoted_from;
  promotion_reason = scan.promotion_reason;
}

-- The validators of `CoverageManifest` and of its parts.
unfoldable pub is_manifest_valid : CoverageManifest → Bool
is_manifest_valid m =
    counts_reconcile m.counts
    && scope_reconciles m.scope
    && all is_reason_valid m.reasons
    && all (λ g. is_hex 64 g.reference) m.gaps
    && leb (length m.gaps) max_gap_references

module _ (json : ReportJson) where
  pub tally_tasks : List ScanTask → Tally → Tally
  unfolding account
  tally_tasks [] t = t
  tally_tasks (task ∷ tasks) t = tally_tasks tasks (account task (validated_report json task) t)

  unfoldable pub build_manifest : Scan → List ScanTask → Checked CoverageManifest
  unfolding assembled is_manifest_valid tally_tasks
  build_manifest scan tasks =
      let manifest = assembled scan tasks (tally_tasks tasks no_tally) in
      if is_manifest_valid manifest then passed manifest else validation_error

  -- A frozen manifest that its validators refuse is not read.
  unfoldable pub frozen_or_built_manifest : Scan → List ScanTask → Checked CoverageManifest
  unfolding build_manifest is_manifest_valid
  frozen_or_built_manifest scan tasks = elim scan.coverage_manifest [
    | none ↦ build_manifest scan tasks
    | some m ↦ if is_manifest_valid m then passed m else build_manifest scan tasks
  ]
