-- ===== src/Scans/Coverage.antt =====
-- apps/api/src/iceberg_api/scans/coverage.py: what the tasks of a scan read, merged from their batches
-- and frozen as the scan's manifest. Tasks stand in the order of (created_at, id).
pub mod Counter
pub mod Merging
pub mod Stored
use iceberg_sst.Prelude.{
  ℕ, suc, ◌+◌, ◌-◌, Bool, true, false, not, ◌&&◌, ◌||◌, Option, none, some, List, [], ◌∷◌, ◌++◌,
  ◌≡◌, ◌≢◌, ◌==◌, nat_eq, ltb, leb, if◌then◌else◌, length, count, take, map, all, or_else,
}
use iceberg_sst.Enums.{
  ScanStatus, ScanTaskKind, discovery, fetch, ScanTaskStatus, CoverageReason, CoverageDisposition,
  CoverageState, disposition_eq, reason_eq, task_kind_eq, task_status_eq,
}
use iceberg_sst.Models.{Uuid}
use iceberg_sst.Models.Json.{Fields, end, field}
use iceberg_sst.Models.Coverage.{
  CoverageCounts, CoverageScope, CoverageReasonCount, CoverageGap, TaskCoverageReport,
  CoverageTaskCounts, CoverageManifestGap, CoverageManifest,
}
use iceberg_sst.Models.Runs.{Scan, ScanTask}
use iceberg_sst.Engines.Reports.{
  max_gap_references, is_hex, counts_reconcile, scope_reconciles, is_reason_valid, is_key, is_valid,
  is_discovery,
}

-- What raises: pydantic's `ValidationError`, and `ValueError` where batches disagree.
pub data Checked {ℓ} (A : Type ℓ) : Type ℓ where
  passed : A → Checked A
  validation_error phases_disagree : Checked A

-- pydantic's reading of a JSON column by the fields of the model, before the validators, and
-- `model_dump(mode="json")`, which has a member for each field.
pub record ReportJson : Type 0 where
  pub parse : Fields → Option TaskCoverageReport
  pub dump : TaskCoverageReport → Fields
  pub parse-dump : (r : TaskCoverageReport) → parse (dump r) ≡ some r
  pub dump-end : (r : TaskCoverageReport) → dump r ≢ end

-- `reasons[(outcome, reason)] += n`
unfoldable pub bump :
    CoverageDisposition → CoverageReason → ℕ → List CoverageReasonCount → List CoverageReasonCount
bump o s n [] = record { outcome = o; reason = s; count = n } ∷ []
bump o s n (e ∷ es) =
    if is_key o s e.outcome e.reason
    then record e { count = e.count + n } ∷ es
    else e ∷ bump o s n es

unfoldable pub tally_reasons :
    List CoverageReasonCount → List CoverageReasonCount → List CoverageReasonCount
unfolding bump
tally_reasons [] counter = counter
tally_reasons (e ∷ es) counter = tally_reasons es (bump e.outcome e.reason e.count counter)

-- The place of a value among the values in the order of their texts.
outcome_rank : CoverageDisposition → ℕ
outcome_rank CoverageDisposition.failed = 0
outcome_rank CoverageDisposition.scope_gap = 1
outcome_rank CoverageDisposition.skipped = 2

reason_rank : CoverageReason → ℕ
reason_rank CoverageReason.binary_content = 0
reason_rank CoverageReason.cancelled = 1
reason_rank CoverageReason.connector_error = 2
reason_rank CoverageReason.empty_content = 3
reason_rank CoverageReason.invalid_metadata = 4
reason_rank CoverageReason.invalid_response = 5
reason_rank CoverageReason.missing_resource = 6
reason_rank CoverageReason.output_limit = 7
reason_rank CoverageReason.parse_error = 8
reason_rank CoverageReason.permission_denied = 9
reason_rank CoverageReason.rate_limited = 10
reason_rank CoverageReason.size_limit = 11
reason_rank CoverageReason.timeout = 12
reason_rank CoverageReason.unreported = 13
reason_rank CoverageReason.unsupported_type = 14

pub precedes : CoverageReasonCount → CoverageReasonCount → Bool
unfolding outcome_rank reason_rank
precedes a b =
    ltb (outcome_rank a.outcome) (outcome_rank b.outcome)
    || outcome_rank a.outcome == outcome_rank b.outcome
      && ltb (reason_rank a.reason) (reason_rank b.reason)

pub insert_reason : CoverageReasonCount → List CoverageReasonCount → List CoverageReasonCount
unfolding precedes
insert_reason e [] = e ∷ []
insert_reason e (f ∷ es) = if precedes f e then f ∷ insert_reason e es else e ∷ f ∷ es

-- `sorted(reasons.items(), …)`
unfoldable pub sort_reasons : List CoverageReasonCount → List CoverageReasonCount
unfolding insert_reason
sort_reasons [] = []
sort_reasons (e ∷ es) = insert_reason e (sort_reasons es)

abbrev pub add_counts : CoverageCounts → CoverageCounts → CoverageCounts
add_counts a b = record {
  requested = a.requested + b.requested;
  discovered = a.discovered + b.discovered;
  scanned = a.scanned + b.scanned;
  skipped = a.skipped + b.skipped;
  failed = a.failed + b.failed;
}

abbrev pub add_known : Option ℕ → Option ℕ → Option ℕ
add_known (some a) (some b) = some (a + b)
add_known _ _ = none

-- The arguments of the report that `merge_task_report` constructs.
pub accumulate : TaskCoverageReport → TaskCoverageReport → TaskCoverageReport
unfolding tally_reasons sort_reasons
accumulate existing delta =
    let gaps = existing.gaps ++ delta.gaps in
    let retained = take max_gap_references gaps in
    record {
      phase = existing.phase;
      counts = add_counts existing.counts delta.counts;
      scope = record {
        requested = add_known existing.scope.requested delta.scope.requested;
        discovered = existing.scope.discovered + delta.scope.discovered;
        gaps = existing.scope.gaps + delta.scope.gaps;
      };
      reasons = sort_reasons (tally_reasons (existing.reasons ++ delta.reasons) []);
      gaps = retained;
      gaps_omitted = existing.gaps_omitted + delta.gaps_omitted + (length gaps - length retained);
    }

construct : TaskCoverageReport → Checked TaskCoverageReport
unfolding is_valid
construct r = if is_valid r then passed r else validation_error

unfoldable pub merge_task_report :
    Option TaskCoverageReport → TaskCoverageReport → Checked TaskCoverageReport
unfolding accumulate construct
merge_task_report none delta = passed delta
merge_task_report (some existing) delta =
    if existing.phase == delta.phase then construct (accumulate existing delta) else phases_disagree

-- `failure_report`, as the report that its literal is.
unfoldable pub failure_report : ScanTaskKind → CoverageReason → TaskCoverageReport
failure_report phase reason = record {
  phase = phase;
  counts = record { requested = 0; discovered = 0; scanned = 0; skipped = 0; failed = 0 };
  scope = record { requested = none; discovered = 0; gaps = 1 };
  reasons = record { outcome = CoverageDisposition.scope_gap; reason = reason; count = 1 } ∷ [];
  gaps = [];
  gaps_omitted = 1;
}

module _ (json : ReportJson) where
  accepted : ScanTaskKind → Option TaskCoverageReport → Option TaskCoverageReport
  unfolding is_valid
  accepted kind none = none
  accepted kind (some r) = if is_valid r && r.phase == kind then some r else none

  -- `_validated_report`, which `stored_task_report` returns.
  unfoldable pub validated_report : ScanTask → Option TaskCoverageReport
  unfolding accepted
  validated_report task = elim task.coverage [
    | end ↦ none
    | field name value rest ↦ accepted task.kind (json.parse (field name value rest))
  ]

  -- `cancelled_report`, before it is dumped.
  unfoldable pub cancelled_report : ScanTask → Checked TaskCoverageReport
  unfolding validated_report merge_task_report failure_report construct
  cancelled_report task = elim (construct (failure_report task.kind CoverageReason.cancelled)) [
    | passed cancelled ↦ merge_task_report (validated_report task) cancelled
    | validation_error ↦ validation_error
    | phases_disagree ↦ phases_disagree
  ]
