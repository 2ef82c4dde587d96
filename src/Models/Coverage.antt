-- ===== src/Models/Coverage.antt =====
-- apps/api/src/iceberg_api/engines/schemas.py and scans/schemas.py: the fields of a task's coverage
-- report and of a scan's manifest, less the version literals.
use iceberg_sst.Prelude.{ℕ, String, Option, List}
use iceberg_sst.Enums.{
  ScanStatus, ScanMode, ScanTaskKind, CoverageReason, CoverageDisposition, CoverageObjectKind,
  CoverageState, CursorInvalidationReason,
}
use iceberg_sst.Models.{Uuid, Datetime}

pub record CoverageCounts : Type 0 where
  pub requested : ℕ
  pub discovered : ℕ
  pub scanned : ℕ
  pub skipped : ℕ
  pub failed : ℕ

pub record CoverageScope : Type 0 where
  pub requested : Option ℕ
  pub discovered : ℕ
  pub gaps : ℕ

pub record CoverageReasonCount : Type 0 where
  pub outcome : CoverageDisposition
  pub reason : CoverageReason
  pub count : ℕ

pub record CoverageGap : Type 0 where
  pub kind : CoverageObjectKind
  pub outcome : CoverageDisposition
  pub reason : CoverageReason
  pub reference : String

pub record TaskCoverageReport : Type 0 where
  pub phase : ScanTaskKind
  pub counts : CoverageCounts
  pub scope : CoverageScope
  pub reasons : List CoverageReasonCount
  pub gaps : List CoverageGap
  pub gaps_omitted : ℕ

pub record CoverageTaskCounts : Type 0 where
  pub total : ℕ
  pub completed : ℕ
  pub failed : ℕ
  pub cancelled : ℕ
  pub reported : ℕ
  pub unreported : ℕ

pub record CoverageManifestGap : Type 0 where
  pub task_id : Uuid
  pub phase : ScanTaskKind
  pub kind : CoverageObjectKind
  pub outcome : CoverageDisposition
  pub reason : CoverageReason
  pub reference : String

pub record CoverageManifest : Type 0 where
  pub scan_id : Uuid
  pub source_id : Uuid
  pub scan_status : ScanStatus
  pub coverage_state : CoverageState
  pub source_configuration_version : Option Datetime
  pub rulepack_version : Option String
  pub finalized_at : Datetime
  pub counts : CoverageCounts
  pub scope : CoverageScope
  pub reasons : List CoverageReasonCount
  pub task_counts : CoverageTaskCounts
  pub gaps : List CoverageManifestGap
  pub gaps_omitted : ℕ
  pub scan_mode : ScanMode
  pub incremental_baseline : Option Datetime
  pub promoted_from : Option ScanMode
  pub promotion_reason : Option CursorInvalidationReason
