-- ===== src/Models/Runs.antt =====
-- packages/core/src/iceberg_core/models/scans.py: a scan run and its tasks. A JSON column that no
-- modelled operation looks into is the fields of its object; a frozen manifest
-- is the manifest that was dumped.
use iceberg_sst.Prelude.{ℕ, String, Option}
use iceberg_sst.Prelude.Dicts.{Dict}
use iceberg_sst.Enums.{ScanStatus, ScanMode, CursorInvalidationReason, ScanTaskKind, ScanTaskStatus}
use iceberg_sst.Models.{Uuid, Datetime}
use iceberg_sst.Models.Json.{Fields}
use iceberg_sst.Models.Coverage.{CoverageManifest}

pub record Scan : Type 0 where
  pub id : Uuid
  pub source_id : Uuid
  pub status : ScanStatus
  pub mode : ScanMode
  pub counts : Dict String ℕ
  pub finished_at : Option Datetime
  pub error : Option String
  pub promoted_from : Option ScanMode
  pub promotion_reason : Option CursorInvalidationReason
  pub incremental_baseline_at : Option Datetime
  pub rulepack_version : Option String
  pub source_configuration_version : Option Datetime
  pub coverage_manifest : Option CoverageManifest
  pub started_at : Option Datetime
  pub updated_at : Datetime

pub record ScanTask : Type 0 where
  pub id : Uuid
  pub scan_id : Uuid
  pub kind : ScanTaskKind
  pub spec : Fields
  pub status : ScanTaskStatus
  pub engine_id : Option Uuid
  pub lease_expires_at : Option Datetime
  pub heartbeat_at : Option Datetime
  pub attempts : ℕ
  pub result_key : Option String
  pub coverage : Fields
  pub checkpoint : Fields
  pub checkpoint_sequence : ℕ
  pub checkpoint_context : Fields
  pub started_at : Option Datetime
  pub finished_at : Option Datetime
  pub error : Option String
  pub cursor_proposal : Fields
  pub updated_at : Datetime
