-- ===== src/Models/Sources.antt =====
-- packages/core/src/iceberg_core/models/sources.py, models/scans.py: a source, its watermarks, and an
-- engine.
use iceberg_sst.Prelude.{ℕ, String, Option, List}
use iceberg_sst.Enums.{CursorInvalidationReason, EngineStatus}
use iceberg_sst.Models.{Uuid, Datetime}
use iceberg_sst.Models.Json.{Fields}

pub record Source : Type 0 where
  pub id : Uuid
  pub tags : List String
  pub full_scan_interval_days : ℕ
  pub updated_at : Datetime

pub record SourceCursor : Type 0 where
  pub source_id : Uuid
  pub scope : String
  pub position : Fields
  pub rulepack_version : Option String
  pub source_configuration_version : Option Datetime
  pub minted_by_scan_id : Uuid
  pub minted_at : Datetime
  pub invalidated_at : Option Datetime
  pub invalidation_reason : Option CursorInvalidationReason

pub record Engine : Type 0 where
  pub id : Uuid
  pub status : EngineStatus
  pub rulepack : Fields
