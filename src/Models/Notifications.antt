-- ===== src/Models/Notifications.antt =====
-- packages/core/src/iceberg_core/models/notifications.py: a channel and the rows of the outbox. The
-- event filter is what `EventFilter.model_validate` reads from its column.
use iceberg_sst.Prelude.{ℕ, String, Bool, Option, List}
use iceberg_sst.Enums.{
  Severity, NotificationDeliveryStatus, NotificationEventKind, NotificationChannelType,
}
use iceberg_sst.Models.{Uuid, Datetime}

pub record EventFilter : Type 0 where
  pub min_severity : Option Severity
  pub source_ids : List Uuid

pub record NotificationChannel : Type 0 where
  pub id : Uuid
  pub type : NotificationChannelType
  pub event_filter : EventFilter
  pub enabled : Bool

pub record NotificationDelivery : Type 0 where
  pub id : Uuid
  pub channel_id : Uuid
  pub finding_id : Uuid
  pub kind : NotificationEventKind
  pub scan_id : Option Uuid
  pub due_at : Option Datetime
  pub status : NotificationDeliveryStatus
  pub attempts : ℕ
  pub next_attempt_at : Datetime
  pub delivered_at : Option Datetime
  pub last_error : Option String
