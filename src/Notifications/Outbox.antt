-- ===== src/Notifications/Outbox.antt =====
-- apps/api/src/iceberg_api/notifications/dispatch.py: `enqueue_for_scan`, which records an announcement
-- for each channel and each finding that a scan opened. `uuid4` gives the identifier of the n-th row.
pub mod Opened
pub mod Once
use iceberg_sst.Prelude.{
  ℕ, ◌+◌, Bool, true, false, not, ◌&&◌, ◌||◌, Option, none, some, List, [], ◌∷◌, ◌++◌, ◌==◌, nat_eq,
  option_eq, if◌then◌else◌, is_none, any, filter, length,
}
use iceberg_sst.Enums.{
  FindingState, opened, state_eq, FindingEventKind, reopened, event_kind_eq,
  NotificationDeliveryStatus, pending, NotificationEventKind, finding_opened,
}
use iceberg_sst.Models.{Uuid, Datetime, Finding, FindingEvent}
use iceberg_sst.Models.Notifications.{NotificationChannel, NotificationDelivery}
use iceberg_sst.Notifications.Filters.{channel_wants}

pub is_shown : Finding → Bool
is_shown f = f.state == opened && is_none f.suppressed_at

-- The WHERE of `first_seen`, and of `reopened` with its join.
pub is_first_seen : Uuid → Finding → Bool
unfolding is_shown
is_first_seen scan_id f = f.first_seen_scan_id == scan_id && is_shown f

pub is_reopened : Uuid → List FindingEvent → Finding → Bool
unfolding is_shown
is_reopened scan_id events f =
    f.last_seen_scan_id == scan_id
    && is_shown f
    && any
        (λ e.
          e.finding_id == f.id && e.kind == FindingEventKind.reopened && e.scan_id == some scan_id)
        events

-- The rows of both, each finding once.
unfoldable pub newly_opened_findings : Uuid → List FindingEvent → List Finding → List Finding
unfolding is_first_seen is_reopened
newly_opened_findings scan_id events findings =
    filter (is_first_seen scan_id) findings
    ++ filter (λ f. is_reopened scan_id events f && not (is_first_seen scan_id f)) findings

abbrev pub is_about : Uuid → Uuid → Uuid → NotificationDelivery → Bool
is_about scan_id finding_id channel_id d =
    d.channel_id == channel_id && d.finding_id == finding_id && d.scan_id == some scan_id

abbrev pub announcement :
    Uuid → Uuid → Datetime → Finding → NotificationChannel → NotificationDelivery
announcement id scan_id at f channel = record {
  id = id;
  channel_id = channel.id;
  finding_id = f.id;
  kind = finding_opened;
  scan_id = some scan_id;
  due_at = none;
  status = NotificationDeliveryStatus.pending;
  attempts = 0;
  next_attempt_at = at;
  delivered_at = none;
  last_error = none;
}

module _ (uuid4 : ℕ → Uuid) (scan_id : Uuid) (at : Datetime) where
  unfoldable pub enqueue_pair :
      Finding → NotificationChannel → List NotificationDelivery → List NotificationDelivery
  unfolding channel_wants
  enqueue_pair f channel deliveries =
      if not (channel_wants channel f) || any (is_about scan_id f.id channel.id) deliveries
      then deliveries
      else deliveries ++ announcement (uuid4 (length deliveries)) scan_id at f channel ∷ []

  -- The two loops.
  pub enqueue_channels :
      Finding → List NotificationChannel → List NotificationDelivery → List NotificationDelivery
  unfolding enqueue_pair
  enqueue_channels f [] deliveries = deliveries
  enqueue_channels f (channel ∷ channels) deliveries =
      enqueue_channels f channels (enqueue_pair f channel deliveries)

  pub enqueue_each :
      List Finding
      → List NotificationChannel
      → List NotificationDelivery
      → List NotificationDelivery
  unfolding enqueue_channels
  enqueue_each [] channels deliveries = deliveries
  enqueue_each (f ∷ fs) channels deliveries =
      enqueue_each fs channels (enqueue_channels f channels deliveries)

  -- The number of rows written, which is returned, is by how many there are more.
  unfoldable pub enqueue_for_scan :
      List FindingEvent
      → List Finding
      → List NotificationChannel
      → List NotificationDelivery
      → List NotificationDelivery
  unfolding newly_opened_findings enqueue_each
  enqueue_for_scan events findings channels deliveries =
      enqueue_each (newly_opened_findings scan_id events findings)
        (filter (λ c. c.enabled) channels) deliveries
