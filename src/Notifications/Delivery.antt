-- ===== src/Notifications/Delivery.antt =====
-- apps/api/src/iceberg_api/notifications/dispatch.py: `deliver_pending`, which attempts the rows of the
-- outbox that are due. What the formatter and the transport do with an attempt is a parameter. Rows of
-- one time stand in the order of the table.
pub mod Attempt
pub mod Bounded
use Prim.Native.Nat.{◌^◌}
use Prim.Native.String.{◌++◌ as append}
use iceberg_sst.Prelude.{
  ℕ, ◌+◌, ◌-◌, ◌*◌, Bool, true, false, not, ◌&&◌, ◌||◌, Option, none, some, List, [], ◌∷◌, ◌++◌,
  String, ◌==◌, nat_eq, if◌then◌else◌, is_none, find?, filter, take, leb,
}
use iceberg_sst.Prelude.Rows.{update_where}
use iceberg_sst.Enums.{
  NotificationDeliveryStatus, pending, delivered, failed, delivery_status_eq, NotificationEventKind,
  finding_overdue, notification_kind_eq, NotificationChannelType, email, webhook,
}
use iceberg_sst.Models.{Uuid, Datetime, seconds, Finding}
use iceberg_sst.Models.Runs.{Scan}
use iceberg_sst.Models.Sources.{Source}
use iceberg_sst.Models.Notifications.{NotificationChannel, NotificationDelivery}

-- How sending ends: `DeliveryError` with its text, or another exception with the name of its class.
pub data Sent : Type 0 where
  accepted : Sent
  refused : (permanent : Bool) (reason : String) → Sent
  crashed : (class_name : String) → Sent

pub record Settings : Type 0 where
  pub notification_max_attempts : ℕ
  pub notification_retry_backoff_seconds : ℕ
  pub notification_batch_size : ℕ

-- The rows that `db.get` reads.
pub record Stored : Type 0 where
  pub channels : List NotificationChannel
  pub findings : List Finding
  pub scans : List Scan
  pub sources : List Source

abbrev pub Transport : Type 0
Transport = NotificationDelivery → NotificationChannel → Finding → Sent

abbrev fail : NotificationDelivery → String → Datetime → NotificationDelivery
fail d reason at = record d {
  status = NotificationDeliveryStatus.failed;
  last_error = some reason;
  next_attempt_at = at;
}

-- `_retry_or_fail`
unfoldable pub retry_or_fail :
    Settings
    → (permanent : Bool) → (reason : String) → Datetime
    → NotificationDelivery
    → NotificationDelivery
retry_or_fail settings permanent reason at d =
    if permanent || leb settings.notification_max_attempts d.attempts
    then fail d reason at
    else record d {
      next_attempt_at =
          at + seconds (settings.notification_retry_backoff_seconds * 2 ^ (d.attempts - 1));
      last_error = some reason;
    }

type_text : NotificationChannelType → String
type_text email = "email"
type_text webhook = "webhook"

after_send : Settings → Datetime → NotificationDelivery → Sent → NotificationDelivery
unfolding retry_or_fail
after_send settings at d accepted = record d {
  status = NotificationDeliveryStatus.delivered;
  delivered_at = some at;
  last_error = none;
}
after_send settings at d (refused permanent reason) = retry_or_fail settings permanent reason at d
after_send settings at d (crashed class_name) =
    retry_or_fail settings false (append "delivery error: " class_name) at d

abbrev pub has_scan : Option Uuid → List Scan → Bool
has_scan none scans = false
has_scan (some id) scans = not (is_none (find? (λ s. s.id == id) scans))

abbrev source_of : Option Finding → List Source → Option Source
source_of none sources = none
source_of (some f) sources = find? (λ s. s.id == f.source_id) sources

abbrev pub is_due : Datetime → NotificationDelivery → Bool
is_due at d = d.status == NotificationDeliveryStatus.pending && leb d.next_attempt_at at

pub insert_by_time : NotificationDelivery → List NotificationDelivery → List NotificationDelivery
insert_by_time d [] = d ∷ []
insert_by_time d (e ∷ es) =
    if leb d.next_attempt_at e.next_attempt_at then d ∷ e ∷ es else e ∷ insert_by_time d es

-- `ORDER BY next_attempt_at`
pub order_by_time : List NotificationDelivery → List NotificationDelivery
unfolding insert_by_time
order_by_time [] = []
order_by_time (d ∷ ds) = insert_by_time d (order_by_time ds)

module _ (settings : Settings) (stored : Stored)
    (transports : NotificationChannelType → Option Transport) where
  abbrev is_announceable : NotificationDelivery → Bool
  is_announceable d = has_scan d.scan_id stored.scans || d.kind == finding_overdue

  -- The row with its attempt counted, through the guards of `_attempt` in their order.
  through_transport :
      Datetime → NotificationDelivery → NotificationChannel → Finding → NotificationDelivery
  unfolding after_send type_text
  through_transport at d channel f = elim (transports channel.type) [
    | none ↦ fail d (append "no transport for channel type " (type_text channel.type)) at
    | some send ↦ after_send settings at d (send d channel f)
  ]

  through_guards :
      Datetime
      → NotificationDelivery
      → Option NotificationChannel
      → Option Finding
      → Option Source
      → NotificationDelivery
  unfolding through_transport
  through_guards at d (some channel) (some f) (some source) =
      if not (is_announceable d)
      then fail d "referenced row no longer exists" at
      else if not channel.enabled
      then fail d "channel disabled before delivery" at
      else through_transport at d channel f
  through_guards at d _ _ _ = fail d "referenced row no longer exists" at

  -- `_attempt`, as what it does to its row; the status returned is the row's.
  unfoldable pub attempt : Datetime → NotificationDelivery → NotificationDelivery
  unfolding through_guards
  attempt at d =
      let finding = find? (λ (f : Finding). f.id == d.finding_id) stored.findings in
      through_guards at (record d { attempts = d.attempts + 1 })
        (find? (λ c. c.id == d.channel_id) stored.channels) finding
        (source_of finding stored.sources)

  pub due_rows : Datetime → List NotificationDelivery → List NotificationDelivery
  unfolding order_by_time
  due_rows at rows = take settings.notification_batch_size (order_by_time (filter (is_due at) rows))

  -- The loop over the due rows, each of which is written before the next is attempted.
  pub deliver_each :
      Datetime → List NotificationDelivery → List NotificationDelivery → List NotificationDelivery
  unfolding attempt
  deliver_each at [] rows = rows
  deliver_each at (d ∷ due) rows =
      deliver_each at due (update_where (λ r. r.id == d.id) (λ r. attempt at d) rows)

  unfoldable pub deliver_pending : Datetime → List NotificationDelivery → List NotificationDelivery
  unfolding deliver_each due_rows
  deliver_pending at rows = deliver_each at (due_rows at rows) rows
