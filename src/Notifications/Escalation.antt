-- ===== src/Notifications/Escalation.antt =====
-- apps/api/src/iceberg_api/notifications/dispatch.py: `escalate_overdue`, which announces the findings
-- that have passed their response target. Findings of one deadline stand in the order of the table.
pub mod Targets
pub mod Drains
use iceberg_sst.Prelude.{
  ℕ, ◌+◌, Bool, true, false, not, ◌&&◌, ◌||◌, Option, none, some, List, [], ◌∷◌, ◌++◌, ◌==◌, nat_eq,
  option_eq, if◌then◌else◌, is_none, is_some, any, filter, map, length, take, find?, ltb, leb,
  or_else,
}
use iceberg_sst.Enums.{
  NotificationDeliveryStatus, pending, NotificationEventKind, finding_overdue, notification_kind_eq,
}
use iceberg_sst.Models.{Uuid, Datetime, Finding}
use iceberg_sst.Models.Notifications.{NotificationChannel, NotificationDelivery}
use iceberg_sst.Findings.Ownership.{OwnerGroup, actionable}
use iceberg_sst.Notifications.Filters.{channel_wants, wanted_by, is_in, is_empty}

-- `column IN (...)`, which NULL is not.
abbrev pub is_among : Option Uuid → List Uuid → Bool
is_among none ids = false
is_among (some id) ids = is_in id ids

abbrev pub is_targeted : List NotificationChannel → OwnerGroup → Bool
is_targeted channels g =
    not g.disabled && is_among g.notification_channel_id (map (λ c. c.id) channels)

unfoldable pub has_escalation_target : List NotificationChannel → List OwnerGroup → Finding → Bool
unfolding wanted_by
has_escalation_target channels groups f =
    is_among f.owner_group_id (map (λ g. g.id) (filter (is_targeted channels) groups))
    || (is_none f.owner_group_id
        || is_among f.owner_group_id (map (λ g. g.id) (filter (λ g. g.disabled) groups)))
      && any (λ c. wanted_by c f) channels

abbrev pub channel_of : Option Uuid → List NotificationChannel → List NotificationChannel
channel_of none channels = []
channel_of (some id) channels = elim (find? (λ c. c.id == id) channels) [
  | none ↦ []
  | some c ↦ c ∷ []
]

unfoldable pub escalation_targets :
    Finding → Option OwnerGroup → List NotificationChannel → List NotificationChannel
unfolding channel_wants
escalation_targets f none channels = filter (λ c. channel_wants c f) channels
escalation_targets f (some g) channels =
    if not g.disabled
    then channel_of g.notification_channel_id channels
    else filter (λ c. channel_wants c f) channels

abbrev pub group_of : Option Uuid → List OwnerGroup → Option OwnerGroup
group_of none groups = none
group_of (some id) groups = find? (λ g. g.id == id) groups

abbrev pub is_escalation : Finding → NotificationDelivery → Bool
is_escalation f d = d.kind == finding_overdue && d.finding_id == f.id && d.due_at == f.due_at

abbrev is_late : Datetime → Finding → Bool
is_late at f = elim f.due_at [ none ↦ false | some due ↦ ltb due at ]

-- The WHERE of the query.
unfoldable pub is_overdue :
    Datetime
    → List NotificationChannel
    → List OwnerGroup
    → List NotificationDelivery
    → Finding
    → Bool
unfolding actionable has_escalation_target
is_overdue at channels groups deliveries f =
    actionable f
    && is_late at f
    && not (any (is_escalation f) deliveries)
    && has_escalation_target channels groups f

abbrev is_before : Finding → Finding → Bool
is_before f g = leb (or_else f.due_at 0) (or_else g.due_at 0)

pub insert_by_due : Finding → List Finding → List Finding
insert_by_due f [] = f ∷ []
insert_by_due f (g ∷ gs) = if is_before f g then f ∷ g ∷ gs else g ∷ insert_by_due f gs

-- `ORDER BY due_at`
unfoldable pub order_by_due : List Finding → List Finding
unfolding insert_by_due
order_by_due [] = []
order_by_due (f ∷ fs) = insert_by_due f (order_by_due fs)

abbrev pub escalation : Uuid → Datetime → Finding → NotificationChannel → NotificationDelivery
escalation id at f channel = record {
  id = id;
  channel_id = channel.id;
  finding_id = f.id;
  kind = finding_overdue;
  scan_id = none;
  due_at = f.due_at;
  status = NotificationDeliveryStatus.pending;
  attempts = 0;
  next_attempt_at = at;
  delivered_at = none;
  last_error = none;
}

module _ (uuid4 : ℕ → Uuid) (at : Datetime) where
  pub escalate_to :
      Finding → List NotificationChannel → List NotificationDelivery → List NotificationDelivery
  escalate_to f [] deliveries = deliveries
  escalate_to f (c ∷ cs) deliveries =
      escalate_to f cs (deliveries ++ escalation (uuid4 (length deliveries)) at f c ∷ [])

  pub escalate_each :
      List NotificationChannel
      → List OwnerGroup
      → List Finding
      → List NotificationDelivery
      → List NotificationDelivery
  unfolding escalate_to escalation_targets
  escalate_each channels groups [] deliveries = deliveries
  escalate_each channels groups (f ∷ fs) deliveries =
      escalate_each channels groups fs (
        escalate_to f (escalation_targets f (group_of f.owner_group_id groups) channels) deliveries)

  -- The channels that are enabled are given.
  pub escalate_among :
      (limit : ℕ)
      → List NotificationChannel
      → List OwnerGroup
      → List Finding
      → List NotificationDelivery
      → List NotificationDelivery
  unfolding escalate_each is_overdue order_by_due
  escalate_among limit channels groups findings deliveries =
      escalate_each channels groups
        (take limit (order_by_due (filter (is_overdue at channels groups deliveries) findings)))
        deliveries

  -- The number of rows written, which is returned, is by how many there are more.
  unfoldable pub escalate_overdue :
      (limit : ℕ)
      → List NotificationChannel
      → List OwnerGroup
      → List Finding
      → List NotificationDelivery
      → List NotificationDelivery
  unfolding escalate_among
  escalate_overdue limit channels groups findings deliveries =
      let enabled = filter (λ (c : NotificationChannel). c.enabled) channels in
      if is_empty enabled
      then deliveries
      else escalate_among limit enabled groups findings deliveries
