-- ===== src/Examples/Notifications.antt =====
-- The outbox at concrete inputs.
use iceberg_sst.Prelude.{
  ℕ, ◌+◌, ◌≤◌, true, false, not, Option, some, List, [], ◌∷◌, ◌++◌, ◌≡◌, refl, subst,
  count-le-length, arith, All, any, count, ◌==◌, nat_eq,
}
use iceberg_sst.Enums.{NotificationChannelType}
use iceberg_sst.Models.{Uuid, Finding}
use iceberg_sst.Models.Notifications.{NotificationChannel, NotificationDelivery}
use iceberg_sst.Notifications.Filters.{is_empty}
use iceberg_sst.Notifications.Outbox.{is_about, enqueue_for_scan}
use iceberg_sst.Notifications.Outbox.Once.{IsOwed, IsDue, enqueue_for_scan_once}
use iceberg_sst.Notifications.Escalation.{
  is_overdue, has_escalation_target, escalation_targets, group_of,
}
use iceberg_sst.Notifications.Escalation.Targets.{
  IsStored, has_escalation_target-escalation_targets,
}
use iceberg_sst.Notifications.Escalation.Drains.{waiting, beats, beats_drain}
use iceberg_sst.Notifications.Delivery.{Settings, Stored, Transport, refused}
use iceberg_sst.Notifications.Delivery.Attempt.{HasTries}
use iceberg_sst.Notifications.Delivery.Bounded.{
  budget, Distinct, attempts_made, rounds, rounds_bounded,
}
use iceberg_sst.Examples.Samples.{leaked_key, hidden_key, groups, channel, delivery, scan, sources}

abbrev uuid4 : ℕ → Uuid
uuid4 n = 2000 + n

abbrev known : List Finding
known = leaked_key ∷ hidden_key ∷ []

enqueue_for_scan_once_example :
    ((new : List NotificationDelivery) × (enqueue_for_scan uuid4 10 90 [] known
          (channel ∷ [])
          (delivery ∷ [])
        ≡ (delivery ∷ []) ++ new)
      × All (IsDue 10 [] known (channel ∷ [])) new)
    × ((f : Finding) (c : NotificationChannel)
        → IsOwed 10 [] known (channel ∷ []) f c
        → any
            (is_about 10 f.id c.id)
            (enqueue_for_scan uuid4 10 90 [] known (channel ∷ []) (delivery ∷ []))
          ≡ true)
    × (((s f c : Uuid) → count (is_about s f c) (delivery ∷ []) ≤ 1)
        → (s f c : Uuid)
        → count
            (is_about s f c)
            (enqueue_for_scan uuid4 10 90 [] known (channel ∷ []) (delivery ∷ []))
          ≤ 1)
    × (enqueue_for_scan uuid4 10 90 [] known
          (channel ∷ [])
          (enqueue_for_scan uuid4 10 90 [] known (channel ∷ []) (delivery ∷ []))
        ≡ enqueue_for_scan uuid4 10 90 [] known (channel ∷ []) (delivery ∷ []))
enqueue_for_scan_once_example =
    enqueue_for_scan_once uuid4 10 90 [] known (channel ∷ []) (delivery ∷ [])

abbrev late : Finding
late = record leaked_key { owner_group_id = some 41; due_at = some 50 }

late-IsStored : IsStored late.owner_group_id groups
late-IsStored id e =
    let same : 41 ≡ id = cc in subst (λ x. count (λ g. g.id == x) groups ≡ 1) same refl

has_escalation_target-escalation_targets_example :
    has_escalation_target (channel ∷ []) groups late
    ≡ not (is_empty (escalation_targets late (group_of (some 41) groups) (channel ∷ [])))
has_escalation_target-escalation_targets_example =
    has_escalation_target-escalation_targets (channel ∷ []) groups late late-IsStored

some_left : waiting uuid4 90 1 (channel ∷ []) groups (late ∷ []) [] ≤ 1
some_left = count-le-length (is_overdue 90 (channel ∷ []) groups []) (late ∷ [])

beats_drain_example :
    waiting uuid4 90 1
      (channel ∷ [])
      groups
      (late ∷ [])
      (beats uuid4 90 1 (channel ∷ []) groups (late ∷ []) 1 [])
    ≡ 0
beats_drain_example =
    beats_drain uuid4 90 1 (channel ∷ []) groups (late ∷ []) 1 [] (omega arith) (late-IsStored, tt)
      some_left

abbrev settings : Settings
settings = record {
  notification_max_attempts = 5;
  notification_retry_backoff_seconds = 60;
  notification_batch_size = 50;
}

abbrev stored : Stored
stored = record {
  channels = channel ∷ [];
  findings = leaked_key ∷ [];
  scans = scan ∷ [];
  sources = sources;
}

-- A receiver that is down.
abbrev transports : NotificationChannelType → Option Transport
transports t = some (λ d c f. refused false "503")

one_row : Distinct (delivery ∷ [])
one_row id = ground arith

has_tries : All (HasTries settings) (delivery ∷ [])
has_tries = ((omega arith, λ e. omega arith), tt)

rounds_bounded_example :
    (attempts_made settings stored transports (90 ∷ 900000000 ∷ []) (delivery ∷ [])
        + budget settings (rounds settings stored transports (90 ∷ 900000000 ∷ []) (delivery ∷ []))
      ≤ budget settings (delivery ∷ []))
    × All
        (HasTries settings)
        (rounds settings stored transports (90 ∷ 900000000 ∷ []) (delivery ∷ []))
    × Distinct (rounds settings stored transports (90 ∷ 900000000 ∷ []) (delivery ∷ []))
rounds_bounded_example =
    rounds_bounded settings stored transports (90 ∷ 900000000 ∷ []) (delivery ∷ []) one_row
      has_tries
