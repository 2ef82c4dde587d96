-- ===== src/Notifications/Delivery/Attempt.antt =====
-- apps/api/src/iceberg_api/notifications/dispatch.py: what one `_attempt` leaves, however it ends.
use Prim.Native.Nat.{◌^◌}
use iceberg_sst.Prelude.{
  ℕ, ◌+◌, ◌-◌, ◌*◌, ◌≤◌, ◌<◌, Bool, false, not, ◌||◌, Option, none, some, ◌≡◌, refl, inl, inr,
  arith, String, ◌==◌, nat_eq, leb, find?, Bool-cases, ◌∙◌, ap,
}
use iceberg_sst.Enums.{NotificationDeliveryStatus, NotificationChannelType}
use iceberg_sst.Models.{Datetime, seconds, Finding}
use iceberg_sst.Models.Sources.{Source}
use iceberg_sst.Models.Notifications.{NotificationChannel, NotificationDelivery}
use iceberg_sst.Notifications.Delivery.{
  Sent, accepted, refused, crashed, Settings, Stored, Transport, fail, retry_or_fail, after_send,
  is_announceable, through_transport, through_guards, source_of, attempt,
}

-- A row that is to be tried again has a try left.
abbrev pub HasTries : Settings → NotificationDelivery → Type 0
HasTries settings d =
    (d.attempts ≤ settings.notification_max_attempts)
    × (d.status ≡ NotificationDeliveryStatus.pending
        → d.attempts < settings.notification_max_attempts)

-- What an attempt that was counted leaves: an end, or a later time and a try left.
record IsSettled (settings : Settings) (at : Datetime) (d e : NotificationDelivery) : Type 0 where
  same : e.id ≡ d.id
  counted : e.attempts ≡ d.attempts
  tries :
      e.status ≡ NotificationDeliveryStatus.pending
      → d.attempts < settings.notification_max_attempts
  later :
      e.status ≡ NotificationDeliveryStatus.pending
      → e.next_attempt_at
        ≡ at + seconds (settings.notification_retry_backoff_seconds * 2 ^ (d.attempts - 1))

fail-IsSettled :
    (settings : Settings) (at : Datetime) (d : NotificationDelivery) (reason : String)
    → IsSettled settings at d (fail d reason at)
fail-IsSettled settings at d reason = record {
  same = refl;
  counted = refl;
  tries = λ e. cc;
  later = λ e. cc;
}

retry_or_fail-IsSettled :
    (settings : Settings) (at : Datetime) (permanent : Bool) (reason : String)
    (d : NotificationDelivery)
    → IsSettled settings at d (retry_or_fail settings permanent reason at d)
unfolding retry_or_fail
retry_or_fail-IsSettled settings at permanent reason d =
    elim (Bool-cases (permanent || leb settings.notification_max_attempts d.attempts)) [
      | inl ended ↦ rw ended (fail-IsSettled settings at d reason)
      | inr again ↦ rw again (record {
        same = refl;
        counted = refl;
        tries = λ e. ground (arith, again);
        later = λ e. refl;
      })
    ]

after_send-IsSettled :
    (settings : Settings) (at : Datetime) (d : NotificationDelivery) (s : Sent)
    → IsSettled settings at d (after_send settings at d s)
unfolding after_send
after_send-IsSettled settings at d accepted = record {
  same = refl;
  counted = refl;
  tries = λ e. cc;
  later = λ e. cc;
}
after_send-IsSettled settings at d (refused permanent reason) =
    retry_or_fail-IsSettled settings at permanent reason d
after_send-IsSettled settings at d (crashed class_name) =
    retry_or_fail-IsSettled settings at false _ d

module _ (settings : Settings) (stored : Stored)
    (transports : NotificationChannelType → Option Transport) where
  through_transport-IsSettled :
      (at : Datetime) (d : NotificationDelivery) (c : NotificationChannel) (f : Finding)
      → IsSettled settings at d (through_transport settings stored transports at d c f)
  unfolding through_transport
  through_transport-IsSettled at d c f = by_transport _ (transports c.type)
    where
      by_transport :
          (reason : String) (o : Option Transport)
          → IsSettled settings at d (elim o [
            | none ↦ fail d reason at
            | some send ↦ after_send settings at d (send d c f)
          ])
      by_transport reason none = fail-IsSettled settings at d reason
      by_transport reason (some send) = after_send-IsSettled settings at d (send d c f)

  through_guards-IsSettled :
      (at : Datetime) (d : NotificationDelivery) (c : Option NotificationChannel)
      (f : Option Finding) (s : Option Source)
      → IsSettled settings at d (through_guards settings stored transports at d c f s)
  unfolding through_guards
  through_guards-IsSettled at d (some c) (some f) (some s) =
      elim (Bool-cases (not (is_announceable settings stored transports d))) [
        | inl gone ↦ rw gone (fail-IsSettled settings at d _)
        | inr there ↦ rw there (elim (Bool-cases (not c.enabled)) [
          | inl disabled ↦ rw disabled (fail-IsSettled settings at d _)
          | inr enabled ↦ rw enabled (through_transport-IsSettled at d c f)
        ])
      ]
  through_guards-IsSettled at d (some c) (some f) none = fail-IsSettled settings at d _
  through_guards-IsSettled at d (some c) none s = fail-IsSettled settings at d _
  through_guards-IsSettled at d none f s = fail-IsSettled settings at d _

  -- However an attempt ends, it is counted, and the row is the same one. A row that is left pending has
  -- a try left, and waits for the backoff, doubled for each attempt before this one.
  pub attempt_settles :
      (at : Datetime) (d : NotificationDelivery)
      → ((attempt settings stored transports at d).id ≡ d.id)
        × ((attempt settings stored transports at d).attempts ≡ d.attempts + 1)
        × ((attempt settings stored transports at d).status ≡ NotificationDeliveryStatus.pending
            → (d.attempts + 1 < settings.notification_max_attempts)
              × ((attempt settings stored transports at d).next_attempt_at
                  ≡ at + seconds (settings.notification_retry_backoff_seconds * 2 ^ d.attempts)))
  unfolding attempt
  attempt_settles at d =
      let f = find? (λ (g : Finding). g.id == d.finding_id) stored.findings in
      let h =
        through_guards-IsSettled at (record d { attempts = d.attempts + 1 })
          (find? (λ (c : NotificationChannel). c.id == d.channel_id) stored.channels) f
          (source_of f stored.sources) in
      (
        h.same,
        h.counted,
        λ e. (
          h.tries e,
          h.later e
              ∙ ap (λ n. at + seconds (settings.notification_retry_backoff_seconds * 2 ^ n))
                  (less_one d.attempts),
        ),
      )
    where
      less_one : (n : ℕ) → (n + 1) - 1 ≡ n
      less_one n = omega arith
