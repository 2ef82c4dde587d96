-- ===== src/Notifications/Filters/Agree.antt =====
-- apps/api/src/iceberg_api/notifications/dispatch.py: the two readings of a channel's filter.
use iceberg_sst.Prelude.{
  Bool, true, false, not, ◌&&◌, Option, none, some, ◌≡◌, refl, arith, ◌==◌, any, ltb, if◌then◌else◌,
}
use iceberg_sst.Enums.{
  Severity, low, medium, high, critical, severity_rank, severity_eq, Severity-discrete,
}
use iceberg_sst.Models.{Finding}
use iceberg_sst.Models.Notifications.{NotificationChannel}
use iceberg_sst.Notifications.Filters.{
  is_in, is_empty, channel_wants, severities_at_or_above, wanted_by,
}

at_or_above :
    (s minimum : Severity)
    → any (λ level. level == s) (severities_at_or_above minimum)
      ≡ not (ltb (severity_rank s) (severity_rank minimum))
unfolding severities_at_or_above severity_rank Severity-discrete
at_or_above low low = refl
at_or_above low medium = refl
at_or_above low high = refl
at_or_above low critical = refl
at_or_above medium low = refl
at_or_above medium medium = refl
at_or_above medium high = refl
at_or_above medium critical = refl
at_or_above high low = refl
at_or_above high medium = refl
at_or_above high high = refl
at_or_above high critical = refl
at_or_above critical low = refl
at_or_above critical medium = refl
at_or_above critical high = refl
at_or_above critical critical = refl

-- The predicate that the database applies selects exactly the findings that `channel_wants` selects.
pub wanted_by-channel_wants :
    (channel : NotificationChannel) (f : Finding) → wanted_by channel f ≡ channel_wants channel f
unfolding wanted_by channel_wants
wanted_by-channel_wants channel f = at channel.event_filter.min_severity
  where
    sourced : Bool
    sourced =
        if is_empty channel.event_filter.source_ids
        then true
        else is_in f.source_id channel.event_filter.source_ids

    at :
        (o : Option Severity)
        → (elim o [
          | none ↦ true
          | some minimum ↦ any (λ level. level == f.severity) (severities_at_or_above minimum)
        ]
            && sourced)
          ≡ (if elim o [
            | none ↦ false
            | some minimum ↦ ltb (severity_rank f.severity) (severity_rank minimum)
          ]
              then false
              else not (
                  not (is_empty channel.event_filter.source_ids)
                  && not (is_in f.source_id channel.event_filter.source_ids)))
    at none = ground arith
    at (some minimum) = rw (at_or_above f.severity minimum) (ground arith)
